-- ===== src/Accounting/Books/Chain.antt =====
-- The chain of approvals of a document: `Approve` of api/internal/postgres/accounting.go among the
-- other commands.
use plaiflowapp.Base.{
  ◌+◌, ◌≤◌, Bool, true, false, ◌&&◌, ◌≡◌, refl, sym, ap, subst, ◌∙◌, List, ◌∷◌, String, str_eq,
  if◌then◌else◌, arith, eq_iff, Bool-cases, inl, inr,
}
use plaiflowapp.Sql.{commit, query_row, rows_affected, is_committed, is_committed-eq}
use plaiflowapp.Sql.Runs
use plaiflowapp.Sql.Runs.{run_keeps}
use plaiflowapp.Sql.Counting.{rows_affected-any, rows_affected_mono}
use plaiflowapp.Accounting.Books.{Approved, Store, Strings}
use plaiflowapp.Accounting.Books.Approving.{
  ApproveInput, approve, is_current, revision_of, supersede, collides,
}
use plaiflowapp.Accounting.Books.Ops.{
  Op, creating_category, archiving, renaming, creating_rule, retiring_rule, approving, elsewhere,
  exec,
}
use plaiflowapp.Accounting.Books.Fresh.{ApprovedAs, Written, exec-Written, approve-version}
use plaiflowapp.Accounting.Books.Superseding.{
  has_id, UniqueIds, revision, supersede-UniqueIds, foreign, supersede_elsewhere,
}

-- A stored approval keeps ids unique, and raises the revision of its document by one.
approved-UniqueIds :
    (i : ApproveInput) (rows rows' : List Approved)
    → ApprovedAs i rows rows'
    → UniqueIds rows
    → UniqueIds rows'
unfolding ApprovedAs rows_affected
approved-UniqueIds i rows rows' (expected, free, a, named, current, next, e) u =
    let prior = query_row (is_current i.organization_id i.document_id) rows in
    let older = supersede prior i.approved_at rows in
    subst UniqueIds e λ id. elim (Bool-cases (str_eq a.id id)) [
      | inr other ↦
          let k = supersede-UniqueIds prior i.approved_at rows u id in rw other (omega (arith, k))
      | inl same ↦
          let id_is : i.id ≡ id = sym named ∙ (eq_iff a.id id).0 same in
          let fewer =
            rows_affected_mono (has_id i.id) (collides i (revision_of prior + 1)) older
              (λ r t. ground arith) in
          let nothing = rows_affected-any (collides i (revision_of prior + 1)) older free in
          let zero_left =
            subst (λ k. rows_affected (has_id k) older ≡ 0) id_is (omega (arith, fewer, nothing)) in
          rw same (omega (arith, zero_left))
    ]

exec-UniqueIds :
    (st : Strings) (enabled : Bool) (op : Op) (s s' : Store)
    → exec st enabled op s ≡ commit s'
    → UniqueIds s.approvals
    → UniqueIds s'.approvals
unfolding Written
exec-UniqueIds st enabled op s s' h u = keeps op (exec-Written st enabled op s s' h)
  where
    keeps : (op : Op) → Written op s s' → UniqueIds s'.approvals
    keeps (approving i) (rules, sets, stored) =
        approved-UniqueIds i s.approvals s'.approvals stored u
    keeps (archiving user o id archived now) (rules, sets, e) = subst UniqueIds e u
    keeps (renaming user o id name now) (rules, sets, e) = subst UniqueIds e u
    keeps (creating_rule i) (rules, sets, e) = subst UniqueIds e u
    keeps (retiring_rule user o id now) (there, rules, sets, e) = subst UniqueIds e u
    keeps (creating_category user o id name now) (rules, sets, e) = subst UniqueIds e u
    keeps (elsewhere review vendors) (rules, sets, e) = subst UniqueIds e u

approved-revision :
    (i : ApproveInput) (rows rows' : List Approved) (x y : String)
    → ApprovedAs i rows rows'
    → UniqueIds rows
    → revision x y rows'
      ≡ (if str_eq i.organization_id x && str_eq i.document_id y then 1 else 0) + revision x y rows
unfolding ApprovedAs query_row
approved-revision i rows rows' x y (expected, free, a, named, current, next, e) u =
    let o = i.organization_id in
    let d = i.document_id in
    let older = supersede (query_row (is_current o d) rows) i.approved_at rows in
    let at_a : revision x y rows' ≡ revision x y (a ∷ older) = ap (revision x y) (sym e) in
    elim (Bool-cases (str_eq o x && str_eq d y)) [
      | inl same ↦
          let same_o : str_eq o x ≡ true = ground arith in
          let same_d : str_eq d y ≡ true = ground arith in
          let ox : o ≡ x = (eq_iff o x).0 same_o in
          let dy : d ≡ y = (eq_iff d y).0 same_d in
          let here : is_current x y a ≡ true =
            subst (λ z. is_current x z a ≡ true) dy
              (subst (λ z. is_current z d a ≡ true) ox current) in
          let before : revision o d rows ≡ revision x y rows =
            ap (λ z. revision z d rows) ox ∙ ap (λ z. revision x z rows) dy in
          let first : revision x y (a ∷ older) ≡ a.revision = rw here refl in
          rw same (omega (arith, at_a, first, next, before))
      | inr other ↦
          let off : is_current x y a ≡ false = foreign o d x y a current other in
          let rest : revision x y (a ∷ older) ≡ revision x y older = rw off refl in
          let kept = supersede_elsewhere o d x y i.approved_at rows u other in
          rw other (omega (arith, at_a, rest, kept))
    ]

-- The revision of a document's approval never goes back.
exec-revision :
    (st : Strings) (enabled : Bool) (x y : String) (op : Op) (s s' : Store)
    → exec st enabled op s ≡ commit s'
    → UniqueIds s.approvals
    → revision x y s.approvals ≤ revision x y s'.approvals
unfolding Written
exec-revision st enabled x y op s s' h u = grows op (exec-Written st enabled op s s' h)
  where
    same : s.approvals ≡ s'.approvals → revision x y s.approvals ≤ revision x y s'.approvals
    same e = subst (λ z. revision x y s.approvals ≤ revision x y z) e (omega arith)

    grows : (op : Op) → Written op s s' → revision x y s.approvals ≤ revision x y s'.approvals
    grows (approving i) (rules, sets, stored) =
        let e = approved-revision i s.approvals s'.approvals x y stored u in omega (arith, e)
    grows (archiving user o id archived now) (rules, sets, e) = same e
    grows (renaming user o id name now) (rules, sets, e) = same e
    grows (creating_rule i) (rules, sets, e) = same e
    grows (retiring_rule user o id now) (there, rules, sets, e) = same e
    grows (creating_category user o id name now) (rules, sets, e) = same e
    grows (elsewhere review vendors) (rules, sets, e) = same e

seen :
    (i : ApproveInput) (rows rows' : List Approved)
    → ApprovedAs i rows rows'
    → revision i.organization_id i.document_id rows ≡ i.expected_revision
unfolding ApprovedAs
seen i rows rows' (expected, free, a, named, current, next, e) = expected

-- Where the ids of approvals are unique: an approval that commits has seen the revision of the
-- document's current approval, and makes the next one current; and after any commands no other
-- approval of the document that has seen the same revision commits.
pub approve_once :
    (st : Strings) (enabled : Bool) (i j : ApproveInput) (s s' : Store) (ops : List Op)
    → UniqueIds s.approvals
    → approve st enabled i s ≡ commit s'
    → j.organization_id ≡ i.organization_id
    → j.document_id ≡ i.document_id
    → j.expected_revision ≡ i.expected_revision
    → (revision i.organization_id i.document_id s.approvals ≡ i.expected_revision)
      × (revision i.organization_id i.document_id s'.approvals ≡ i.expected_revision + 1)
      × (is_committed (approve st enabled j (Runs.run (exec st enabled) ops s')) ≡ false)
unfolding ApprovedAs exec
approve_once st enabled i j s s' ops u h same_o same_d same_n =
    let ex = exec st enabled in
    let o = i.organization_id in
    let d = i.document_id in
    let (version, rules, sets, stored) = approve-version st enabled i s s' h in
    let expected = seen i s.approvals s'.approvals stored in
    let next = approved-revision i s.approvals s'.approvals o d stored u in
    let one : revision o d s'.approvals ≡ 1 + revision o d s.approvals =
      rw ((eq_iff o o).1 refl, (eq_iff d d).1 refl) at next in
    let t = Runs.run ex ops s' in
    let u' = exec-UniqueIds st enabled (approving i) s s' h u in
    let (u'', grown) =
      run_keeps ex
        (λ y. UniqueIds y.approvals × (revision o d s'.approvals ≤ revision o d y.approvals))
        (λ op a b e k.
          let step = exec-revision st enabled o d op a b e k.0 in
          (exec-UniqueIds st enabled op a b e k.0, omega (arith, k.1, step)))
        ops s' (u', omega arith) in
    (
      expected,
      omega (arith, one, expected),
      elim (Bool-cases (is_committed (approve st enabled j t))) [
        | inr off ↦ off
        | inl went ↦
            let (w, e) = is_committed-eq (approve st enabled j t) went in
            let (v, r, q, stored_j) = approve-version st enabled j t w e in
            let expected_j = seen j t.approvals w.approvals stored_j in
            let there : revision j.organization_id j.document_id t.approvals
                ≡ revision o d t.approvals =
              ap (λ z. revision z j.document_id t.approvals) same_o
              ∙ ap (λ z. revision o z t.approvals) same_d in
            absurd (omega (arith, expected_j, there, grown, one, expected, same_n))
      ],
    )
