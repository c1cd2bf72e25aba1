-- ===== src/Accounting/Books/Superseding.antt =====
-- The supersession of an approval by `Approve` of api/internal/postgres/accounting.go.
use plaiflowapp.Base.{
  ℕ, ◌≤◌, Bool, true, false, ◌&&◌, ◌≡◌, refl, sym, ap, subst, ◌∙◌, List, [], ◌∷◌, Option, some,
  none, String, str_eq, arith, eq_iff, Bool-cases, Option-cases, inl, inr, In,
}
use plaiflowapp.Sql.{update_where, query_row, rows_affected}
use plaiflowapp.Sql.Rows.{query_row-In}
use plaiflowapp.Sql.Counting.{rows_affected-update_where_same, query_row_key}
use plaiflowapp.Accounting.Books.{Approved}
use plaiflowapp.Accounting.Books.Approving.{is_current, revision_of, supersede}

-- The primary key of the approvals.
abbrev pub has_id : String → Approved → Bool
has_id id a = str_eq a.id id

abbrev pub UniqueIds : List Approved → Type 0
UniqueIds rows = (id : String) → rows_affected (has_id id) rows ≤ 1

-- The revision of the current approval of a document, 0 if there is none.
abbrev pub revision : String → String → List Approved → ℕ
revision o d rows = revision_of (query_row (is_current o d) rows)

abbrev pub retired_at : ℕ → Approved → Approved
retired_at now a = record a { superseded_at = some now }

pub supersede-UniqueIds :
    (prior : Option Approved) (now : ℕ) (rows : List Approved)
    → UniqueIds rows
    → UniqueIds (supersede prior now rows)
supersede-UniqueIds none now rows u id = u id
supersede-UniqueIds (some p) now rows u id =
    let e =
      rows_affected-update_where_same (has_id p.id) (has_id id) (retired_at now) rows (λ r. refl) in
    omega (arith, e, u id)

-- An update of rows that a query does not see, before or after.
pub query_row-update_where_miss :
    (p k : Approved → Bool) (f : Approved → Approved) (rows : List Approved)
    → ((r : Approved) → In r rows → p r ≡ true → (k r ≡ false) × (k (f r) ≡ false))
    → query_row k (update_where p f rows) ≡ query_row k rows
unfolding query_row update_where
query_row-update_where_miss p k f [] h = refl
query_row-update_where_miss p k f (r ∷ rows) h =
    let ih = query_row-update_where_miss p k f rows (λ x i. h x (inr i)) in
    elim (Bool-cases (p r)) [
      | inr miss ↦ rw (miss, ih) refl
      | inl hit ↦ let (before, after) = h r (inl refl) hit in rw (hit, before, after) ih
    ]

pub foreign :
    (o d x y : String) (p : Approved)
    → is_current o d p ≡ true
    → (str_eq o x && str_eq d y) ≡ false
    → is_current x y p ≡ false
foreign o d x y p hit off =
    let mine : str_eq p.organization_id o ≡ true = ground arith in
    let this : str_eq p.document_id d ≡ true = ground arith in
    rw ((eq_iff p.organization_id o).0 mine, (eq_iff p.document_id d).0 this) (ground arith)

-- The supersession of the current approval of a document leaves those of the others.
pub supersede_elsewhere :
    (o d x y : String) (now : ℕ) (rows : List Approved)
    → UniqueIds rows
    → (str_eq o x && str_eq d y) ≡ false
    → revision x y (supersede (query_row (is_current o d) rows) now rows) ≡ revision x y rows
supersede_elsewhere o d x y now rows u off = elim (Option-cases (query_row (is_current o d) rows)) [
  | inl e ↦ rw e refl
  | inr (p, e) ↦
      let (i, hit) = query_row-In (is_current o d) rows e in
      let same =
        query_row-update_where_miss (has_id p.id) (is_current x y) (retired_at now) rows
          (λ r j by_id.
            let own : r ≡ p = key rows u p i r j by_id in
            (
              subst (λ z. is_current x y z ≡ false) (sym own) (foreign o d x y p hit off),
              ground arith,
            )) in
      rw e (ap revision_of same)
]
  where
    key :
        (rows : List Approved)
        → UniqueIds rows
        → (p : Approved) → In p rows
        → (r : Approved) → In r rows
        → has_id p.id r ≡ true
        → r ≡ p
    key rows u p i r j by_id =
        let at_p = query_row_key (has_id p.id) rows (u p.id) i ((eq_iff p.id p.id).1 refl) in
        let at_r = query_row_key (has_id p.id) rows (u p.id) j by_id in
        let both : some r ≡ some p = sym at_r ∙ at_p in cc
