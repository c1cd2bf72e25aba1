-- ===== src/Reviews/Saving.antt =====
-- The current review of a document (`SaveReview` of api/internal/postgres/extraction.go).
use plaiflowapp.Base.{
  ℕ, ◌+◌, ◌≤◌, Bool, true, false, ◌&&◌, ◌||◌, ◌≡◌, refl, ap, ◌∙◌, sym, subst, List, [], ◌∷◌, Option,
  none, some, String, str_eq, arith, ◌==◌, ==_iff, Bool-cases, Option-cases, inl, inr, eq_iff,
  if◌then◌else◌,
}
use plaiflowapp.Sql.{commit, guard_passed, query_row, rows_affected, is_committed, is_committed-eq}
use plaiflowapp.Sql.Rows.{query_row-In}
use plaiflowapp.Tenant.{current_role}
use plaiflowapp.Sql.Counting.{rows_affected-update_where, rows_affected_none, rows_affected_pos}
use plaiflowapp.Reviews.{
  Review, Store, forbidden, not_found, conflict, is_manager, is_kept, document_at, runs_as,
  draft_matches, draft_of, is_current_review, revision_of, supersede, saved_review, save_review,
}

pub current : String → String → Store → Option Review
current organization document s = query_row (is_current_review organization document) s.reviews

-- Each document has at most one review that is not superseded.
abbrev pub OneCurrent : List Review → Type 0
OneCurrent rows = (o d : String) → rows_affected (is_current_review o d) rows ≤ 1

-- What a save that succeeds has found and written.
pub saved :
    (review_enabled : Bool) (review : Review) (expected n : ℕ) (s s' : Store)
    → save_review review_enabled review expected s ≡ commit (s', n)
    → (revision_of (current review.organization_id review.document_id s) ≡ expected)
      × (saved_review review_enabled expected review
            ∷ supersede
                (current review.organization_id review.document_id s)
                review.confirmed_at
                s.reviews
          ≡ s'.reviews)
      × (n ≡ expected + 1)
unfolding save_review current
saved review_enabled review expected n s s' h =
    let o = review.organization_id in
    let d = review.document_id in
    let (a, h₁) =
      guard_passed (is_manager (current_role review.confirmed_by o s.tenant)) forbidden _ h in
    let (b, h₂) = guard_passed (is_kept (query_row (document_at o d) s.documents)) not_found _ h₁ in
    let (c, h₃) = guard_passed (runs_as o d review.ocr_job_id s) conflict _ h₂ in
    let (e, h₄) =
      guard_passed
        ((review.draft_revision == 0) || draft_matches review (query_row (draft_of o d) s.drafts))
        conflict _ h₃ in
    let (f, h₅) =
      guard_passed (revision_of (query_row (is_current_review o d) s.reviews) == expected) conflict
        _ h₄ in
    let same : revision_of (query_row (is_current_review o d) s.reviews) ≡ expected =
      (==_iff (revision_of (query_row (is_current_review o d) s.reviews)) expected).0 f in
    let rows : saved_review review_enabled
            (revision_of (query_row (is_current_review o d) s.reviews)) review
          ∷ supersede (query_row (is_current_review o d) s.reviews) review.confirmed_at s.reviews
        ≡ s'.reviews =
      cc in
    let count : revision_of (query_row (is_current_review o d) s.reviews) + 1 ≡ n = cc in
    (
      same,
      subst
          (λ k.
            saved_review review_enabled k review
              ∷ supersede (query_row (is_current_review o d) s.reviews) review.confirmed_at
                  s.reviews
            ≡ s'.reviews)
          same rows,
      omega (arith, same, count),
    )

query_row-none :
    {A : Type 0} (p : A → Bool) (rows : List A) → query_row p rows ≡ none → rows_affected p rows ≡ 0
unfolding query_row rows_affected
query_row-none p [] h = refl
query_row-none {A} p (r ∷ rows) h = elim (Bool-cases (p r)) [
  | inl hit ↦ let h' : ◌≡◌ {A = Option A} (some r) none = rw hit at h in cc
  | inr miss ↦ rw miss (omega (arith, query_row-none p rows (rw miss at h)))
]

-- Superseding makes no review current, and the one that it is given no longer is.
superseded_count :
    (o d x y : String) (now : ℕ) (rows : List Review)
    → OneCurrent rows
    → rows_affected
          (is_current_review x y)
          (supersede (query_row (is_current_review o d) rows) now rows)
        + (if str_eq o x && str_eq d y then 1 else 0)
      ≤ 1
unfolding supersede
superseded_count o d x y now rows one =
    elim (Option-cases (query_row (is_current_review o d) rows)) [
      | inl e ↦ rw e (elim (Bool-cases (str_eq o x && str_eq d y)) [
        | inr off ↦ rw off (omega (arith, one x y))
        | inl same ↦
            let empty = query_row-none (is_current_review o d) rows e in
            let ox : o ≡ x = (eq_iff o x).0 (ground arith) in
            let dy : d ≡ y = (eq_iff d y).0 (ground arith) in
            let empty' : rows_affected (is_current_review x y) rows ≡ 0 =
              subst (λ z. rows_affected (is_current_review z y) rows ≡ 0) ox
                (subst (λ z. rows_affected (is_current_review o z) rows ≡ 0) dy empty) in
            rw same (omega (arith, empty'))
      ])
      | inr (p, e) ↦
          let (i, hit) = query_row-In (is_current_review o d) rows e in
          let at = λ (r : Review). str_eq r.id p.id in
          let f = λ (r : Review). record r { superseded_at = some now } in
          let counted = rows_affected-update_where at (is_current_review x y) f rows in
          let gone =
            rows_affected_none (λ r. at r && is_current_review x y (f r)) rows
              (λ r j. ground arith) in
          rw e (elim (Bool-cases (str_eq o x && str_eq d y)) [
            | inr off ↦ rw off (omega (arith, one x y, counted, gone))
            | inl same ↦
                let ox : o ≡ x = (eq_iff o x).0 (ground arith) in
                let dy : d ≡ y = (eq_iff d y).0 (ground arith) in
                let hit' : is_current_review x y p ≡ true =
                  subst (λ z. is_current_review z y p ≡ true) ox
                    (subst (λ z. is_current_review o z p ≡ true) dy hit) in
                let itself : str_eq p.id p.id ≡ true = (eq_iff p.id p.id).1 refl in
                let pos =
                  rows_affected_pos (λ r. at r && is_current_review x y r) rows i
                    (rw (itself, hit') refl) in
                rw same (omega (arith, one x y, counted, gone, pos))
          ])
    ]

pub saved_current :
    (review_enabled : Bool) (review : Review) (expected n : ℕ) (s s' : Store)
    → save_review review_enabled review expected s ≡ commit (s', n)
    → current review.organization_id review.document_id s'
      ≡ some (saved_review review_enabled expected review)
unfolding current query_row
saved_current review_enabled review expected n s s' h =
    let (f, rows, k) = saved review_enabled review expected n s s' h in
    let o : str_eq review.organization_id review.organization_id ≡ true = (eq_iff _ _).1 refl in
    let d : str_eq review.document_id review.document_id ≡ true = (eq_iff _ _).1 refl in
    ap (query_row (is_current_review review.organization_id review.document_id)) (sym rows)
    ∙ rw (o, d) refl

-- A save that succeeds was made over the revision that the reviewer had seen, and makes the review
-- the current one of its document under the next number; each document has at most one current
-- review, if this held before.
pub save_review_lem :
    (review_enabled : Bool) (review : Review) (expected n : ℕ) (s s' : Store)
    → OneCurrent s.reviews
    → save_review review_enabled review expected s ≡ commit (s', n)
    → (revision_of (current review.organization_id review.document_id s) ≡ expected)
      × (n ≡ expected + 1)
      × (current review.organization_id review.document_id s'
          ≡ some (saved_review review_enabled expected review))
      × OneCurrent s'.reviews
unfolding current rows_affected
save_review_lem review_enabled review expected n s s' one h =
    let (f, rows, k) = saved review_enabled review expected n s s' h in
    (
      f,
      k,
      saved_current review_enabled review expected n s s' h,
      subst OneCurrent rows (λ x y. fits x y),
    )
  where
    head_count :
        (m : ℕ) (a b : Bool)
        → m + (if a && b then 1 else 0) ≤ 1
        → (if a && b && true then 1 else 0) + m ≤ 1
    head_count m a b h = ground arith

    fits :
        (x y : String)
        → rows_affected (is_current_review x y) (
            saved_review review_enabled expected review
            ∷ supersede
                (current review.organization_id review.document_id s)
                review.confirmed_at
                s.reviews)
          ≤ 1
    fits x y =
        let c =
          superseded_count review.organization_id review.document_id x y review.confirmed_at
            s.reviews one in
        head_count _ (str_eq review.organization_id x) (str_eq review.document_id y) c

-- Of two saves over the same revision of a document, the second is refused.
pub save_review_stale :
    (review_enabled : Bool) (first second : Review) (expected n : ℕ) (s s' : Store)
    → save_review review_enabled first expected s ≡ commit (s', n)
    → second.organization_id ≡ first.organization_id
    → second.document_id ≡ first.document_id
    → is_committed (save_review review_enabled second expected s') ≡ false
save_review_stale review_enabled first second expected n s s' h o d =
    elim (Bool-cases (is_committed (save_review review_enabled second expected s'))) [
      | inr refused ↦ refused
      | inl done_again ↦
          let ((s₂, n₂), e) =
            is_committed-eq (save_review review_enabled second expected s') done_again in
          let (f, rows, k) = saved review_enabled second expected n₂ s' s₂ e in
          let now_is = saved_current review_enabled first expected n s s' h in
          let now_is' : current second.organization_id second.document_id s'
              ≡ some (saved_review review_enabled expected first) =
            ap (λ x. current x second.document_id s') o
            ∙ ap (λ x. current first.organization_id x s') d
            ∙ now_is in
          let f' : revision_of (some (saved_review review_enabled expected first)) ≡ expected =
            ap revision_of (sym now_is') ∙ f in
          absurd (omega (arith, f'))
    ]
