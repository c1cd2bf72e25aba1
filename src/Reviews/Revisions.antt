-- ===== src/Reviews/Revisions.antt =====
-- The revisions of a draft: `SaveDraft` of api/internal/postgres/review_drafts.go and `ReturnReview`
-- of api/internal/postgres/review_return.go write the same row.
use plaiflowapp.Base.{
  ℕ, ◌+◌, Bool, true, ◌&&◌, ◌≡◌, refl, ap, ◌∙◌, sym, subst, List, [], ◌∷◌, ◌++◌, Option, none, some,
  String, str_eq, arith, ◌==◌, ==_iff, Bool-cases, inl, inr, eq_iff, is_some, ◌⊎◌, ◌≢◌, false≢true,
}
use plaiflowapp.Sql.{commit, guard_passed, query_row}
use plaiflowapp.Tenant.{current_role}
use plaiflowapp.Reviews.{
  ReviewDraft, ReturnInput, Store, forbidden, not_found, conflict, is_manager, is_kept, document_at,
  runs_as, draft_of, is_current_review,
}
use plaiflowapp.Reviews.Drafts.{
  is_visible, draft_revision_of, upsert_draft, save_draft, valid_return, review_agrees,
  returned_draft, empty_draft, return_review,
}

abbrev pub draft : String → String → Store → Option ReviewDraft
draft organization document s = query_row (draft_of organization document) s.drafts

abbrev pub upserted : ReviewDraft → (ReviewDraft → ReviewDraft) → Option ReviewDraft → ReviewDraft
upserted new merge none = new
upserted new merge (some d) = merge d

query_row-upsert_draft :
    (key : ReviewDraft → Bool) (new : ReviewDraft) (merge : ReviewDraft → ReviewDraft)
    (rows : List ReviewDraft)
    → key new ≡ true
    → ((d : ReviewDraft) → key d ≡ true → key (merge d) ≡ true)
    → query_row key (upsert_draft key new merge rows)
      ≡ some (upserted new merge (query_row key rows))
unfolding query_row upsert_draft
query_row-upsert_draft key new merge [] k m = rw k refl
query_row-upsert_draft key new merge (d ∷ rows) k m = elim (Bool-cases (key d)) [
  | inl hit ↦ rw (hit, m d hit) refl
  | inr miss ↦ rw (miss, miss) (query_row-upsert_draft key new merge rows k m)
]

key_refl : (o d : String) → (str_eq o o && str_eq d d) ≡ true
key_refl o d =
    let a : str_eq o o ≡ true = (eq_iff o o).1 refl in
    let b : str_eq d d ≡ true = (eq_iff d d).1 refl in rw (a, b) refl

-- A draft that is saved was made over the revision that its author had seen; it becomes the draft
-- of its document and the last row of the history, under the next number.
pub save_draft_lem :
    (d saved : ReviewDraft) (expected : ℕ) (request_id : String) (s s' : Store)
    → save_draft d expected request_id s ≡ commit (s', saved)
    → (draft_revision_of (draft d.organization_id d.document_id s) ≡ expected)
      × (saved.revision ≡ expected + 1)
      × (draft d.organization_id d.document_id s' ≡ some saved)
      × (s'.history ≡ s.history ++ saved ∷ [])
unfolding save_draft
save_draft_lem d saved expected request_id s s' h =
    let o = d.organization_id in
    let x = d.document_id in
    let key = draft_of o x in
    let (a, h₁) = guard_passed (is_some (current_role d.updated_by o s.tenant)) forbidden _ h in
    let (b, h₂) =
      guard_passed (is_some (query_row (is_visible o x d.updated_by s) s.documents)) not_found _
        h₁ in
    let (c, h₃) = guard_passed (runs_as o x d.ocr_job_id s) conflict _ h₂ in
    let revision = draft_revision_of (draft o x s) in
    let (e, h₄) = guard_passed (revision == expected) conflict _ h₃ in
    let e' : revision ≡ expected = (==_iff revision expected).0 e in
    let new = record d { revision = revision + 1 } in
    let drafts : upsert_draft key new (λ y. new) s.drafts ≡ s'.drafts = cc in
    let is : new ≡ saved = cc in
    let history : s.history ++ new ∷ [] ≡ s'.history = cc in
    let number : revision + 1 ≡ saved.revision = ap (λ (y : ReviewDraft). y.revision) is in
    let at =
      query_row-upsert_draft key new (λ y. new) s.drafts (key_refl o x) (λ y k. key_refl o x) in
    (
      e',
      omega (arith, e', number),
      ap (query_row key) (sym drafts) ∙ at ∙ ap some (always new (draft o x s) ∙ is),
      sym history ∙ ap (λ y. s.history ++ y ∷ []) is,
    )
  where
    always : (new : ReviewDraft) (o : Option ReviewDraft) → upserted new (λ y. new) o ≡ new
    always new none = refl
    always new (some y) = refl

-- A return as its row of the draft is written.
return_review-upserted :
    (trim_space : String → String) (input : ReturnInput) (n : ℕ) (s s' : Store)
    → return_review trim_space input s ≡ commit (s', n)
    → (draft_revision_of (draft input.organization_id input.document_id s)
        ≡ input.expected_draft_revision)
      × (n ≡ input.expected_draft_revision + 1)
      × (draft input.organization_id input.document_id s'
          ≡ some (
              upserted
                (empty_draft input n)
                (returned_draft input n)
                (draft input.organization_id input.document_id s)))
      × (is_manager (current_role input.actor_id input.organization_id s.tenant) ≡ true)
unfolding return_review
return_review-upserted trim_space input n s s' h =
    let o = input.organization_id in
    let x = input.document_id in
    let key = draft_of o x in
    let (a, h₁) = guard_passed (valid_return trim_space input) conflict _ h in
    let (b, h₂) =
      guard_passed (is_manager (current_role input.actor_id o s.tenant)) forbidden _ h₁ in
    let (c, h₃) = guard_passed (is_kept (query_row (document_at o x) s.documents)) conflict _ h₂ in
    let (e, h₄) =
      guard_passed (review_agrees input (query_row (is_current_review o x) s.reviews)) conflict _
        h₃ in
    let (f, h₅) = guard_passed (runs_as o x input.ocr_job_id s) conflict _ h₄ in
    let revision = draft_revision_of (draft o x s) in
    let (g, h₆) = guard_passed (revision == input.expected_draft_revision) conflict _ h₅ in
    let g' : revision ≡ input.expected_draft_revision =
      (==_iff revision input.expected_draft_revision).0 g in
    let drafts : upsert_draft key (empty_draft input (revision + 1))
          (returned_draft input (revision + 1)) s.drafts
        ≡ s'.drafts =
      cc in
    let number : revision + 1 ≡ n = cc in
    let at =
      query_row-upsert_draft key (empty_draft input (revision + 1))
        (returned_draft input (revision + 1)) s.drafts (key_refl o x) (λ y k. k) in
    (
      g',
      omega (arith, g', number),
      subst
          (λ k.
            draft o x s'
            ≡ some (upserted (empty_draft input k) (returned_draft input k) (draft o x s)))
          number (ap (query_row key) (sym drafts) ∙ at),
      b,
    )

-- The draft `u` after a return over `prior`, the draft before it if there was one: its values and
-- decisions are those of the prior draft if this had the OCR run of the return, and else none.
pub record Returned (input : ReturnInput) (prior : Option ReviewDraft) (u : ReviewDraft)
    : Type 0 where
  pub revision : u.revision ≡ input.expected_draft_revision + 1
  pub run : u.ocr_job_id ≡ input.ocr_job_id
  pub by : u.updated_by ≡ input.actor_id
  pub at : u.updated_at ≡ input.returned_at
  pub content :
      ((d : ReviewDraft) × (prior ≡ some d)
        × (d.ocr_job_id ≡ input.ocr_job_id)
        × (u.values ≡ d.values)
        × (u.decisions ≡ d.decisions))
      ⊎ (((d : ReviewDraft) × (prior ≡ some d) × (d.ocr_job_id ≢ input.ocr_job_id))
          ⊎ (prior ≡ none))
        × (u.values ≡ [])
        × (u.decisions ≡ [])

upserted-Returned :
    (input : ReturnInput) (n : ℕ) (prior : Option ReviewDraft)
    → n ≡ input.expected_draft_revision + 1
    → Returned input prior (upserted (empty_draft input n) (returned_draft input n) prior)
upserted-Returned input n none e = record {
  revision = e;
  run = refl;
  by = refl;
  at = refl;
  content = inr (inr refl, refl, refl);
}
upserted-Returned input n (some d) e = record {
  revision = e;
  run = refl;
  by = refl;
  at = refl;
  content = elim (Bool-cases (str_eq d.ocr_job_id input.ocr_job_id)) [
    | inl same ↦ inl (d, refl, (eq_iff _ _).0 same, rw same refl, rw same refl)
    | inr apart ↦ inr (
      inl (d, refl, λ p. absurd (false≢true (sym apart ∙ (eq_iff _ _).1 p))),
      rw apart refl,
      rw apart refl,
    )
  ];
}

-- A return of a review that succeeds was made by a manager over the revision of the draft that
-- they had seen. The draft moves to the next number, which the caller is told, to the OCR run of the
-- return and to its author and time; it keeps its values and decisions if it had this run before,
-- and has none if it had another or if there was no draft.
pub return_review_lem :
    (trim_space : String → String) (input : ReturnInput) (n : ℕ) (s s' : Store)
    → return_review trim_space input s ≡ commit (s', n)
    → (is_manager (current_role input.actor_id input.organization_id s.tenant) ≡ true)
      × (draft_revision_of (draft input.organization_id input.document_id s)
          ≡ input.expected_draft_revision)
      × (n ≡ input.expected_draft_revision + 1)
      × ((u : ReviewDraft) × (draft input.organization_id input.document_id s' ≡ some u)
          × Returned input (draft input.organization_id input.document_id s) u)
return_review_lem trim_space input n s s' h =
    let (seen, next, is, may) = return_review-upserted trim_space input n s s' h in
    let prior = draft input.organization_id input.document_id s in
    (may, seen, next, (_, is, upserted-Returned input n prior next))
