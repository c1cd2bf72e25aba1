-- ===== src/Reviews/Writers.antt =====
-- The writers of the draft of one document, one after the other.
use plaiflowapp.Base.{ℕ, ◌+◌, ◌≡◌, ap, ◌∙◌, sym, String}
use plaiflowapp.Sql.{commit}
use plaiflowapp.Reviews.{ReviewDraft, ReturnInput, Store}
use plaiflowapp.Reviews.Drafts.{draft_revision_of, save_draft, return_review}
use plaiflowapp.Reviews.Revisions.{draft, save_draft_lem, return_review_lem}

-- A command on the draft of the document that succeeds, over the revision that its user had seen.
pub data Write (trim_space : String → String) : String → String → ℕ → Store → Store → Type 0 where
  saving :
      (d saved : ReviewDraft) (expected : ℕ) (request_id : String) {s s' : Store}
      → save_draft d expected request_id s ≡ commit (s', saved)
      → Write trim_space d.organization_id d.document_id expected s s'
  returning :
      (input : ReturnInput) (n : ℕ) {s s' : Store}
      → return_review trim_space input s ≡ commit (s', n)
      → Write trim_space input.organization_id input.document_id input.expected_draft_revision s s'

Write-moves :
    (trim_space : String → String) {o d : String} {e : ℕ} {s s' : Store}
    → Write trim_space o d e s s'
    → (draft_revision_of (draft o d s) ≡ e) × (draft_revision_of (draft o d s') ≡ e + 1)
Write-moves trim_space {s} {s'} (saving d saved expected request_id h) =
    let (seen, number, now, history) = save_draft_lem d saved expected request_id s s' h in
    (seen, ap draft_revision_of now ∙ number)
Write-moves trim_space {s} {s'} (returning input n h) =
    let (may, seen, number, (u, now, d)) = return_review_lem trim_space input n s s' h in
    (seen, ap draft_revision_of now ∙ d.revision)

-- Two commands on the draft of a document that succeed one after the other, were made over
-- consecutive revisions: no command overwrites a draft that its user had not seen.
pub no_lost_update :
    (trim_space : String → String) (o d : String) (e e' : ℕ) (s s' s'' : Store)
    → Write trim_space o d e s s'
    → Write trim_space o d e' s' s''
    → e' ≡ e + 1
no_lost_update trim_space o d e e' s s' s'' first second =
    let (a, b) = Write-moves trim_space first in
    let (a', b') = Write-moves trim_space second in sym a' ∙ b
