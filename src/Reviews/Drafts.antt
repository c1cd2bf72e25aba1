-- ===== src/Reviews/Drafts.antt =====
-- `SaveDraft` of api/internal/postgres/review_drafts.go and `ReturnReview` of
-- api/internal/postgres/review_return.go.
use plaiflowapp.Base.{
  ℕ, ◌+◌, Bool, not, ◌&&◌, ◌||◌, List, [], ◌∷◌, ◌++◌, Option, none, some, String, str_eq, leb, ◌==◌,
  if◌then◌else◌, is_some, length, codes,
}
use plaiflowapp.Sql.{Tx, commit, ◌>>◌, guard, query_row, select_where, eq_column}
use plaiflowapp.Tenant.{current_role}
use plaiflowapp.Tasks.{
  ReviewTask, Document, DocumentSource, opened, in_progress, status_eq, coalesce, task_at,
}
use plaiflowapp.Reviews.{
  Review, ReviewDraft, ReturnInput, Notification, Store, Error, not_found, forbidden, conflict,
  is_current_review, draft_of, document_at, is_manager, is_kept, runs_as,
}

-- The document that `user` may see, as the query of `SaveDraft` selects it.
unfoldable pub is_visible : String → String → String → Store → Document → Bool
is_visible organization document user s d =
    document_at organization document d
    && (str_eq d.status "Available" || str_eq d.status "Archived")
    && (is_manager (current_role user organization s.tenant)
        || (str_eq d.submitted_by_user_id user && not d.group_restricted)
        || eq_column d.assignee_user_id user
        || is_some (
            query_row
              (λ (x : DocumentSource).
                str_eq x.organization_id organization
                && str_eq x.document_id document
                && str_eq x.submitted_by_user_id user
                && not x.group_source)
              s.sources))

abbrev pub draft_revision_of : Option ReviewDraft → ℕ
draft_revision_of none = 0
draft_revision_of (some d) = d.revision

-- INSERT … ON CONFLICT(organization_id,document_id) DO UPDATE: `new` if no row has the key, else
-- the row changed by `merge`.
unfoldable pub upsert_draft :
    (ReviewDraft → Bool)
    → ReviewDraft
    → (ReviewDraft → ReviewDraft)
    → List ReviewDraft
    → List ReviewDraft
upsert_draft key new merge [] = new ∷ []
upsert_draft key new merge (d ∷ rows) =
    let rest = upsert_draft key new merge rows in if key d then merge d ∷ rows else d ∷ rest

unfoldable pub save_draft : ReviewDraft → ℕ → String → Store → Tx Error (Store × ReviewDraft)
save_draft draft expected request_id s = do
  let organization = draft.organization_id
  let document = draft.document_id
  guard (is_some (current_role draft.updated_by organization s.tenant)) forbidden
  guard (is_some (query_row (is_visible organization document draft.updated_by s) s.documents))
      not_found
  guard (runs_as organization document draft.ocr_job_id s) conflict
  let revision = draft_revision_of (query_row (draft_of organization document) s.drafts)
  guard (revision == expected) conflict
  let saved = record draft { revision = revision + 1 }
  commit (
    record s {
      drafts = upsert_draft (draft_of organization document) saved (λ d. saved) s.drafts;
      history = s.history ++ saved ∷ [];
      audit =
          s.audit
          ++ record {
            organization_id = organization;
            actor_user_id = draft.updated_by;
            event_type = "review.draft.save";
            target_id = document;
            request_id = request_id;
            reason_code = "";
            occurred_at = draft.updated_at;
            metadata = ("old_revision", revision) ∷ ("new_revision", revision + 1) ∷ [];
          }
            ∷ [];
    },
    saved,
  )

abbrev pub is_reason : String → Bool
is_reason code =
    str_eq code "missing_value"
    || str_eq code "incorrect_value"
    || str_eq code "unreadable_original"
    || str_eq code "other"

-- `trim_space` is strings.TrimSpace.
abbrev pub valid_return : (String → String) → ReturnInput → Bool
valid_return trim_space input =
    is_reason input.reason_code && leb (length (codes (trim_space input.private_note))) 1000

abbrev pub review_agrees : ReturnInput → Option Review → Bool
review_agrees input none = input.expected_review_revision == 0
review_agrees input (some r) =
    (r.revision == input.expected_review_revision)
    && (str_eq r.ocr_job_id "" || str_eq r.ocr_job_id input.ocr_job_id)

-- The draft after a return: it keeps its values only under the same OCR run.
abbrev pub returned_draft : ReturnInput → ℕ → ReviewDraft → ReviewDraft
returned_draft input next d = record d {
  revision = next;
  ocr_job_id = input.ocr_job_id;
  values = if str_eq d.ocr_job_id input.ocr_job_id then d.values else [];
  decisions = if str_eq d.ocr_job_id input.ocr_job_id then d.decisions else [];
  updated_by = input.actor_id;
  updated_at = input.returned_at;
}

abbrev pub empty_draft : ReturnInput → ℕ → ReviewDraft
empty_draft input next = record {
  organization_id = input.organization_id;
  document_id = input.document_id;
  ocr_job_id = input.ocr_job_id;
  revision = next;
  values = [];
  decisions = [];
  updated_by = input.actor_id;
  updated_at = input.returned_at;
}

-- The assignees of the open tasks of the review, who are told.
pub notices : ReturnInput → Store → List ReviewTask → List Notification
notices input s [] = []
notices input s (x ∷ rows) =
    let rest = notices input s rows in
    if str_eq x.organization_id input.organization_id && str_eq x.document_id input.document_id
    then elim (query_row (task_at x.organization_id x.task_id) s.tasks) [
      | none ↦ rest
      | some t ↦
          if (status_eq t.status opened || status_eq t.status in_progress)
            && is_some (current_role (coalesce t.assignee_user_id) t.organization_id s.tenant)
          then record {
            organization_id = input.organization_id;
            recipient_user_id = t.assignee_user_id;
            return_id = input.id;
            created_at = input.returned_at;
          }
            ∷ rest
          else rest
    ]
    else rest

unfoldable pub return_review : (String → String) → ReturnInput → Store → Tx Error (Store × ℕ)
unfolding notices select_where
return_review trim_space input s = do
  let organization = input.organization_id
  let document = input.document_id
  guard (valid_return trim_space input) conflict
  guard (is_manager (current_role input.actor_id organization s.tenant)) forbidden
  guard (is_kept (query_row (document_at organization document) s.documents)) conflict
  guard (review_agrees input (query_row (is_current_review organization document) s.reviews))
      conflict
  guard (runs_as organization document input.ocr_job_id s) conflict
  let revision = draft_revision_of (query_row (draft_of organization document) s.drafts)
  guard (revision == input.expected_draft_revision) conflict
  let key = draft_of organization document
  let drafts =
      upsert_draft key (empty_draft input (revision + 1)) (returned_draft input (revision + 1))
        s.drafts
  commit (
    record s {
      returns = record input { private_note = trim_space input.private_note } ∷ s.returns;
      drafts = drafts;
      history = s.history ++ select_where key drafts;
      audit =
          s.audit
          ++ record {
            organization_id = organization;
            actor_user_id = input.actor_id;
            event_type = "review.return";
            target_id = document;
            request_id = input.request_id;
            reason_code = input.reason_code;
            occurred_at = input.returned_at;
            metadata =
                ("old_draft_revision", revision)
                ∷ ("new_draft_revision", revision + 1)
                ∷ ("review_revision", input.expected_review_revision)
                ∷ [];
          }
            ∷ [];
      notifications = s.notifications ++ notices input s s.review_tasks;
    },
    revision + 1,
  )
