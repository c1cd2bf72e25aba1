-- ===== src/Reviews.antt =====
-- The human review of a document: the types of api/internal/extraction/review.go, and SaveReview of
-- api/internal/postgres/extraction.go. The maps of values and decisions are lists of pairs.
pub mod Drafts
pub mod Saving
pub mod Revisions
pub mod Writers
use plaiflowapp.Base.{
  ℕ, ◌+◌, Bool, true, false, not, ◌&&◌, ◌||◌, List, [], ◌∷◌, ◌++◌, Option, none, some, String,
  str_eq, ◌==◌, if◌then◌else◌, is_some,
}
use plaiflowapp.Sql.{Tx, commit, rollback, ◌>>=◌, ◌>>◌, guard, update_where, query_row}
use plaiflowapp.Tenant
use plaiflowapp.Tenant.{Role, current_role}
use plaiflowapp.Tasks.{Task, ReviewTask, Document, DocumentSource, manager}

abbrev pub Values : Type 0
Values = List (String × String)

-- A row of document_ocr_runs.
pub record OcrRun : Type 0 where
  pub job_id : String
  pub organization_id : String
  pub document_id : String
  pub published_at : Option ℕ
  pub superseded_at : Option ℕ
  pub deleted_at : Option ℕ

-- A `Review`, with the column `superseded_at` of its row.
pub record Review : Type 0 where
  pub id : String
  pub organization_id : String
  pub document_id : String
  pub ocr_job_id : String
  pub revision : ℕ
  pub draft_revision : ℕ
  pub request_id : String
  pub confirmed_by : String
  pub confirmed_at : ℕ
  pub object_key : String
  pub superseded_at : Option ℕ

pub record ReviewDraft : Type 0 where
  pub organization_id : String
  pub document_id : String
  pub ocr_job_id : String
  pub revision : ℕ
  pub values : Values
  pub decisions : Values
  pub updated_by : String
  pub updated_at : ℕ

pub record ReturnInput : Type 0 where
  pub id : String
  pub actor_id : String
  pub organization_id : String
  pub document_id : String
  pub ocr_job_id : String
  pub reason_code : String
  pub private_note : String
  pub request_id : String
  pub expected_review_revision : ℕ
  pub expected_draft_revision : ℕ
  pub returned_at : ℕ

pub record AuditEvent : Type 0 where
  pub organization_id : String
  pub actor_user_id : String
  pub event_type : String
  pub target_id : String
  pub request_id : String
  pub reason_code : String
  pub occurred_at : ℕ
  pub metadata : List (String × ℕ)

-- A row of notifications: `return_id` is the id in its logical key.
pub record Notification : Type 0 where
  pub organization_id : String
  pub recipient_user_id : Option String
  pub return_id : String
  pub created_at : ℕ

pub record Store : Type 0 where
  pub tenant : Tenant.Store
  pub documents : List Document
  pub sources : List DocumentSource
  pub runs : List OcrRun
  pub reviews : List Review
  pub drafts : List ReviewDraft
  pub history : List ReviewDraft
  pub returns : List ReturnInput
  pub review_tasks : List ReviewTask
  pub tasks : List Task
  pub notifications : List Notification
  pub audit : List AuditEvent

pub data Error : Type 0 where
  not_found forbidden conflict : Error

abbrev pub is_null : Option ℕ → Bool
is_null o = not (is_some o)

abbrev pub is_current_run : String → String → OcrRun → Bool
is_current_run organization document r =
    str_eq r.organization_id organization
    && str_eq r.document_id document
    && is_some r.published_at
    && is_null r.superseded_at
    && is_null r.deleted_at

abbrev pub is_current_review : String → String → Review → Bool
is_current_review organization document r =
    str_eq r.organization_id organization
    && str_eq r.document_id document
    && is_null r.superseded_at

abbrev pub draft_of : String → String → ReviewDraft → Bool
draft_of organization document d =
    str_eq d.organization_id organization && str_eq d.document_id document

abbrev pub document_at : String → String → Document → Bool
document_at organization document d = str_eq d.organization_id organization && str_eq d.id document

abbrev pub is_manager : Option Role → Bool
is_manager none = false
is_manager (some r) = manager r

-- `status != "Available" && status != "Archived"` is the negation.
abbrev pub is_kept : Option Document → Bool
is_kept none = false
is_kept (some d) = str_eq d.status "Available" || str_eq d.status "Archived"

-- The published OCR run of the document is `job`.
abbrev pub runs_as : String → String → String → Store → Bool
runs_as organization document job s =
    elim (query_row (is_current_run organization document) s.runs) [
      | none ↦ false
      | some r ↦ str_eq r.job_id job
    ]

abbrev pub revision_of : Option Review → ℕ
revision_of none = 0
revision_of (some r) = r.revision

-- The draft that the review was made from is the present one.
abbrev pub draft_matches : Review → Option ReviewDraft → Bool
draft_matches review none = false
draft_matches review (some d) =
    (d.revision == review.draft_revision) && str_eq d.ocr_job_id review.ocr_job_id

unfoldable pub supersede : Option Review → ℕ → List Review → List Review
supersede none now rows = rows
supersede (some p) now rows =
    update_where (λ (r : Review). str_eq r.id p.id) (λ r. record r { superseded_at = some now })
      rows

-- The row of a review that is saved over `revision`. The column `draft_revision` is written only if
-- `review_enabled`.
abbrev pub saved_review : Bool → ℕ → Review → Review
saved_review review_enabled revision review = record review {
  revision = revision + 1;
  draft_revision = if review_enabled then review.draft_revision else 0;
  superseded_at = none;
}

unfoldable pub save_review : Bool → Review → ℕ → Store → Tx Error (Store × ℕ)
save_review review_enabled review expected s = do
  let organization = review.organization_id
  let document = review.document_id
  guard (is_manager (current_role review.confirmed_by organization s.tenant)) forbidden
  guard (is_kept (query_row (document_at organization document) s.documents)) not_found
  guard (runs_as organization document review.ocr_job_id s) conflict
  guard
      ((review.draft_revision == 0)
        || draft_matches review (query_row (draft_of organization document) s.drafts))
      conflict
  let previous = query_row (is_current_review organization document) s.reviews
  guard (revision_of previous == expected) conflict
  commit (
    record s {
      reviews =
          saved_review review_enabled (revision_of previous) review
          ∷ supersede previous review.confirmed_at s.reviews;
      audit =
          s.audit
          ++ record {
            organization_id = organization;
            actor_user_id = review.confirmed_by;
            event_type = "extraction.confirm";
            target_id = document;
            request_id = review.request_id;
            reason_code = "";
            occurred_at = review.confirmed_at;
            metadata =
                ("review_revision", revision_of previous + 1)
                ∷ ("draft_revision", review.draft_revision)
                ∷ [];
          }
            ∷ [];
    },
    revision_of previous + 1,
  )
