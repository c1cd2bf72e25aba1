-- ===== src/Accounting/Books/Approving.antt =====
-- `Approve` of api/internal/postgres/accounting.go: a manager approves a category for the current
-- review of a document. Revisions and versions of the source's int are natural numbers.
use plaiflowapp.Base.{
  ℕ, ◌+◌, Bool, false, not, ◌&&◌, ◌||◌, List, [], ◌∷◌, ◌++◌, Option, none, some, String, str_eq,
  ltb, leb, ◌==◌, if◌then◌else◌, any, codes, byte_len,
}
use plaiflowapp.Sql.{Tx, commit, rollback, ◌>>=◌, ◌>>◌, guard, update_where, query_row}
use plaiflowapp.Reviews
use plaiflowapp.Reviews.{
  Review, ReviewDraft, OcrRun, is_null, is_current_run, is_current_review, document_at, is_kept,
  draft_of,
}
use plaiflowapp.Accounting.Books.{
  MappingRule, Approved, Store, Error, invalid, conflict, forbidden, not_found, Strings, manages,
  version_of, AuditEvent,
}
use plaiflowapp.Accounting.Books.Rules.{active_category, active_vendor, rule_at}

pub record ApproveInput : Type 0 where
  pub id : String
  pub actor_id : String
  pub organization_id : String
  pub document_id : String
  pub review_id : String
  pub review_revision : ℕ
  pub rule_set_version : ℕ
  pub category_id : String
  pub vendor_id : String
  pub rule_id : String
  pub rule_version : ℕ
  pub suggestion_basis : String
  pub unmatched_reason : String
  pub expected_revision : ℕ
  pub approved_at : ℕ
  pub request_id : String

unfoldable pub valid_approval : Strings → ApproveInput → Bool
valid_approval st i =
    not (str_eq i.id "")
    && not (str_eq i.review_id "")
    && leb 1 i.review_revision
    && not (str_eq i.category_id "")
    && leb (byte_len (codes i.unmatched_reason)) 240
    && not (str_eq i.vendor_id "" && str_eq (st.trim i.unmatched_reason) "")

unfoldable pub valid_rule : ApproveInput → Bool
valid_rule i =
    str_eq i.rule_id ""
    || (leb 1 i.rule_version
        && not (str_eq i.vendor_id "")
        && (str_eq i.suggestion_basis "approved_vendor_default"
            || str_eq i.suggestion_basis "approved_vendor_document_type"))

abbrev pub basis_of : ApproveInput → String
basis_of i = if str_eq i.rule_id "" then "human_reviewed" else i.suggestion_basis

-- `currentDraftSQL`: no draft is newer than the review, if reviews are enabled.
abbrev pub no_newer_draft : Bool → Reviews.Store → Review → Bool
no_newer_draft enabled s e = not (
    enabled
    && any
        (λ (d : ReviewDraft).
          draft_of e.organization_id e.document_id d && ltb e.draft_revision d.revision)
        s.drafts)

-- The review that stands for a document, whose OCR run is published and current.
abbrev pub standing_review : Bool → String → String → Reviews.Store → Review → Bool
standing_review enabled organization document s e =
    is_current_review organization document e
    && any (λ (o : OcrRun). str_eq o.job_id e.ocr_job_id && is_current_run organization document o)
        s.runs
    && no_newer_draft enabled s e

abbrev pub is_reviewed : ApproveInput → Option Review → Bool
is_reviewed i none = false
is_reviewed i (some e) = str_eq e.id i.review_id && e.revision == i.review_revision

abbrev pub or_else : {A : Type 0} → Option A → Error → Tx Error A
or_else none e = rollback e
or_else (some a) e = commit a

-- The contact code of the vendor, if one is named.
unfoldable pub vendor_code : ApproveInput → Store → Option String
vendor_code i s =
    let found = query_row (active_vendor i.organization_id i.vendor_id) s.vendors in
    if str_eq i.vendor_id ""
    then some ""
    else elim found [ none ↦ none | some v ↦ some v.contact_code ]

-- The rule that the approval names is the vendor's, for the category, not retired, and as it was.
unfoldable pub rule_stands : ApproveInput → Store → Bool
rule_stands i s = str_eq i.rule_id "" || elim (query_row (rule_named i) s.rules) [
  | none ↦ false
  | some r ↦ r.rule.version == i.rule_version
]
  where
    rule_named : ApproveInput → MappingRule → Bool
    rule_named i r =
        rule_at i.organization_id i.rule_id r
        && str_eq r.rule.vendor_id i.vendor_id
        && str_eq r.rule.category_id i.category_id

abbrev pub is_current : String → String → Approved → Bool
is_current organization document a =
    str_eq a.organization_id organization
    && str_eq a.document_id document
    && is_null a.superseded_at

abbrev pub revision_of : Option Approved → ℕ
revision_of none = 0
revision_of (some a) = a.revision

abbrev pub supersede : Option Approved → ℕ → List Approved → List Approved
supersede none now rows = rows
supersede (some p) now rows =
    update_where (λ (a : Approved). str_eq a.id p.id)
      (λ (a : Approved). record a { superseded_at = some now }) rows

-- The unique indexes of accounting_suggestions, for a new row.
abbrev pub collides : ApproveInput → ℕ → Approved → Bool
collides i revision a =
    str_eq a.id i.id
    || (str_eq a.organization_id i.organization_id
        && str_eq a.document_id i.document_id
        && (a.revision == revision || is_null a.superseded_at))

abbrev pub approval_of : Strings → ApproveInput → String → String → ℕ → Approved
approval_of st i name code revision = record {
  id = i.id;
  organization_id = i.organization_id;
  document_id = i.document_id;
  review_id = i.review_id;
  review_revision = i.review_revision;
  revision = revision;
  rule_set_version = i.rule_set_version;
  category_id = i.category_id;
  category_name = name;
  vendor_id = i.vendor_id;
  contact_code = code;
  unmatched_reason = st.trim i.unmatched_reason;
  basis = basis_of i;
  rule_id = i.rule_id;
  rule_version = if str_eq i.rule_id "" then none else some i.rule_version;
  approved_by = i.actor_id;
  approved_at = i.approved_at;
  superseded_at = none;
}

abbrev pub approval_event : ApproveInput → ℕ → AuditEvent
approval_event i old = record {
  organization_id = i.organization_id;
  actor_user_id = i.actor_id;
  event_type = "accounting.suggestion.approve";
  target_id = i.id;
  request_id = i.request_id;
  occurred_at = i.approved_at;
  metadata =
      ("old_revision", old)
      ∷ ("new_revision", old + 1)
      ∷ ("review_revision", i.review_revision)
      ∷ ("rule_set_version", i.rule_set_version)
      ∷ [];
  matching_rule_id = i.rule_id;
}

unfoldable pub approve : Strings → Bool → ApproveInput → Store → Tx Error Store
approve st enabled i s = do
  guard (valid_approval st i) invalid
  guard (valid_rule i) invalid
  guard (manages i.actor_id i.organization_id s) forbidden
  guard (is_kept (query_row (document_at i.organization_id i.document_id) s.review.documents))
      not_found
  guard
      (is_reviewed i (
        query_row (standing_review enabled i.organization_id i.document_id s.review)
          s.review.reviews))
      conflict
  guard (version_of i.organization_id s.rule_sets == i.rule_set_version) conflict
  category ←
      or_else (query_row (active_category i.organization_id i.category_id) s.categories) invalid
  code ← or_else (vendor_code i s) invalid
  guard (rule_stands i s) conflict
  let prior = query_row (is_current i.organization_id i.document_id) s.approvals
  guard (revision_of prior == i.expected_revision) conflict
  let rows = supersede prior i.approved_at s.approvals
  guard (not (any (collides i (revision_of prior + 1)) rows)) conflict
  commit (record s {
    approvals = approval_of st i category.name code (revision_of prior + 1) ∷ rows;
    audit = s.audit ++ approval_event i (revision_of prior) ∷ [];
  })
