-- ===== src/Samples/Reviews.antt =====
-- Drafts and reviews of a document of the sample organization (api/internal/postgres).
use plaiflowapp.Base.{ℕ, ◌+◌, true, false, ◌≡◌, refl, [], ◌∷◌, none, some, String, arith}
use plaiflowapp.Sql.{commit, rollback, Tx, query_row, select_where, rows_affected, is_committed}
use plaiflowapp.Tenant.{current_role}
use plaiflowapp.Tasks.{Document}
use plaiflowapp.Reviews.{
  OcrRun, Review, ReviewDraft, ReturnInput, Store, Error, save_review, saved_review, supersede,
  revision_of, is_manager,
}
use plaiflowapp.Reviews.Drafts.{
  save_draft, return_review, upsert_draft, is_visible, draft_revision_of,
}
use plaiflowapp.Reviews.Revisions.{draft, Returned, return_review_lem}
use plaiflowapp.Reviews.Saving.{current, OneCurrent, save_review_lem, save_review_stale}
use plaiflowapp.Reviews.Writers.{saving, returning, no_lost_update}
use plaiflowapp.Samples.Tenant.{office}

abbrev invoice : Document
invoice = record {
  id = "d";
  organization_id = "o";
  status = "Available";
  submitted_by_user_id = "b";
  group_restricted = false;
  assignee_user_id = none;
}

abbrev run : OcrRun
run = record {
  job_id = "j";
  organization_id = "o";
  document_id = "d";
  published_at = some 1;
  superseded_at = none;
  deleted_at = none;
}

abbrev pub unread : Store
unread = record {
  tenant = office;
  documents = invoice ∷ [];
  sources = [];
  runs = run ∷ [];
  reviews = [];
  drafts = [];
  history = [];
  returns = [];
  review_tasks = [];
  tasks = [];
  notifications = [];
  audit = [];
}

abbrev proposal : ReviewDraft
proposal = record {
  organization_id = "o";
  document_id = "d";
  ocr_job_id = "j";
  revision = 0;
  values = ("total_amount", "10.00") ∷ [];
  decisions = [];
  updated_by = "b";
  updated_at = 5;
}

abbrev after : Tx Error (Store × ReviewDraft) → Store × ReviewDraft
after (commit x) = x
after (rollback e) = (unread, proposal)

abbrev counted : Tx Error (Store × ℕ) → Store × ℕ
counted (commit x) = x
counted (rollback e) = (unread, 0)

unfoldable drafted : Store × ReviewDraft
unfolding save_draft current_role query_row is_visible upsert_draft
drafted = after (save_draft proposal 0 "r" unread)

drafts : save_draft proposal 0 "r" unread ≡ commit (drafted.0, drafted.1)
unfolding drafted
drafts = refl

abbrev objection : ReturnInput
objection = record {
  id = "x";
  actor_id = "a";
  organization_id = "o";
  document_id = "d";
  ocr_job_id = "j";
  reason_code = "missing_value";
  private_note = "";
  request_id = "q";
  expected_review_revision = 0;
  expected_draft_revision = 1;
  returned_at = 8;
}

abbrev trimmed : String → String
trimmed s = s

unfoldable returned : Store × ℕ
unfolding drafted return_review current_role query_row upsert_draft select_where
returned = counted (return_review trimmed objection drafted.0)

returns : return_review trimmed objection drafted.0 ≡ commit (returned.0, returned.1)
unfolding returned
returns = refl

return_review_lem_example :
    (is_manager (current_role "a" "o" drafted.0.tenant) ≡ true)
    × (draft_revision_of (draft "o" "d" drafted.0) ≡ 1)
    × (returned.1 ≡ 1 + 1)
    × ((u : ReviewDraft) × (draft "o" "d" returned.0 ≡ some u)
        × Returned objection (draft "o" "d" drafted.0) u)
return_review_lem_example =
    return_review_lem trimmed objection returned.1 drafted.0 returned.0 returns

no_lost_update_example : 1 ≡ 0 + 1
no_lost_update_example =
    no_lost_update trimmed "o" "d" 0 1 unread drafted.0 returned.0
      (saving proposal drafted.1 0 "r" drafts) (returning objection returned.1 returns)

abbrev confirmation : Review
confirmation = record {
  id = "v";
  organization_id = "o";
  document_id = "d";
  ocr_job_id = "j";
  revision = 0;
  draft_revision = 0;
  request_id = "q";
  confirmed_by = "a";
  confirmed_at = 9;
  object_key = "k";
  superseded_at = none;
}

unfoldable confirmed : Store × ℕ
unfolding save_review current_role query_row supersede
confirmed = counted (save_review true confirmation 0 unread)

confirms : save_review true confirmation 0 unread ≡ commit (confirmed.0, confirmed.1)
unfolding confirmed
confirms = refl

unread-OneCurrent : OneCurrent unread.reviews
unfolding rows_affected
unread-OneCurrent o d = omega arith

save_review_lem_example :
    (revision_of (current "o" "d" unread) ≡ 0)
    × (confirmed.1 ≡ 0 + 1)
    × (current "o" "d" confirmed.0 ≡ some (saved_review true 0 confirmation))
    × OneCurrent confirmed.0.reviews
save_review_lem_example =
    save_review_lem true confirmation 0 confirmed.1 unread confirmed.0 unread-OneCurrent confirms

save_review_stale_example : is_committed (save_review true confirmation 0 confirmed.0) ≡ false
save_review_stale_example =
    save_review_stale true confirmation confirmation 0 confirmed.1 unread confirmed.0 confirms refl
      refl
