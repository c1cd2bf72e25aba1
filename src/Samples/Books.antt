-- ===== src/Samples/Books.antt =====
-- Books with a category and a vendor, and an approval over the sample review
-- (api/internal/postgres/accounting.go).
use plaiflowapp.Base.{◌+◌, true, false, ◌≡◌, refl, [], ◌∷◌, none, arith}
use plaiflowapp.Sql.{commit, rollback, Tx, query_row, rows_affected, update_where, is_committed}
use plaiflowapp.Sql.Runs
use plaiflowapp.Tenant.{current_role}
use plaiflowapp.Reviews.{Review}
use plaiflowapp.Accounting.Books.{Category, Vendor, Store, Error, Strings, version_of, bump}
use plaiflowapp.Accounting.Books.Rules.{RuleInput, create_rule}
use plaiflowapp.Accounting.Books.Approving.{
  ApproveInput, approve, valid_approval, valid_rule, vendor_code, rule_stands,
}
use plaiflowapp.Accounting.Books.Ops.{Op, renaming, creating_rule, approving, exec}
use plaiflowapp.Accounting.Books.Fresh.{Revises}
use plaiflowapp.Accounting.Books.Stale.{approve_stale}
use plaiflowapp.Accounting.Books.Chain.{approve_once}
use plaiflowapp.Accounting.Books.Superseding.{UniqueIds, revision}
use plaiflowapp.Samples.Reviews.{unread}

abbrev strings : Strings
strings = record { trim = λ v. v; lower = λ v. v }

abbrev reviewed : Review
reviewed = record {
  id = "e";
  organization_id = "o";
  document_id = "d";
  ocr_job_id = "j";
  revision = 1;
  draft_revision = 0;
  request_id = "q";
  confirmed_by = "a";
  confirmed_at = 5;
  object_key = "k";
  superseded_at = none;
}

abbrev travel : Category
travel = record {
  id = "c";
  organization_id = "o";
  name = "travel";
  archived_at = none;
  created_at = 0;
  updated_at = 0;
}

abbrev railway : Vendor
railway = record {
  id = "v";
  organization_id = "o";
  contact_code = "R1";
  country = "TH";
  tax_id = "";
  branch_code = "";
  is_vendor = true;
  archived_at = none;
}

abbrev books : Store
books = record {
  review = record unread { reviews = reviewed ∷ [] };
  vendors = railway ∷ [];
  categories = travel ∷ [];
  rule_sets = [];
  rules = [];
  approvals = [];
  audit = [];
}

abbrev approval : ApproveInput
approval = record {
  id = "p";
  actor_id = "a";
  organization_id = "o";
  document_id = "d";
  review_id = "e";
  review_revision = 1;
  rule_set_version = 0;
  category_id = "c";
  vendor_id = "v";
  rule_id = "";
  rule_version = 0;
  suggestion_basis = "";
  unmatched_reason = "";
  expected_revision = 0;
  approved_at = 9;
  request_id = "q";
}

abbrev fare_rule : RuleInput
fare_rule = record {
  id = "r";
  actor_id = "a";
  organization_id = "o";
  vendor_id = "v";
  document_type = "receipt";
  category_id = "c";
  approved_at = 10;
}

abbrev ex : Op → Store → Tx Error Store
ex = exec strings true

approve_stale_example :
    is_committed (
      approve strings true approval (
        Runs.run ex (renaming "a" "o" "c" "trips" 12 ∷ []) (
          Runs.perform ex (creating_rule fare_rule) (Runs.run ex (approving approval ∷ []) books))))
    ≡ false
unfolding Revises exec version_of approve create_rule valid_approval valid_rule vendor_code
    rule_stands bump query_row update_where rows_affected current_role is_committed Runs.run
    Runs.perform
approve_stale_example =
    approve_stale strings true approval books (approving approval ∷ []) (creating_rule fare_rule)
      (renaming "a" "o" "c" "trips" 12 ∷ []) tt refl refl refl

abbrev settled : Tx Error Store → Store
settled (commit s) = s
settled (rollback e) = books

unfoldable approved : Store
unfolding approve version_of valid_approval valid_rule vendor_code rule_stands query_row
    current_role
approved = settled (approve strings true approval books)

approves : approve strings true approval books ≡ commit approved
unfolding approved approve version_of valid_approval valid_rule vendor_code rule_stands query_row
    current_role
approves = refl

books-UniqueIds : UniqueIds books.approvals
unfolding rows_affected
books-UniqueIds id = omega arith

approve_once_example :
    (revision "o" "d" books.approvals ≡ 0)
    × (revision "o" "d" approved.approvals ≡ 0 + 1)
    × (is_committed (
          approve strings true
            (record approval { id = "p2"; approved_at = 11 })
            (Runs.run ex (creating_rule fare_rule ∷ []) approved))
        ≡ false)
approve_once_example =
    approve_once strings true approval (record approval { id = "p2"; approved_at = 11 }) books
      approved (creating_rule fare_rule ∷ []) books-UniqueIds approves refl refl refl
