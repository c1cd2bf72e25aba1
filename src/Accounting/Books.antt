-- ===== src/Accounting/Books.antt =====
-- The categories, rules and approvals of expenses: the tables, and the commands on categories, of
-- api/internal/postgres/accounting.go (api/migrations/000010_phase8_accounting.up.sql).
-- `trim` is strings.TrimSpace and `lower` the function of Postgres. A refusal by a constraint that
-- has no error of its own is `refused`.
pub mod Rules
pub mod Approving
pub mod Ops
pub mod Versions
pub mod Fresh
pub mod Stale
pub mod Superseding
pub mod Chain
use plaiflowapp.Base.{
  ℕ, ◌+◌, Bool, true, false, not, ◌&&◌, ◌||◌, List, [], ◌∷◌, ◌++◌, Option, none, some, String,
  str_eq, ltb, leb, ◌==◌, if◌then◌else◌, any, length, codes, is_some,
}
use plaiflowapp.Sql.{Tx, commit, rollback, ◌>>=◌, ◌>>◌, guard, update_where, query_row}
use plaiflowapp.Tenant.{current_role}
use plaiflowapp.Reviews
use plaiflowapp.Reviews.{is_manager, is_null}
use plaiflowapp.Accounting.Suggestion.{Rule}

pub record Category : Type 0 where
  pub id : String
  pub organization_id : String
  pub name : String
  pub archived_at : Option ℕ
  pub created_at : ℕ
  pub updated_at : ℕ

-- The columns of business_contacts that accounting reads.
pub record Vendor : Type 0 where
  pub id : String
  pub organization_id : String
  pub contact_code : String
  pub country : String
  pub tax_id : String
  pub branch_code : String
  pub is_vendor : Bool
  pub archived_at : Option ℕ

pub record RuleSet : Type 0 where
  pub organization_id : String
  pub version : ℕ

pub record MappingRule : Type 0 where
  pub rule : Rule
  pub organization_id : String
  pub approved_by : String
  pub approved_at : ℕ
  pub retired_at : Option ℕ

-- A row of accounting_suggestions, which is an approval.
pub record Approved : Type 0 where
  pub id : String
  pub organization_id : String
  pub document_id : String
  pub review_id : String
  pub review_revision : ℕ
  pub revision : ℕ
  pub rule_set_version : ℕ
  pub category_id : String
  pub category_name : String
  pub vendor_id : String
  pub contact_code : String
  pub unmatched_reason : String
  pub basis : String
  pub rule_id : String
  pub rule_version : Option ℕ
  pub approved_by : String
  pub approved_at : ℕ
  pub superseded_at : Option ℕ

pub record AuditEvent : Type 0 where
  pub organization_id : String
  pub actor_user_id : String
  pub event_type : String
  pub target_id : String
  pub request_id : String
  pub occurred_at : ℕ
  pub metadata : List (String × ℕ)
  pub matching_rule_id : String

pub record Store : Type 0 where
  pub review : Reviews.Store
  pub vendors : List Vendor
  pub categories : List Category
  pub rule_sets : List RuleSet
  pub rules : List MappingRule
  pub approvals : List Approved
  pub audit : List AuditEvent

pub data Error : Type 0 where
  invalid conflict forbidden not_found refused : Error

pub record Strings : Type 0 where
  pub trim : String → String
  pub lower : String → String

abbrev pub manages : String → String → Store → Bool
manages user organization s = is_manager (current_role user organization s.review.tenant)

abbrev pub audited : String → String → String → String → ℕ → Store → Store
audited organization actor event target now s = record s {
  audit =
      s.audit
      ++ record {
        organization_id = organization;
        actor_user_id = actor;
        event_type = event;
        target_id = target;
        request_id = "";
        occurred_at = now;
        metadata = [];
        matching_rule_id = "";
      }
        ∷ [];
}

abbrev pub set_of : String → RuleSet → Bool
set_of organization r = str_eq r.organization_id organization

abbrev pub next_version : RuleSet → RuleSet
next_version r = record r { version = r.version + 1 }

-- INSERT … VALUES($1,1) ON CONFLICT(organization_id) DO UPDATE SET version = version + 1
unfoldable pub bump : String → List RuleSet → List RuleSet
bump organization sets =
    if any (set_of organization) sets
    then update_where (set_of organization) next_version sets
    else record { organization_id = organization; version = 1 } ∷ sets

abbrev pub version_in : Option RuleSet → ℕ
version_in none = 0
version_in (some r) = r.version

unfoldable pub version_of : String → List RuleSet → ℕ
version_of organization sets = version_in (query_row (set_of organization) sets)

abbrev pub name_fits : String → Bool
name_fits name = not (str_eq name "") && leb (length (codes name)) 120

abbrev pub category_at : String → String → Category → Bool
category_at organization id c = str_eq c.organization_id organization && str_eq c.id id

-- The unique index on the names of active categories, for a row with this id.
abbrev pub same_name : Strings → String → String → String → Category → Bool
same_name st organization id name c =
    str_eq c.organization_id organization
    && str_eq (st.lower c.name) (st.lower name)
    && is_null c.archived_at
    && not (str_eq c.id id)

unfoldable pub create_category :
    Strings → String → String → String → String → ℕ → Store → Tx Error Store
create_category st user organization id name now s = do
  guard (not (str_eq id "") && name_fits (st.trim name)) invalid
  guard (manages user organization s) forbidden
  guard
      (not (any (λ (c : Category). str_eq c.id id) s.categories)
        && not (any (same_name st organization id (st.trim name)) s.categories))
      conflict
  commit (
      audited organization user "accounting.category.create" id now (record s {
        categories =
            record {
              id = id;
              organization_id = organization;
              name = st.trim name;
              archived_at = none;
              created_at = now;
              updated_at = now;
            }
            ∷ s.categories;
      }))

-- The row is not yet as the command wants it.
abbrev pub toggles : String → String → Bool → Category → Bool
toggles organization id archived c =
    category_at organization id c
    && (if archived then is_null c.archived_at else is_some c.archived_at)

abbrev pub archived_at : Bool → ℕ → Option ℕ
archived_at archived now = if archived then some now else none

-- A restored category must not share its name with an active one.
unfoldable pub set_category_archived :
    Strings → String → String → String → Bool → ℕ → Store → Tx Error Store
set_category_archived st user organization id archived now s = do
  guard (manages user organization s) forbidden
  elim (query_row (toggles organization id archived) s.categories) [
    | none ↦ rollback conflict
    | some c ↦ do
      guard (archived || not (any (same_name st organization id c.name) s.categories)) conflict
      commit (
          audited organization user
            (if archived then "accounting.category.archive" else "accounting.category.restore") id
            now
            (record s {
              categories =
                  update_where (toggles organization id archived)
                    (λ (x : Category). record x {
                      archived_at = archived_at archived now;
                      updated_at = now;
                    })
                    s.categories;
              rule_sets = bump organization s.rule_sets;
            }))
  ]

abbrev pub renames : String → String → String → Category → Bool
renames organization id name c =
    category_at organization id c && is_null c.archived_at && not (str_eq c.name name)

unfoldable pub rename_category :
    Strings → String → String → String → String → ℕ → Store → Tx Error Store
rename_category st user organization id name now s = do
  guard (name_fits (st.trim name)) invalid
  guard (manages user organization s) forbidden
  guard
      (any (renames organization id (st.trim name)) s.categories
        && not (any (same_name st organization id (st.trim name)) s.categories))
      conflict
  commit (
      audited organization user "accounting.category.rename" id now (record s {
        categories =
            update_where (renames organization id (st.trim name))
              (λ (x : Category). record x { name = st.trim name; updated_at = now }) s.categories;
        rule_sets = bump organization s.rule_sets;
      }))
