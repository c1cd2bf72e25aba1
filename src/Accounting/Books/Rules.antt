-- ===== src/Accounting/Books/Rules.antt =====
-- The rules of expenses: `CreateRule` and `RetireRule` of api/internal/postgres/accounting.go.
use plaiflowapp.Base.{ℕ, Bool, not, ◌&&◌, ◌||◌, ◌∷◌, none, some, String, str_eq, any}
use plaiflowapp.Sql.{Tx, commit, ◌>>◌, guard, update_where}
use plaiflowapp.Reviews.{is_null}
use plaiflowapp.Accounting.Books.{
  Category, Vendor, MappingRule, Store, Error, manages, audited, set_of, next_version, bump,
  version_of, category_at, invalid, conflict, forbidden, refused,
}

abbrev pub active_category : String → String → Category → Bool
active_category organization id c = category_at organization id c && is_null c.archived_at

abbrev pub active_vendor : String → String → Vendor → Bool
active_vendor organization id v =
    str_eq v.organization_id organization && str_eq v.id id && v.is_vendor && is_null v.archived_at

pub record RuleInput : Type 0 where
  pub id : String
  pub actor_id : String
  pub organization_id : String
  pub vendor_id : String
  pub document_type : String
  pub category_id : String
  pub approved_at : ℕ

abbrev pub document_type_fits : String → Bool
document_type_fits t =
    str_eq t "" || str_eq t "receipt" || str_eq t "invoice" || str_eq t "tax_invoice"

abbrev pub rule_at : String → String → MappingRule → Bool
rule_at organization id r =
    str_eq r.organization_id organization && str_eq r.rule.id id && is_null r.retired_at

-- The two statements on accounting_rule_sets amount to those of the other commands.
unfoldable pub create_rule : RuleInput → Store → Tx Error Store
create_rule i s = do
  guard
      (not (str_eq i.id "")
        && not (str_eq i.vendor_id "")
        && not (str_eq i.category_id "")
        && document_type_fits i.document_type)
      invalid
  guard (manages i.actor_id i.organization_id s) forbidden
  guard
      (any (active_vendor i.organization_id i.vendor_id) s.vendors
        && any (active_category i.organization_id i.category_id) s.categories)
      invalid
  guard (not (any (λ (r : MappingRule). str_eq r.rule.id i.id) s.rules)) refused
  let sets = bump i.organization_id s.rule_sets
  commit (
      audited i.organization_id i.actor_id "accounting.rule.approve" i.id i.approved_at (record s {
        rule_sets = sets;
        rules =
            record {
              rule = record {
                id = i.id;
                vendor_id = i.vendor_id;
                document_type = i.document_type;
                category_id = i.category_id;
                version = version_of i.organization_id sets;
              };
              organization_id = i.organization_id;
              approved_by = i.actor_id;
              approved_at = i.approved_at;
              retired_at = none;
            }
            ∷ s.rules;
      }))

unfoldable pub retire_rule : String → String → String → ℕ → Store → Tx Error Store
retire_rule user organization id now s = do
  guard (manages user organization s) forbidden
  guard (any (rule_at organization id) s.rules) conflict
  commit (
      audited organization user "accounting.rule.retire" id now (record s {
        rules =
            update_where (rule_at organization id)
              (λ (r : MappingRule). record r { retired_at = some now }) s.rules;
        rule_sets = update_where (set_of organization) next_version s.rule_sets;
      }))
