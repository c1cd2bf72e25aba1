-- ===== src/Samples/Contacts.antt =====
-- A Thai vendor (api/internal/business/business.go).
use plaiflowapp.Base.{
  ℕ, Bool, true, false, ◌≡◌, refl, [], some, Text, All, codes, Option, none, ◌==◌,
}
use plaiflowapp.Contacts.{
  VendorInput, Contact, normalize_vendor, valid_thai_tax_id, weighted, drop_runes, export_record,
}
use plaiflowapp.Contacts.Export.{IsFormula, GuardedRow, export_record_lem}

abbrev same : Text → Text
same s = s

abbrev is_blank : ℕ → Bool
is_blank c = c == 32

abbrev shop : VendorInput
shop = record {
  display_name = codes "=Shop";
  contact_code = codes "";
  country = codes "";
  tax_id = codes "0-1055-36000-31-3";
  branch_code = codes "";
  customer = true;
}

abbrev no_contact : Contact
no_contact = record {
  id = [];
  display_name = [];
  normalized_name = [];
  contact_code = [];
  country = [];
  tax_id = [];
  branch_code = [];
  customer = false;
  vendor = false;
}

abbrev contact_or : Option Contact → Contact
contact_or none = no_contact
contact_or (some c) = c

unfoldable vendor : Contact
unfolding normalize_vendor valid_thai_tax_id weighted drop_runes
vendor = contact_or (normalize_vendor same same same is_blank shop)

gets_the_head_office : vendor.branch_code ≡ codes "00000"
unfolding vendor
gets_the_head_office = refl

export_record_lem_example :
    All (λ v. ¬ IsFormula v) (export_record vendor true)
    × GuardedRow (export_record vendor false) (export_record vendor true)
export_record_lem_example = export_record_lem vendor
