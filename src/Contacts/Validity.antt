-- ===== src/Contacts/Validity.antt =====
-- What a contact that was normalized satisfies (NormalizeVendor of
-- api/internal/business/business.go).
use plaiflowapp.Base.{◌≤◌, true, false, ◌≡◌, length, text_eq, byte_len}
use plaiflowapp.Contacts.{Contact, is_empty, thailand, thai_fits}

-- The rules of a contact.
pub record IsValid (c : Contact) : Type 0 where
  pub named : 1 ≤ length c.display_name
  pub short : length c.display_name ≤ 240
  pub country : byte_len c.country ≡ 2
  pub thai : text_eq c.country thailand ≡ true → thai_fits c.tax_id c.branch_code ≡ true
  pub branch :
      text_eq c.country thailand ≡ true → is_empty c.tax_id ≡ false → is_empty c.branch_code ≡ false
  pub tax_id : length c.tax_id ≤ 64
  pub vendor : c.vendor ≡ true
