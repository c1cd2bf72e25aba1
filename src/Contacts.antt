-- ===== src/Contacts.antt =====
-- Business contacts: NormalizeVendor of api/internal/business/business.go, and exportRecord of
-- api/internal/business/spreadsheet.go. strings.TrimSpace, ToUpper and ToLower and unicode.IsSpace
-- are parameters; an error is `none`.
pub mod Validity
pub mod Export
use plaiflowapp.Base.{
  ℕ, zero, suc, ◌+◌, ◌-◌, ◌*◌, ◌%◌, Bool, true, false, not, ◌&&◌, ◌||◌, List, [], ◌∷◌, ◌++◌, Option,
  none, some, ltb, leb, ◌==◌, if◌then◌else◌, all, take, length, get_elem?, map, Text, text_eq,
  byte_len, contains_rune, is_digit,
}

pub record VendorInput : Type 0 where
  pub display_name : Text
  pub contact_code : Text
  pub country : Text
  pub tax_id : Text
  pub branch_code : Text
  pub customer : Bool

pub record Contact : Type 0 where
  pub id : Text
  pub display_name : Text
  pub normalized_name : Text
  pub contact_code : Text
  pub country : Text
  pub tax_id : Text
  pub branch_code : Text
  pub customer : Bool
  pub vendor : Bool

abbrev pub is_empty : Text → Bool
is_empty s = text_eq s []

abbrev pub digits : Text → Bool
digits value = all is_digit value

abbrev pub digit_value : ℕ → ℕ
digit_value c = c - b'0'

-- sum += int(value[index]-'0') * (13 - index)
unfoldable pub weighted : ℕ → Text → ℕ
weighted weight [] = 0
weighted weight (c ∷ s) = digit_value c * weight + weighted (weight - 1) s

unfoldable pub valid_thai_tax_id : Text → Bool
valid_thai_tax_id value = (byte_len value == 13) && digits value && elim (get_elem? value 12) [
  | none ↦ false
  | some c ↦ digit_value c == (11 - weighted 13 (take 12 value) % 11) % 10
]

-- strings.Map that drops each rune of the test.
unfoldable pub drop_runes : (ℕ → Bool) → Text → Text
drop_runes dropped [] = []
drop_runes dropped (c ∷ s) = let rest = drop_runes dropped s in if dropped c then rest else c ∷ rest

abbrev pub compact_tax_id : (Text → Text) → (ℕ → Bool) → Text → Text
compact_tax_id trim_space is_space value =
    drop_runes (λ c. is_space c || (c == b'-')) (trim_space value)

abbrev pub thailand : Text
thailand = b'T' ∷ b'H' ∷ []

abbrev pub head_office : Text
head_office = b'0' ∷ b'0' ∷ b'0' ∷ b'0' ∷ b'0' ∷ []

-- The tests of a Thai contact.
abbrev pub thai_fits : Text → Text → Bool
thai_fits tax_id branch =
    (is_empty tax_id || valid_thai_tax_id tax_id)
    && (is_empty branch || ((byte_len branch == 5) && digits branch))

abbrev pub country_of : (Text → Text) → (Text → Text) → Text → Text
country_of trim_space to_upper value =
    let country = to_upper (trim_space value) in if is_empty country then thailand else country

abbrev pub branch_of : Text → Text → Text → Text
branch_of country tax_id branch =
    if text_eq country thailand && not (is_empty tax_id) && is_empty branch
    then head_office
    else branch

-- One of the tests of `NormalizeVendor` fails, of the input and the normalized fields.
abbrev pub refuses : VendorInput → Text → Text → Text → Text → Bool
refuses input name country tax_id branch =
    contains_rune 0 (
      input.display_name ++ input.contact_code ++ input.country ++ input.tax_id
      ++ input.branch_code)
    || ltb (length name) 1
    || ltb 240 (length name)
    || not (byte_len country == 2)
    || (text_eq country thailand && not (thai_fits tax_id branch))
    || ltb 64 (length tax_id)
    || ltb 32 (length branch)
    || ltb 64 (length input.contact_code)

abbrev pub contact_of : VendorInput → Text → Text → Text → Text → Text → Text → Contact
contact_of input name lower_name code country tax_id branch = record {
  id = [];
  display_name = name;
  normalized_name = lower_name;
  contact_code = code;
  country = country;
  tax_id = tax_id;
  branch_code = branch;
  customer = input.customer;
  vendor = true;
}

unfoldable pub normalize_vendor :
    (Text → Text) → (Text → Text) → (Text → Text) → (ℕ → Bool) → VendorInput → Option Contact
normalize_vendor trim_space to_upper to_lower is_space input =
    let name = trim_space input.display_name in
    let country = country_of trim_space to_upper input.country in
    let tax_id = compact_tax_id trim_space is_space input.tax_id in
    let branch = branch_of country tax_id (trim_space input.branch_code) in
    if refuses input name country tax_id branch
    then none
    else some (
        contact_of input name (to_lower name) (trim_space input.contact_code) country tax_id branch)

-- strings.TrimLeft(value, " \t\r\n")
unfoldable pub trim_left : Text → Text
trim_left [] = []
trim_left (c ∷ s) = if contains_rune c (32 ∷ 9 ∷ 13 ∷ 10 ∷ []) then trim_left s else c ∷ s

-- A rune beyond ASCII is none of the four, and neither is its first byte.
unfoldable pub spreadsheet_formula : Text → Bool
unfolding trim_left
spreadsheet_formula value = elim (trim_left value) [
  | [] ↦ false
  | c ∷ s ↦ contains_rune c (b'=' ∷ b'+' ∷ b'-' ∷ b'@' ∷ [])
]

abbrev pub protected : Text → Text
protected value = if spreadsheet_formula value then b'\'' ∷ value else value

-- "Vendor" and "Customer,Vendor"
abbrev pub vendor_role : Text
vendor_role = b'V' ∷ b'e' ∷ b'n' ∷ b'd' ∷ b'o' ∷ b'r' ∷ []

abbrev pub roles : Bool → Text
roles customer =
    if customer
    then (b'C' ∷ b'u' ∷ b's' ∷ b't' ∷ b'o' ∷ b'm' ∷ b'e' ∷ b'r' ∷ b',' ∷ []) ++ vendor_role
    else vendor_role

abbrev pub columns_of : Contact → List Text
columns_of c =
    c.id
    ∷ c.display_name
    ∷ c.contact_code
    ∷ c.country
    ∷ c.tax_id
    ∷ c.branch_code
    ∷ roles c.customer
    ∷ []

unfoldable pub export_record : Contact → Bool → List Text
export_record contact protect_csv =
    if protect_csv then map protected (columns_of contact) else columns_of contact
