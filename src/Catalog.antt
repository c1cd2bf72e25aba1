-- ===== src/Catalog.antt =====
-- The plans that organizations subscribe to and the gate of capabilities:
-- api/internal/plan/catalog.go, with the capabilities of api/internal/work/work.go. A key or a
-- capability that is none of the constants is `other`; the gate's store is a parameter.
pub mod Gate
use plaiflowapp.Base.{
  ℕ, ◌/◌, ◌≡◌, Bool, true, false, not, List, [], ◌∷◌, Option, none, some, String, str_eq, ltb,
  if◌then◌else◌,
}

pub data Key : Type 0 where
  free starter business : Key
  other : String → Key

pub data Interval : Type 0 where
  monthly six_months yearly : Interval

pub data Capability : Type 0 where
  create_tasks deliver_line use_assistant export_tasks export_tasks_async : Capability
  manage_business_contacts import_business_contacts export_csv export_xlsx export_drive : Capability
  unknown : String → Capability

pub record Price : Type 0 where
  pub interval : Interval
  pub months : ℕ
  pub total_satang : ℕ
  pub effective_month_satang : ℕ
  pub saving_percent : ℕ

-- `prices` and `entitlements` are the maps: `none` is a missing key, and a missing capability is
-- not entitled.
pub record Definition : Type 0 where
  pub key : Key
  pub recommended : Bool
  pub prices : Interval → Price
  pub entitlements : Capability → Bool

abbrev pub key_eq : Key → Key → Bool
key_eq free free = true
key_eq starter starter = true
key_eq business business = true
key_eq (other a) (other b) = str_eq a b
key_eq _ _ = false

unfoldable pub prices_of : ℕ → ℕ → ℕ → Interval → Price
prices_of month six year monthly = record {
  interval = monthly;
  months = 1;
  total_satang = month;
  effective_month_satang = month;
  saving_percent = 0;
}
prices_of month six year six_months = record {
  interval = six_months;
  months = 6;
  total_satang = six;
  effective_month_satang = six / 6;
  saving_percent = if ltb 0 month then 8 else 0;
}
prices_of month six year yearly = record {
  interval = yearly;
  months = 12;
  total_satang = year;
  effective_month_satang = year / 12;
  saving_percent = if ltb 0 month then 17 else 0;
}

unfoldable pub entitlements_of : Bool → Bool → Bool → Capability → Bool
entitlements_of contacts xlsx drive create_tasks = true
entitlements_of contacts xlsx drive deliver_line = true
entitlements_of contacts xlsx drive use_assistant = true
entitlements_of contacts xlsx drive export_tasks = true
entitlements_of contacts xlsx drive manage_business_contacts = true
entitlements_of contacts xlsx drive import_business_contacts = contacts
entitlements_of contacts xlsx drive export_csv = true
entitlements_of contacts xlsx drive export_xlsx = xlsx
entitlements_of contacts xlsx drive export_drive = drive
entitlements_of contacts xlsx drive export_tasks_async = drive
entitlements_of contacts xlsx drive (unknown name) = false

unfoldable pub catalog : List Definition
catalog =
    record {
      key = free;
      recommended = false;
      prices = prices_of 0 0 0;
      entitlements = entitlements_of false false false;
    }
    ∷ record {
      key = starter;
      recommended = false;
      prices = prices_of 19900 109848 199000;
      entitlements = entitlements_of true true false;
    }
    ∷ record {
      key = business;
      recommended = true;
      prices = prices_of 49900 275448 499000;
      entitlements = entitlements_of true true true;
    }
    ∷ []

unfoldable pub find : Key → List Definition → Option Definition
find key [] = none
find key (d ∷ rest) = let found = find key rest in if key_eq d.key key then some d else found

unfoldable pub lookup : Key → Option Definition
unfolding find catalog
lookup key = find key catalog

pub record Decision : Type 0 where
  pub allowed : Bool
  pub reason : String
  pub plan : Key

-- What the gate answers where the plan is known.
abbrev pub decision : Bool → Key → Decision
decision entitled key =
    if not entitled
    then record { allowed = false; reason = "feature_unavailable"; plan = key }
    else record { allowed = true; reason = "included"; plan = key }

-- `Check` with the store's answer for the organization: `none` is its error.
unfoldable pub check : Option Key → Capability → Option Decision
check none capability = none
check (some key) capability = elim (lookup key) [
  | none ↦ some (record { allowed = false; reason = "unknown_plan"; plan = key })
  | some d ↦ some (decision (d.entitlements capability) key)
]
