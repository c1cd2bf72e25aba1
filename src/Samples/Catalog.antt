-- ===== src/Samples/Catalog.antt =====
-- The gate at some plans (api/internal/plan/catalog.go).
use plaiflowapp.Base.{true, false, ◌≡◌, refl, some, arith}
use plaiflowapp.Catalog.{
  starter, business, other, export_xlsx, export_drive, check, lookup, find, catalog,
  entitlements_of,
}
use plaiflowapp.Catalog.Gate.{allowed_by, upgrade_keeps}

unknown_plan :
    check (some (other "Gold")) export_xlsx
    ≡ some (record { allowed = false; reason = "unknown_plan"; plan = other "Gold" })
unfolding check lookup find catalog
unknown_plan = refl

no_drive_for_starters : allowed_by starter export_drive ≡ false
unfolding allowed_by check lookup find catalog entitlements_of
no_drive_for_starters = refl

starter_exports : allowed_by starter export_xlsx ≡ true
unfolding allowed_by check lookup find catalog entitlements_of
starter_exports = refl

upgrade_keeps_example : allowed_by business export_xlsx ≡ true
upgrade_keeps_example = upgrade_keeps starter business export_xlsx (omega arith) starter_exports
