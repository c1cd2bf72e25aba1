-- ===== src/Catalog/Gate.antt =====
-- What the gate of api/internal/plan/catalog.go allows.
use plaiflowapp.Base.{ℕ, ◌≤◌, Bool, true, false, ◌≡◌, refl, none, some, false≢true, arith, sym, ◌∙◌}
use plaiflowapp.Catalog.{
  Key, free, starter, business, other, Capability, decision, check, lookup, find, catalog,
  entitlements_of,
}

abbrev pub rank : Key → ℕ
rank free = 1
rank starter = 2
rank business = 3
rank (other name) = 0

-- What the gate answers for the plan `key`.
unfoldable pub allowed_by : Key → Capability → Bool
allowed_by key capability = elim (check (some key) capability) [ none ↦ false | some d ↦ d.allowed ]

allowed_iff : (entitled : Bool) (key : Key) → (decision entitled key).allowed ≡ entitled
allowed_iff true key = refl
allowed_iff false key = refl

-- What Free allows, Starter and Business allow, and what Starter allows, Business allows.
entitlements_grow :
    (capability : Capability)
    → (entitlements_of false false false capability ≡ true
        → entitlements_of true true false capability ≡ true)
      × (entitlements_of true true false capability ≡ true
          → entitlements_of true true true capability ≡ true)
unfolding entitlements_of
entitlements_grow capability = (λ h. ground arith, λ h. ground arith)

-- A plan allows whatever a plan of a lower rank allows.
pub upgrade_keeps :
    (from to : Key) (capability : Capability)
    → rank from ≤ rank to
    → allowed_by from capability ≡ true
    → allowed_by to capability ≡ true
unfolding allowed_by check lookup find catalog
upgrade_keeps (other name) to capability le h = absurd (false≢true h)
upgrade_keeps free (other name) capability le h = absurd (omega (arith, le))
upgrade_keeps starter (other name) capability le h = absurd (omega (arith, le))
upgrade_keeps business (other name) capability le h = absurd (omega (arith, le))
upgrade_keeps free free capability le h = h
upgrade_keeps free starter capability le h =
    allowed_iff _ starter ∙ (entitlements_grow capability).0 (sym (allowed_iff _ free) ∙ h)
upgrade_keeps free business capability le h =
    let (a, b) = entitlements_grow capability in
    allowed_iff _ business ∙ b (a (sym (allowed_iff _ free) ∙ h))
upgrade_keeps starter starter capability le h = h
upgrade_keeps starter business capability le h =
    allowed_iff _ business ∙ (entitlements_grow capability).1 (sym (allowed_iff _ starter) ∙ h)
upgrade_keeps starter free capability le h = absurd (omega (arith, le))
upgrade_keeps business business capability le h = h
upgrade_keeps business free capability le h = absurd (omega (arith, le))
upgrade_keeps business starter capability le h = absurd (omega (arith, le))
