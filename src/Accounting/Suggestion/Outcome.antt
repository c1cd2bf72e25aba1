-- ===== src/Accounting/Suggestion/Outcome.antt =====
-- What the suggestion says about the approved rules.
use plaiflowapp.Base.{
  true, false, ◌≡◌, sym, ◌∙◌, ◌≢◌, ◌≤◌, ◌<◌, List, [], ◌∷◌, ◌⊎◌, ◌↔◌, inl, inr, arith, In, String,
  str_eq, eq_iff, Bool-cases, ◌==◌, if◌then◌else◌,
}
use native.Mathlib.Decide.{dec_lt}
use plaiflowapp.Accounting.Suggestion.{
  Rule, Candidate, Choice, applies, priority, conclude, suggest, empty_candidate,
}
use plaiflowapp.Accounting.Suggestion.Loop.{Inv, Inv-iff, choose-Inv, start-Inv}

-- A rule of this vendor with a category, for every document type or for this one.
abbrev pub Applicable : String → String → Rule → Type 0
Applicable v d r =
    (r.vendor_id ≡ v) × (r.category_id ≢ "") × ((r.document_type ≡ "") ⊎ (r.document_type ≡ d))

abbrev pub ForOneType : Rule → Type 0
ForOneType r = r.document_type ≢ ""

-- What the candidate says of the rules.
pub data Outcome (v d : String) (rules : List Rule) (c : Candidate) : Type 0 where
  unruled :
      ((r : Rule) → In r rules → ¬ (Applicable v d r))
      → c ≡ empty_candidate "no_rule" ("category_unmatched" ∷ [])
      → Outcome v d rules c
  settled :
      (r : Rule)
      → In r rules
      → Applicable v d r
      → ((r' : Rule)
          → In r' rules
          → Applicable v d r'
          → (r'.category_id ≡ r.category_id) ⊎ ((r'.document_type ≡ "") × ForOneType r))
      → c.basis ≡ (
          if str_eq r.document_type ""
          then "approved_vendor_default"
          else "approved_vendor_document_type")
      → c.category_id ≡ r.category_id
      → c.rule_id ≡ r.id
      → c.version ≡ r.version
      → c.warnings ≡ []
      → Outcome v d rules c
  disputed :
      (r r' : Rule)
      → In r rules
      → In r' rules
      → Applicable v d r
      → Applicable v d r'
      → r.category_id ≢ r'.category_id
      → (ForOneType r ↔ ForOneType r')
      → ((q : Rule) → In q rules → Applicable v d q → ForOneType q → ForOneType r)
      → c ≡ empty_candidate "rule_conflict" ("rule_conflict" ∷ [])
      → Outcome v d rules c

applies-Applicable : (v d : String) (r : Rule) → applies v d r ≡ true → Applicable v d r
applies-Applicable v d r h = ground (
  arith,
  eq_iff r.vendor_id v,
  eq_iff r.category_id "",
  eq_iff r.document_type "",
  eq_iff r.document_type d,
)

Applicable-applies : (v d : String) (r : Rule) → Applicable v d r → applies v d r ≡ true
Applicable-applies v d r h = ground (
  arith,
  eq_iff r.vendor_id v,
  eq_iff r.category_id "",
  eq_iff r.document_type "",
  eq_iff r.document_type d,
)

priority-pos : (r : Rule) → 0 < priority r
priority-pos r = ground arith

priority-eq : (r q : Rule) → priority r ≡ priority q → ForOneType r → ForOneType q
priority-eq r q e h x = h ((eq_iff _ _).0 (ground (arith, (eq_iff q.document_type "").1 x)))

-- A rule that does not rank above `q` is no more specific.
priority-le : (r q : Rule) → priority r ≤ priority q → ForOneType r → ForOneType q
priority-le r q e h x = h ((eq_iff _ _).0 (ground (arith, (eq_iff q.document_type "").1 x)))

-- A rule that ranks below `q` is for every type, and `q` is for one.
priority-lt : (r q : Rule) → priority r < priority q → (r.document_type ≡ "") × ForOneType q
priority-lt r q h =
    ((eq_iff _ _).0 (ground arith), λ x. absurd (ground (arith, (eq_iff q.document_type "").1 x)))

module _ {v d : String} {rules : List Rule} {c : Choice} (h : Inv v d (λ r. In r rules) c) where
  conclude_disputed : c.conflict ≡ true → Outcome v d rules (conclude c)
  unfolding conclude
  conclude_disputed loud =
      let (r, i, a, p, n) = h.differ loud in
      elim h.held [
        | inl z ↦ absurd (omega (arith, priority-pos r))
        | inr (i', a', p') ↦
            disputed r c.chosen i i' (applies-Applicable v d r a)
              (applies-Applicable v d c.chosen a') n
              (priority-eq r c.chosen (p ∙ sym p'), priority-eq c.chosen r (p' ∙ sym p))
              (λ q iq aq. priority-le q r (omega (arith, h.top q iq (Applicable-applies v d q aq))))
              (rw loud)
      ]

  conclude_unruled : c.conflict ≡ false → c.best_priority ≡ 0 → Outcome v d rules (conclude c)
  unfolding conclude
  conclude_unruled quiet z =
      unruled
        (λ r i a. absurd (omega (arith, h.top r i (Applicable-applies v d r a), priority-pos r)))
        (rw (quiet, z))

  conclude_settled :
      c.conflict ≡ false → (c.best_priority == 0) ≡ false → Outcome v d rules (conclude c)
  unfolding conclude
  conclude_settled quiet nz = elim h.held [
    | inl z ↦ absurd (ground arith)
    | inr (i, a, p) ↦
        settled c.chosen i (applies-Applicable v d c.chosen a) others
          (rw (quiet, nz) (ground (arith, p))) (rw (quiet, nz)) (rw (quiet, nz)) (rw (quiet, nz))
          (rw (quiet, nz))
  ]
    where
      others :
          (r' : Rule)
          → In r' rules
          → Applicable v d r'
          → (r'.category_id ≡ c.chosen.category_id)
            ⊎ ((r'.document_type ≡ "") × ForOneType c.chosen)
      others r' i' a' = elim h.held [
        | inl z ↦ absurd (ground arith)
        | inr (i, a, p) ↦ elim (dec_lt (priority r') (priority c.chosen)) [
          | yes low ↦ inr (priority-lt r' c.chosen low)
          | no top ↦ inl (
              h.agree quiet r' i' (Applicable-applies v d r' a')
                (omega (arith, h.top r' i' (Applicable-applies v d r' a'))))
        ]
      ]

-- For a known vendor the suggestion is the category on which the most specific applicable rules
-- agree, no category if no rule applies, and a conflict exactly if the most specific rules differ.
pub suggest-Outcome :
    (v d : String) (rules : List Rule) → v ≢ "" → Outcome v d rules (suggest v d rules)
unfolding suggest
suggest-Outcome v d rules known = rw vendor (
    found (
      Inv-iff (λ r. elim [ inl s ↦ absurd s | inr i ↦ i ]) (λ r i. inr i)
        (choose-Inv rules start-Inv)))
  where
    vendor : str_eq v "" ≡ false
    vendor = ground (arith, eq_iff v "")

    found : {c : Choice} → Inv v d (λ r. In r rules) c → Outcome v d rules (conclude c)
    found {c} h = elim (Bool-cases c.conflict) [
      | inl loud ↦ conclude_disputed h loud
      | inr quiet ↦ elim (Bool-cases (c.best_priority == 0)) [
        | inl z ↦ conclude_unruled h quiet (ground arith)
        | inr nz ↦ conclude_settled h quiet nz
      ]
    ]
