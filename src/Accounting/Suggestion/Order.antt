-- ===== src/Accounting/Suggestion/Order.antt =====
-- The suggestion does not depend on the order in which the rules are read.
use plaiflowapp.Base.{◌≡◌, sym, ◌∙◌, ◌≢◌, List, ◌⊎◌, ◌↔◌, inl, inr, In, String}
use plaiflowapp.Accounting.Suggestion.{Rule, Candidate, suggest}
use plaiflowapp.Accounting.Suggestion.Outcome.{
  Applicable, ForOneType, Outcome, unruled, settled, disputed, suggest-Outcome,
}

-- Two settled outcomes over the same rules name one category.
settled_same :
    {v d : String} (xs : List Rule) (r q : Rule)
    → ((r' : Rule)
        → In r' xs
        → Applicable v d r'
        → (r'.category_id ≡ r.category_id) ⊎ ((r'.document_type ≡ "") × ForOneType r))
    → ((r' : Rule)
        → In r' xs
        → Applicable v d r'
        → (r'.category_id ≡ q.category_id) ⊎ ((r'.document_type ≡ "") × ForOneType q))
    → In r xs
    → In q xs
    → Applicable v d r
    → Applicable v d q
    → r.category_id ≡ q.category_id
settled_same xs r q over_r over_q ir iq ar aq = elim (over_r q iq aq) [
  | inl e ↦ sym e
  | inr (eq, nr) ↦ elim (over_q r ir ar) [ inl e ↦ e | inr (er, nq) ↦ absurd (nq eq) ]
]

-- A settled outcome leaves no room for a dispute.
settled_not_disputed :
    {v d : String} (xs : List Rule) (q r r' : Rule)
    → ((p : Rule)
        → In p xs
        → Applicable v d p
        → (p.category_id ≡ q.category_id) ⊎ ((p.document_type ≡ "") × ForOneType q))
    → In q xs
    → Applicable v d q
    → In r xs
    → In r' xs
    → Applicable v d r
    → Applicable v d r'
    → r.category_id ≢ r'.category_id
    → (ForOneType r ↔ ForOneType r')
    → ((p : Rule) → In p xs → Applicable v d p → ForOneType p → ForOneType r)
    → ⊥
settled_not_disputed xs q r r' over iq aq ir ir' ar ar' n level high = elim (over r ir ar) [
  | inr (e, nq) ↦ high q iq aq nq e
  | inl e ↦ elim (over r' ir' ar') [
    | inr (e', nq) ↦ level.0 (high q iq aq nq) e'
    | inl e' ↦ n (e ∙ sym e')
  ]
]

Outcome-agree :
    {v d : String} {xs : List Rule} {c c' : Candidate}
    → Outcome v d xs c
    → Outcome v d xs c'
    → (c.category_id ≡ c'.category_id) × (c.warnings ≡ c'.warnings)
Outcome-agree {xs = xs} (unruled u e) (unruled u' e') = (rw (e, e'), rw (e, e'))
Outcome-agree {xs = xs} (unruled u e) (settled r i a o b k l m w) = absurd (u r i a)
Outcome-agree {xs = xs} (unruled u e) (disputed r r' i i' a a' n l h e') = absurd (u r i a)
Outcome-agree {xs = xs} (settled r i a o b k l m w) (unruled u e) = absurd (u r i a)
Outcome-agree {xs = xs} (settled r i a o b k l m w) (settled q j a' o' b' k' l' m' w') =
    (k ∙ settled_same xs r q o o' i j a a' ∙ sym k', w ∙ sym w')
Outcome-agree {xs = xs} (settled q j aq o b k l m w) (disputed r r' i i' a a' n lv h e') =
    absurd (settled_not_disputed xs q r r' o j aq i i' a a' n lv h)
Outcome-agree {xs = xs} (disputed r r' i i' a a' n l h e') (unruled u e) = absurd (u r i a)
Outcome-agree {xs = xs} (disputed r r' i i' a a' n lv h e') (settled q j aq o b k l m w) =
    absurd (settled_not_disputed xs q r r' o j aq i i' a a' n lv h)
Outcome-agree {xs = xs} (disputed r r' i i' a a' n l h e) (disputed q q' j j' b b' n' l' h' e') =
    (rw (e, e'), rw (e, e'))

-- An outcome depends only on which rules there are.
Outcome-In :
    {v d : String} {xs ys : List Rule} {c : Candidate}
    → ((r : Rule) → In r xs ↔ In r ys)
    → Outcome v d ys c
    → Outcome v d xs c
Outcome-In same (unruled u e) = unruled (λ r i. u r ((same r).0 i)) e
Outcome-In same (settled r i a o b k l m w) =
    settled r ((same r).1 i) a (λ r' i'. o r' ((same r').0 i')) b k l m w
Outcome-In same (disputed r r' i i' a a' n l h e) =
    disputed r r' ((same r).1 i) ((same r').1 i') a a' n l (λ q iq. h q ((same q).0 iq)) e

-- The suggested category and the warnings do not depend on the order or repetition of the rules.
pub suggest_order :
    (v d : String) (xs ys : List Rule)
    → v ≢ ""
    → ((r : Rule) → In r xs ↔ In r ys)
    → ((suggest v d xs).category_id ≡ (suggest v d ys).category_id)
      × ((suggest v d xs).warnings ≡ (suggest v d ys).warnings)
suggest_order v d xs ys known same =
    Outcome-agree (suggest-Outcome v d xs known) (Outcome-In same (suggest-Outcome v d ys known))
