-- ===== src/Samples/Accounting.antt =====
-- Category suggestions (api/internal/accounting/suggestion.go).
use plaiflowapp.Base.{◌≡◌, ◌≢◌, ◌↔◌, refl, [], ◌∷◌, inl, inr, String, eq_iff, In, false≢true}
use plaiflowapp.Accounting.Suggestion.{Rule, suggest}
use plaiflowapp.Accounting.Suggestion.Outcome.{Outcome, suggest-Outcome}
use plaiflowapp.Accounting.Suggestion.Order.{suggest_order}

abbrev travel : Rule
travel = record {
  id = "r1";
  vendor_id = "v";
  document_type = "";
  category_id = "travel";
  version = 1;
}

abbrev food : Rule
food = record {
  id = "r2";
  vendor_id = "v";
  document_type = "receipt";
  category_id = "food";
  version = 2;
}

abbrev tools : Rule
tools = record {
  id = "r3";
  vendor_id = "v";
  document_type = "receipt";
  category_id = "tools";
  version = 1;
}

specific_wins : (suggest "v" "receipt" (travel ∷ food ∷ [])).category_id ≡ "food"
unfolding suggest
specific_wins = refl

equal_rank_conflicts : (suggest "v" "receipt" (food ∷ travel ∷ tools ∷ [])).basis ≡ "rule_conflict"
unfolding suggest
equal_rank_conflicts = refl

known_vendor : ◌≢◌ {A = String} "v" ""
known_vendor e = false≢true ((eq_iff "v" "").1 e)

suggest-Outcome_example :
    Outcome "v" "receipt" (travel ∷ food ∷ []) (suggest "v" "receipt" (travel ∷ food ∷ []))
suggest-Outcome_example = suggest-Outcome "v" "receipt" (travel ∷ food ∷ []) known_vendor

swapped : (r : Rule) → In r (travel ∷ food ∷ []) ↔ In r (food ∷ travel ∷ [])
swapped r = (
  elim [ inl e ↦ inr (inl e) | inr (inl e) ↦ inl e | inr (inr e) ↦ absurd e ],
  elim [ inl e ↦ inr (inl e) | inr (inl e) ↦ inl e | inr (inr e) ↦ absurd e ],
)

suggest_order_example :
    ((suggest "v" "receipt" (travel ∷ food ∷ [])).category_id
      ≡ (suggest "v" "receipt" (food ∷ travel ∷ [])).category_id)
    × ((suggest "v" "receipt" (travel ∷ food ∷ [])).warnings
        ≡ (suggest "v" "receipt" (food ∷ travel ∷ [])).warnings)
suggest_order_example =
    suggest_order "v" "receipt" (travel ∷ food ∷ []) (food ∷ travel ∷ []) known_vendor swapped
