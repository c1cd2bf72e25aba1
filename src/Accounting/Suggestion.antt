-- ===== src/Accounting/Suggestion.antt =====
-- `Suggest` of api/internal/accounting/suggestion.go. Identifiers and document types are only
-- compared; "" is the absent one.
mod Loop
pub mod Outcome
pub mod Order
use plaiflowapp.Base.{
  ℕ, Bool, true, false, not, ◌&&◌, ◌||◌, List, [], ◌∷◌, String, str_eq, ltb, ◌==◌, if◌then◌else◌,
}

pub record Rule : Type 0 where
  pub id : String
  pub vendor_id : String
  pub document_type : String
  pub category_id : String
  pub version : ℕ

pub record Candidate : Type 0 where
  pub category_id : String
  pub rule_id : String
  pub version : ℕ
  pub basis : String
  pub confidence : String
  pub warnings : List String

abbrev pub no_rule : Rule
no_rule = record { id = ""; vendor_id = ""; document_type = ""; category_id = ""; version = 0 }

-- The variables of the loop.
pub record Choice : Type 0 where
  pub best_priority : ℕ
  pub chosen : Rule
  pub conflict : Bool

-- The rule applies to this vendor and document type.
abbrev pub applies : String → String → Rule → Bool
applies vendor_id document_type rule = not (
    not (str_eq rule.vendor_id vendor_id)
    || str_eq rule.category_id ""
    || (not (str_eq rule.document_type "") && not (str_eq rule.document_type document_type)))

abbrev pub priority : Rule → ℕ
priority rule = if str_eq rule.document_type "" then 1 else 2

-- One round of the loop for a rule that applies.
unfoldable pub consider : Rule → Choice → Choice
consider rule c =
    if ltb c.best_priority (priority rule)
    then record { best_priority = priority rule; chosen = rule; conflict = false }
    else if (priority rule == c.best_priority) && not (str_eq rule.category_id c.chosen.category_id)
    then record c { conflict = true }
    else c

pub choose : String → String → List Rule → Choice → Choice
choose vendor_id document_type [] c = c
choose vendor_id document_type (rule ∷ rules) c =
    choose vendor_id document_type rules
      (if applies vendor_id document_type rule then consider rule c else c)

abbrev pub empty_candidate : String → List String → Candidate
empty_candidate basis warnings = record {
  category_id = "";
  rule_id = "";
  version = 0;
  basis = basis;
  confidence = "unrated";
  warnings = warnings;
}

-- What follows the loop.
unfoldable pub conclude : Choice → Candidate
conclude c =
    if c.conflict
    then empty_candidate "rule_conflict" ("rule_conflict" ∷ [])
    else if c.best_priority == 0
    then empty_candidate "no_rule" ("category_unmatched" ∷ [])
    else record {
      category_id = c.chosen.category_id;
      rule_id = c.chosen.id;
      version = c.chosen.version;
      basis =
          if c.best_priority == 2
          then "approved_vendor_document_type"
          else "approved_vendor_default";
      confidence = "unrated";
      warnings = [];
    }

unfoldable pub suggest : String → String → List Rule → Candidate
unfolding choose conclude consider
suggest vendor_id document_type rules =
    if str_eq vendor_id ""
    then empty_candidate "no_rule" ("vendor_unmatched" ∷ "category_unmatched" ∷ [])
    else conclude (
        choose vendor_id document_type rules
          (record { best_priority = 0; chosen = no_rule; conflict = false }))
