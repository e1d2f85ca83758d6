-- ===== src/DataRules.antt =====
-- analystwatch/data_rules.py. A pandas column is read as the list of its cells, each by what pandas
-- makes of it: whether it is null, its text, and its number. Findings keep no texts.
pub mod Outcomes
use analyst_watch.Prelude.{
  ℕ, String, Bool, true, false, ◌&&◌, ◌||◌, not, Option, none, some, List, [], ◌∷◌, ◌++◌, ◌==◌,
  Dict, get, any, concat, count_if, eqb, if◌then◌else◌,
}
use analyst_watch.Prelude.Rational.{Rational, of_ℕ, ◌<ℚ◌, ◌≤ℚ◌}
use analyst_watch.Models.{
  DataRule, DataRuleKind, not_null, allowed_values, numeric_range, row_count_range, Finding,
}

-- `isna()`, `astype("string")` and `to_numeric(errors="coerce")` of one cell.
pub record CellReading : Type 0 where
  pub is_null : Bool
  pub text : Option String
  pub number : Option Rational

pub record Frame : Type 0 where
  pub row_count : ℕ
  pub columns : Dict (List CellReading)

-- `_failure`, `_row_count_failure` and `_missing_field` differ in their texts alone.
abbrev pub failure : DataRule → Finding
failure rule = record {
  severity = rule.severity;
  detector = concat ("data_rule:" ∷ rule.id ∷ []);
  confidence = some "high";
}

abbrev pub below_minimum : Option Rational → Rational → Bool
below_minimum none q = false
below_minimum (some lo) q = q <ℚ lo

abbrev pub above_maximum : Option Rational → Rational → Bool
above_maximum none q = false
above_maximum (some hi) q = hi <ℚ q

abbrev pub is_allowed : List String → CellReading → Bool
is_allowed allowed c = elim c.text [ none ↦ false | some t ↦ any (λ a. t == a) allowed ]

abbrev pub in_range : DataRule → CellReading → Bool
in_range rule c = elim c.number [
  | none ↦ false
  | some q ↦ not (below_minimum rule.minimum q) && not (above_maximum rule.maximum q)
]

-- Whether one cell satisfies a rule about a field.
abbrev pub accepts : DataRule → DataRuleKind → CellReading → Bool
accepts rule not_null c = not c.is_null
accepts rule allowed_values c = is_allowed rule.allowed c
accepts rule numeric_range c = in_range rule c
accepts rule row_count_range c = true

abbrev pub violations : DataRule → List CellReading → ℕ
violations rule cells = count_if (λ c. not (accepts rule rule.kind c)) cells

abbrev pub row_count_fails : DataRule → ℕ → Bool
row_count_fails rule n = below_minimum rule.minimum (of_ℕ n) || above_maximum rule.maximum (of_ℕ n)

abbrev pub field_fails : DataRule → Frame → Bool
field_fails rule frame = elim rule.field [
  | none ↦ false
  | some field ↦ elim (get field frame.columns) [
    | none ↦ true
    | some cells ↦ not (eqb (violations rule cells) 0)
  ]
]

abbrev pub rule_fails : DataRule → DataRuleKind → Frame → Bool
rule_fails rule row_count_range frame = row_count_fails rule frame.row_count
rule_fails rule not_null frame = field_fails rule frame
rule_fails rule allowed_values frame = field_fails rule frame
rule_fails rule numeric_range frame = field_fails rule frame

unfoldable pub evaluate_data_rules : Frame → List DataRule → List Finding
evaluate_data_rules frame [] = []
evaluate_data_rules frame (rule ∷ rules) =
    let rest = evaluate_data_rules frame rules in
    if rule_fails rule rule.kind frame then failure rule ∷ rest else rest
