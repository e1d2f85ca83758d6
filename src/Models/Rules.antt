-- ===== src/Models/Rules.antt =====
-- `DataRule` of analystwatch/models.py and its validator.
use analyst_watch.Prelude.{
  ◌%◌, ◌-◌, String, Bool, false, ◌||◌, not, Option, none, some, List, [], ◌∷◌, ◌==◌, any, is_empty,
  is_some, is_blank_or_padded, eqb, ltb,
}
use analyst_watch.Prelude.Rational.{Rational, ◌<ℚ◌}
use analyst_watch.Result.{Result, ok, value_error, require, ◌>>◌}
use analyst_watch.Models.Kinds.{
  HealthStatus, DataRuleKind, not_null, allowed_values, numeric_range, row_count_range, is_healthy,
}

pub record DataRule : Type 0 where
  pub id : String
  pub name : String
  pub kind : DataRuleKind
  pub severity : HealthStatus
  pub field : Option String
  pub allowed : List String
  pub minimum : Option Rational
  pub maximum : Option Rational
  pub likely_impact : Option String
  pub suggested_investigation : Option String

-- `len(set(xs)) != len(xs)`
unfoldable pub has_duplicates : List String → Bool
has_duplicates [] = false
has_duplicates (x ∷ xs) = any (λ y. x == y) xs || has_duplicates xs

abbrev pub blank_option : Option String → Bool
blank_option none = false
blank_option (some s) = is_blank_or_padded s

-- `self.minimum is not None and self.maximum is not None and self.minimum > self.maximum`
abbrev pub bounds_crossed : Option Rational → Option Rational → Bool
bounds_crossed (some lo) (some hi) = hi <ℚ lo
bounds_crossed _ _ = false

-- `value < 0 or not float(value).is_integer()`
abbrev pub not_a_count : Option Rational → Bool
not_a_count none = false
not_a_count (some q) =
    ltb q.up q.down || not (eqb ((q.up - q.down) % Prim.Native.Nat.suc q.below) 0)

abbrev pub check_not_null : DataRule → Result DataRule
check_not_null r = do
  require (is_some r.field) (value_error "not_null data rules require field")
  require (not (not (is_empty r.allowed) || is_some r.minimum || is_some r.maximum))
      (value_error "not_null data rules accept only field and severity parameters")
  ok r

abbrev pub check_allowed_values : DataRule → Result DataRule
check_allowed_values r = do
  require (is_some r.field) (value_error "allowed_values data rules require field")
  require (not (is_empty r.allowed))
      (value_error "allowed_values data rules require at least one allowed value")
  require (not (any is_blank_or_padded r.allowed))
      (value_error "allowed_values entries must be non-empty and trimmed")
  require (not (has_duplicates r.allowed))
      (value_error "allowed_values entries must not contain duplicates")
  require (not (is_some r.minimum || is_some r.maximum))
      (value_error "allowed_values data rules do not accept numeric bounds")
  ok r

abbrev pub check_numeric_range : DataRule → Result DataRule
check_numeric_range r = do
  require (is_some r.field) (value_error "numeric_range data rules require field")
  require (is_empty r.allowed) (value_error "numeric_range data rules do not accept allowed_values")
  require (is_some r.minimum || is_some r.maximum)
      (value_error "numeric_range data rules require minimum and/or maximum")
  require (not (bounds_crossed r.minimum r.maximum))
      (value_error "Data rule minimum must not exceed maximum")
  ok r

abbrev pub check_row_count_range : DataRule → Result DataRule
check_row_count_range r = do
  require (not (is_some r.field || not (is_empty r.allowed)))
      (value_error "row_count_range data rules do not accept field or allowed_values")
  require (is_some r.minimum || is_some r.maximum)
      (value_error "row_count_range data rules require minimum and/or maximum")
  require (not (not_a_count r.minimum))
      (value_error "row_count_range minimum must be a non-negative integer")
  require (not (not_a_count r.maximum))
      (value_error "row_count_range maximum must be a non-negative integer")
  require (not (bounds_crossed r.minimum r.maximum))
      (value_error "Data rule minimum must not exceed maximum")
  ok r

abbrev pub check_kind : DataRuleKind → DataRule → Result DataRule
check_kind not_null r = check_not_null r
check_kind allowed_values r = check_allowed_values r
check_kind numeric_range r = check_numeric_range r
check_kind row_count_range r = check_row_count_range r

unfoldable pub validate_contract : DataRule → Result DataRule
validate_contract r = do
  require (not (is_healthy r.severity))
      (value_error "Data rule severity must be Warning or Critical")
  require (not (is_blank_or_padded r.name))
      (value_error "Data rule name must be non-empty and trimmed")
  require (not (blank_option r.field)) (value_error "Data rule field must be non-empty and trimmed")
  require (not (blank_option r.likely_impact))
      (value_error "Data rule likely_impact must be non-empty and trimmed")
  require (not (blank_option r.suggested_investigation))
      (value_error "Data rule suggested_investigation must be non-empty and trimmed")
  check_kind r.kind r
