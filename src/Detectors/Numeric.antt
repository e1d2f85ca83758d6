-- ===== src/Detectors/Numeric.antt =====
-- Numeric and categorical drift, and all the detectors together.
use analyst_watch.Prelude.{
  String, Bool, ◌&&◌, ◌||◌, not, Option, none, some, List, [], ◌∷◌, ◌++◌, Dict, get, contains, keys,
  is_empty, or_default, select, any, take, if◌then◌else◌,
}
use analyst_watch.Prelude.Rational.{
  Rational, of_ℕ, ratio, abs, ◌+ℚ◌, ◌-ℚ◌, ◌*ℚ◌, ◌/ℚ◌, ◌<ℚ◌, ◌≤ℚ◌, ◌==ℚ◌,
}
use analyst_watch.Models.{
  warning, critical, Finding, MonitoringConfig, DatasetProfile, ColumnProfile,
}
use analyst_watch.Detectors.Reference.{
  finding, medium_finding, critical_if, historical_reference, median,
}
use analyst_watch.Detectors.Columns.{
  each_column, in_both, column_history, detect_schema, detect_row_count, detect_nulls,
  detect_uniqueness,
}

-- The values that are there.
abbrev pub present {ℓ} : {A : Type ℓ} → List (Option A) → List A
present [] = []
present (o ∷ os) = let rest = present os in elim o [ none ↦ rest | some a ↦ a ∷ rest ]

abbrev pub column_median : ColumnProfile → Option Rational
column_median c = elim c.numeric [ none ↦ none | some s ↦ s.median ]

abbrev pub column_stddev : ColumnProfile → Option Rational
column_stddev c = elim c.numeric [ none ↦ none | some s ↦ s.stddev ]

-- `1e-12`
abbrev pub tiny : Rational
tiny = ratio 1 999999999999

abbrev pub maximum : Rational → Rational → Rational
maximum a b = if a <ℚ b then b else a

-- The factor between two medians of one sign, neither of them tiny.
unfoldable pub drift_factor : Rational → Rational → Option Rational
drift_factor before after =
    if tiny <ℚ abs before && tiny <ℚ abs after && of_ℕ 0 <ℚ before *ℚ after
    then some (maximum (abs (after /ℚ before)) (abs (before /ℚ after)))
    else none

-- The second test, by reference standard deviations.
unfoldable pub median_shift : Rational → Rational → Rational → List Finding
median_shift before after stddev =
    let shift = abs (after -ℚ before) in
    let material = not (tiny <ℚ abs before) || ratio 1 4 ≤ℚ shift /ℚ abs before in
    let z_shift = shift /ℚ stddev in
    if of_ℕ 0 <ℚ stddev && material && of_ℕ 3 ≤ℚ z_shift
    then medium_finding (critical_if (of_ℕ 5 ≤ℚ z_shift)) "numeric_drift" ∷ []
    else []

abbrev pub reference_stddev : Bool → List Rational → Option Rational → Rational
reference_stddev active stddevs own =
    if active && not (is_empty stddevs) then median stddevs else or_default own (of_ℕ 0)

unfoldable pub numeric_drift : MonitoringConfig → Rational → Rational → Rational → List Finding
unfolding drift_factor median_shift
numeric_drift config before after stddev = elim (drift_factor before after) [
  | none ↦ median_shift before after stddev
  | some factor ↦
      if config.warning_numeric_factor ≤ℚ factor
      then (if config.critical_numeric_factor ≤ℚ factor
          then finding critical "numeric_drift"
          else medium_finding warning "numeric_drift")
        ∷ []
      else median_shift before after stddev
]

abbrev pub numeric_change :
    MonitoringConfig → List DatasetProfile → String → ColumnProfile → ColumnProfile → List Finding
numeric_change config history name baseline current = elim (column_median baseline) [
  | none ↦ []
  | some baseline_median ↦ elim (column_median current) [
    | none ↦ []
    | some after ↦
        let medians = present (column_history column_median name history) in
        let (before, active) = historical_reference medians baseline_median config in
        let stddevs = present (column_history column_stddev name history) in
        numeric_drift config before after (reference_stddev active stddevs (column_stddev baseline))
  ]
]

unfoldable pub detect_numeric :
    DatasetProfile → DatasetProfile → MonitoringConfig → List DatasetProfile → List Finding
unfolding numeric_drift
detect_numeric baseline current config history =
    each_column (numeric_change config history) baseline current (in_both baseline current)

abbrev pub frequency : String → Dict Rational → Rational
frequency k d = or_default (get k d) (of_ℕ 0)

abbrev pub sum_differences : Dict Rational → Dict Rational → List String → Rational
sum_differences before after [] = of_ℕ 0
sum_differences before after (k ∷ ks) =
    abs (frequency k before -ℚ frequency k after) +ℚ sum_differences before after ks

-- `set(before) | set(after)`, in some order.
abbrev pub all_keys : Dict Rational → Dict Rational → List String
all_keys before after = keys before ++ select (λ k. not (contains k before)) (keys after)

-- Half the summed differences.
unfoldable pub total_variation : Dict Rational → Dict Rational → Rational
total_variation before after = ratio 1 1 *ℚ sum_differences before after (all_keys before after)

-- `freq >= material and other.get(key, 0.0) == 0` for some key.
abbrev pub lost_category : Rational → Dict Rational → Dict Rational → Bool
lost_category material d other =
    any (λ (e : String × Rational). material ≤ℚ e.1 && frequency e.0 other ==ℚ of_ℕ 0) d

unfoldable pub category_drift : MonitoringConfig → Dict Rational → Dict Rational → List Finding
unfolding total_variation
category_drift config before after =
    let tvd = total_variation before after in
    let disappeared = lost_category config.material_category_frequency before after in
    let appeared = lost_category config.material_category_frequency after before in
    if is_empty (all_keys before after)
      || (not disappeared && not appeared && tvd <ℚ config.warning_category_tvd)
    then []
    else medium_finding (critical_if (config.critical_category_tvd ≤ℚ tvd)) "categorical_drift" ∷ []

abbrev pub category_change :
    MonitoringConfig → String → ColumnProfile → ColumnProfile → List Finding
category_change config name baseline current = elim baseline.category_frequencies [
  | none ↦ []
  | some before ↦ elim current.category_frequencies [
    | none ↦ []
    | some after ↦ category_drift config before after
  ]
]

unfoldable pub detect_categories : DatasetProfile → DatasetProfile → MonitoringConfig → List Finding
unfolding category_drift
detect_categories baseline current config =
    each_column (category_change config) baseline current (in_both baseline current)

unfoldable pub detect_profile_changes :
    DatasetProfile → DatasetProfile → MonitoringConfig → List DatasetProfile → List Finding
detect_profile_changes baseline current config history =
    let recent = take config.history_window_size history in
    detect_schema baseline current
    ++ (detect_row_count baseline current config recent
        ++ (detect_nulls baseline current config recent
            ++ (detect_numeric baseline current config recent
                ++ (detect_categories baseline current config
                    ++ detect_uniqueness baseline current config recent))))
