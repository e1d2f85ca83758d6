-- ===== src/Detectors/Columns.antt =====
-- Schema, row count, null rate and uniqueness.
use analyst_watch.Prelude.{
  String, ◌||◌, not, none, some, List, [], ◌∷◌, ◌++◌, ◌==◌, get, contains, keys, map, is_empty,
  select, sort_by, str_leb, eqb, if◌then◌else◌,
}
use analyst_watch.Prelude.Rational.{of_ℕ, ratio, abs, ◌-ℚ◌, ◌/ℚ◌, ◌<ℚ◌, ◌≤ℚ◌, ◌==ℚ◌}
use analyst_watch.Models.{
  warning, critical, Finding, MonitoringConfig, DatasetProfile, ColumnProfile,
}
use analyst_watch.Detectors.Reference.{finding, critical_if, historical_reference}

-- `sorted(set(a.columns) - set(b.columns))`
abbrev pub only_in : DatasetProfile → DatasetProfile → List String
only_in a b = sort_by str_leb (select (λ k. not (contains k b.columns)) (keys a.columns))

-- `sorted(set(a.columns) & set(b.columns))`
abbrev pub in_both : DatasetProfile → DatasetProfile → List String
in_both a b = sort_by str_leb (select (λ k. contains k b.columns) (keys a.columns))

-- `[f(item.columns[name]) for item in history if name in item.columns]`
abbrev pub column_history {ℓ} :
    {A : Type ℓ} → (ColumnProfile → A) → String → List DatasetProfile → List A
column_history f name [] = []
column_history f name (p ∷ ps) =
    let rest = column_history f name ps in
    elim (get name p.columns) [ none ↦ rest | some c ↦ f c ∷ rest ]

-- The loop over the shared columns, by what one column gives.
abbrev pub each_column :
    (String → ColumnProfile → ColumnProfile → List Finding)
    → DatasetProfile
    → DatasetProfile
    → List String
    → List Finding
each_column f baseline current [] = []
each_column f baseline current (name ∷ names) =
    let rest = each_column f baseline current names in
    elim (get name baseline.columns) [
      | none ↦ rest
      | some before ↦ elim (get name current.columns) [
        | none ↦ rest
        | some after ↦ f name before after ++ rest
      ]
    ]

abbrev pub type_change : String → ColumnProfile → ColumnProfile → List Finding
type_change name before after =
    if before.dtype == after.dtype then [] else finding warning "schema" ∷ []

unfoldable pub detect_schema : DatasetProfile → DatasetProfile → List Finding
detect_schema baseline current =
    (if is_empty (only_in baseline current) then [] else finding critical "schema" ∷ [])
    ++ ((if is_empty (only_in current baseline) then [] else finding warning "schema" ∷ [])
        ++ each_column type_change baseline current (in_both baseline current))

unfoldable pub detect_row_count :
    DatasetProfile → DatasetProfile → MonitoringConfig → List DatasetProfile → List Finding
detect_row_count baseline current config history =
    let values = map (λ (p : DatasetProfile). of_ℕ p.row_count) history in
    let reference = (historical_reference values (of_ℕ baseline.row_count) config).0 in
    if reference ==ℚ of_ℕ 0
    then (if eqb current.row_count 0 then [] else finding warning "row_count" ∷ [])
    else let change = abs (of_ℕ current.row_count -ℚ reference) /ℚ reference in
      if change <ℚ config.warning_row_change_pct
      then []
      else finding (critical_if (config.critical_row_change_pct ≤ℚ change)) "row_count" ∷ []

abbrev pub null_increase :
    MonitoringConfig → List DatasetProfile → String → ColumnProfile → ColumnProfile → List Finding
null_increase config history name baseline current =
    let values = column_history (λ (c : ColumnProfile). c.null_pct) name history in
    let before = (historical_reference values baseline.null_pct config).0 in
    let increase = current.null_pct -ℚ before in
    if increase <ℚ config.warning_null_increase_pct
    then []
    else finding (critical_if (config.critical_null_increase_pct ≤ℚ increase)) "null_rate" ∷ []

unfoldable pub detect_nulls :
    DatasetProfile → DatasetProfile → MonitoringConfig → List DatasetProfile → List Finding
detect_nulls baseline current config history =
    each_column (null_increase config history) baseline current (in_both baseline current)

abbrev pub key_duplicates :
    MonitoringConfig → List DatasetProfile → String → ColumnProfile → ColumnProfile → List Finding
key_duplicates config history name baseline current =
    let values = column_history (λ (c : ColumnProfile). c.duplicate_pct) name history in
    let before = (historical_reference values baseline.duplicate_pct config).0 in
    let after = current.duplicate_pct in
    if after <ℚ ratio 2 99 || (after -ℚ before) <ℚ ratio 2 99
    then []
    else finding (critical_if (ratio 1 9 ≤ℚ after)) "uniqueness" ∷ []

-- A key that either profile lacks is skipped, which `each_column` does.
unfoldable pub detect_uniqueness :
    DatasetProfile → DatasetProfile → MonitoringConfig → List DatasetProfile → List Finding
detect_uniqueness baseline current config history =
    each_column (key_duplicates config history) baseline current config.unique_keys
