-- ===== src/Detectors/Severity.antt =====
-- The severities that the detectors give.
use analyst_watch.Prelude.{
  Dict, String, Bool, true, false, ◌≡◌, ◌≢◌, ◌↔◌, Option, none, some, List, [], ◌∷◌, ◌++◌, arith,
  get, All, All-append, if◌then◌else◌,
}
use analyst_watch.Prelude.Rational.{Rational, ◌≤ℚ◌}
use analyst_watch.Models.{
  healthy, warning, critical, Finding, MonitoringConfig, DatasetProfile, ColumnProfile, Instant,
}
use analyst_watch.Detectors.Reference.{
  finding, medium_finding, historical_reference, critical_if, health_from_findings,
  detect_freshness,
}
use analyst_watch.Detectors.Columns.{
  column_history, each_column, type_change, null_increase, key_duplicates, detect_schema,
  detect_row_count, detect_nulls, detect_uniqueness,
}
use analyst_watch.Detectors.Numeric.{
  present, column_median, column_stddev, reference_stddev, drift_factor, numeric_change,
  category_change, numeric_drift, category_drift, median_shift, detect_numeric, detect_categories,
  detect_profile_changes,
}

abbrev pub IsAlarm : Finding → Type 0
IsAlarm f = f.severity ≢ healthy

-- Every finding of the list is Warning or Critical.
unfoldable pub AreAlarms : List Finding → Type 0
AreAlarms fs = All IsAlarm fs

-- The health is Healthy exactly if there is no finding, once all findings are alarms.
pub health_from_alarms :
    (fs : List Finding) → AreAlarms fs → (health_from_findings fs ≡ healthy) ↔ (fs ≡ [])
unfolding health_from_findings AreAlarms
health_from_alarms [] h = ground arith
health_from_alarms (f ∷ fs) h = ground arith

pub no_alarm : AreAlarms []
unfolding AreAlarms
no_alarm = tt

pub alarms-append : (xs ys : List Finding) → AreAlarms xs → AreAlarms ys → AreAlarms (xs ++ ys)
unfolding AreAlarms
alarms-append xs ys h k = All-append IsAlarm xs ys h k

pub critical_alarm : (d : String) → AreAlarms (finding critical d ∷ [])
unfolding AreAlarms
critical_alarm d = (ground arith, tt)

alarm_if : (b c : Bool) (d : String) → AreAlarms (if b then [] else finding (critical_if c) d ∷ [])
unfolding AreAlarms
alarm_if true c d = tt
alarm_if false true d = (ground arith, tt)
alarm_if false false d = (ground arith, tt)

warning_if : (b : Bool) (d : String) → AreAlarms (if b then [] else finding warning d ∷ [])
warning_if true d = no_alarm
warning_if false d = alarm_if false false d

critical_if_not : (b : Bool) (d : String) → AreAlarms (if b then [] else finding critical d ∷ [])
critical_if_not true d = no_alarm
critical_if_not false d = critical_alarm d

either :
    (b : Bool) (x y : List Finding) → AreAlarms x → AreAlarms y → AreAlarms (if b then x else y)
either true x y h k = h
either false x y h k = k

-- What holds of the findings of each column holds of all.
column-AreAlarms :
    (f : ColumnProfile → ColumnProfile → List Finding) (rest : List Finding)
    (x y : Option ColumnProfile)
    → ((u v : ColumnProfile) → AreAlarms (f u v))
    → AreAlarms rest
    → AreAlarms (elim x [ none ↦ rest | some u ↦ elim y [ none ↦ rest | some v ↦ f u v ++ rest ] ])
column-AreAlarms f rest none y h r = r
column-AreAlarms f rest (some u) none h r = r
column-AreAlarms f rest (some u) (some v) h r = alarms-append (f u v) rest (h u v) r

each_column-AreAlarms :
    (f : String → ColumnProfile → ColumnProfile → List Finding) (a b : DatasetProfile)
    (names : List String)
    → ((n : String) (x y : ColumnProfile) → AreAlarms (f n x y))
    → AreAlarms (each_column f a b names)
each_column-AreAlarms f a b [] h = no_alarm
each_column-AreAlarms f a b (n ∷ ns) h =
    column-AreAlarms (f n) (each_column f a b ns) (get n a.columns) (get n b.columns) (h n)
      (each_column-AreAlarms f a b ns h)

pub freshness-AreAlarms :
    (config : MonitoringConfig) (p : DatasetProfile) (m : Option Instant) (at : Instant)
    → AreAlarms (detect_freshness config p m at)
unfolding detect_freshness AreAlarms
freshness-AreAlarms config p m at = ground arith

schema-AreAlarms : (a b : DatasetProfile) → AreAlarms (detect_schema a b)
unfolding detect_schema
schema-AreAlarms a b = alarms-append _ _ (critical_if_not _ "schema") (
    alarms-append _ _ (warning_if _ "schema")
      (each_column-AreAlarms type_change a b _ (λ n x y. warning_if _ "schema")))

row_count-AreAlarms :
    (a b : DatasetProfile) (config : MonitoringConfig) (h : List DatasetProfile)
    → AreAlarms (detect_row_count a b config h)
unfolding detect_row_count
row_count-AreAlarms a b config h =
    either _ _ _ (warning_if _ "row_count") (alarm_if _ _ "row_count")

nulls-AreAlarms :
    (a b : DatasetProfile) (config : MonitoringConfig) (h : List DatasetProfile)
    → AreAlarms (detect_nulls a b config h)
unfolding detect_nulls
nulls-AreAlarms a b config h =
    each_column-AreAlarms (null_increase config h) a b _ (λ n x y. alarm_if _ _ "null_rate")

uniqueness-AreAlarms :
    (a b : DatasetProfile) (config : MonitoringConfig) (h : List DatasetProfile)
    → AreAlarms (detect_uniqueness a b config h)
unfolding detect_uniqueness
uniqueness-AreAlarms a b config h =
    each_column-AreAlarms (key_duplicates config h) a b _ (λ n x y. alarm_if _ _ "uniqueness")

medium_alarm : (c : Bool) (d : String) → AreAlarms (medium_finding (critical_if c) d ∷ [])
unfolding AreAlarms
medium_alarm true d = (ground arith, tt)
medium_alarm false d = (ground arith, tt)

median_shift-AreAlarms :
    (before after stddev : Rational) → AreAlarms (median_shift before after stddev)
unfolding median_shift
median_shift-AreAlarms before after stddev = either _ _ _ (medium_alarm _ "numeric_drift") no_alarm

factor_alarm :
    (b : Bool)
    → AreAlarms (
        (if b then finding critical "numeric_drift" else medium_finding warning "numeric_drift")
        ∷ [])
factor_alarm true = critical_alarm "numeric_drift"
factor_alarm false = medium_alarm false "numeric_drift"

factor-AreAlarms :
    (config : MonitoringConfig) (factor : Option Rational) (rest : List Finding)
    → AreAlarms rest
    → AreAlarms (elim factor [
      | none ↦ rest
      | some f ↦
          if config.warning_numeric_factor ≤ℚ f
          then (if config.critical_numeric_factor ≤ℚ f
              then finding critical "numeric_drift"
              else medium_finding warning "numeric_drift")
            ∷ []
          else rest
    ])
factor-AreAlarms config none rest h = h
factor-AreAlarms config (some f) rest h = either _ _ rest (factor_alarm _) h

numeric_drift-AreAlarms :
    (config : MonitoringConfig) (before after stddev : Rational)
    → AreAlarms (numeric_drift config before after stddev)
unfolding numeric_drift median_shift drift_factor
numeric_drift-AreAlarms config before after stddev =
    factor-AreAlarms config (drift_factor before after) (median_shift before after stddev)
      (median_shift-AreAlarms before after stddev)

numeric_change-AreAlarms :
    (config : MonitoringConfig) (h : List DatasetProfile) (n : String) (x y : ColumnProfile)
    (b : Option Rational) (a : Option Rational)
    → AreAlarms (elim b [
      | none ↦ []
      | some baseline_median ↦ elim a [
        | none ↦ []
        | some after ↦
            let medians = present (column_history column_median n h) in
            let (before, active) = historical_reference medians baseline_median config in
            let stddevs = present (column_history column_stddev n h) in
            numeric_drift config before after (reference_stddev active stddevs (column_stddev x))
      ]
    ])
numeric_change-AreAlarms config h n x y none a = no_alarm
numeric_change-AreAlarms config h n x y (some b) none = no_alarm
numeric_change-AreAlarms config h n x y (some b) (some a) = numeric_drift-AreAlarms config _ a _

numeric-AreAlarms :
    (a b : DatasetProfile) (config : MonitoringConfig) (h : List DatasetProfile)
    → AreAlarms (detect_numeric a b config h)
unfolding detect_numeric
numeric-AreAlarms a b config h =
    each_column-AreAlarms (numeric_change config h) a b _
      (λ n x y. numeric_change-AreAlarms config h n x y (column_median x) (column_median y))

category_drift-AreAlarms :
    (config : MonitoringConfig) (x y : Dict Rational) → AreAlarms (category_drift config x y)
unfolding category_drift
category_drift-AreAlarms config x y = either _ [] _ no_alarm (medium_alarm _ "categorical_drift")

category_change-AreAlarms :
    (config : MonitoringConfig) (x y : Option (Dict Rational))
    → AreAlarms (elim x [
      | none ↦ []
      | some before ↦ elim y [ none ↦ [] | some after ↦ category_drift config before after ]
    ])
category_change-AreAlarms config none y = no_alarm
category_change-AreAlarms config (some x) none = no_alarm
category_change-AreAlarms config (some x) (some y) = category_drift-AreAlarms config x y

categories-AreAlarms :
    (a b : DatasetProfile) (config : MonitoringConfig) → AreAlarms (detect_categories a b config)
unfolding detect_categories
categories-AreAlarms a b config =
    each_column-AreAlarms (category_change config) a b _
      (λ n x y. category_change-AreAlarms config x.category_frequencies y.category_frequencies)

-- Every finding of the six detectors is Warning or Critical.
pub profile_changes-AreAlarms :
    (a b : DatasetProfile) (config : MonitoringConfig) (h : List DatasetProfile)
    → AreAlarms (detect_profile_changes a b config h)
unfolding detect_profile_changes
profile_changes-AreAlarms a b config h = alarms-append _ _ (schema-AreAlarms a b) (
    alarms-append _ _ (row_count-AreAlarms a b config _) (
      alarms-append _ _ (nulls-AreAlarms a b config _) (
        alarms-append _ _ (numeric-AreAlarms a b config _) (
          alarms-append _ _ (categories-AreAlarms a b config)
            (uniqueness-AreAlarms a b config _)))))
