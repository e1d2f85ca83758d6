-- ===== src/Models/Config.antt =====
-- `MonitoringConfig` and `SourceDefinition` of analystwatch/models.py and their validators.
use analyst_watch.Prelude.{
  ℕ, String, Bool, true, false, ◌&&◌, ◌||◌, not, Option, none, some, List, [], ◌∷◌, any, is_empty,
  is_blank_or_padded, leb, ltb, concat, map, Dict,
}
use analyst_watch.Prelude.Rational.{Rational, of_ℕ, ◌<ℚ◌, ◌≤ℚ◌}
use analyst_watch.Result.{Result, ok, value_error, require, ◌>>◌}
use analyst_watch.Models.Kinds.{
  SourceType, microsoft_excel, google_sheets, IncidentTransition, has_transition,
}
use analyst_watch.Models.Rules.{DataRule, has_duplicates}

pub data SheetName : Type 0 where
  named : String → SheetName
  numbered : ℕ → SheetName

pub record MonitoringConfig : Type 0 where
  pub expected_refresh_minutes : Option ℕ
  pub monitor_interval_minutes : ℕ
  pub latest_date_field : Option String
  pub infer_latest_date_field : Bool
  pub sheet_name : Option SheetName
  pub json_record_path : Option String
  pub unique_keys : List String
  pub numeric_fields : List String
  pub data_rules : List DataRule
  pub request_header_env : Dict String
  pub credential_id : Option String
  pub notification_transitions : List IncidentTransition
  pub delivery_retry_minutes : ℕ
  pub request_timeout_seconds : Rational
  pub history_window_size : ℕ
  pub min_history_observations : ℕ
  pub row_diff_fields : List String
  pub row_diff_max_rows : ℕ
  pub row_diff_max_columns : ℕ
  pub row_diff_max_snapshot_bytes : ℕ
  pub row_diff_sample_limit : ℕ
  pub row_diff_snapshot_retention : ℕ
  pub warning_row_change_pct : Rational
  pub critical_row_change_pct : Rational
  pub warning_null_increase_pct : Rational
  pub critical_null_increase_pct : Rational
  pub warning_numeric_factor : Rational
  pub critical_numeric_factor : Rational
  pub warning_category_tvd : Rational
  pub critical_category_tvd : Rational
  pub material_category_frequency : Rational

-- The pattern of the ids and the least lengths of the texts are left out.
pub record SourceDefinition : Type 0 where
  pub id : String
  pub workspace_id : String
  pub name : String
  pub source_type : SourceType
  pub location : String
  pub enabled : Bool
  pub config : MonitoringConfig

within : ℕ → ℕ → ℕ → Bool
within lo hi n = leb lo n && leb n hi

-- `ge=0, le=1`
in_unit_interval : Rational → Bool
in_unit_interval q = of_ℕ 0 ≤ℚ q && q ≤ℚ of_ℕ 1

positive_option : Option ℕ → Bool
positive_option none = true
positive_option (some n) = ltb 0 n

-- The bounds that the fields declare: `gt`, `ge` and `le`. A number that must not be negative is
-- natural, and the length of `credential_id` is left out.
unfoldable pub has_field_bounds : MonitoringConfig → Bool
unfolding within in_unit_interval positive_option
has_field_bounds c =
    positive_option c.expected_refresh_minutes
    && ltb 0 c.monitor_interval_minutes
    && of_ℕ 0 <ℚ c.request_timeout_seconds
    && within 3 50 c.history_window_size
    && within 2 50 c.min_history_observations
    && within 1 50000 c.row_diff_max_rows
    && within 1 200 c.row_diff_max_columns
    && within 1024 25000000 c.row_diff_max_snapshot_bytes
    && leb c.row_diff_sample_limit 100
    && within 1 10 c.row_diff_snapshot_retention
    && of_ℕ 0 ≤ℚ c.warning_row_change_pct
    && of_ℕ 0 ≤ℚ c.critical_row_change_pct
    && of_ℕ 0 ≤ℚ c.warning_null_increase_pct
    && of_ℕ 0 ≤ℚ c.critical_null_increase_pct
    && of_ℕ 1 <ℚ c.warning_numeric_factor
    && of_ℕ 1 <ℚ c.critical_numeric_factor
    && in_unit_interval c.warning_category_tvd
    && in_unit_interval c.critical_category_tvd
    && in_unit_interval c.material_category_frequency

-- `any(not value or value != value.strip() for value in values)`, then the test for duplicates
check_names : String → List String → Result (Unit {0})
unfolding is_blank_or_padded has_duplicates
check_names label values = do
  require (not (any is_blank_or_padded values))
      (value_error (concat (label ∷ " values must be non-empty and trimmed" ∷ [])))
  require (not (has_duplicates values))
      (value_error (concat (label ∷ " must not contain duplicates" ∷ [])))

check_headers : Dict String → Result (Unit {0})
unfolding is_blank_or_padded
check_headers [] = ok tt
check_headers ((header, env_name) ∷ rest) = do
  require (not (is_blank_or_padded header))
      (value_error "request_header_env header names must be non-empty and trimmed")
  require (not (is_blank_or_padded env_name))
      (value_error "request_header_env environment variable names must be non-empty and trimmed")
  check_headers rest

blank_credential : Option String → Bool
unfolding is_blank_or_padded
blank_credential none = false
blank_credential (some s) = is_blank_or_padded s

has_repeated_transition : List IncidentTransition → Bool
has_repeated_transition [] = false
has_repeated_transition (t ∷ ts) = has_transition t ts || has_repeated_transition ts

check_thresholds : MonitoringConfig → Result (Unit {0})
check_thresholds c = do
  require (not (c.critical_row_change_pct <ℚ c.warning_row_change_pct))
      (value_error "warning_row_change_pct must not exceed critical_row_change_pct")
  require (not (c.critical_null_increase_pct <ℚ c.warning_null_increase_pct))
      (value_error "warning_null_increase_pct must not exceed critical_null_increase_pct")
  require (not (c.critical_numeric_factor <ℚ c.warning_numeric_factor))
      (value_error "warning_numeric_factor must not exceed critical_numeric_factor")
  require (not (c.critical_category_tvd <ℚ c.warning_category_tvd))
      (value_error "warning_category_tvd must not exceed critical_category_tvd")
  require (not (ltb c.history_window_size c.min_history_observations))
      (value_error "min_history_observations must not exceed history_window_size")

unfoldable pub validate_threshold_order : MonitoringConfig → Result MonitoringConfig
unfolding check_thresholds check_names check_headers blank_credential has_repeated_transition
validate_threshold_order c = do
  check_thresholds c
  check_names "unique_keys" c.unique_keys
  check_names "numeric_fields" c.numeric_fields
  check_names "row_diff_fields" c.row_diff_fields
  require (not (has_duplicates (map (λ (r : DataRule). r.id) c.data_rules)))
      (value_error "data_rules must not contain duplicate IDs")
  check_headers c.request_header_env
  require (not (blank_credential c.credential_id))
      (value_error "credential_id must be non-empty and trimmed")
  require (not (has_repeated_transition c.notification_transitions))
      (value_error "notification_transitions must not contain duplicates")
  ok c

-- `source_type in {MICROSOFT_EXCEL, GOOGLE_SHEETS}`
abbrev pub takes_credential : SourceType → Bool
takes_credential microsoft_excel = true
takes_credential google_sheets = true
takes_credential _ = false

unfoldable pub validate_stored_credential_binding : SourceDefinition → Result SourceDefinition
validate_stored_credential_binding s = elim s.config.credential_id [
  | none ↦ ok s
  | some c ↦ do
    require (takes_credential s.source_type) (
        value_error "credential_id is supported only for Microsoft Excel and Google Sheets sources")
    require (is_empty s.config.request_header_env) (
        value_error
          "credential_id and request_header_env cannot both configure source authorization")
    ok s
]
