-- ===== src/Samples.antt =====
-- A source, its observations, a candidate and a store, as the tests use them.
use analyst_watch.Prelude.{ℕ, String, true, false, none, some, [], ◌∷◌}
use analyst_watch.Prelude.Rational.{of_ℕ, ratio}
use analyst_watch.Models.{
  HealthStatus, healthy, warning, critical, csv, opened, recovered, eligible, MonitoringConfig,
  SourceDefinition, Observation, NotificationCandidate, DatasetProfile, DataRule, row_count_range,
  not_null,
}
use analyst_watch.Memory.{MemoryStore, empty_store}

abbrev pub floor_rule : DataRule
floor_rule = record {
  id = "rows";
  name = "Enough rows";
  kind = row_count_range;
  severity = warning;
  field = none;
  allowed = [];
  minimum = some (of_ℕ 2);
  maximum = none;
  likely_impact = none;
  suggested_investigation = none;
}

abbrev pub filled_rule : DataRule
filled_rule = record {
  id = "filled";
  name = "Names are there";
  kind = not_null;
  severity = critical;
  field = some "name";
  allowed = [];
  minimum = none;
  maximum = none;
  likely_impact = none;
  suggested_investigation = none;
}

abbrev pub config : MonitoringConfig
config = record {
  expected_refresh_minutes = none;
  monitor_interval_minutes = 60;
  latest_date_field = none;
  infer_latest_date_field = true;
  sheet_name = none;
  json_record_path = none;
  unique_keys = [];
  numeric_fields = [];
  data_rules = floor_rule ∷ filled_rule ∷ [];
  request_header_env = [];
  credential_id = none;
  notification_transitions = opened ∷ recovered ∷ [];
  delivery_retry_minutes = 30;
  request_timeout_seconds = of_ℕ 30;
  history_window_size = 10;
  min_history_observations = 3;
  row_diff_fields = [];
  row_diff_max_rows = 5000;
  row_diff_max_columns = 50;
  row_diff_max_snapshot_bytes = 2000000;
  row_diff_sample_limit = 5;
  row_diff_snapshot_retention = 2;
  warning_row_change_pct = ratio 1 4;
  critical_row_change_pct = ratio 1 1;
  warning_null_increase_pct = ratio 1 19;
  critical_null_increase_pct = ratio 1 4;
  warning_numeric_factor = of_ℕ 2;
  critical_numeric_factor = of_ℕ 5;
  warning_category_tvd = ratio 1 4;
  critical_category_tvd = ratio 1 1;
  material_category_frequency = ratio 1 9;
}

abbrev pub source : SourceDefinition
source = record {
  id = "s";
  workspace_id = "w";
  name = "Sales";
  source_type = csv;
  location = "sales.csv";
  enabled = true;
  config = config;
}

abbrev pub profile : DatasetProfile
profile = record {
  row_count = 4;
  column_count = 0;
  columns = [];
  latest_date = none;
  latest_date_field = none;
}

abbrev pub observation : String → ℕ → HealthStatus → Observation
observation id at health = record {
  id = id;
  source_id = "s";
  observed_at = at;
  available = true;
  health = health;
  findings = [];
  profile = some profile;
  row_snapshot = none;
  row_diff = none;
  http_status = none;
  response_ms = none;
  source_modified_at = none;
  response_etag = none;
  error = none;
  is_baseline = false;
}

abbrev pub o1 : Observation
o1 = observation "o1" 1 healthy

abbrev pub o2 : Observation
o2 = observation "o2" 2 warning

abbrev pub o3 : Observation
o3 = observation "o3" 3 critical

abbrev pub o4 : Observation
o4 = observation "o4" 4 healthy

abbrev pub candidate : NotificationCandidate
candidate = record {
  id = "o2:opened";
  source_id = "s";
  observation_id = "o2";
  transition = opened;
  previous_health = some healthy;
  current_health = warning;
  created_at = 2;
  reason = "Source entered Warning health from a non-incident state.";
  state = eligible;
  evaluated_at = some 2;
  policy_enabled_transitions = opened ∷ recovered ∷ [];
  policy_reason = none;
}

-- Four observations, the first of them the baseline, and the candidate of the second.
abbrev pub store : MemoryStore
store = record empty_store {
  sources = ("s", source) ∷ [];
  observations = ("o1", o1) ∷ ("o2", o2) ∷ ("o3", o3) ∷ ("o4", o4) ∷ [];
  observation_ids = ("s", "o1" ∷ "o2" ∷ "o3" ∷ "o4" ∷ []) ∷ [];
  baseline_ids = ("s", "o1") ∷ [];
  candidates = ("o2:opened", candidate) ∷ [];
  candidate_ids = "o2:opened" ∷ [];
}
