-- ===== src/RowDiffs/Limits.antt =====
-- The limits that a row snapshot keeps (analystwatch/row_diff.py).
use analyst_watch.Prelude.{◌≤◌, String, true, false, ◌≡◌, In, length, any, is_empty, ◌==◌}
use analyst_watch.Models.{RowSnapshot, MonitoringConfig}
use analyst_watch.RowDiffs.Snapshots.{DataFrame, requested_fields}

-- A snapshot has all rows of the data, keyed by the configured fields, within the limits.
pub record IsWithin (config : MonitoringConfig) (frame : DataFrame) (s : RowSnapshot) : Type 0 where
  pub keyed : (s.key_fields ≡ config.unique_keys) × (is_empty config.unique_keys ≡ false)
  pub known_keys : (k : String) → In k s.key_fields → any (λ c. c == k) frame.columns ≡ true
  pub known_fields :
      (k : String) → In k (requested_fields config frame) → any (λ c. c == k) frame.columns ≡ true
  pub unique : (frame.has_nulls s.key_fields ≡ false) × (frame.has_duplicates s.key_fields ≡ false)
  pub counted : (s.row_count ≡ length s.rows) × (length s.rows ≡ length frame.records)
  pub rows : s.row_count ≤ config.row_diff_max_rows
  pub columns : length s.value_fields ≤ config.row_diff_max_columns
  pub bytes : s.serialized_bytes ≤ config.row_diff_max_snapshot_bytes
