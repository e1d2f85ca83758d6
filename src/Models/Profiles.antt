-- ===== src/Models/Profiles.antt =====
-- Profiles, findings, row snapshots and observations of analystwatch/models.py.
use analyst_watch.Prelude.{ℕ, String, Bool, Option, List, Dict}
use analyst_watch.Prelude.Rational.{Rational}
use analyst_watch.Models.Kinds.{HealthStatus}
use analyst_watch.Models.Instants.{Instant}

pub record NumericStats : Type 0 where
  pub minimum : Option Rational
  pub maximum : Option Rational
  pub mean : Option Rational
  pub median : Option Rational
  pub stddev : Option Rational
  pub p05 : Option Rational
  pub p25 : Option Rational
  pub p75 : Option Rational
  pub p95 : Option Rational

pub record ColumnProfile : Type 0 where
  pub dtype : String
  pub null_count : ℕ
  pub null_pct : Rational
  pub unique_count : ℕ
  pub duplicate_pct : Rational
  pub numeric : Option NumericStats
  pub category_frequencies : Option (Dict Rational)

pub record DatasetProfile : Type 0 where
  pub row_count : ℕ
  pub column_count : ℕ
  pub columns : Dict ColumnProfile
  pub latest_date : Option Instant
  pub latest_date_field : Option String

-- The evidence values and the explanation in prose are left out.
pub record Finding : Type 0 where
  pub severity : HealthStatus
  pub detector : String
  pub confidence : Option String

-- A cell after `_normalize_value`, by its JSON text.
abbrev pub Cell : Type 0
Cell = String

pub record RowSnapshotRow : Type 0 where
  pub key : Dict Cell
  pub values : Dict Cell

pub record RowSnapshot : Type 0 where
  pub key_fields : List String
  pub value_fields : List String
  pub row_count : ℕ
  pub serialized_bytes : ℕ
  pub rows : List RowSnapshotRow

pub record RowSample : Type 0 where
  pub key : Dict Cell
  pub values : Dict Cell

pub record RowValueChange : Type 0 where
  pub previous : Option Cell
  pub current : Option Cell

pub record RowChangedSample : Type 0 where
  pub key : Dict Cell
  pub changes : Dict RowValueChange

pub record RowDiffComparison : Type 0 where
  pub reference_observation_id : String
  pub reference_label : String
  pub added_count : ℕ
  pub removed_count : ℕ
  pub changed_count : ℕ
  pub unchanged_count : ℕ
  pub changed_columns : Dict ℕ
  pub added_samples : List RowSample
  pub removed_samples : List RowSample
  pub changed_samples : List RowChangedSample

pub record RowDiffEvidence : Type 0 where
  pub key_fields : List String
  pub snapshot_available : Bool
  pub snapshot_reason : Option String
  pub previous : Option RowDiffComparison
  pub baseline : Option RowDiffComparison

pub record Observation : Type 0 where
  pub id : String
  pub source_id : String
  pub observed_at : Instant
  pub available : Bool
  pub health : HealthStatus
  pub findings : List Finding
  pub profile : Option DatasetProfile
  pub row_snapshot : Option RowSnapshot
  pub row_diff : Option RowDiffEvidence
  pub http_status : Option ℕ
  pub response_ms : Option Rational
  pub source_modified_at : Option Instant
  pub response_etag : Option String
  pub error : Option String
  pub is_baseline : Bool
