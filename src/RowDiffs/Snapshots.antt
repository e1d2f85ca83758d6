-- ===== src/RowDiffs/Snapshots.antt =====
-- `build_row_snapshot` of analystwatch/row_diff.py.
use analyst_watch.Prelude.{
  ℕ, String, Bool, not, Option, none, some, List, [], ◌∷◌, ◌++◌, length, any, is_empty, map, select,
  ltb, if◌then◌else◌, Dict, get, ◌==◌, concat, decimal,
}
use analyst_watch.Models.{Cell, RowSnapshotRow, RowSnapshot, MonitoringConfig}

-- `[field for field in ks if field not in ds]`
abbrev pub without : List String → List String → List String
without ds ks = select (λ k. not (any (λ d. d == k) ds)) ks

-- `rows[...]` of the dataframe as pandas answers: its columns, its records with each value
-- normalized, whether a cell of some columns is null, and whether rows agree on some columns.
pub record DataFrame : Type 0 where
  pub columns : List String
  pub records : List (Dict Cell)
  pub has_nulls : List String → Bool
  pub has_duplicates : List String → Bool

-- What the code uses of values: `_key_token`, the length of a snapshot's JSON text in bytes, and
-- whether two values are equal. A value that is missing or null is `none`.
pub record Values : Type 0 where
  pub key_token : Dict Cell → String
  pub serialized_size : List String → List String → List RowSnapshotRow → ℕ
  pub same : Option Cell → Option Cell → Bool

-- The fields of a record that are listed, and those of its key.
abbrev pub pick : List String → Dict Cell → Dict Cell
pick [] record_of = []
pick (field ∷ fields) record_of = elim (get field record_of) [
  | none ↦ (field, "null") ∷ pick fields record_of
  | some c ↦ (field, c) ∷ pick fields record_of
]

abbrev pub snapshot_row : List String → List String → Dict Cell → RowSnapshotRow
snapshot_row key_fields value_fields cells = record {
  key = pick key_fields cells;
  values = pick (without key_fields value_fields) cells;
}

-- The loop that appends each field that is not there yet.
abbrev pub distinct_from : List String → List String → List String
distinct_from seen [] = seen
distinct_from seen (field ∷ fields) =
    distinct_from (if any (λ d. d == field) seen then seen else seen ++ field ∷ []) fields

abbrev pub requested_fields : MonitoringConfig → DataFrame → List String
requested_fields config frame =
    if is_empty config.row_diff_fields then frame.columns else config.row_diff_fields

abbrev pub value_fields_of : MonitoringConfig → DataFrame → List String
value_fields_of config frame =
    distinct_from [] (config.unique_keys ++ requested_fields config frame)

abbrev pub rows_of : MonitoringConfig → DataFrame → List RowSnapshotRow
rows_of config frame =
    map (snapshot_row config.unique_keys (value_fields_of config frame)) frame.records

-- `", ".join(names)`
abbrev pub join_names : List String → String
join_names [] = ""
join_names (n ∷ []) = n
join_names (n ∷ m ∷ ns) = concat (n ∷ ", " ∷ join_names (m ∷ ns) ∷ [])

module _ (v : Values) where
  abbrev pub size_of : MonitoringConfig → DataFrame → ℕ
  size_of config frame =
      v.serialized_size config.unique_keys (value_fields_of config frame) (rows_of config frame)

  -- A snapshot, or the reason why there is none.
  unfoldable pub build_row_snapshot :
      DataFrame → MonitoringConfig → Option RowSnapshot × Option String
  build_row_snapshot frame config =
      let keys_missing = without frame.columns config.unique_keys in
      let fields_missing = without frame.columns (requested_fields config frame) in
      if is_empty config.unique_keys
      then (none, some "Configure unique keys to enable row-level comparison.")
      else if not (is_empty keys_missing)
      then (
        none,
        some (concat ("Configured key fields are missing: " ∷ join_names keys_missing ∷ "." ∷ [])),
      )
      else if frame.has_nulls config.unique_keys
      then (none, some "Row-level comparison requires non-null configured key values.")
      else if frame.has_duplicates config.unique_keys
      then (none, some "Row-level comparison requires unique configured key values.")
      else if ltb config.row_diff_max_rows (length frame.records)
      then (
        none,
        some (
            concat (
              "Dataset has "
              ∷ decimal (length frame.records)
              ∷ " rows; row-level comparison limit is "
              ∷ decimal config.row_diff_max_rows
              ∷ "."
              ∷ [])),
      )
      else if not (is_empty fields_missing)
      then (
        none,
        some (
            concat
              ("Configured row-diff fields are missing: " ∷ join_names fields_missing ∷ "." ∷ [])),
      )
      else if ltb config.row_diff_max_columns (length (value_fields_of config frame))
      then (
        none,
        some (
            concat (
              "Comparison would retain "
              ∷ decimal (length (value_fields_of config frame))
              ∷ " columns; row-level comparison limit is "
              ∷ decimal config.row_diff_max_columns
              ∷ "."
              ∷ [])),
      )
      else if ltb config.row_diff_max_snapshot_bytes (size_of config frame)
      then (
        none,
        some (
            concat (
              "Comparison snapshot would use "
              ∷ decimal (size_of config frame)
              ∷ " bytes; limit is "
              ∷ decimal config.row_diff_max_snapshot_bytes
              ∷ " bytes."
              ∷ [])),
      )
      else (
        some (record {
          key_fields = config.unique_keys;
          value_fields = value_fields_of config frame;
          row_count = length (rows_of config frame);
          serialized_bytes = size_of config frame;
          rows = rows_of config frame;
        }),
        none,
      )
