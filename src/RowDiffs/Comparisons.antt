-- ===== src/RowDiffs/Comparisons.antt =====
-- `compare_row_snapshots` and `build_row_diff_evidence` of analystwatch/row_diff.py.
use analyst_watch.Prelude.{
  ℕ, ◌+◌, String, Bool, true, false, not, ◌&&◌, ◌||◌, Option, none, some, List, [], ◌∷◌, ◌++◌,
  length, take, map, select, sort_by, ltb, eqb, str_leb, if◌then◌else◌, Dict, get, put, contains,
  keys, ◌==◌,
}
use analyst_watch.Result.{Result, ok, err, value_error, require, ◌>>=◌, ◌>>◌}
use analyst_watch.Models.{
  Cell, RowSnapshotRow, RowSnapshot, RowSample, RowValueChange, RowChangedSample, RowDiffComparison,
  RowDiffEvidence, Observation,
}
use analyst_watch.Memory.{index, index_all}
use analyst_watch.RowDiffs.Snapshots.{Values, without}

-- `row.values.get(field)`
abbrev pub value_at : String → Dict Cell → Option Cell
value_at field values = elim (get field values) [
  | none ↦ none
  | some c ↦ if c == "null" then none else some c
]

abbrev pub all_fields : RowSnapshotRow → RowSnapshotRow → List String
all_fields current reference =
    sort_by str_leb (keys current.values ++ without (keys current.values) (keys reference.values))

module _ (v : Values) where
  -- `{_key_token(row.key): row for row in rows}`
  abbrev pub rows_from : Dict RowSnapshotRow → List RowSnapshotRow → Dict RowSnapshotRow
  rows_from d [] = d
  rows_from d (row ∷ rows) = rows_from (put (v.key_token row.key) row d) rows

  abbrev pub rows_by_token : RowSnapshot → Dict RowSnapshotRow
  rows_by_token snapshot = rows_from [] snapshot.rows

  -- The loop over the fields of a row: what changed.
  abbrev pub changes_in : RowSnapshotRow → RowSnapshotRow → List String → Dict RowValueChange
  changes_in current reference [] = []
  changes_in current reference (field ∷ fields) =
      let rest = changes_in current reference fields in
      let previous_value = value_at field reference.values in
      let current_value = value_at field current.values in
      if v.same previous_value current_value
      then rest
      else (field, record { previous = previous_value; current = current_value }) ∷ rest

-- The variables of the loop over the common rows.
pub record Tally : Type 0 where
  pub changed_columns : Dict ℕ
  pub changed_samples : List RowChangedSample
  pub changed_count : ℕ
  pub unchanged_count : ℕ

abbrev pub count_columns : Dict ℕ → List String → Dict ℕ
count_columns d [] = d
count_columns d (field ∷ fields) =
    count_columns (put field (elim (get field d) [ none ↦ 1 | some n ↦ n + 1 ]) d) fields

-- The end of the loop's body: a row with or without changes.
abbrev pub tally_changes : ℕ → RowSnapshotRow → Dict RowValueChange → Tally → Tally
tally_changes limit current [] t = record t { unchanged_count = t.unchanged_count + 1 }
tally_changes limit current (c ∷ cs) t = record {
  changed_columns = count_columns t.changed_columns (keys (c ∷ cs));
  changed_samples =
      if ltb (length t.changed_samples) limit
      then t.changed_samples ++ record { key = current.key; changes = c ∷ cs } ∷ []
      else t.changed_samples;
  changed_count = t.changed_count + 1;
  unchanged_count = t.unchanged_count;
}

abbrev pub no_tally : Tally
no_tally = record {
  changed_columns = [];
  changed_samples = [];
  changed_count = 0;
  unchanged_count = 0;
}

abbrev pub sample_of : RowSnapshotRow → RowSample
sample_of row = record { key = row.key; values = row.values }

abbrev pub samples_of : ℕ → Dict RowSnapshotRow → List String → Result (List RowSample)
samples_of limit rows tokens = do
  found ← index_all rows (take limit tokens)
  ok (map sample_of found)

-- The order of the key `(-item[1], item[0])`.
abbrev pub most_first : String × ℕ → String × ℕ → Bool
most_first a b = ltb b.1 a.1 || (eqb a.1 b.1 && str_leb a.0 b.0)

abbrev pub same_names : List String → List String → Bool
same_names [] [] = true
same_names (a ∷ as') (b ∷ bs) = a == b && same_names as' bs
same_names _ _ = false

abbrev pub tokens_only : Dict RowSnapshotRow → Dict RowSnapshotRow → List String
tokens_only a b = sort_by str_leb (select (λ t. not (contains t b)) (keys a))

abbrev pub tokens_both : Dict RowSnapshotRow → Dict RowSnapshotRow → List String
tokens_both a b = sort_by str_leb (select (λ t. contains t b) (keys a))

-- `RowDiffComparison(...)`
abbrev pub comparison_of :
    Dict RowSnapshotRow
    → Dict RowSnapshotRow
    → String
    → String
    → Tally
    → List RowSample
    → List RowSample
    → RowDiffComparison
comparison_of current reference reference_observation_id reference_label t added removed = record {
  reference_observation_id = reference_observation_id;
  reference_label = reference_label;
  added_count = length (tokens_only current reference);
  removed_count = length (tokens_only reference current);
  changed_count = t.changed_count;
  unchanged_count = t.unchanged_count;
  changed_columns = sort_by most_first t.changed_columns;
  added_samples = added;
  removed_samples = removed;
  changed_samples = t.changed_samples;
}

module _ (v : Values) where
  -- The loop over the common rows.
  unfoldable pub compare_common :
      ℕ → Dict RowSnapshotRow → Dict RowSnapshotRow → List String → Tally → Result Tally
  compare_common limit current reference [] t = ok t
  compare_common limit current reference (token ∷ tokens) t = do
    current_row ← index current token
    reference_row ← index reference token
    compare_common limit current reference tokens (
        tally_changes limit current_row
          (changes_in v current_row reference_row (all_fields current_row reference_row)) t)

  abbrev pub compare_rows :
      Dict RowSnapshotRow → Dict RowSnapshotRow → String → String → ℕ → Result RowDiffComparison
  compare_rows current reference reference_observation_id reference_label sample_limit = do
    t ← compare_common sample_limit current reference (tokens_both current reference) no_tally
    added ← samples_of sample_limit current (tokens_only current reference)
    removed ← samples_of sample_limit reference (tokens_only reference current)
    ok (comparison_of current reference reference_observation_id reference_label t added removed)

  unfoldable pub compare_row_snapshots :
      RowSnapshot → RowSnapshot → String → String → ℕ → Result RowDiffComparison
  compare_row_snapshots current reference reference_observation_id reference_label sample_limit = do
    require (same_names current.key_fields reference.key_fields)
        (value_error "Row snapshots use different key fields")
    compare_rows (rows_by_token v current) (rows_by_token v reference) reference_observation_id
        reference_label sample_limit

  -- `except ValueError: pass`
  abbrev pub kept : Result RowDiffComparison → Result (Option RowDiffComparison)
  kept (ok c) = ok (some c)
  kept (err (value_error m)) = ok none
  kept (err e) = err e

  abbrev pub snapshot_of : Option Observation → Option RowSnapshot
  snapshot_of none = none
  snapshot_of (some o) = o.row_snapshot

  abbrev pub id_of : Option Observation → String
  id_of none = ""
  id_of (some o) = o.id

  abbrev pub compared :
      RowSnapshot → Option Observation → String → ℕ → Result (Option RowDiffComparison)
  compared current reference label sample_limit = elim (snapshot_of reference) [
    | none ↦ ok none
    | some snapshot ↦
        kept (compare_row_snapshots current snapshot (id_of reference) label sample_limit)
  ]

  unfoldable pub build_row_diff_evidence :
      Option RowSnapshot
      → Option String
      → List String
      → Option Observation
      → Option Observation
      → ℕ
      → Result RowDiffEvidence
  build_row_diff_evidence none reason key_fields previous_successful baseline sample_limit =
      ok (record {
        key_fields = key_fields;
        snapshot_available = false;
        snapshot_reason = reason;
        previous = none;
        baseline = none;
      })
  build_row_diff_evidence (some current) reason key_fields previous_successful baseline
        sample_limit =
      do
        previous ← compared current previous_successful "previous successful" sample_limit
        active ← compared current baseline "active baseline" sample_limit
        ok (record {
          key_fields = key_fields;
          snapshot_available = true;
          snapshot_reason = reason;
          previous = previous;
          baseline = active;
        })
