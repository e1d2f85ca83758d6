-- ===== src/Tests/Snapshots.antt =====
-- Row snapshots of two small tables, and their comparison.
use analyst_watch.Prelude.{
  String, Bool, true, false, ◌≡◌, refl, Option, none, some, List, [], ◌∷◌, Dict, get, put, length,
  concat, eq_refl, ◌==◌, keys,
}
use analyst_watch.Result.{ok}
use analyst_watch.Models.{Cell, MonitoringConfig, RowSnapshot, RowDiffComparison}
use analyst_watch.RowDiffs.Snapshots.{Values, DataFrame, rows_of}
use analyst_watch.RowDiffs.Comparisons.{compare_row_snapshots, compare_common, rows_by_token}
use analyst_watch.RowDiffs.Partition.{IsPartition, compare_row_snapshots-IsPartition}
use analyst_watch.RowDiffs.Unchanged.{compare_row_snapshots_self}
use analyst_watch.Samples.{config}

abbrev cells_text : Dict Cell → String
cells_text [] = ""
cells_text ((k, c) ∷ d) = concat (k ∷ ":" ∷ c ∷ "," ∷ cells_text d ∷ [])

abbrev same_cell : Option Cell → Option Cell → Bool
same_cell none none = true
same_cell (some a) (some b) = a == b
same_cell _ _ = false

abbrev values : Values
values = record {
  key_token = cells_text;
  serialized_size = λ ks fs rows. length rows;
  same = same_cell;
}

same_cell_refl : (x : Option Cell) → same_cell x x ≡ true
same_cell_refl none = refl
same_cell_refl (some a) = eq_refl a

abbrev table : List (Dict Cell) → DataFrame
table records = record {
  columns = "id" ∷ "n" ∷ [];
  records = records;
  has_nulls = λ fields. false;
  has_duplicates = λ fields. false;
}

abbrev keyed : MonitoringConfig
keyed = record config { unique_keys = "id" ∷ [] }

abbrev cells : String → String → Dict Cell
cells i n = ("id", i) ∷ ("n", n) ∷ []

abbrev snapshot : List (Dict Cell) → RowSnapshot
snapshot records = record {
  key_fields = "id" ∷ [];
  value_fields = "id" ∷ "n" ∷ [];
  row_count = length records;
  serialized_bytes = length records;
  rows = rows_of keyed (table records);
}

abbrev before : List (Dict Cell)
before = cells "1" "5" ∷ cells "2" "6" ∷ cells "3" "7" ∷ []

abbrev after : List (Dict Cell)
after = cells "2" "6" ∷ cells "3" "8" ∷ cells "4" "9" ∷ cells "5" "0" ∷ []

compare_row_snapshots-IsPartition_example :
    (c : RowDiffComparison) × (compare_row_snapshots values
        (snapshot after)
        (snapshot before)
        "o1"
        "previous successful"
        1
      ≡ ok c)
    × IsPartition 1
        (length (keys (rows_by_token values (snapshot after))))
        (length (keys (rows_by_token values (snapshot before))))
        c
compare_row_snapshots-IsPartition_example =
    compare_row_snapshots-IsPartition values (snapshot after) (snapshot before) "o1"
      "previous successful" 1 refl

-- Two rows are added, one is removed, one has changed and one has not.
rows_compared :
    compare_row_snapshots values (snapshot after) (snapshot before) "o1" "previous successful" 1
    ≡ ok (record {
      reference_observation_id = "o1";
      reference_label = "previous successful";
      added_count = 2;
      removed_count = 1;
      changed_count = 1;
      unchanged_count = 1;
      changed_columns = ("n", 1) ∷ [];
      added_samples = (record { key = ("id", "4") ∷ []; values = ("n", "9") ∷ [] }) ∷ [];
      removed_samples = (record { key = ("id", "1") ∷ []; values = ("n", "5") ∷ [] }) ∷ [];
      changed_samples =
          (record {
            key = ("id", "3") ∷ [];
            changes = ("n", record { previous = some "7"; current = some "8" }) ∷ [];
          })
          ∷ [];
    })
unfolding compare_row_snapshots compare_common get put concat
rows_compared = refl

compare_row_snapshots_self_example :
    compare_row_snapshots values (snapshot before) (snapshot before) "o1" "active baseline" 5
    ≡ ok (record {
      reference_observation_id = "o1";
      reference_label = "active baseline";
      added_count = 0;
      removed_count = 0;
      changed_count = 0;
      unchanged_count = length (keys (rows_by_token values (snapshot before)));
      changed_columns = [];
      added_samples = [];
      removed_samples = [];
      changed_samples = [];
    })
compare_row_snapshots_self_example =
    compare_row_snapshots_self values (snapshot before) "o1" "active baseline" 5 same_cell_refl
