-- ===== src/RowDiffs/Unchanged.antt =====
-- A row snapshot beside itself (analystwatch/row_diff.py).
use analyst_watch.Prelude.{
  ℕ, zero, suc, ◌+◌, String, true, not, ◌≡◌, refl, ◌∙◌, Option, List, [], ◌∷◌, In-sort_by,
  In-select, length-sort_by, select, sort_by, length, str_leb, Dict, keys, contains, arith, inl,
  inr, ap,
}
use analyst_watch.Result.{ok}
use analyst_watch.Models.{RowSnapshot, RowSnapshotRow, Cell}
use analyst_watch.RowDiffs.Snapshots.{Values}
use analyst_watch.RowDiffs.Comparisons.{
  Tally, no_tally, value_at, changes_in, all_fields, compare_common, compare_rows,
  compare_row_snapshots, rows_by_token, samples_of, tokens_only, tokens_both, comparison_of,
}
use analyst_watch.RowDiffs.Partition.{AreKeys, In-keys, index-returns, same_names_refl, count_not}

module _ (v : Values) (equal : (x : Option Cell) → v.same x x ≡ true) where
  no_changes : (row : RowSnapshotRow) (fields : List String) → changes_in v row row fields ≡ []
  no_changes row [] = refl
  no_changes row (field ∷ fields) = rw (equal (value_at field row.values)) (no_changes row fields)

  only_unchanged :
      (limit : ℕ) (d : Dict RowSnapshotRow) (tokens : List String) (t : Tally)
      → AreKeys d tokens
      → compare_common v limit d d tokens t
        ≡ ok (record t { unchanged_count = t.unchanged_count + length tokens })
  unfolding compare_common
  only_unchanged limit d [] t h =
      ap (λ (n : ℕ). ok (record t { unchanged_count = n })) (omega arith)
  only_unchanged limit d (token ∷ tokens) t h =
      let (row, g) = index-returns token d (h token (inl refl)) in
      rw (g, no_changes row (all_fields row row))
        (only_unchanged limit d tokens (record t { unchanged_count = t.unchanged_count + 1 })
            (λ s m. h s (inr m))
          ∙ ap (λ (n : ℕ). ok (record t { unchanged_count = n })) (omega arith))

  none_missing :
      (d : Dict RowSnapshotRow) (ts : List String)
      → AreKeys d ts
      → select (λ t. not (contains t d)) ts ≡ []
  none_missing d [] h = refl
  none_missing d (t ∷ ts) h = rw (h t (inl refl)) (none_missing d ts (λ s m. h s (inr m)))

  nothing_only : (d : Dict RowSnapshotRow) → tokens_only d d ≡ []
  nothing_only d = ap (sort_by str_leb) (none_missing d (keys d) (λ t m. In-keys t d m))

  all_both : (d : Dict RowSnapshotRow) → length (tokens_both d d) ≡ length (keys d)
  all_both d =
      let missing = none_missing d (keys d) (λ t m. In-keys t d m) in
      let none_left : length (select (λ t. not (contains t d)) (keys d)) ≡ 0 = rw missing refl in
      omega (
        arith,
        count_not (λ t. contains t d) (keys d),
        length-sort_by str_leb (select (λ t. contains t d) (keys d)),
      )

  no_samples : (limit : ℕ) (d : Dict RowSnapshotRow) → samples_of limit d [] ≡ ok []
  no_samples zero d = refl
  no_samples (suc limit) d = refl

  abbrev unchanged : ℕ → Tally
  unchanged n = record no_tally { unchanged_count = n }

  compare_rows_self :
      (d : Dict RowSnapshotRow) (id label : String) (limit : ℕ)
      → compare_rows v d d id label limit
        ≡ ok (comparison_of [] [] id label (unchanged (length (keys d))) [] [])
  compare_rows_self d id label limit =
      let both = tokens_both d d in
      let common : AreKeys d both =
        λ t m. (In-select (λ x. contains x d) (keys d) t (In-sort_by str_leb t _ m)).1 in
      let total : 0 + length both ≡ length (keys d) = omega (arith, all_both d) in
      rw
        (
          only_unchanged limit d both no_tally common,
          ap (λ ts. samples_of limit d ts) (nothing_only d) ∙ no_samples limit d,
          nothing_only d,
          total,
        )
        refl

-- If a value equals itself, the comparison of a snapshot with itself finds no row added, removed or
-- changed, counts no column, gives no sample, and counts every row of it, with rows of one key taken
-- once, as unchanged.
pub compare_row_snapshots_self :
    (v : Values) (s : RowSnapshot) (id label : String) (limit : ℕ)
    → ((x : Option Cell) → v.same x x ≡ true)
    → compare_row_snapshots v s s id label limit
      ≡ ok (record {
        reference_observation_id = id;
        reference_label = label;
        added_count = 0;
        removed_count = 0;
        changed_count = 0;
        unchanged_count = length (keys (rows_by_token v s));
        changed_columns = [];
        added_samples = [];
        removed_samples = [];
        changed_samples = [];
      })
unfolding compare_row_snapshots
compare_row_snapshots_self v s id label limit equal =
    rw (same_names_refl s.key_fields) (compare_rows_self v equal (rows_by_token v s) id label limit)
