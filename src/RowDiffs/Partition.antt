-- ===== src/RowDiffs/Partition.antt =====
-- How the counts of a row comparison divide the rows of the two snapshots (analystwatch/row_diff.py).
use analyst_watch.Prelude.{
  ℕ, zero, suc, ◌+◌, ◌≤◌, String, Bool, true, false, not, ◌≡◌, refl, sym, ap, Option, none, some,
  List, [], ◌∷◌, In, In-sort_by, In-select, In-take, select, length, length-map, length-append,
  length-sort_by, length-take-le, take, str_leb, ltb, Dict, get, put, contains, keys,
  HasDistinctKeys, HasDistinctKeys-put, ◌==◌, eq_iff, eq_refl, arith, Bool-cases, inl, inr,
  if◌then◌else◌, map,
}
use analyst_watch.Result.{ok}
use analyst_watch.Models.{RowSnapshot, RowSnapshotRow, RowSample, RowDiffComparison, RowValueChange}
use analyst_watch.Memory.{index, index_all}
use analyst_watch.RowDiffs.Snapshots.{Values}
use analyst_watch.RowDiffs.Comparisons.{
  Tally, no_tally, tally_changes, changes_in, all_fields, compare_common, compare_row_snapshots,
  rows_by_token, rows_from, samples_of, sample_of, tokens_only, tokens_both, same_names,
  compare_rows, comparison_of,
}

-- Every token is a key.
abbrev pub AreKeys : Dict RowSnapshotRow → List String → Type 0
AreKeys d tokens = (t : String) → In t tokens → contains t d ≡ true

pub In-keys {ℓ} : {V : Type ℓ} (t : String) (d : Dict V) → In t (keys d) → contains t d ≡ true
unfolding get
In-keys t [] m = elim m [ ]
In-keys t ((k, v) ∷ d) (inl e) = rw (e, eq_refl k) refl
In-keys t ((k, v) ∷ d) (inr m) = let h = In-keys t d m in ground arith

pub index-returns {ℓ} :
    {V : Type ℓ} (t : String) (d : Dict V) → contains t d ≡ true → (v : V) × (index d t ≡ ok v)
index-returns t d h = found (get t d) refl
  where
    found : (g : Option _) → get t d ≡ g → (v : _) × (index d t ≡ ok v)
    found none e = absurd (ground arith)
    found (some v) e = (v, rw (index, e) refl)

pub rows_from-HasDistinctKeys :
    (v : Values) (d : Dict RowSnapshotRow) (rows : List RowSnapshotRow)
    → HasDistinctKeys d
    → HasDistinctKeys (rows_from v d rows)
rows_from-HasDistinctKeys v d [] h = h
rows_from-HasDistinctKeys v d (row ∷ rows) h =
    rows_from-HasDistinctKeys v (put (v.key_token row.key) row d) rows
      (HasDistinctKeys-put (v.key_token row.key) row d h)

-- A test and its negation divide a list.
pub count_not :
    (p : String → Bool) (ts : List String)
    → length (select (λ t. not (p t)) ts) + length (select p ts) ≡ length ts
count_not p [] = omega arith
count_not p (t ∷ ts) = ground (arith, count_not p ts)

none_of : (ts : List String) → length (select (λ t. false) ts) ≡ 0
none_of [] = refl
none_of (t ∷ ts) = none_of ts

module _ {ℓ} {V : Type ℓ} where
  absent_key :
      (k : String) (d : Dict V) → contains k d ≡ false → length (select (λ t. k == t) (keys d)) ≡ 0
  unfolding get
  absent_key k [] h = refl
  absent_key k ((j, w) ∷ d) h = elim (Bool-cases (j == k)) [
    | inl t ↦ absurd (ground arith)
    | inr f ↦ ground (arith, eq_iff k j, eq_iff j k, absent_key k d (rw f at h))
  ]

  -- A key stands once among the keys.
  one_key :
      (k : String) (d : Dict V)
      → HasDistinctKeys d
      → length (select (λ t. k == t) (keys d)) ≡ (if contains k d then 1 else 0)
  unfolding get
  one_key k [] h = refl
  one_key k ((j, w) ∷ d) h = elim (Bool-cases (j == k)) [
    | inl t ↦
        let e : j ≡ k = ground (arith, eq_iff j k) in
        let none_left : get k d ≡ none = rw (← e) h.0 in
        rw (e, eq_refl k, absent_key k d (rw none_left refl)) refl
    | inr f ↦ ground (arith, eq_iff k j, eq_iff j k, one_key k d h.1)
  ]

  -- A new key is one more to look for.
  split_key :
      (k : String) (v : V) (d : Dict V) (ts : List String)
      → get k d ≡ none
      → length (select (λ t. contains t ((k, v) ∷ d)) ts)
        ≡ length (select (λ t. k == t) ts) + length (select (λ t. contains t d) ts)
  unfolding get
  split_key k v d [] h = omega arith
  split_key k v d (t ∷ ts) h = elim (Bool-cases (k == t)) [
    | inl e ↦
        let same : t ≡ k = ground (arith, eq_iff k t) in
        let absent : contains k d ≡ false = rw h refl in
        rw (same, eq_refl k, absent) (omega (arith, split_key k v d ts h))
    | inr f ↦ ground (arith, split_key k v d ts h)
  ]

-- The common keys are as many seen from either side.
pub common_keys :
    (d e : Dict RowSnapshotRow)
    → HasDistinctKeys d
    → HasDistinctKeys e
    → length (select (λ t. contains t e) (keys d)) ≡ length (select (λ t. contains t d) (keys e))
unfolding get
common_keys [] e h k = sym (none_of (keys e))
common_keys ((j, v) ∷ d) e h k =
    ground (arith, common_keys d e h.1 k, split_key j v d (keys e) h.0, one_key j e k)

-- What a loop over common tokens adds to the tally.
pub record Grows (limit : ℕ) (n : ℕ) (t u : Tally) : Type 0 where
  pub counts : u.changed_count + u.unchanged_count ≡ t.changed_count + t.unchanged_count + n
  pub room : length t.changed_samples ≤ limit → length u.changed_samples ≤ limit
  pub samples :
      length t.changed_samples ≤ t.changed_count → length u.changed_samples ≤ u.changed_count

tally_changes-Grows :
    (limit : ℕ) (current : RowSnapshotRow) (changes : Dict RowValueChange) (t : Tally)
    → Grows limit 1 t (tally_changes limit current changes t)
tally_changes-Grows limit current [] t = record {
  counts = omega arith;
  room = λ h. h;
  samples = λ h. h;
}
tally_changes-Grows limit current (c ∷ cs) t =
    let more =
      length-append t.changed_samples (record { key = current.key; changes = c ∷ cs } ∷ []) in
    elim (Bool-cases (ltb (length t.changed_samples) limit)) [
      | inl h ↦ record {
        counts = omega arith;
        room = λ k. ground (arith, more);
        samples = λ k. ground (arith, more);
      }
      | inr f ↦ record {
        counts = omega arith;
        room = λ k. ground arith;
        samples = λ k. ground arith;
      }
    ]

compare_common-Grows :
    (v : Values) (limit : ℕ) (d e : Dict RowSnapshotRow) (tokens : List String) (t : Tally)
    → AreKeys d tokens
    → AreKeys e tokens
    → (u : Tally) × (compare_common v limit d e tokens t ≡ ok u) × Grows limit (length tokens) t u
unfolding compare_common
compare_common-Grows v limit d e [] t h k =
    (t, refl, record { counts = omega arith; room = λ m. m; samples = λ m. m })
compare_common-Grows v limit d e (token ∷ tokens) t h k =
    let (c, g) = index-returns token d (h token (inl refl)) in
    let (r, g') = index-returns token e (k token (inl refl)) in
    let changes = changes_in v c r (all_fields c r) in
    let one = tally_changes-Grows limit c changes t in
    let (u, q, more) =
      compare_common-Grows v limit d e tokens (tally_changes limit c changes t) (λ s m. h s (inr m))
        (λ s m. k s (inr m)) in
    let first = one.counts in
    let second = more.counts in
    (
      u,
      rw (g, g') q,
      record {
        counts = omega arith;
        room = λ m. more.room (one.room m);
        samples = λ m. more.samples (one.samples m);
      },
    )

index_all-returns :
    (d : Dict RowSnapshotRow) (tokens : List String)
    → AreKeys d tokens
    → (rows : List RowSnapshotRow) × (index_all d tokens ≡ ok rows) × (length rows ≡ length tokens)
index_all-returns d [] h = ([], refl, refl)
index_all-returns d (t ∷ ts) h =
    let (r, g) = index-returns t d (h t (inl refl)) in
    let (rows, e, n) = index_all-returns d ts (λ s m. h s (inr m)) in
    (r ∷ rows, rw (g, e) refl, ap suc n)

In-tokens_only : (d e : Dict RowSnapshotRow) → AreKeys d (tokens_only d e)
In-tokens_only d e t m =
    In-keys t d (In-select (λ s. not (contains s e)) (keys d) t (In-sort_by str_leb t _ m)).0

samples_of-returns :
    (limit : ℕ) (d : Dict RowSnapshotRow) (tokens : List String)
    → AreKeys d tokens
    → (found : List RowSample) × (samples_of limit d tokens ≡ ok found)
      × (length found ≤ limit)
      × (length found ≤ length tokens)
samples_of-returns limit d tokens h =
    let (rows, e, n) =
      index_all-returns d (take limit tokens) (λ t m. h t (In-take limit tokens t m)) in
    let size = length-map sample_of rows in
    (
      map sample_of rows,
      rw e refl,
      omega (arith, length-take-le limit tokens),
      omega (arith, length-take limit tokens),
    )
  where
    length-take : (n : ℕ) (ts : List String) → length (take n ts) ≤ length ts
    length-take zero ts = omega arith
    length-take (suc n) [] = omega arith
    length-take (suc n) (t ∷ ts) = omega (arith, length-take n ts)

-- The added, changed and unchanged rows are those of one snapshot, the removed, changed and
-- unchanged rows those of the other, and no list of samples is longer than the limit or its count.
pub record IsPartition (limit current reference : ℕ) (c : RowDiffComparison) : Type 0 where
  pub of_current : c.added_count + c.changed_count + c.unchanged_count ≡ current
  pub of_reference : c.removed_count + c.changed_count + c.unchanged_count ≡ reference
  pub added : (length c.added_samples ≤ limit) × (length c.added_samples ≤ c.added_count)
  pub removed : (length c.removed_samples ≤ limit) × (length c.removed_samples ≤ c.removed_count)
  pub changed : (length c.changed_samples ≤ limit) × (length c.changed_samples ≤ c.changed_count)

compare_rows-IsPartition :
    (v : Values) (d e : Dict RowSnapshotRow) (id label : String) (limit : ℕ)
    → HasDistinctKeys d
    → HasDistinctKeys e
    → (c : RowDiffComparison) × (compare_rows v d e id label limit ≡ ok c)
      × IsPartition limit (length (keys d)) (length (keys e)) c
compare_rows-IsPartition v d e id label limit h k =
    let both = λ (t : String) (m : In t (tokens_both d e)).
      In-select (λ s. contains s e) (keys d) t (In-sort_by str_leb t _ m) in
    let (u, q, g) =
      compare_common-Grows v limit d e (tokens_both d e) no_tally (λ t m. In-keys t d (both t m).0)
        (λ t m. (both t m).1) in
    let (added, a, a1, a2) = samples_of-returns limit d (tokens_only d e) (In-tokens_only d e) in
    let (removed, r, r1, r2) = samples_of-returns limit e (tokens_only e d) (In-tokens_only e d) in
    let counts : u.changed_count + u.unchanged_count ≡ length (tokens_both d e) =
      omega (arith, g.counts) in
    let all_both = length-sort_by str_leb (select (λ t. contains t e) (keys d)) in
    let same = common_keys d e h k in
    (
      comparison_of d e id label u added removed,
      rw (q, a, r) refl,
      record {
        of_current = omega (
          arith,
          count_not (λ t. contains t e) (keys d),
          length-sort_by str_leb (select (λ t. not (contains t e)) (keys d)),
        );
        of_reference = omega (
          arith,
          count_not (λ t. contains t d) (keys e),
          length-sort_by str_leb (select (λ t. not (contains t d)) (keys e)),
        );
        added = (a1, a2);
        removed = (r1, r2);
        changed = (g.room (omega arith), g.samples (omega arith));
      },
    )

pub same_names_refl : (ns : List String) → same_names ns ns ≡ true
same_names_refl [] = refl
same_names_refl (n ∷ ns) = rw (eq_refl n) (same_names_refl ns)

-- Two snapshots with the same key fields are compared without an error. With rows of one key taken
-- once, the added, changed and unchanged rows together are as many as the rows of the current
-- snapshot, and the removed, changed and unchanged ones as many as those of the reference; and each
-- of the three lists of samples is no longer than the limit and than the count it samples.
pub compare_row_snapshots-IsPartition :
    (v : Values) (current reference : RowSnapshot) (id label : String) (limit : ℕ)
    → current.key_fields ≡ reference.key_fields
    → (c : RowDiffComparison) × (compare_row_snapshots v current reference id label limit ≡ ok c)
      × IsPartition limit
          (length (keys (rows_by_token v current)))
          (length (keys (rows_by_token v reference)))
          c
unfolding compare_row_snapshots
compare_row_snapshots-IsPartition v current reference id label limit h =
    let fields : same_names current.key_fields reference.key_fields ≡ true =
      rw h (same_names_refl reference.key_fields) in
    let (c, e, p) =
      compare_rows-IsPartition v (rows_by_token v current) (rows_by_token v reference) id label
        limit (rows_from-HasDistinctKeys v [] current.rows tt)
        (rows_from-HasDistinctKeys v [] reference.rows tt) in
    (c, rw fields e, p)
