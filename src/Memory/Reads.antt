-- ===== src/Memory/Reads.antt =====
-- What `MemoryStore` reads of its observations, and what it does to them afterwards.
use analyst_watch.Prelude.{
  ℕ, zero, suc, ◌*◌, String, Bool, false, ◌&&◌, ◌||◌, not, Option, none, some, List, [], ◌∷◌, ◌==◌,
  map, Dict, get, put, sort_by, ltb, eqb, is_some, any, take, find, if◌then◌else◌,
}
use analyst_watch.Result.{Result, ok, err, Exec, value_error, ◌>>=◌, Error}
use analyst_watch.Models.{Observation, is_healthy, RowDiffComparison}
use analyst_watch.Memory.State.{MemoryStore, index_all, number_from, ids_of}

unfoldable pub get_observation : MemoryStore → String → Option Observation
get_observation st observation_id = get observation_id st.observations

-- `self._baseline_ids.get(observation.source_id) == observation.id`
abbrev pub is_baseline_of : MemoryStore → Observation → Bool
is_baseline_of st o = elim (get o.source_id st.baseline_ids) [ none ↦ false | some b ↦ b == o.id ]

abbrev pub with_baseline_marker : MemoryStore → Observation → Observation
with_baseline_marker st o = record o { is_baseline = is_baseline_of st o }

abbrev pub marked : MemoryStore → Option Observation → Option Observation
marked st none = none
marked st (some o) = some (with_baseline_marker st o)

-- `self._observations.get(observation_id) if observation_id else None`
abbrev pub baseline_found : MemoryStore → Option String → Option Observation
baseline_found st none = none
baseline_found st (some b) = if b == "" then none else get b st.observations

unfoldable pub get_baseline : MemoryStore → String → Option Observation
get_baseline st source_id = marked st (baseline_found st (get source_id st.baseline_ids))

-- The key `(observed_at, index)`, compared.
abbrev pub later : ℕ × Observation → ℕ × Observation → Bool
later a b =
    ltb b.1.observed_at a.1.observed_at || (eqb a.1.observed_at b.1.observed_at && ltb b.0 a.0)

-- The order of `sort(..., reverse=True)` on that key.
abbrev pub newest_first : ℕ × Observation → ℕ × Observation → Bool
newest_first a b = not (later b a)

abbrev pub observation_at : MemoryStore → ℕ × Observation → Observation
observation_at st p = with_baseline_marker st p.1

unfoldable pub list_observations : MemoryStore → String → ℕ → Result (List Observation)
list_observations st source_id limit = do
  items ← index_all st.observations (ids_of st.observation_ids source_id)
  ok (map (observation_at st) (take limit (sort_by newest_first (number_from 0 items))))

-- `ids.index(id)`
abbrev pub position : String → List String → Result ℕ
position x [] = err (value_error "x not in list")
position x (y ∷ ys) =
    let rest = position x ys in
    if y == x then ok 0 else elim rest [ ok n ↦ ok (suc n) | err e ↦ err e ]

abbrev pub key_all : List String → List Observation → Result (List (ℕ × Observation))
key_all ids [] = ok []
key_all ids (o ∷ os) = do n ← position o.id ids; rest ← key_all ids os; ok ((n, o) ∷ rest)

-- `max(...)`: the first of the greatest.
abbrev pub latest_of : ℕ × Observation → List (ℕ × Observation) → ℕ × Observation
latest_of best [] = best
latest_of best (p ∷ ps) = latest_of (if later p best then p else best) ps

abbrev pub latest_in : List (ℕ × Observation) → Option Observation
latest_in [] = none
latest_in (p ∷ ps) = some (latest_of p ps).1

unfoldable pub get_latest : MemoryStore → String → Result (Option Observation)
get_latest st source_id = do
  let ids = ids_of st.observation_ids source_id
  items ← index_all st.observations ids
  keyed ← key_all ids items
  ok (elim (latest_in keyed) [ none ↦ none | some o ↦ some (with_baseline_marker st o) ])

abbrev pub is_successful : Observation → Bool
is_successful o = o.available && is_some o.profile

unfoldable pub get_last_successful : MemoryStore → String → Result (Option Observation)
get_last_successful st source_id = do
  items ← list_observations st source_id 100
  ok (find is_successful items)

abbrev pub is_reference : Observation → Bool
is_reference o = is_successful o && is_healthy o.health

-- The loop stops once `limit` references are collected; `room` is what is left of the limit.
abbrev pub collect_references : ℕ → List Observation → List Observation
collect_references room [] = []
collect_references zero (o ∷ os) = if is_reference o then o ∷ [] else []
collect_references (suc zero) (o ∷ os) =
    let rest = collect_references 1 os in if is_reference o then o ∷ [] else rest
collect_references (suc (suc room)) (o ∷ os) =
    let kept = collect_references (suc room) os in
    let skipped = collect_references (suc (suc room)) os in
    if is_reference o then o ∷ kept else skipped

abbrev pub max_ℕ : ℕ → ℕ → ℕ
max_ℕ a b = if ltb a b then b else a

unfoldable pub list_reference_observations : MemoryStore → String → ℕ → Result (List Observation)
list_reference_observations st source_id limit = do
  items ← list_observations st source_id (max_ℕ (limit * 4) 20)
  ok (collect_references limit items)

abbrev pub without_samples : Option RowDiffComparison → Option RowDiffComparison
without_samples none = none
without_samples (some c) =
    some (record c { added_samples = []; removed_samples = []; changed_samples = [] })

-- `strip_row_diff_raw_payloads` of analystwatch/row_diff.py.
unfoldable pub strip_row_diff_raw_payloads : Observation → Observation
strip_row_diff_raw_payloads o = record o {
  row_snapshot = none;
  row_diff = elim o.row_diff [
    | none ↦ none
    | some d ↦
        some (record d {
          previous = without_samples d.previous;
          baseline = without_samples d.baseline;
        })
  ];
}

abbrev pub prune_one : List String → String → Dict Observation → Result (Dict Observation)
prune_one keep observation_id observations =
    if any (λ k. k == observation_id) keep
    then ok observations
    else elim (get observation_id observations) [
      | none ↦ err (Error.key_error observation_id)
      | some o ↦ ok (
          if is_some o.row_snapshot || is_some o.row_diff
          then put observation_id (strip_row_diff_raw_payloads o) observations
          else observations)
    ]

-- The loop over the source's ids; a missing id raises, and what was written before stays.
abbrev pub prune_all : List String → List String → Exec (Dict Observation) (Unit {0})
prune_all keep [] observations = (ok tt, observations)
prune_all keep (observation_id ∷ ids) observations =
    elim (prune_one keep observation_id observations) [
      | ok pruned ↦ prune_all keep ids pruned
      | err e ↦ (err e, observations)
    ]

unfoldable pub prune_row_diff_payloads : String → List String → Exec MemoryStore (Unit {0})
prune_row_diff_payloads source_id keep st =
    let (r, observations) = prune_all keep (ids_of st.observation_ids source_id) st.observations in
    (r, record st { observations = observations })

unfoldable pub promote_baseline : String → String → Exec MemoryStore Observation
promote_baseline source_id observation_id st = elim (get observation_id st.observations) [
  | none ↦ (err (value_error "Observation does not belong to this source"), st)
  | some o ↦
      if not (o.source_id == source_id)
      then (err (value_error "Observation does not belong to this source"), st)
      else if not (is_successful o)
      then (err (value_error "Unavailable observations cannot become a baseline"), st)
      else let st' = record st { baseline_ids = put source_id observation_id st.baseline_ids } in
        (ok (with_baseline_marker st' o), st')
]
