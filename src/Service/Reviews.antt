-- ===== src/Service/Reviews.antt =====
-- Alert reviews, and the review and promotion of a baseline.
use analyst_watch.Prelude.{
  ◌*◌, String, Bool, false, ◌&&◌, not, Option, none, some, List, [], ◌∷◌, ◌++◌, ◌==◌, concat,
  is_some, is_empty, map, select, take, if◌then◌else◌,
}
use analyst_watch.Result.{Result, ok, err, Exec, value_error, key_error}
use analyst_watch.Exec.{pure, ◌>>=◌, ◌>>◌}
use analyst_watch.Models.{
  Observation, ObservationReview, ObservationReviewState, BaselineReview, is_healthy, Instant,
  DateTime, now_or_clock, SourceDefinition,
}
use analyst_watch.Memory.{
  MemoryStore, get_source, get_observation, save_review, get_baseline, get_latest,
  list_observations, is_successful, prune_row_diff_payloads, promote_baseline, max_ℕ,
}

unfoldable pub review_observation :
    Instant
    → String
    → String
    → ObservationReviewState
    → Option DateTime
    → Exec MemoryStore ObservationReview
unfolding save_review get_observation
review_observation clock source_id observation_id state now st =
    elim (get_observation st observation_id) [
      | none ↦ (err (value_error "Observation does not belong to this source"), st)
      | some o ↦
          if not (o.source_id == source_id)
          then (err (value_error "Observation does not belong to this source"), st)
          else if is_healthy o.health
          then (err (value_error "Healthy observations do not require an alert review state"), st)
          else save_review
              (record {
                observation_id = o.id;
                source_id = source_id;
                state = state;
                updated_at = now_or_clock now clock;
              })
              st
    ]

abbrev pub missing_baseline : Option Observation → List String
missing_baseline none = "No current baseline is established." ∷ []
missing_baseline (some current) = []

-- `current and candidate.id == current.id`
abbrev pub is_current : Option Observation → Observation → Bool
is_current none candidate = false
is_current (some current) candidate = candidate.id == current.id

abbrev pub candidate_blockers : String → Option Observation → Option Observation → List String
candidate_blockers source_id current none =
    "No candidate observation is available for this source." ∷ []
candidate_blockers source_id current (some candidate) =
    if not (candidate.source_id == source_id)
    then "No candidate observation is available for this source." ∷ []
    else if not (is_successful candidate)
    then "The candidate observation is unavailable or has no profile." ∷ []
    else if not (is_healthy candidate.health)
    then "Only a Healthy observation can be promoted after baseline review." ∷ []
    else if is_current current candidate
    then "The candidate is already the current baseline." ∷ []
    else []

abbrev pub review_of : String → Option Observation → Option Observation → BaselineReview
review_of source_id current candidate =
    let blockers = missing_baseline current ++ candidate_blockers source_id current candidate in
    record {
      source_id = source_id;
      current_baseline = current;
      candidate = candidate;
      ready = is_empty blockers;
      blockers = blockers;
    }

-- `get_observation(id) if id else get_latest(source_id)`
abbrev candidate_for : MemoryStore → String → Option String → Result (Option Observation)
unfolding get_observation get_latest
candidate_for st source_id none = get_latest st source_id
candidate_for st source_id (some id) =
    if id == "" then get_latest st source_id else ok (get_observation st id)

unfoldable pub baseline_review : MemoryStore → String → Option String → Result BaselineReview
unfolding get_source get_baseline candidate_for
baseline_review st source_id observation_id = elim (get_source st source_id) [
  | none ↦ err (key_error (concat ("Unknown source: " ∷ source_id ∷ [])))
  | some source ↦ elim (candidate_for st source_id observation_id) [
    | err e ↦ err e
    | ok candidate ↦ ok (review_of source_id (get_baseline st source_id) candidate)
  ]
]

abbrev pub has_snapshot : Observation → Bool
has_snapshot o = is_successful o && is_some o.row_snapshot

abbrev pub baseline_kept : Option Observation → List String
baseline_kept none = []
baseline_kept (some b) = if is_some b.row_snapshot then b.id ∷ [] else []

-- The call of the store, once the source's observations are listed.
abbrev pub prune_listed : SourceDefinition → Result (List Observation) → Exec MemoryStore (Unit {0})
prune_listed source (err e) st = (err e, st)
prune_listed source (ok items) st =
    prune_row_diff_payloads source.id
      (baseline_kept (get_baseline st source.id)
        ++ map (λ (o : Observation). o.id)
            (take source.config.row_diff_snapshot_retention (select has_snapshot items)))
      st

-- `_prune_row_diff_payloads`: the baseline and the newest successful observations keep theirs.
unfoldable pub prune_source : SourceDefinition → Exec MemoryStore (Unit {0})
unfolding list_observations
prune_source source st =
    if is_empty source.config.unique_keys
    then (ok tt, st)
    else prune_listed source
        (list_observations st source.id (max_ℕ 50 (source.config.row_diff_snapshot_retention * 5)))
        st

-- `if source is not None: self._prune_row_diff_payloads(source)`
abbrev pub prune_found : Option SourceDefinition → Exec MemoryStore (Unit {0})
prune_found none st = (ok tt, st)
prune_found (some source) st = prune_source source st

abbrev pub prune_known : String → Exec MemoryStore (Unit {0})
prune_known source_id st = prune_found (get_source st source_id) st

-- `"; ".join(blockers)`
pub join_blockers : List String → String
join_blockers [] = ""
join_blockers (b ∷ []) = b
join_blockers (b ∷ c ∷ bs) = concat (b ∷ "; " ∷ join_blockers (c ∷ bs) ∷ [])

abbrev pub is_expected : Option Observation → String → Bool
is_expected none id = false
is_expected (some current) id = current.id == id

-- The promotion, and the pruning of the source, whose definition is read again.
abbrev pub promote_and_prune : String → String → Exec MemoryStore Observation
promote_and_prune source_id observation_id = do
  promoted ← promote_baseline source_id observation_id
  prune_known source_id
  pure promoted

-- What follows the review.
abbrev pub after_review : String → String → Result BaselineReview → Exec MemoryStore Observation
after_review source_id observation_id (err e) st = (err e, st)
after_review source_id observation_id (ok review) st =
    if not review.ready
    then (err (value_error (join_blockers review.blockers)), st)
    else promote_and_prune source_id observation_id st

unfoldable pub promote_baseline_after_review :
    String → String → String → Exec MemoryStore Observation
promote_baseline_after_review source_id observation_id expected st =
    if not (is_expected (get_baseline st source_id) expected)
    then (
      err (value_error "Baseline changed since review; refresh the candidate before promoting."),
      st,
    )
    else after_review source_id observation_id (baseline_review st source_id (some observation_id))
        st
