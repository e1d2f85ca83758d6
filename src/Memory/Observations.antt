-- ===== src/Memory/Observations.antt =====
-- The observations and baselines of `MemoryStore`.
use analyst_watch.Prelude.{
  Bool, true, false, not, Option, none, some, [], ◌∷◌, ◌++◌, ◌==◌, concat, put, contains, values,
  any, if◌then◌else◌,
}
use analyst_watch.Result.{Result, ok, err, Exec, value_error}
use analyst_watch.Models.{Observation, NotificationCandidate}
use analyst_watch.Memory.State.{MemoryStore, ids_of}

-- The part of `save_observation` that stores the candidate.
abbrev pub store_candidate : NotificationCandidate → Observation → Exec MemoryStore (Unit {0})
store_candidate candidate observation st =
    if not (candidate.observation_id == observation.id)
    then (err (value_error "Notification candidate must belong to the saved observation"), st)
    else if contains candidate.id st.candidates
    then (
      err (value_error (concat ("Notification candidate already exists: " ∷ candidate.id ∷ []))),
      st,
    )
    else if any (λ (item : NotificationCandidate). item.observation_id == candidate.observation_id)
        (values st.candidates)
    then (err (value_error "Observation already has a notification candidate"), st)
    else (
      ok tt,
      record st {
        candidates = put candidate.id candidate st.candidates;
        candidate_ids = st.candidate_ids ++ candidate.id ∷ [];
      },
    )

abbrev pub store_optional_candidate :
    Option NotificationCandidate → Observation → Exec MemoryStore (Unit {0})
store_optional_candidate none observation st = (ok tt, st)
store_optional_candidate (some candidate) observation st = store_candidate candidate observation st

abbrev pub mark_baseline : Bool → Observation → Exec MemoryStore (Unit {0})
mark_baseline false observation st = (ok tt, st)
mark_baseline true observation st =
    (ok tt, record st { baseline_ids = put observation.source_id observation.id st.baseline_ids })

abbrev pub store_observation : Observation → MemoryStore → MemoryStore
store_observation observation st = record st {
  observations = put observation.id observation st.observations;
  observation_ids =
      put observation.source_id
        (ids_of st.observation_ids observation.source_id ++ observation.id ∷ []) st.observation_ids;
}

-- What follows the candidate: its error, or the baseline.
abbrev pub finish_save : Bool → Observation → Result (Unit {0}) → Exec MemoryStore (Unit {0})
finish_save set_baseline observation (err e) st = (err e, st)
finish_save set_baseline observation (ok _) st = mark_baseline set_baseline observation st

-- The observation is stored before the candidate is checked, and stays stored if that check raises.
unfoldable pub save_observation :
    Observation → Bool → Option NotificationCandidate → Exec MemoryStore (Unit {0})
save_observation observation set_baseline candidate st =
    if not (contains observation.source_id st.sources)
    then (err (value_error (concat ("Unknown source: " ∷ observation.source_id ∷ []))), st)
    else if contains observation.id st.observations
    then (err (value_error (concat ("Observation already exists: " ∷ observation.id ∷ []))), st)
    else let (r, st') =
        store_optional_candidate candidate observation (store_observation observation st) in
      finish_save set_baseline observation r st'
