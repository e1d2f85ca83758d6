-- ===== src/Memory/State.antt =====
-- The fields of `MemoryStore`, its sources and its reviews.
use analyst_watch.Prelude.{
  ℕ, ◌+◌, String, Option, none, some, List, [], ◌∷◌, ◌==◌, Dict, get, put, values, sort_by, str_leb,
  if◌then◌else◌,
}
use analyst_watch.Result.{Result, ok, err, Exec, value_error, key_error, ◌>>=◌}
use analyst_watch.Models.{
  SourceDefinition, Observation, ObservationReview, NotificationCandidate, DeliveryAttempt,
}

pub record MemoryStore : Type 0 where
  pub sources : Dict SourceDefinition
  pub observations : Dict Observation
  pub observation_ids : Dict (List String)
  pub baseline_ids : Dict String
  pub reviews : Dict ObservationReview
  pub candidates : Dict NotificationCandidate
  pub candidate_ids : List String
  pub attempts : Dict DeliveryAttempt
  pub attempt_ids : List String
  pub idempotency : Dict String

-- `MemoryStore()`
abbrev pub empty_store : MemoryStore
empty_store = record {
  sources = [];
  observations = [];
  observation_ids = [];
  baseline_ids = [];
  reviews = [];
  candidates = [];
  candidate_ids = [];
  attempts = [];
  attempt_ids = [];
  idempotency = [];
}

-- `d[k]`
abbrev pub index {ℓ} : {V : Type ℓ} → Dict V → String → Result V
index d k = elim (get k d) [ none ↦ err (key_error k) | some v ↦ ok v ]

-- `[d[k] for k in ks]`
abbrev pub index_all {ℓ} : {V : Type ℓ} → Dict V → List String → Result (List V)
index_all d [] = ok []
index_all d (k ∷ ks) = do v ← index d k; vs ← index_all d ks; ok (v ∷ vs)

-- `enumerate(xs)`
abbrev pub number_from {ℓ} : {A : Type ℓ} → ℕ → List A → List (ℕ × A)
number_from n [] = []
number_from n (x ∷ xs) = (n, x) ∷ number_from (n + 1) xs

-- `d.get(k, [])`
abbrev pub ids_of : Dict (List String) → String → List String
ids_of d k = elim (get k d) [ none ↦ [] | some ids ↦ ids ]

unfoldable pub upsert_source : SourceDefinition → Exec MemoryStore (Unit {0})
upsert_source source st = (ok tt, record st { sources = put source.id source st.sources })

unfoldable pub get_source : MemoryStore → String → Option SourceDefinition
get_source st source_id = get source_id st.sources

-- The keys of `_sources` are the sources' ids.
unfoldable pub list_sources : MemoryStore → List SourceDefinition
list_sources st = sort_by (λ (a b : SourceDefinition). str_leb a.id b.id) (values st.sources)

unfoldable pub save_review : ObservationReview → Exec MemoryStore ObservationReview
save_review review st = elim (get review.observation_id st.observations) [
  | none ↦ (err (value_error "Observation does not belong to this source"), st)
  | some observation ↦
      if observation.source_id == review.source_id
      then (ok review, record st { reviews = put review.observation_id review st.reviews })
      else (err (value_error "Observation does not belong to this source"), st)
]

unfoldable pub get_review : MemoryStore → String → Option ObservationReview
get_review st observation_id = get observation_id st.reviews
