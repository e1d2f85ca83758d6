-- ===== src/Scorecards/Reading.antt =====
-- The history that a scorecard is made of (analystwatch/scorecard_service.py) is read to an end.
use analyst_watch.Prelude.{
  ℕ, zero, suc, ◌+◌, ◌-◌, ◌*◌, ◌≤◌, ◌<◌, String, Bool, true, false, ◌≡◌, refl, ◌∙◌, some, List,
  length, ltb, leb, ◌⊎◌, inl, inr, Bool-cases, arith, ltb→lt, leb→le, subst, ap,
}
use analyst_watch.Result.{Result, ok, err, Result-cases}
use analyst_watch.Models.{Observation, SourceDefinition, Instant, days}
use analyst_watch.Memory.{MemoryStore, list_observations, ids_of}
use analyst_watch.Persistence.Listing.{IsListing, list_observations-IsListing}
use analyst_watch.Scorecards.History.{
  ScorecardService, new_service, read_history, history, first_limit, lesser, reaches_back,
}
use analyst_watch.Scorecards.Oldest.{ReachesBack, reaches_back-ReachesBack}

-- The loop returns when the fuel is more than what the limit may still grow by.
read_history-returns :
    (fuel : ℕ) (st : MemoryStore) (source_id : String) (as_of : Instant) (maximum limit : ℕ)
    → 1 ≤ limit
    → limit ≤ maximum
    → maximum < limit + fuel
    → (r : Result (List Observation × Bool)) × (read_history fuel st source_id as_of maximum limit
        ≡ some r)
unfolding read_history
read_history-returns zero st source_id as_of maximum limit one top room = absurd (omega arith)
read_history-returns (suc fuel) st source_id as_of maximum limit one top room =
    elim (Result-cases (list_observations st source_id limit)) [
      | inr (e, h) ↦ (err e, rw (read_history, h) refl)
      | inl (os, h) ↦ elim (Bool-cases (ltb (length os) limit)) [
        | inl t ↦ (ok (os, true), rw (read_history, h, t) refl)
        | inr f ↦ elim (Bool-cases (reaches_back as_of (as_of - days 30) os)) [
          | inl t ↦ (ok (os, true), rw (read_history, h, f, t) refl)
          | inr g ↦ elim (Bool-cases (leb maximum limit)) [
            | inl t ↦ (ok (os, false), rw (read_history, h, f, g, t) refl)
            | inr u ↦
                let (r, e) =
                  read_history-returns fuel st source_id as_of maximum (lesser (limit * 2) maximum)
                    (ground arith) (ground arith) (ground arith) in
                (r, rw (read_history, h, f, g, u) e)
          ]
        ]
      ]
    ]

-- What the loop returns: a listing of the source, said to be complete only if it lists every
-- observation or its oldest one that counts is healthy and older than 30 days, and said not to be
-- only at the greatest limit, when the source has at least that many observations.
pub record IsHistory (st : MemoryStore) (source_id : String) (as_of : Instant) (maximum : ℕ)
    (os : List Observation) (complete : Bool) : Type 0 where
  pub limit : ℕ
  pub within : limit ≤ maximum
  pub listed : list_observations st source_id limit ≡ ok os
  pub told_complete :
      complete ≡ true
      → (length os ≡ length (ids_of st.observation_ids source_id)) ⊎ ReachesBack as_of os
  pub told_cut :
      complete ≡ false
      → (limit ≡ maximum) × (maximum ≤ length (ids_of st.observation_ids source_id))

-- A listing that falls short of its limit is of all the ids.
short_listing :
    (st : MemoryStore) (ids : List String) (limit : ℕ) (os : List Observation)
    → IsListing st ids limit os
    → length os < limit
    → length os ≡ length ids
short_listing st ids limit os l h = elim (Bool-cases (leb (length ids) limit)) [
  | inl t ↦ l.complete (ground arith)
  | inr f ↦
      let more : limit ≤ length ids = ground arith in let full = l.full more in absurd (omega arith)
]

module _ (st : MemoryStore) (source_id : String) (as_of : Instant) (maximum : ℕ) where
  read_history-IsHistory :
      (fuel limit : ℕ) (os : List Observation) (complete : Bool)
      → limit ≤ maximum
      → read_history fuel st source_id as_of maximum limit ≡ some (ok (os, complete))
      → IsHistory st source_id as_of maximum os complete
  unfolding read_history
  read_history-IsHistory zero limit os complete top e = absurd (ground arith)
  read_history-IsHistory (suc fuel) limit os complete top e =
      elim (Result-cases (list_observations st source_id limit)) [
        | inr (x, h) ↦ absurd (let k = rw (read_history, h) at e in ground arith)
        | inl (found, h) ↦
            let listing = list_observations-IsListing st source_id limit found h in
            elim (Bool-cases (ltb (length found) limit)) [
              | inl t ↦
                  let k = rw (read_history, h, t) at e in
                  let same : found ≡ os = ground arith in
                  let told : complete ≡ true = ground arith in
                  record {
                    limit = limit;
                    within = top;
                    listed = rw (← same) h;
                    told_complete = λ c.
                        inl (rw (← same) (short_listing st _ limit found listing (ltb→lt _ _ t)));
                    told_cut = λ c. absurd (ground arith);
                  }
              | inr f ↦ elim (Bool-cases (reaches_back as_of (as_of - days 30) found)) [
                | inl t ↦
                    let k = rw (read_history, h, f, t) at e in
                    let same : found ≡ os = ground arith in
                    let told : complete ≡ true = ground arith in
                    record {
                      limit = limit;
                      within = top;
                      listed = rw (← same) h;
                      told_complete =
                          λ c. inr (rw (← same) (reaches_back-ReachesBack as_of found t));
                      told_cut = λ c. absurd (ground arith);
                    }
                | inr g ↦ elim (Bool-cases (leb maximum limit)) [
                  | inl t ↦
                      let k = rw (read_history, h, f, g, t) at e in
                      let same : found ≡ os = ground arith in
                      let told : complete ≡ false = ground arith in
                      record {
                        limit = limit;
                        within = top;
                        listed = rw (← same) h;
                        told_complete = λ c. absurd (ground arith);
                        told_cut =
                            λ c. (ground arith, reached limit found listing f (leb→le _ _ t) top);
                      }
                  | inr u ↦
                      read_history-IsHistory fuel (lesser (limit * 2) maximum) os complete
                        (ground arith) (rw (read_history, h, f, g, u) at e)
                ]
              ]
            ]
      ]
    where
      reached :
          (limit : ℕ) (found : List Observation)
          → IsListing st (ids_of st.observation_ids source_id) limit found
          → ltb (length found) limit ≡ false
          → maximum ≤ limit
          → limit ≤ maximum
          → maximum ≤ length (ids_of st.observation_ids source_id)
      reached limit found l f le top =
          elim (Bool-cases (leb (length (ids_of st.observation_ids source_id)) limit)) [
            | inl t ↦ let all = l.complete (leb→le _ _ t) in ground arith
            | inr g ↦ ground arith
          ]

first_limit_bounds :
    (service : ScorecardService) (source : SourceDefinition)
    → 1 ≤ service.minimum_history_observations
    → service.minimum_history_observations ≤ service.max_history_observations
    → (1 ≤ first_limit service source)
      × (first_limit service source ≤ service.max_history_observations)
first_limit_bounds service source h k = ground arith

-- The history of a source is read to an end by a service that was made with valid bounds: it is an
-- error of the store, or a listing of the source's observations with a flag. The listing is said to
-- be complete only if it has every observation or if the oldest one in it that is not after the
-- given time is healthy and more than 30 days older, and said to be cut only at the greatest number
-- of observations that the service reads, when the source has at least that many.
pub history-IsHistory :
    (minimum maximum : ℕ) (service : ScorecardService) (st : MemoryStore)
    (source : SourceDefinition) (as_of : Instant)
    → new_service minimum maximum ≡ ok service
    → (r : Result (List Observation × Bool)) × (history service st source as_of ≡ some r)
      × ((os : List Observation) (complete : Bool)
          → r ≡ ok (os, complete)
          → IsHistory st source.id as_of maximum os complete)
unfolding history new_service
history-IsHistory minimum maximum service st source as_of h =
    let one : 1 ≤ service.minimum_history_observations = ground arith in
    let ordered : service.minimum_history_observations ≤ service.max_history_observations =
      ground arith in
    let same : service.max_history_observations ≡ maximum = ground arith in
    let (first, top) = first_limit_bounds service source one ordered in
    let (r, e) =
      read_history-returns (suc service.max_history_observations) st source.id as_of
        service.max_history_observations (first_limit service source) first top (omega arith) in
    (
      r,
      e,
      λ os complete k.
          subst (λ m. IsHistory st source.id as_of m os complete) same
            (read_history-IsHistory st source.id as_of service.max_history_observations
              (suc service.max_history_observations) (first_limit service source) os complete top
              (e ∙ ap some k)),
    )
