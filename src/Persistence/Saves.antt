-- ===== src/Persistence/Saves.antt =====
-- Saving an observation with its candidate.
use analyst_watch.Prelude.{
  String, Bool, true, false, ◌≡◌, ◌≢◌, refl, Option, none, some, [], ◌∷◌, ◌++◌, ◌==◌, arith, get,
  put, get-put_self, get-put_ne, ◌∙◌, any, values, contains, eq_iff, Bool-cases, inl, inr,
}
use analyst_watch.Result.{Result, ok, err}
use analyst_watch.Models.{Observation, NotificationCandidate}
use analyst_watch.Memory.{
  finish_save, store_observation, mark_baseline, store_optional_candidate, MemoryStore,
  save_observation, ids_of,
}

pub record IsSaved (o : Observation) (set_baseline : Bool)
    (candidate : Option NotificationCandidate) (st st' : MemoryStore) : Type 0 where
  pub new : contains o.id st.observations ≡ false
  pub stored : get o.id st'.observations ≡ some o
  pub others : (i : String) → o.id ≢ i → get i st'.observations ≡ get i st.observations
  pub listed :
      ids_of st'.observation_ids o.source_id ≡ ids_of st.observation_ids o.source_id ++ o.id ∷ []
  pub with_candidate :
      (c : NotificationCandidate)
      → candidate ≡ some c
      → (c.observation_id ≡ o.id) × (get c.id st'.candidates ≡ some c)
  pub without_candidate : candidate ≡ none → st'.candidates ≡ st.candidates
  pub marked : set_baseline ≡ true → get o.source_id st'.baseline_ids ≡ some o.id
  pub unmarked : set_baseline ≡ false → st'.baseline_ids ≡ st.baseline_ids

-- The part of a save that stores the candidate.
record StoresCandidate (o : Observation) (candidate : Option NotificationCandidate)
    (st st' : MemoryStore) : Type 0 where
  pub same_observations : st'.observations ≡ st.observations
  pub same_ids : st'.observation_ids ≡ st.observation_ids
  pub same_baselines : st'.baseline_ids ≡ st.baseline_ids
  pub with_candidate :
      (c : NotificationCandidate)
      → candidate ≡ some c
      → (c.observation_id ≡ o.id) × (get c.id st'.candidates ≡ some c)
  pub without_candidate : candidate ≡ none → st'.candidates ≡ st.candidates

some_candidate : (x y : NotificationCandidate) → some x ≡ some y → x ≡ y
some_candidate x y h = ground arith

StoresCandidate-of :
    (o : Observation) (candidate : Option NotificationCandidate) (st : MemoryStore)
    → (store_optional_candidate candidate o st).0 ≡ ok tt
    → StoresCandidate o candidate st (store_optional_candidate candidate o st).1
StoresCandidate-of o none st h = record {
  same_observations = refl;
  same_ids = refl;
  same_baselines = refl;
  with_candidate = λ c e. absurd (ground arith);
  without_candidate = λ e. refl;
}
StoresCandidate-of o (some c) st h =
    let own = c.observation_id == o.id in
    let again = contains c.id st.candidates in
    let other =
      any (λ (item : NotificationCandidate). item.observation_id == c.observation_id)
        (values st.candidates) in
    elim (Bool-cases own) [
      | inr f ↦ absurd (let k = rw f at h in ground arith)
      | inl t ↦ elim (Bool-cases again) [
        | inl u ↦ absurd (let k = rw (t, u) at h in ground arith)
        | inr v ↦ elim (Bool-cases other) [
          | inl u ↦ absurd (let k = rw (t, v, u) at h in ground arith)
          | inr w ↦
              rw (t, v, w)
                (record {
                  same_observations = refl;
                  same_ids = refl;
                  same_baselines = refl;
                  with_candidate = λ d e.
                      rw (← some_candidate c d e)
                        ((eq_iff c.observation_id o.id).0 t, get-put_self c.id c st.candidates);
                  without_candidate = λ e. absurd (ground arith);
                })
        ]
      ]
    ]

marked_after :
    (b : Bool) (o : Observation) (st : MemoryStore)
    → (b ≡ true → get o.source_id (mark_baseline b o st).1.baseline_ids ≡ some o.id)
      × (b ≡ false → (mark_baseline b o st).1.baseline_ids ≡ st.baseline_ids)
marked_after true o st =
    (λ e. get-put_self o.source_id o.id st.baseline_ids, λ e. absurd (ground arith))
marked_after false o st = (λ e. absurd (ground arith), λ e. refl)

same_but_baseline :
    (b : Bool) (o : Observation) (m : MemoryStore)
    → ((mark_baseline b o m).1.observations ≡ m.observations)
      × ((mark_baseline b o m).1.observation_ids ≡ m.observation_ids)
      × ((mark_baseline b o m).1.candidates ≡ m.candidates)
same_but_baseline true o m = (refl, refl, refl)
same_but_baseline false o m = (refl, refl, refl)

marked-IsSaved :
    (b : Bool) (o : Observation) (candidate : Option NotificationCandidate) (st m : MemoryStore)
    → contains o.id st.observations ≡ false
    → StoresCandidate o candidate (store_observation o st) m
    → IsSaved o b candidate st (mark_baseline b o m).1
marked-IsSaved b o candidate st m new c =
    let (obs, ids, cands) = same_but_baseline b o m in
    let (on, off) = marked_after b o m in
    let all : (mark_baseline b o m).1.observations ≡ put o.id o st.observations =
      obs ∙ c.same_observations in
    record {
      new = new;
      stored = rw all (get-put_self o.id o st.observations);
      others = λ i ne. rw all (get-put_ne o.id i o st.observations ne);
      listed = rw (ids ∙ c.same_ids) (
          rw
            (
              ids_of,
              get-put_self o.source_id (ids_of st.observation_ids o.source_id ++ o.id ∷ [])
                  st.observation_ids,
            )
            refl);
      with_candidate = λ d e. rw cands (c.with_candidate d e);
      without_candidate = λ e. cands ∙ c.without_candidate e;
      marked = on;
      unmarked = λ e. off e ∙ c.same_baselines;
    }

IsSaved-of :
    (o : Observation) (b : Bool) (candidate : Option NotificationCandidate) (st m : MemoryStore)
    (r : Result (Unit {0}))
    → contains o.id st.observations ≡ false
    → (r ≡ ok tt → StoresCandidate o candidate (store_observation o st) m)
    → (finish_save b o r m).0 ≡ ok tt
    → IsSaved o b candidate st (finish_save b o r m).1
IsSaved-of o b candidate st m (err e) new k h = absurd (ground arith)
IsSaved-of o b candidate st m (ok u) new k h = marked-IsSaved b o candidate st m new (k refl)

-- A save that succeeds stored a new observation under its id and changed no other one, put its id
-- at the end of its source's list, stored the candidate, if there is one, and it belongs to the
-- observation, and set the source's baseline exactly if it was asked to.
pub save_observation-IsSaved :
    (o : Observation) (set_baseline : Bool) (candidate : Option NotificationCandidate)
    (st : MemoryStore)
    → (save_observation o set_baseline candidate st).0 ≡ ok tt
    → IsSaved o set_baseline candidate st (save_observation o set_baseline candidate st).1
unfolding save_observation
save_observation-IsSaved o b c st h =
    let known = contains o.source_id st.sources in
    let old = contains o.id st.observations in
    elim (Bool-cases known) [
      | inr f ↦ absurd (let k = rw f at h in ground arith)
      | inl t ↦ elim (Bool-cases old) [
        | inl u ↦ absurd (let k = rw (t, u) at h in ground arith)
        | inr v ↦
            rw (t, v)
              (IsSaved-of o b c st (store_optional_candidate c o (store_observation o st)).1
                (store_optional_candidate c o (store_observation o st)).0 v
                (StoresCandidate-of o c (store_observation o st)) (rw (t, v) at h))
      ]
    ]
