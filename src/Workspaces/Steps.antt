-- ===== src/Workspaces/Steps.antt =====
-- The calls through a workspace's store (analystwatch/workspace.py) as steps, and the order in which
-- the store in memory (analystwatch/memory_store.py) files observations: each under its own source.
use analyst_watch.Prelude.{
  String, Bool, true, false, ◌≡◌, refl, ◌∙◌, Option, none, some, List, [], ◌∷◌, ◌++◌, In,
  In-append_cases, inl, inr, Bool-cases, arith, get, put, get-put, get-put_self, get-put_ne, eq_iff,
  ◌==◌,
}
use analyst_watch.Result.{ok}
use analyst_watch.Models.{
  SourceDefinition, Observation, ObservationReview, NotificationCandidate, DeliveryAttempt,
  DeliveryAttemptState, Instant,
}
use analyst_watch.Memory
use analyst_watch.Memory.{MemoryStore, Claim, ids_of}
use analyst_watch.Workspaces.Calls.{
  upsert_source, save_observation, prune_row_diff_payloads, save_review,
  update_notification_candidate, claim_delivery_attempt, update_delivery_attempt,
  reconcile_prepared_delivery_attempt, promote_baseline,
}

module _ (w : String) where
  -- A call through the store of the workspace, whether it returns or raises. A claim takes an id
  -- that no attempt has.
  pub data Call : MemoryStore → MemoryStore → Type 0 where
    upserts : (s : SourceDefinition) (st : MemoryStore) → Call st (upsert_source w s st).1
    saves :
        (o : Observation) (b : Bool) (c : Option NotificationCandidate) (st : MemoryStore)
        → Call st (save_observation w o b c st).1
    prunes :
        (id : String) (keep : List String) (st : MemoryStore)
        → Call st (prune_row_diff_payloads w id keep st).1
    reviews : (r : ObservationReview) (st : MemoryStore) → Call st (save_review w r st).1
    decides :
        (c : NotificationCandidate) (st : MemoryStore)
        → Call st (update_notification_candidate w c st).1
    claims :
        (c : Claim) (st : MemoryStore)
        → ((a : DeliveryAttempt)
            → Memory.plan_claim st c ≡ ok (a, false)
            → get a.id st.attempts ≡ none)
        → Call st (claim_delivery_attempt w c st).1
    completes :
        (a : DeliveryAttempt) (st : MemoryStore) → Call st (update_delivery_attempt w a st).1
    reconciles :
        (id : String) (outcome : DeliveryAttemptState) (at_time : Instant) (note : String)
        (by : Option String) (st : MemoryStore)
        → Call st (reconcile_prepared_delivery_attempt w id outcome at_time note by st).1
    promotes :
        (id observation_id : String) (st : MemoryStore)
        → Call st (promote_baseline w id observation_id st).1

  pub data Calls : MemoryStore → MemoryStore → Type 0 where
    done : (st : MemoryStore) → Calls st st
    then_call : (st mid last : MemoryStore) → Calls st mid → Call mid last → Calls st last

-- There is an observation of the source under the id.
abbrev pub Files : MemoryStore → String → String → Type 0
Files st source_id id =
    (o : Observation) × (get id st.observations ≡ some o) × (o.source_id ≡ source_id)

pub record IsFiled (st : MemoryStore) : Type 0 where
  pub listed :
      (source_id id : String) → In id (ids_of st.observation_ids source_id) → Files st source_id id
  pub marked :
      (source_id id : String) → get source_id st.baseline_ids ≡ some id → Files st source_id id

-- A change that keeps the source of every observation and the lists.
abbrev pub KeepsSources : MemoryStore → MemoryStore → Type 0
KeepsSources st last =
    (id : String) (o : Observation)
    → get id st.observations ≡ some o
    → (p : Observation) × (get id last.observations ≡ some p) × (p.source_id ≡ o.source_id)

pub Files-kept :
    (st last : MemoryStore) (source_id id : String)
    → KeepsSources st last
    → Files st source_id id
    → Files last source_id id
Files-kept st last source_id id k (o, g, e) = let (p, h, f) = k id o g in (p, h, f ∙ e)

pub IsFiled-kept :
    (st last : MemoryStore)
    → KeepsSources st last
    → last.observation_ids ≡ st.observation_ids
    → last.baseline_ids ≡ st.baseline_ids
    → IsFiled st
    → IsFiled last
IsFiled-kept st last k ids bs f = record {
  listed =
      λ source_id id m. Files-kept st last source_id id k (f.listed source_id id (rw ids at m));
  marked = λ source_id id g. Files-kept st last source_id id k (f.marked source_id id (rw bs at g));
}

pub KeepsSources-refl : (st : MemoryStore) → KeepsSources st st
KeepsSources-refl st id o g = (o, g, refl)

KeepsSources-put :
    (st : MemoryStore) (new : Observation)
    → get new.id st.observations ≡ none
    → KeepsSources st (Memory.store_observation new st)
KeepsSources-put st new n id o g = (
  o,
  get-put_ne new.id id new st.observations (λ e. absurd (let h = rw e at n in ground arith)) ∙ g,
  refl,
)

ids_of-put :
    (k j : String) (ids : List String) (d : List (String × List String))
    → ids_of (put k ids d) j ≡ (elim (k == j) [ true ↦ ids | false ↦ ids_of d j ])
ids_of-put k j ids d = ground (arith, get-put k j ids d)

-- A new observation goes to the end of its source's list.
pub store_observation-IsFiled :
    (st : MemoryStore) (o : Observation)
    → get o.id st.observations ≡ none
    → IsFiled st
    → IsFiled (Memory.store_observation o st)
store_observation-IsFiled st o n f =
    let last = Memory.store_observation o st in
    let keeps = KeepsSources-put st o n in
    let own = ids_of st.observation_ids o.source_id ++ o.id ∷ [] in
    let old : (source_id id : String)
        → In id (ids_of st.observation_ids source_id)
        → Files last source_id id =
      λ source_id id m. Files-kept st last source_id id keeps (f.listed source_id id m) in
    record {
      listed = λ source_id id m. elim (Bool-cases (o.source_id == source_id)) [
        | inr g ↦
            old source_id id (rw (ids_of-put o.source_id source_id own st.observation_ids, g) at m)
        | inl t ↦
            let same : o.source_id ≡ source_id = ground (arith, eq_iff o.source_id source_id) in
            let m' : In id own =
              rw (ids_of-put o.source_id source_id own st.observation_ids, t) at m in
            rw (← same)
              (elim (In-append_cases id (ids_of st.observation_ids o.source_id) (o.id ∷ []) m') [
                | inl i ↦ old o.source_id id i
                | inr (inl e) ↦ (o, rw e (get-put_self o.id o st.observations), refl)
                | inr (inr x) ↦ elim x [ ]
              ])
      ];
      marked = λ source_id id g. Files-kept st last source_id id keeps (f.marked source_id id g);
    }
