-- ===== src/Workspaces/Apart.antt =====
-- A call through one workspace (analystwatch/workspace.py) leaves alone what another one reads.
use analyst_watch.Prelude.{
  String, Bool, true, false, ◌≡◌, ◌≢◌, refl, Option, none, some, [], ◌∷◌, ◌++◌, is_some, inl, inr,
  Bool-cases, Option-cases, arith, get, ◌==◌, contains, any, values,
}
use analyst_watch.Result.{Result, Error, ok, err, require}
use analyst_watch.Models.{Observation, NotificationCandidate, DeliveryAttempt}
use analyst_watch.Memory
use analyst_watch.Memory.{
  MemoryStore, Claim, ids_of, store_observation, store_optional_candidate, mark_baseline,
  finish_save, prune_all, is_successful, plan_claim, finish_claim, prune_one,
  strip_row_diff_raw_payloads,
}
use analyst_watch.Workspaces.Bound.{
  sees, owns_source, get_source, get_observation, get_notification_candidate, get_delivery_attempt,
}
use analyst_watch.Workspaces.Calls.{require_source}
use analyst_watch.Workspaces.Frames.{visible-apart, sees-apart, Leaves, Leaves-refl, Leaves-trans}
use analyst_watch.Workspaces.Writes.{
  store_observation-Leaves, put_candidate-Leaves, put_baseline-Leaves,
}

pub require-true : (test : Bool) (e : Error) → require test e ≡ ok tt → test ≡ true
require-true true e h = refl
require-true false e h = absurd (ground arith)

-- `_require_source` has found a source of the workspace.
pub require_source-sees :
    (w : String) (st : MemoryStore) (id : String)
    → require_source w st id ≡ ok tt
    → sees w st id ≡ true
unfolding require_source get_source
require_source-sees w st id h =
    let owned : owns_source w (Memory.get_source st id) ≡ true = require-true _ _ h in
    elim (Option-cases (Memory.get_source st id)) [
      | inl n ↦ absurd (let k = rw n at owned in unfold owns_source in ground arith)
      | inr (s, g) ↦ let k = rw g at owned in rw (g, k) refl
    ]

module _ (b w : String) (n : b ≢ w) where
  unseen : (st : MemoryStore) (id : String) → sees w st id ≡ true → sees b st id ≡ false
  unseen st id h = sees-apart b w st id n h

  pub observation-unseen :
      (st : MemoryStore) (id : String) (o : Observation)
      → get_observation w st id ≡ some o
      → get_observation b st id ≡ none
  unfolding get_observation
  observation-unseen st id o h =
      visible-apart (λ (x : Observation). sees w st x.source_id)
        (λ (x : Observation). sees b st x.source_id) (Memory.get_observation st id)
        (λ x. unseen st x.source_id) (rw h refl)

  pub candidate-unseen :
      (st : MemoryStore) (id : String)
      → is_some (get_notification_candidate w st id) ≡ true
      → get_notification_candidate b st id ≡ none
  unfolding get_notification_candidate
  candidate-unseen st id h =
      visible-apart (λ (x : NotificationCandidate). sees w st x.source_id)
        (λ (x : NotificationCandidate). sees b st x.source_id)
        (Memory.get_notification_candidate st id) (λ x. unseen st x.source_id) h

  pub attempt-unseen :
      (st : MemoryStore) (id : String)
      → is_some (get_delivery_attempt w st id) ≡ true
      → get_delivery_attempt b st id ≡ none
  unfolding get_delivery_attempt
  attempt-unseen st id h =
      visible-apart (λ (x : DeliveryAttempt). sees w st x.source_id)
        (λ (x : DeliveryAttempt). sees b st x.source_id) (Memory.get_delivery_attempt st id)
        (λ x. unseen st x.source_id) h

  -- The writes of a save, one after another.
  candidate_stored-Leaves :
      (c : Option NotificationCandidate) (o : Observation) (st : MemoryStore)
      → ((d : NotificationCandidate) → c ≡ some d → sees b st d.source_id ≡ false)
      → Leaves b st (store_optional_candidate c o st).1
  unfolding get_notification_candidate Memory.get_notification_candidate
  candidate_stored-Leaves none o st h = Leaves-refl b st
  candidate_stored-Leaves (some c) o st h = elim (Bool-cases (c.observation_id == o.id)) [
    | inr f ↦ rw f (Leaves-refl b st)
    | inl t ↦ elim (Option-cases (get c.id st.candidates)) [
      | inr (d, g) ↦ rw (t, g) (Leaves-refl b st)
      | inl g ↦
          elim (Bool-cases (
            any (λ (item : NotificationCandidate). item.observation_id == c.observation_id)
              (values st.candidates))) [
                | inl u ↦ rw (t, g, u) (Leaves-refl b st)
                | inr v ↦
                    rw (t, g, v)
                      (put_candidate-Leaves b st c (st.candidate_ids ++ c.id ∷ []) (h c refl)
                        (rw g refl))
              ]
    ]
  ]

  finish_save-Leaves :
      (set_baseline : Bool) (o : Observation) (r : Result (Unit {0})) (st : MemoryStore)
      → sees b st o.source_id ≡ false
      → Leaves b st (finish_save set_baseline o r st).1
  finish_save-Leaves set_baseline o (err e) st h = Leaves-refl b st
  finish_save-Leaves true o (ok u) st h = put_baseline-Leaves b st o.source_id o.id h
  finish_save-Leaves false o (ok u) st h = Leaves-refl b st

  pub save_observation-Leaves :
      (o : Observation) (set_baseline : Bool) (c : Option NotificationCandidate) (st : MemoryStore)
      → sees b st o.source_id ≡ false
      → ((d : NotificationCandidate) → c ≡ some d → sees b st d.source_id ≡ false)
      → Leaves b st (Memory.save_observation o set_baseline c st).1
  unfolding Memory.save_observation
  save_observation-Leaves o set_baseline c st h k =
      elim (Bool-cases (contains o.source_id st.sources)) [
        | inr f ↦ rw f (Leaves-refl b st)
        | inl t ↦ elim (Option-cases (get o.id st.observations)) [
          | inr (p, g) ↦ rw (t, g) (Leaves-refl b st)
          | inl g ↦
              let m = store_observation o st in
              let first = store_observation-Leaves b st o h g in
              let mid = (store_optional_candidate c o m).1 in
              let second =
                candidate_stored-Leaves c o m (λ d e. rw (first.sources d.source_id) (k d e)) in
              let both = Leaves-trans b st m mid first second in
              rw (t, g)
                (Leaves-trans b st mid
                  (finish_save set_baseline o (store_optional_candidate c o m).0 mid).1 both
                  (finish_save-Leaves set_baseline o (store_optional_candidate c o m).0 mid
                    (rw (both.sources o.source_id) h)))
        ]
      ]
