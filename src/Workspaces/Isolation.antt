-- ===== src/Workspaces/Isolation.antt =====
-- Whatever happens through the store of one workspace (analystwatch/workspace.py), another workspace
-- reads what it read before.
use analyst_watch.Prelude.{
  ℕ, ◌+◌, String, true, false, ◌≡◌, ◌≢◌, refl, ◌∙◌, ap, Option, none, some, List, [], ◌∷◌, All,
  All-of_In, All-take, All-sort_by, Dict, map, take, sort_by, inl, inr, Bool-cases, Option-cases,
  arith, get, ◌==◌,
}
use analyst_watch.Result.{ok}
use analyst_watch.Models.{Observation}
use analyst_watch.Memory
use analyst_watch.Memory.{
  MemoryStore, ids_of, index_all, index, number_from, newest_first, observation_at,
  with_baseline_marker, is_baseline_of, plan_claim,
}
use analyst_watch.Workspaces.Bound.{
  sees, get_source, get_observation, get_baseline, get_review, get_notification_candidate,
  get_delivery_attempt, list_observations,
}
use analyst_watch.Workspaces.Calls.{
  upsert_source, save_observation, prune_row_diff_payloads, save_review,
  update_notification_candidate, claim_delivery_attempt, update_delivery_attempt,
  reconcile_prepared_delivery_attempt, promote_baseline, may_upsert, may_save, may_prune,
  may_review, may_update_candidate, may_claim, may_update_attempt, may_reconcile, may_promote,
}
use analyst_watch.Workspaces.Steps.{
  Call, Calls, upserts, saves, prunes, reviews, decides, claims, completes, reconciles, promotes,
  done, then_call, IsFiled, Files,
}
use analyst_watch.Workspaces.Filing.{guarded-has}
use analyst_watch.Workspaces.Untouched.{Call-IsFiled}
use analyst_watch.Workspaces.Frames.{visible-some, Leaves, Leaves-refl}
use analyst_watch.Workspaces.Separation.{
  upsert-Leaves, save-Leaves, prune-Leaves, review-Leaves, candidate-Leaves, claim-Leaves,
  attempt-Leaves, reconcile-Leaves, promote-Leaves,
}

-- A workspace reads the same from both stores.
pub record ReadsSame (b : String) (st last : MemoryStore) : Type 0 where
  pub sources : (id : String) → get_source b last id ≡ get_source b st id
  pub observations : (id : String) → get_observation b last id ≡ get_observation b st id
  pub baselines : (id : String) → get_baseline b last id ≡ get_baseline b st id
  pub listings :
      (id : String) (limit : ℕ)
      → list_observations b last id limit ≡ list_observations b st id limit
  pub reviews : (id : String) → get_review b last id ≡ get_review b st id
  pub candidates :
      (id : String) → get_notification_candidate b last id ≡ get_notification_candidate b st id
  pub attempts : (id : String) → get_delivery_attempt b last id ≡ get_delivery_attempt b st id

ReadsSame-refl : (b : String) (st : MemoryStore) → ReadsSame b st st
ReadsSame-refl b st = record {
  sources = λ id. refl;
  observations = λ id. refl;
  baselines = λ id. refl;
  listings = λ id limit. refl;
  reviews = λ id. refl;
  candidates = λ id. refl;
  attempts = λ id. refl;
}

ReadsSame-trans :
    (b : String) (st mid last : MemoryStore)
    → ReadsSame b st mid
    → ReadsSame b mid last
    → ReadsSame b st last
ReadsSame-trans b st mid last h k = record {
  sources = λ id. k.sources id ∙ h.sources id;
  observations = λ id. k.observations id ∙ h.observations id;
  baselines = λ id. k.baselines id ∙ h.baselines id;
  listings = λ id limit. k.listings id limit ∙ h.listings id limit;
  reviews = λ id. k.reviews id ∙ h.reviews id;
  candidates = λ id. k.candidates id ∙ h.candidates id;
  attempts = λ id. k.attempts id ∙ h.attempts id;
}

map-same {ℓ κ} :
    {A : Type ℓ} {B : Type κ} (f g : A → B) (xs : List A)
    → All (λ x. f x ≡ g x) xs
    → map f xs ≡ map g xs
map-same f g [] h = refl
map-same f g (x ∷ xs) h = rw (h.0, map-same f g xs h.1) refl

-- The observation with the marker that the baseline of its source gives it.
abbrev marked_by : Observation → Option String → Observation
marked_by o baseline = record o {
  is_baseline = elim baseline [ none ↦ false | some k ↦ k == o.id ];
}

index_all-cons :
    (d : Dict Observation) (k : String) (ks : List String) (o : Observation)
    (items : List Observation)
    → get k d ≡ some o
    → index_all d ks ≡ ok items
    → index_all d (k ∷ ks) ≡ ok (o ∷ items)
index_all-cons d k ks o items g h = ground arith

module _ (b : String) (st last : MemoryStore) (leaves : Leaves b st last) where
  -- A stored observation of a source that the workspace sees is stored still.
  stored :
      (id : String) (o : Observation)
      → get id st.observations ≡ some o
      → sees b st o.source_id ≡ true
      → get id last.observations ≡ some o
  unfolding get_observation Memory.get_observation
  stored id o g s =
      (visible-some (λ (x : Observation). sees b last x.source_id) (get id last.observations) o
        (leaves.observations id ∙ rw (g, s) refl)).0

  marker :
      (o : Observation)
      → sees b st o.source_id ≡ true
      → with_baseline_marker last o ≡ with_baseline_marker st o
  marker o s = ap (marked_by o) (leaves.baselines o.source_id s)

  baseline_same : IsFiled st → (id : String) → get_baseline b last id ≡ get_baseline b st id
  unfolding get_baseline Memory.get_baseline
  baseline_same f id = elim (Bool-cases (sees b st id)) [
    | inr n ↦ rw (leaves.sources id, n) refl
    | inl s ↦ elim (Option-cases (get id st.baseline_ids)) [
      | inl n ↦ rw (leaves.sources id, s, leaves.baselines id s, n, Memory.get_baseline) refl
      | inr (k, g) ↦
          let (o, found, e) = f.marked id k g in
          let seen : sees b st o.source_id ≡ true = rw e s in
          elim (Bool-cases (k == "")) [
            | inl e ↦
                rw (leaves.sources id, s, leaves.baselines id s, g, Memory.get_baseline, e) refl
            | inr n ↦
                rw
                  (
                    leaves.sources id,
                    s,
                    leaves.baselines id s,
                    g,
                    Memory.get_baseline,
                    n,
                    stored k o found seen,
                    found,
                  )
                  (ap (λ (x : Observation). some x) (marker o seen))
          ]
    ]
  ]

  -- The observations under the listed ids are of the source.
  abbrev IsOf : String → Observation → Type 0
  IsOf id o = o.source_id ≡ id

  index_same :
      (id : String) (ids : List String)
      → sees b st id ≡ true
      → All (Files st id) ids
      → (items : List Observation) × (index_all st.observations ids ≡ ok items)
        × (index_all last.observations ids ≡ ok items)
        × All (IsOf id) items
  index_same id [] s h = ([], refl, refl, tt)
  index_same id (k ∷ ks) s h =
      let (o, g, e) = h.0 in
      let (items, p, q, all) = index_same id ks s h.1 in
      let kept = stored k o g (rw e s) in
      (
        o ∷ items,
        index_all-cons st.observations k ks o items g p,
        index_all-cons last.observations k ks o items kept q,
        (e, all),
      )

  All-number_from :
      (id : String) (k : ℕ) (items : List Observation)
      → All (IsOf id) items
      → All (λ (p : ℕ × Observation). p.1.source_id ≡ id) (number_from k items)
  All-number_from id k [] h = tt
  All-number_from id k (o ∷ items) h = (h.0, All-number_from id (k + 1) items h.1)

  All-same :
      (id : String) (ps : List (ℕ × Observation))
      → sees b st id ≡ true
      → All (λ (p : ℕ × Observation). p.1.source_id ≡ id) ps
      → All (λ p. observation_at last p ≡ observation_at st p) ps
  All-same id [] s h = tt
  All-same id (p ∷ ps) s h = (marker p.1 (rw h.0 s), All-same id ps s h.1)

  listing_same :
      IsFiled st
      → (id : String) (limit : ℕ)
      → list_observations b last id limit ≡ list_observations b st id limit
  unfolding list_observations Memory.list_observations
  listing_same f id limit = elim (Bool-cases (sees b st id)) [
    | inr n ↦ rw (leaves.sources id, n) refl
    | inl s ↦
        let (items, p, q, all) =
          index_same id (ids_of st.observation_ids id) s (All-of_In _ _ (λ k m. f.listed id k m)) in
        rw (leaves.sources id, s, leaves.listed id s, p, q)
          (ap ok (
            map-same (observation_at last) (observation_at st)
              (take limit (sort_by newest_first (number_from 0 items)))
              (All-same id _ s (
                All-take _ limit _
                  (All-sort_by newest_first _ _ (All-number_from id 0 items all))))))
  ]

  review_same : (id : String) → get_review b last id ≡ get_review b st id
  unfolding get_review Memory.get_review
  review_same id = elim (Option-cases (get_observation b st id)) [
    | inl n ↦ rw (leaves.observations id, n) refl
    | inr (o, g) ↦ rw (leaves.observations id, g, leaves.reviews id o g) refl
  ]

  pub Leaves-ReadsSame : IsFiled st → ReadsSame b st last
  Leaves-ReadsSame f = record {
    sources = leaves.sources;
    observations = leaves.observations;
    baselines = baseline_same f;
    listings = listing_same f;
    reviews = review_same;
    candidates = leaves.candidates;
    attempts = leaves.attempts;
  }

module _ (b w : String) (n : b ≢ w) where
  Call-Leaves : (st last : MemoryStore) → Call w st last → IsFiled st → Leaves b st last
  unfolding upsert_source save_observation prune_row_diff_payloads save_review
      update_notification_candidate claim_delivery_attempt update_delivery_attempt
      reconcile_prepared_delivery_attempt promote_baseline Memory.claim_delivery_attempt
  Call-Leaves _ _ (upserts s st) f =
      guarded-has (Leaves b st) (may_upsert w s st) _ st (Leaves-refl b st)
        (upsert-Leaves b w n st s)
  Call-Leaves _ _ (saves o set_baseline c st) f =
      guarded-has (Leaves b st) (may_save w o c st) _ st (Leaves-refl b st)
        (save-Leaves b w n st o set_baseline c)
  Call-Leaves _ _ (prunes id keep st) f =
      guarded-has (Leaves b st) (may_prune w id keep st) _ st (Leaves-refl b st)
        (prune-Leaves b w n st id keep f)
  Call-Leaves _ _ (reviews r st) f =
      guarded-has (Leaves b st) (may_review w r st) _ st (Leaves-refl b st)
        (review-Leaves b w n st r)
  Call-Leaves _ _ (decides c st) f =
      guarded-has (Leaves b st) (may_update_candidate w c st) _ st (Leaves-refl b st)
        (candidate-Leaves b w n st c)
  Call-Leaves _ _ (claims c st fresh) f =
      guarded-has (Leaves b st) (may_claim w c st) _ st (Leaves-refl b st)
        (λ h. claim-Leaves b w n st c fresh h (plan_claim st c) refl)
  Call-Leaves _ _ (completes a st) f =
      guarded-has (Leaves b st) (may_update_attempt w a st) _ st (Leaves-refl b st)
        (attempt-Leaves b w n st a)
  Call-Leaves _ _ (reconciles id outcome at_time note by st) f =
      guarded-has (Leaves b st) (may_reconcile w id st) _ st (Leaves-refl b st)
        (reconcile-Leaves b w n st id outcome at_time note by)
  Call-Leaves _ _ (promotes id observation_id st) f =
      guarded-has (Leaves b st) (may_promote w id observation_id st) _ st (Leaves-refl b st)
        (promote-Leaves b w n st id observation_id)

  run_calls :
      (st last : MemoryStore) → Calls w st last → IsFiled st → IsFiled last × ReadsSame b st last
  run_calls st _ (done _) f = (f, ReadsSame-refl b st)
  run_calls st _ (then_call _ mid last calls call) f =
      let (g, r) = run_calls st mid calls f in
      (
        Call-IsFiled w mid last call g,
        ReadsSame-trans b st mid last r
            (Leaves-ReadsSame b mid last (Call-Leaves mid last call g) g),
      )

-- Whatever sequence of calls is made through the store of one workspace, whether they return or
-- raise, another workspace reads by every key what it read before: its sources, observations,
-- baselines, reviews, candidates and delivery attempts, and the lists of its observations. The
-- store before the calls has each listed observation and each baseline under its own source, and a
-- new delivery attempt is given an id that no attempt has.
pub workspace_isolation :
    (b w : String) (st last : MemoryStore)
    → b ≢ w
    → IsFiled st
    → Calls w st last
    → ReadsSame b st last
workspace_isolation b w st last n f calls = (run_calls b w n st last calls f).1

pub Calls-IsFiled :
    (w : String) (st last : MemoryStore) → Calls w st last → IsFiled st → IsFiled last
Calls-IsFiled w st _ (done _) f = f
Calls-IsFiled w st _ (then_call _ mid last calls call) f =
    Call-IsFiled w mid last call (Calls-IsFiled w st mid calls f)
