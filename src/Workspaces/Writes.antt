-- ===== src/Workspaces/Writes.antt =====
-- Each write that the store in memory (analystwatch/memory_store.py) makes for one workspace, as
-- another workspace (analystwatch/workspace.py) reads the store afterwards.
use analyst_watch.Prelude.{
  String, false, ◌≡◌, refl, ◌∙◌, sym, ap, none, List, [], ◌∷◌, ◌++◌, Dict, is_some, inl, inr,
  Bool-cases, arith, get, put, get-put, get-put_ne, eq_iff, ◌==◌,
}
use analyst_watch.Models.{
  SourceDefinition, Observation, ObservationReview, NotificationCandidate, DeliveryAttempt,
}
use analyst_watch.Memory
use analyst_watch.Memory.{MemoryStore, ids_of, store_observation}
use analyst_watch.Workspaces.Bound.{
  visible, sees, get_source, get_observation, get_notification_candidate, get_delivery_attempt,
}
use analyst_watch.Workspaces.Frames.{visible-same, visible-put, get_source-visible, Leaves}

module _ (b : String) (st : MemoryStore) where
  pub put_source-Leaves :
      (s : SourceDefinition)
      → (s.workspace_id == b) ≡ false
      → get_source b st s.id ≡ none
      → Leaves b st (record st { sources = put s.id s st.sources })
  unfolding get_observation get_notification_candidate get_delivery_attempt Memory.get_observation
      Memory.get_notification_candidate Memory.get_delivery_attempt
  put_source-Leaves s f n =
      let last = record st { sources = put s.id s st.sources } in
      let same : (id : String) → get_source b last id ≡ get_source b st id = λ id.
        get_source-visible b last id
        ∙ (visible-put (λ (x : SourceDefinition). x.workspace_id == b) s.id id s st.sources f
              (sym (get_source-visible b st s.id) ∙ n)
            ∙ sym (get_source-visible b st id)) in
      record {
        sources = same;
        observations =
            λ id. visible-same _ _ (get id st.observations) (λ o. ap is_some (same o.source_id));
        listed = λ id h. refl;
        baselines = λ id h. refl;
        reviews = λ id o h. refl;
        candidates =
            λ id. visible-same _ _ (get id st.candidates) (λ c. ap is_some (same c.source_id));
        attempts = λ id. visible-same _ _ (get id st.attempts) (λ a. ap is_some (same a.source_id));
      }

  -- The observation that is stored is new and of a source that the workspace does not see.
  pub store_observation-Leaves :
      (o : Observation)
      → sees b st o.source_id ≡ false
      → get o.id st.observations ≡ none
      → Leaves b st (store_observation o st)
  unfolding get_source get_observation get_notification_candidate get_delivery_attempt
      Memory.get_source Memory.get_observation Memory.get_notification_candidate
      Memory.get_delivery_attempt
  store_observation-Leaves o f n = record {
    sources = λ id. refl;
    observations = λ id.
        visible-put (λ (x : Observation). sees b st x.source_id) o.id id o st.observations f
          (rw n refl);
    listed = λ id h. elim (Bool-cases (o.source_id == id)) [
      | inl t ↦ absurd (let k = rw (← (eq_iff o.source_id id).0 t) at h in ground arith)
      | inr g ↦
          rw
            (
              ids_of,
              get-put o.source_id id (ids_of st.observation_ids o.source_id ++ o.id ∷ [])
                  st.observation_ids,
              g,
            )
            refl
    ];
    baselines = λ id h. refl;
    reviews = λ id p h. refl;
    candidates = λ id. refl;
    attempts = λ id. refl;
  }

  pub put_candidate-Leaves :
      (c : NotificationCandidate) (ids : List String)
      → sees b st c.source_id ≡ false
      → get_notification_candidate b st c.id ≡ none
      → Leaves b st (record st { candidates = put c.id c st.candidates; candidate_ids = ids })
  unfolding get_source get_observation get_notification_candidate get_delivery_attempt
      Memory.get_source Memory.get_observation Memory.get_notification_candidate
      Memory.get_delivery_attempt
  put_candidate-Leaves c ids f n = record {
    sources = λ id. refl;
    observations = λ id. refl;
    listed = λ id h. refl;
    baselines = λ id h. refl;
    reviews = λ id p h. refl;
    candidates = λ id.
        visible-put (λ (x : NotificationCandidate). sees b st x.source_id) c.id id c st.candidates f
          n;
    attempts = λ id. refl;
  }

  pub put_attempt-Leaves :
      (k : String) (a : DeliveryAttempt) (ids : List String) (keys : Dict String)
      → sees b st a.source_id ≡ false
      → get_delivery_attempt b st k ≡ none
      → Leaves b st
          (record st { attempts = put k a st.attempts; attempt_ids = ids; idempotency = keys })
  unfolding get_source get_observation get_notification_candidate get_delivery_attempt
      Memory.get_source Memory.get_observation Memory.get_notification_candidate
      Memory.get_delivery_attempt
  put_attempt-Leaves k a ids keys f n = record {
    sources = λ id. refl;
    observations = λ id. refl;
    listed = λ id h. refl;
    baselines = λ id h. refl;
    reviews = λ id p h. refl;
    candidates = λ id. refl;
    attempts =
        λ id. visible-put (λ (x : DeliveryAttempt). sees b st x.source_id) k id a st.attempts f n;
  }

  pub put_baseline-Leaves :
      (source_id id : String)
      → sees b st source_id ≡ false
      → Leaves b st (record st { baseline_ids = put source_id id st.baseline_ids })
  unfolding get_source get_observation get_notification_candidate get_delivery_attempt
      Memory.get_source Memory.get_observation Memory.get_notification_candidate
      Memory.get_delivery_attempt
  put_baseline-Leaves source_id id f = record {
    sources = λ i. refl;
    observations = λ i. refl;
    listed = λ i h. refl;
    baselines = λ i h.
        get-put_ne source_id i id st.baseline_ids (λ e. absurd (let k = rw e at f in ground arith));
    reviews = λ i p h. refl;
    candidates = λ i. refl;
    attempts = λ i. refl;
  }

  pub put_review-Leaves :
      (r : ObservationReview)
      → get_observation b st r.observation_id ≡ none
      → Leaves b st (record st { reviews = put r.observation_id r st.reviews })
  unfolding get_source get_observation get_notification_candidate get_delivery_attempt
      Memory.get_source Memory.get_observation Memory.get_notification_candidate
      Memory.get_delivery_attempt
  put_review-Leaves r n = record {
    sources = λ i. refl;
    observations = λ i. refl;
    listed = λ i h. refl;
    baselines = λ i h. refl;
    reviews = λ i p h.
        get-put_ne r.observation_id i r st.reviews
          (λ e. absurd (let k = rw e at n in ground arith));
    candidates = λ i. refl;
    attempts = λ i. refl;
  }

  -- A change of the observations that the workspace does not see.
  pub observations-Leaves :
      (d : Dict Observation)
      → ((id : String)
          → visible (λ (x : Observation). sees b st x.source_id) (get id d)
            ≡ visible (λ (x : Observation). sees b st x.source_id) (get id st.observations))
      → Leaves b st (record st { observations = d })
  unfolding get_source get_observation get_notification_candidate get_delivery_attempt
      Memory.get_source Memory.get_observation Memory.get_notification_candidate
      Memory.get_delivery_attempt
  observations-Leaves d h = record {
    sources = λ i. refl;
    observations = h;
    listed = λ i s. refl;
    baselines = λ i s. refl;
    reviews = λ i p s. refl;
    candidates = λ i. refl;
    attempts = λ i. refl;
  }
