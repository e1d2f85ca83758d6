-- ===== src/Workspaces/Separation.antt =====
-- Each call through one workspace (analystwatch/workspace.py) and what another workspace reads.
use analyst_watch.Prelude.{
  String, Bool, true, false, ◌≡◌, ◌≢◌, refl, ◌∙◌, sym, Option, none, some, List, [], ◌∷◌, In, Dict,
  not, is_some, ◌⊎◌, ◌||◌, inl, inr, Bool-cases, Option-cases, arith, get, put, get-put_ne, eq_iff,
  ◌==◌, contains, any,
}
use analyst_watch.Result.{Result, ok, err, require-ok, bind-ok, Result-cases}
use analyst_watch.Models.{
  SourceDefinition, Observation, ObservationReview, NotificationCandidate, DeliveryAttempt,
  DeliveryAttemptState, Instant, attempt_state_eqb, prepared,
}
use analyst_watch.Memory
use analyst_watch.Memory.{
  MemoryStore, Claim, ids_of, prune_all, prune_one, is_successful, plan_claim, finish_claim,
  strip_row_diff_raw_payloads, reconciled,
}
use analyst_watch.Persistence.Pruning.{prune-Remains}
use analyst_watch.Persistence.Claims.{plan-fresh}
use analyst_watch.Workspaces.Bound.{
  visible, sees, get_observation, get_notification_candidate, get_delivery_attempt,
}
use analyst_watch.Workspaces.Calls.{
  require_source, may_upsert, may_save, check_candidate, may_prune, may_review,
  may_update_candidate, may_claim, may_update_attempt, may_reconcile, may_promote, owned_elsewhere,
  belongs, check_kept,
}
use analyst_watch.Workspaces.Steps.{IsFiled}
use analyst_watch.Workspaces.Filing.{Remains-source}
use analyst_watch.Workspaces.Frames.{sees-apart, Leaves, Leaves-refl, apart, get_source-visible}
use analyst_watch.Workspaces.Writes.{
  put_source-Leaves, put_candidate-Leaves, put_attempt-Leaves, put_baseline-Leaves,
  put_review-Leaves, observations-Leaves,
}
use analyst_watch.Workspaces.Apart.{
  require-true, require_source-sees, observation-unseen, candidate-unseen, attempt-unseen,
  save_observation-Leaves,
}

-- Pruning touches the listed observations only.
prune_one-touches :
    (keep : List String) (id i : String) (d e : Dict Observation)
    → prune_one keep id d ≡ ok e
    → (get i e ≡ get i d) ⊎ (i ≡ id)
prune_one-touches keep id i d e h = elim (Bool-cases (id == i)) [
  | inl t ↦ inr (sym ((eq_iff id i).0 t))
  | inr f ↦ elim (Bool-cases (any (λ k. k == id) keep)) [
    | inl t ↦ let s : d ≡ e = (let k = rw t at h in ground arith) in inl (rw (← s) refl)
    | inr g ↦ elim (Option-cases (get id d)) [
      | inl n ↦ absurd (let k = rw (g, n) at h in ground arith)
      | inr (o, found) ↦ elim (Bool-cases (is_some o.row_snapshot || is_some o.row_diff)) [
        | inl t ↦
            let s : put id (strip_row_diff_raw_payloads o) d ≡ e =
              (let k = rw (g, found, t) at h in ground arith) in
            inl (
              rw (← s) (
                get-put_ne id i (strip_row_diff_raw_payloads o) d
                  (λ x. absurd (ground (arith, (eq_iff id i).1 x)))))
        | inr u ↦
            let s : d ≡ e = (let k = rw (g, found, u) at h in ground arith) in inl (rw (← s) refl)
      ]
    ]
  ]
]

prune_all-touches :
    (keep ids : List String) (i : String) (d : Dict Observation)
    → (get i (prune_all keep ids d).1 ≡ get i d) ⊎ In i ids
prune_all-touches keep [] i d = inl refl
prune_all-touches keep (id ∷ ids) i d = elim (Result-cases (prune_one keep id d)) [
  | inr (e, h) ↦ inl (rw (prune_all, h) refl)
  | inl (p, h) ↦ elim (prune_one-touches keep id i d p h) [
    | inr s ↦ inr (inl s)
    | inl s ↦ elim (prune_all-touches keep ids i p) [
      | inl t ↦ inl (rw (prune_all, h) (t ∙ s))
      | inr m ↦ inr (inr m)
    ]
  ]
]

module _ (b w : String) (n : b ≢ w) (st : MemoryStore) where
  pub upsert-Leaves :
      (s : SourceDefinition) → may_upsert w s st ≡ ok tt → Leaves b st (Memory.upsert_source s st).1
  unfolding may_upsert Memory.upsert_source Memory.get_source
  upsert-Leaves s h =
      let (own, h1) = require-ok (s.workspace_id == w) _ _ tt h in
      let free = require-true (not (owned_elsewhere w (get s.id st.sources))) _ h1 in
      put_source-Leaves b st s (apart b w s.workspace_id n own) (
        get_source-visible b st s.id ∙ elim (Option-cases (get s.id st.sources)) [
          | inl e ↦ rw e refl
          | inr (x, e) ↦
              let k = rw e at free in
              let own_too : (x.workspace_id == w) ≡ true = ground arith in
              rw (e, apart b w x.workspace_id n own_too) refl
        ])

  pub save-Leaves :
      (o : Observation) (set_baseline : Bool) (c : Option NotificationCandidate)
      → may_save w o c st ≡ ok tt
      → Leaves b st (Memory.save_observation o set_baseline c st).1
  unfolding may_save
  save-Leaves o set_baseline c h =
      let (u, own, h1) =
        bind-ok (require_source w st o.source_id) (λ _. check_candidate w st o c) tt h in
      let hidden = sees-apart b w st o.source_id n (require_source-sees w st o.source_id own) in
      save_observation-Leaves b w n o set_baseline c st hidden (λ d e.
        let k : check_candidate w st o (some d) ≡ ok tt = rw e at h1 in
        let (t, h2) = require-ok (d.source_id == o.source_id) _ _ tt k in
        rw (← (eq_iff d.source_id o.source_id).0 t) at hidden)

  pub prune-Leaves :
      (source_id : String) (keep : List String)
      → IsFiled st
      → may_prune w source_id keep st ≡ ok tt
      → Leaves b st (Memory.prune_row_diff_payloads source_id keep st).1
  unfolding may_prune Memory.prune_row_diff_payloads
  prune-Leaves source_id keep f h =
      let (u, own, h1) =
        bind-ok (require_source w st source_id) (λ _. check_kept w st source_id keep) tt h in
      let hidden = sees-apart b w st source_id n (require_source-sees w st source_id own) in
      let ids = ids_of st.observation_ids source_id in
      observations-Leaves b st (prune_all keep ids st.observations).1 (λ id.
        elim (prune_all-touches keep ids id st.observations) [
          | inl s ↦ rw s refl
          | inr m ↦
              let (o, g, e) = f.listed source_id id m in
              let (p, k, same) =
                Remains-source keep st.observations (prune_all keep ids st.observations).1 id o
                  (prune-Remains source_id keep st id) g in
              rw (g, k, same, e, hidden) refl
        ])

  pub review-Leaves :
      (r : ObservationReview) → may_review w r st ≡ ok tt → Leaves b st (Memory.save_review r st).1
  unfolding may_review Memory.save_review
  review-Leaves r h =
      let (u, own, h1) = bind-ok (require_source w st r.source_id) _ tt h in
      let mine =
        require-true (belongs w r.source_id (get_observation w st r.observation_id)) _ h1 in
      elim (Option-cases (get_observation w st r.observation_id)) [
        | inl e ↦ absurd (let k = rw e at mine in ground arith)
        | inr (o, e) ↦ elim (Option-cases (get r.observation_id st.observations)) [
          | inl g ↦ rw (g, Memory.save_review) (Leaves-refl b st)
          | inr (p, g) ↦ elim (Bool-cases (p.source_id == r.source_id)) [
            | inr f ↦ rw (g, Memory.save_review, f) (Leaves-refl b st)
            | inl t ↦
                rw (g, Memory.save_review, t)
                  (put_review-Leaves b st r (observation-unseen b w n st r.observation_id o e))
          ]
        ]
      ]

  pub candidate-Leaves :
      (c : NotificationCandidate)
      → may_update_candidate w c st ≡ ok tt
      → Leaves b st (Memory.update_notification_candidate c st).1
  unfolding may_update_candidate Memory.update_notification_candidate
  candidate-Leaves c h =
      let (u, own, h1) = bind-ok (require_source w st c.source_id) _ tt h in
      let known = require-true (is_some (get_notification_candidate w st c.id)) _ h1 in
      elim (Bool-cases (contains c.id st.candidates)) [
        | inr f ↦ rw f (Leaves-refl b st)
        | inl t ↦ rw t (
            put_candidate-Leaves b st c st.candidate_ids
              (sees-apart b w st c.source_id n (require_source-sees w st c.source_id own))
              (candidate-unseen b w n st c.id known))
      ]

  pub claim-Leaves :
      (c : Claim)
      → ((a : DeliveryAttempt) → plan_claim st c ≡ ok (a, false) → get a.id st.attempts ≡ none)
      → may_claim w c st ≡ ok tt
      → (r : Result (DeliveryAttempt × Bool)) → plan_claim st c ≡ r
      → Leaves b st (finish_claim c st r).1
  unfolding may_claim get_notification_candidate Memory.get_notification_candidate
      get_delivery_attempt Memory.get_delivery_attempt
  claim-Leaves c fresh h (err e) p = Leaves-refl b st
  claim-Leaves c fresh h (ok (a, true)) p = Leaves-refl b st
  claim-Leaves c fresh h (ok (a, false)) p =
      let known =
        require-true
          (is_some (
            visible (λ (x : NotificationCandidate). sees w st x.source_id)
              (get c.candidate_id st.candidates)))
          _ h in
      let (k, m, found, given, made) = plan-fresh st c a p in
      let shown = rw found at known in
      let own : sees w st k.source_id ≡ true = elim (Bool-cases (sees w st k.source_id)) [
        | inl t ↦ t
        | inr f ↦ absurd (let x = rw f at shown in ground arith)
      ] in
      let place = fresh a p in
      put_attempt-Leaves b st a.id a _ _ (rw made (sees-apart b w st k.source_id n own))
        (rw place refl)

  pub attempt-Leaves :
      (a : DeliveryAttempt)
      → may_update_attempt w a st ≡ ok tt
      → Leaves b st (Memory.update_delivery_attempt a st).1
  unfolding may_update_attempt Memory.update_delivery_attempt
  attempt-Leaves a h =
      let (u, own, h1) = bind-ok (require_source w st a.source_id) _ tt h in
      let known = require-true (is_some (get_delivery_attempt w st a.id)) _ h1 in
      elim (Bool-cases (contains a.id st.attempts)) [
        | inr f ↦ rw f (Leaves-refl b st)
        | inl t ↦ rw t (
            put_attempt-Leaves b st a.id a st.attempt_ids st.idempotency
              (sees-apart b w st a.source_id n (require_source-sees w st a.source_id own))
              (attempt-unseen b w n st a.id known))
      ]

  pub reconcile-Leaves :
      (id : String) (outcome : DeliveryAttemptState) (at_time : Instant) (note : String)
      (by : Option String)
      → may_reconcile w id st ≡ ok tt
      → Leaves b st (Memory.reconcile_prepared_delivery_attempt id outcome at_time note by st).1
  unfolding may_reconcile Memory.reconcile_prepared_delivery_attempt get_delivery_attempt
      Memory.get_delivery_attempt
  reconcile-Leaves id outcome at_time note by h =
      let known =
        require-true
          (is_some (visible (λ (x : DeliveryAttempt). sees w st x.source_id) (get id st.attempts)))
          _ h in
      elim (Bool-cases (attempt_state_eqb outcome prepared)) [
        | inl t ↦ rw t (Leaves-refl b st)
        | inr f ↦ elim (Option-cases (get id st.attempts)) [
          | inl g ↦ rw (f, g) (Leaves-refl b st)
          | inr (a, g) ↦ elim (Bool-cases (attempt_state_eqb a.state prepared)) [
            | inr u ↦ rw (f, g, u) (Leaves-refl b st)
            | inl t ↦
                let shown = rw g at known in
                let own : sees w st a.source_id ≡ true = elim (Bool-cases (sees w st a.source_id)) [
                  | inl v ↦ v
                  | inr v ↦ absurd (let x = rw v at shown in ground arith)
                ] in
                let hidden = sees-apart b w st a.source_id n own in
                rw (f, g, t)
                  (put_attempt-Leaves b st id (reconciled a outcome at_time note by) st.attempt_ids
                    st.idempotency hidden (rw (g, hidden) refl))
          ]
        ]
      ]

  pub promote-Leaves :
      (source_id id : String)
      → may_promote w source_id id st ≡ ok tt
      → Leaves b st (Memory.promote_baseline source_id id st).1
  unfolding may_promote Memory.promote_baseline
  promote-Leaves source_id id h =
      let (u, own, h1) = bind-ok (require_source w st source_id) _ tt h in
      let hidden = sees-apart b w st source_id n (require_source-sees w st source_id own) in
      elim (Option-cases (get id st.observations)) [
        | inl g ↦ rw (g, Memory.promote_baseline) (Leaves-refl b st)
        | inr (o, g) ↦ elim (Bool-cases (o.source_id == source_id)) [
          | inr f ↦ rw (g, Memory.promote_baseline, f) (Leaves-refl b st)
          | inl t ↦ elim (Bool-cases (is_successful o)) [
            | inr f ↦ rw (g, Memory.promote_baseline, t, f) (Leaves-refl b st)
            | inl v ↦
                rw (g, Memory.promote_baseline, t, v) (put_baseline-Leaves b st source_id id hidden)
          ]
        ]
      ]
