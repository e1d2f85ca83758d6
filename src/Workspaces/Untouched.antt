-- ===== src/Workspaces/Untouched.antt =====
-- The calls of the store in memory (analystwatch/memory_store.py) that leave the observations alone,
-- and the order of observations over calls through a workspace (analystwatch/workspace.py).
use analyst_watch.Prelude.{
  String, Bool, true, false, refl, Option, inl, inr, contains, Bool-cases, Option-cases, get, ◌==◌,
}
use analyst_watch.Result.{Result, ok, err}
use analyst_watch.Models.{
  SourceDefinition, ObservationReview, NotificationCandidate, DeliveryAttempt, DeliveryAttemptState,
  Instant, attempt_state_eqb, prepared,
}
use analyst_watch.Memory
use analyst_watch.Memory.{MemoryStore, Claim, finish_claim, plan_claim}
use analyst_watch.Workspaces.Calls.{
  upsert_source, save_observation, prune_row_diff_payloads, save_review,
  update_notification_candidate, claim_delivery_attempt, update_delivery_attempt,
  reconcile_prepared_delivery_attempt, promote_baseline, may_upsert, may_save, may_prune,
  may_review, may_update_candidate, may_claim, may_update_attempt, may_reconcile, may_promote,
}
use analyst_watch.Workspaces.Steps.{
  Call, upserts, saves, prunes, reviews, decides, claims, completes, reconciles, promotes, IsFiled,
}
use analyst_watch.Workspaces.Filing.{
  guarded-has, SameFiles, SameFiles-refl, SameFiles-IsFiled, save_observation-IsFiled,
  prune-IsFiled, promote_baseline-IsFiled,
}

pub upsert_source-SameFiles :
    (s : SourceDefinition) (st : MemoryStore) → SameFiles st (Memory.upsert_source s st).1
unfolding Memory.upsert_source
upsert_source-SameFiles s st = record {
  observations = refl;
  observation_ids = refl;
  baseline_ids = refl;
}

pub save_review-SameFiles :
    (r : ObservationReview) (st : MemoryStore) → SameFiles st (Memory.save_review r st).1
unfolding Memory.save_review
save_review-SameFiles r st = elim (Option-cases (get r.observation_id st.observations)) [
  | inl n ↦ rw (n, Memory.save_review) (SameFiles-refl st)
  | inr (o, g) ↦ elim (Bool-cases (o.source_id == r.source_id)) [
    | inl t ↦
        rw (g, Memory.save_review, t)
          (record { observations = refl; observation_ids = refl; baseline_ids = refl })
    | inr f ↦ rw (g, Memory.save_review, f) (SameFiles-refl st)
  ]
]

pub update_candidate-SameFiles :
    (c : NotificationCandidate) (st : MemoryStore)
    → SameFiles st (Memory.update_notification_candidate c st).1
unfolding Memory.update_notification_candidate
update_candidate-SameFiles c st = elim (Bool-cases (contains c.id st.candidates)) [
  | inl t ↦ rw t (record { observations = refl; observation_ids = refl; baseline_ids = refl })
  | inr f ↦ rw f (SameFiles-refl st)
]

pub finish_claim-SameFiles :
    (c : Claim) (st : MemoryStore) (r : Result (DeliveryAttempt × Bool))
    → SameFiles st (finish_claim c st r).1
finish_claim-SameFiles c st (err e) = SameFiles-refl st
finish_claim-SameFiles c st (ok (a, true)) = SameFiles-refl st
finish_claim-SameFiles c st (ok (a, false)) = record {
  observations = refl;
  observation_ids = refl;
  baseline_ids = refl;
}

pub claim-SameFiles :
    (c : Claim) (st : MemoryStore) → SameFiles st (Memory.claim_delivery_attempt c st).1
unfolding Memory.claim_delivery_attempt
claim-SameFiles c st = finish_claim-SameFiles c st (plan_claim st c)

pub update_attempt-SameFiles :
    (a : DeliveryAttempt) (st : MemoryStore) → SameFiles st (Memory.update_delivery_attempt a st).1
unfolding Memory.update_delivery_attempt
update_attempt-SameFiles a st = elim (Bool-cases (contains a.id st.attempts)) [
  | inl t ↦ rw t (record { observations = refl; observation_ids = refl; baseline_ids = refl })
  | inr f ↦ rw f (SameFiles-refl st)
]

pub reconcile-SameFiles :
    (id : String) (outcome : DeliveryAttemptState) (at_time : Instant) (note : String)
    (by : Option String) (st : MemoryStore)
    → SameFiles st (Memory.reconcile_prepared_delivery_attempt id outcome at_time note by st).1
unfolding Memory.reconcile_prepared_delivery_attempt
reconcile-SameFiles id outcome at_time note by st =
    elim (Bool-cases (attempt_state_eqb outcome prepared)) [
      | inl t ↦ rw t (SameFiles-refl st)
      | inr f ↦ elim (Option-cases (get id st.attempts)) [
        | inl n ↦ rw (f, n) (SameFiles-refl st)
        | inr (a, g) ↦ elim (Bool-cases (attempt_state_eqb a.state prepared)) [
          | inl t ↦
              rw (f, g, t)
                (record { observations = refl; observation_ids = refl; baseline_ids = refl })
          | inr n ↦ rw (f, g, n) (SameFiles-refl st)
        ]
      ]
    ]

-- Whatever a call through a workspace returns, each listed observation and each baseline is still a
-- stored observation of the source that it is listed for.
pub Call-IsFiled : (w : String) (st last : MemoryStore) → Call w st last → IsFiled st → IsFiled last
unfolding upsert_source save_observation prune_row_diff_payloads save_review
    update_notification_candidate claim_delivery_attempt update_delivery_attempt
    reconcile_prepared_delivery_attempt promote_baseline
Call-IsFiled w _ _ (upserts s st) f =
    guarded-has IsFiled (may_upsert w s st) _ st f
      (λ _. SameFiles-IsFiled st _ (upsert_source-SameFiles s st) f)
Call-IsFiled w _ _ (saves o b c st) f =
    guarded-has IsFiled (may_save w o c st) _ st f (λ _. save_observation-IsFiled o b c st f)
Call-IsFiled w _ _ (prunes id keep st) f =
    guarded-has IsFiled (may_prune w id keep st) _ st f (λ _. prune-IsFiled id keep st f)
Call-IsFiled w _ _ (reviews r st) f =
    guarded-has IsFiled (may_review w r st) _ st f
      (λ _. SameFiles-IsFiled st _ (save_review-SameFiles r st) f)
Call-IsFiled w _ _ (decides c st) f =
    guarded-has IsFiled (may_update_candidate w c st) _ st f
      (λ _. SameFiles-IsFiled st _ (update_candidate-SameFiles c st) f)
Call-IsFiled w _ _ (claims c st new) f =
    guarded-has IsFiled (may_claim w c st) _ st f
      (λ _. SameFiles-IsFiled st _ (claim-SameFiles c st) f)
Call-IsFiled w _ _ (completes a st) f =
    guarded-has IsFiled (may_update_attempt w a st) _ st f
      (λ _. SameFiles-IsFiled st _ (update_attempt-SameFiles a st) f)
Call-IsFiled w _ _ (reconciles id outcome at_time note by st) f =
    guarded-has IsFiled (may_reconcile w id st) _ st f
      (λ _. SameFiles-IsFiled st _ (reconcile-SameFiles id outcome at_time note by st) f)
Call-IsFiled w _ _ (promotes id observation_id st) f =
    guarded-has IsFiled (may_promote w id observation_id st) _ st f
      (λ _. promote_baseline-IsFiled id observation_id st f)
