-- ===== src/Service/Retries.antt =====
-- The retry decision of `MonitorService` (analystwatch/service.py).
use analyst_watch.Prelude.{
  ℕ, ◌+◌, String, Bool, true, false, not, Option, none, some, [], ◌∷◌, ◌==◌, concat, select, leb,
  if◌then◌else◌,
}
use analyst_watch.Result.{Result, ok, err, key_error, ◌>>=◌}
use analyst_watch.Models.{
  eligible, candidate_state_eqb, DeliveryAttempt, DeliveryAttemptState, prepared, succeeded, failed,
  DeliveryRetryDecision, Instant, DateTime, now_or_clock, minutes,
}
use analyst_watch.Memory.{
  MemoryStore, max_attempt, get_source, get_notification_candidate, list_delivery_attempts,
}

-- A decision, by whether an attempt is due, why, and the latest attempt.
abbrev decision :
    String → Bool → String → Option DeliveryAttempt → Option Instant → DeliveryRetryDecision
decision candidate_id due reason none next = record {
  candidate_id = candidate_id;
  due = due;
  reason = reason;
  last_attempt_id = none;
  last_state = none;
  next_retry_at = next;
}
decision candidate_id due reason (some a) next = record {
  candidate_id = candidate_id;
  due = due;
  reason = reason;
  last_attempt_id = some a.id;
  last_state = some a.state;
  next_retry_at = next;
}

abbrev pub decide_failed :
    String → ℕ → Instant → DeliveryAttempt → Option Instant → DeliveryRetryDecision
decide_failed candidate_id retry current latest none =
    decision candidate_id false "Failed attempt is missing its completion timestamp." (some latest)
      none
decide_failed candidate_id retry current latest (some completed_at) =
    let next = completed_at + minutes retry in
    let due = leb next current in
    decision candidate_id due
      (if due
        then "Failed attempt is eligible for retry."
        else "Failed attempt is inside the configured retry delay.")
      (some latest) (some next)

abbrev pub decide_state :
    DeliveryAttemptState → String → ℕ → Instant → DeliveryAttempt → DeliveryRetryDecision
decide_state succeeded id retry current latest =
    decision id false "A successful delivery attempt already exists." (some latest) none
decide_state prepared id retry current latest =
    decision id false "Prepared attempt requires explicit reconciliation before retry."
      (some latest) none
decide_state failed id retry current latest =
    decide_failed id retry current latest latest.completed_at

abbrev pub decide_latest : String → ℕ → Instant → Option DeliveryAttempt → DeliveryRetryDecision
decide_latest id retry current none =
    decision id true "No delivery attempt has been claimed for this candidate." none none
decide_latest id retry current (some latest) = decide_state latest.state id retry current latest

unfoldable pub delivery_retry_decision :
    Instant → MemoryStore → String → Option DateTime → String → Result DeliveryRetryDecision
unfolding get_source get_notification_candidate
delivery_retry_decision clock st candidate_id now adapter_name =
    elim (get_notification_candidate st candidate_id) [
      | none ↦ err (key_error (concat ("Unknown notification candidate: " ∷ candidate_id ∷ [])))
      | some candidate ↦ elim (get_source st candidate.source_id) [
        | none ↦ err (key_error (concat ("Unknown source: " ∷ candidate.source_id ∷ [])))
        | some source ↦
            if not (candidate_state_eqb candidate.state eligible)
            then ok (
                decision candidate.id false
                  "Only Eligible notification candidates can be attempted." none none)
            else do
              listed ← list_delivery_attempts st (some candidate.id) none 1000
              ok (
                  decide_latest candidate.id source.config.delivery_retry_minutes
                    (now_or_clock now clock)
                    (max_attempt
                      (select (λ (a : DeliveryAttempt). a.adapter == adapter_name) listed)))
      ]
    ]
