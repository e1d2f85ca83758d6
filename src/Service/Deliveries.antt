-- ===== src/Service/Deliveries.antt =====
-- Delivery attempts: reconciliation and the dry run.
use analyst_watch.Prelude.{
  String, Bool, true, false, Option, none, some, [], ◌∷◌, ◌==◌, concat, or_default,
  is_blank_or_padded, if◌then◌else◌,
}
use analyst_watch.Result.{Result, ok, err, Exec, value_error, key_error}
use analyst_watch.Models.{
  NotificationCandidate, DeliveryAttempt, DeliveryAttemptState, succeeded, failed,
  DeliveryReconciliationOutcome, outcome_succeeded, outcome_failed, Instant, DateTime, now_or_clock,
  transition_value, SourceDefinition,
}
use analyst_watch.Memory.{
  MemoryStore, get_source, get_notification_candidate, claim_delivery_attempt,
  update_delivery_attempt, reconcile_prepared_delivery_attempt, Claim,
}
use analyst_watch.Service.Sources.{validate_execution_owner}

-- `DeliveryResult` of analystwatch/delivery.py, or the exception that an adapter raised.
pub data DeliveryResult : Type 0 where
  delivered : Option String → DeliveryResult
  refused : Option String → DeliveryResult
  crashed : String → DeliveryResult

pub record DeliveryAdapter : Type 0 where
  pub name : String
  pub deliver : NotificationCandidate → DeliveryResult

-- `DryRunDeliveryAdapter(fail_with=...)`
abbrev pub dry_run_adapter : Option String → DeliveryAdapter
dry_run_adapter fail_with = record {
  name = "dry-run";
  deliver = λ c. elim fail_with [
    | some reason ↦ refused (some reason)
    | none ↦ delivered (
        some (
          concat (
            "Dry run prepared "
            ∷ transition_value c.transition
            ∷ " candidate "
            ∷ c.id
            ∷ "; no external delivery was attempted."
            ∷ [])))
  ];
}

abbrev pub outcome_state : DeliveryReconciliationOutcome → DeliveryAttemptState
outcome_state outcome_succeeded = succeeded
outcome_state outcome_failed = failed

-- `owner` is the service's `execution_owner`.
abbrev pub reconcile_owned :
    Instant
    → String
    → DeliveryReconciliationOutcome
    → String
    → Result String
    → Exec MemoryStore DeliveryAttempt
reconcile_owned at attempt_id outcome note (err e) st = (err e, st)
reconcile_owned at attempt_id outcome note (ok by) st =
    reconcile_prepared_delivery_attempt attempt_id (outcome_state outcome) at note (some by) st

-- `owner` is the service's `execution_owner`.
unfoldable pub reconcile_delivery_attempt :
    Instant
    → String
    → String
    → DeliveryReconciliationOutcome
    → String
    → Option DateTime
    → Option String
    → Exec MemoryStore DeliveryAttempt
reconcile_delivery_attempt clock owner attempt_id outcome note now reviewer st =
    if is_blank_or_padded note
    then (err (value_error "Reconciliation note must be non-empty and trimmed"), st)
    else reconcile_owned (now_or_clock now clock) attempt_id outcome note
        (validate_execution_owner (or_default reviewer owner)) st

-- `x or y` of texts: an empty text counts as none.
abbrev pub text_or : Option String → String → String
text_or none d = d
text_or (some s) d = if s == "" then d else s

-- The attempt after the adapter's answer.
abbrev pub completed : DeliveryAttempt → Instant → DeliveryResult → DeliveryAttempt
completed a at (delivered summary) = record a {
  state = succeeded;
  completed_at = some at;
  result_summary = summary;
}
completed a at (refused reason) = record a {
  state = failed;
  completed_at = some at;
  error = some (text_or reason "Dry-run adapter reported failure.");
}
completed a at (crashed what) = record a {
  state = failed;
  completed_at = some at;
  error = some what;
}

-- After the claim: a replay is returned as it is, a new attempt is delivered and completed.
abbrev pub run_adapter :
    DeliveryAdapter
    → NotificationCandidate
    → Instant
    → Result (DeliveryAttempt × Bool)
    → Exec MemoryStore DeliveryAttempt
run_adapter adapter candidate at (err e) st = (err e, st)
run_adapter adapter candidate at (ok (attempt, true)) st = (ok attempt, st)
run_adapter adapter candidate at (ok (attempt, false)) st =
    update_delivery_attempt (completed attempt at (adapter.deliver candidate)) st

-- The arguments of a dry run, with the time that it settles on.
pub record DryRun : Type 0 where
  pub candidate_id : String
  pub idempotency_key : String
  pub at : Instant
  pub adapter : DeliveryAdapter

abbrev pub claim_of : DryRun → SourceDefinition → String → Claim
claim_of d source claim_owner = record {
  candidate_id = d.candidate_id;
  idempotency_key = d.idempotency_key;
  adapter = d.adapter.name;
  created_at = d.at;
  retry_minutes = source.config.delivery_retry_minutes;
  claim_owner = some claim_owner;
}

-- The claim and the delivery, once the owner is valid.
abbrev pub dry_run_owned :
    DryRun
    → NotificationCandidate
    → SourceDefinition
    → Result String
    → Exec MemoryStore DeliveryAttempt
dry_run_owned d candidate source (err e) st = (err e, st)
dry_run_owned d candidate source (ok claim_owner) st =
    let (r, st') = claim_delivery_attempt (claim_of d source claim_owner) st in
    run_adapter d.adapter candidate d.at r st'

abbrev pub dry_run_of_source :
    DryRun
    → Result String
    → NotificationCandidate
    → Option SourceDefinition
    → Exec MemoryStore DeliveryAttempt
dry_run_of_source d owner candidate none st =
    (err (key_error (concat ("Unknown source: " ∷ candidate.source_id ∷ []))), st)
dry_run_of_source d owner candidate (some source) st = dry_run_owned d candidate source owner st

abbrev pub dry_run_of_candidate :
    DryRun → Result String → Option NotificationCandidate → Exec MemoryStore DeliveryAttempt
dry_run_of_candidate d owner none st =
    (err (key_error (concat ("Unknown notification candidate: " ∷ d.candidate_id ∷ []))), st)
dry_run_of_candidate d owner (some candidate) st =
    dry_run_of_source d owner candidate (get_source st candidate.source_id) st

unfoldable pub dry_run_delivery :
    Instant
    → String
    → String
    → String
    → Option DateTime
    → DeliveryAdapter
    → Option String
    → Exec MemoryStore DeliveryAttempt
dry_run_delivery clock owner candidate_id idempotency_key now adapter execution_owner st =
    if is_blank_or_padded idempotency_key
    then (err (value_error "idempotency_key must be non-empty and trimmed"), st)
    else dry_run_of_candidate
        (record {
          candidate_id = candidate_id;
          idempotency_key = idempotency_key;
          at = now_or_clock now clock;
          adapter = adapter;
        })
        (validate_execution_owner (or_default execution_owner owner))
        (get_notification_candidate st candidate_id) st
