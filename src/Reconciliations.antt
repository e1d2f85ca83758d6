-- ===== src/Reconciliations.antt =====
-- analystwatch/reconciliation.py: the queue of delivery attempts that wait for reconciliation, read
-- from the store in memory. The clock's reading is an argument.
pub mod Queue
use analyst_watch.Prelude.{
  ℕ, ◌+◌, ◌-◌, ◌/◌, String, Bool, not, Option, none, some, List, [], ◌∷◌, ◌++◌, length, select,
  sort_by, leb, ltb, eqb, if◌then◌else◌,
}
use analyst_watch.Result.{Result, ok, value_error, require, ◌>>=◌, ◌>>◌}
use analyst_watch.Models.{
  DeliveryAttempt, NotificationCandidate, SourceDefinition, DeliveryMode, HealthStatus,
  IncidentTransition, prepared, attempt_state_eqb, Instant, DateTime, minutes, now_or_clock,
}
use analyst_watch.Memory.{
  MemoryStore, list_delivery_attempts, get_notification_candidate, get_source,
}

-- `DeliveryReconciliationQueueItem`
pub record QueueItem : Type 0 where
  pub attempt_id : String
  pub candidate_id : String
  pub source_id : String
  pub source_name : String
  pub adapter : String
  pub mode : DeliveryMode
  pub created_at : Instant
  pub age_minutes : ℕ
  pub stale : Bool
  pub transition : Option IncidentTransition
  pub current_health : Option HealthStatus

pub record DeliveryReconciliationQueue : Type 0 where
  pub generated_at : Instant
  pub stale_after_minutes : ℕ
  pub scan_limit : ℕ
  pub scan_limit_reached : Bool
  pub item_limit : ℕ
  pub item_limit_reached : Bool
  pub prepared_count : ℕ
  pub stale_count : ℕ
  pub items : List QueueItem

-- The arguments of `build_delivery_reconciliation_queue`.
pub record QueueRequest : Type 0 where
  pub now : Option DateTime
  pub stale_after_minutes : ℕ
  pub limit : ℕ
  pub scan_limit : ℕ

-- `max(0.0, current - created_at)` in microseconds.
abbrev pub age : Instant → DeliveryAttempt → ℕ
age current attempt = current - attempt.created_at

abbrev pub is_stale : Instant → ℕ → DeliveryAttempt → Bool
is_stale current stale_after attempt = leb (minutes stale_after) (age current attempt)

abbrev pub name_or : Option SourceDefinition → String → String
name_or none source_id = source_id
name_or (some source) source_id = source.name

abbrev pub transition_of : Option NotificationCandidate → Option IncidentTransition
transition_of none = none
transition_of (some c) = some c.transition

abbrev pub candidate_health : Option NotificationCandidate → Option HealthStatus
candidate_health none = none
candidate_health (some c) = some c.current_health

abbrev pub item_of : MemoryStore → Instant → ℕ → DeliveryAttempt → QueueItem
item_of st current stale_after attempt = record {
  attempt_id = attempt.id;
  candidate_id = attempt.candidate_id;
  source_id = attempt.source_id;
  source_name = name_or (get_source st attempt.source_id) attempt.source_id;
  adapter = attempt.adapter;
  mode = attempt.mode;
  created_at = attempt.created_at;
  age_minutes = age current attempt / 60000000;
  stale = is_stale current stale_after attempt;
  transition = transition_of (get_notification_candidate st attempt.candidate_id);
  current_health = candidate_health (get_notification_candidate st attempt.candidate_id);
}

-- The loop over the prepared attempts: the items and the number of stale attempts so far.
unfoldable pub collect :
    MemoryStore → Instant → ℕ → ℕ → List QueueItem → ℕ → List DeliveryAttempt → List QueueItem × ℕ
collect st current stale_after limit items stale_count [] = (items, stale_count)
collect st current stale_after limit items stale_count (attempt ∷ rest) =
    collect st current stale_after limit
      (if leb limit (length items)
        then items
        else items ++ item_of st current stale_after attempt ∷ [])
      (if is_stale current stale_after attempt then stale_count + 1 else stale_count) rest

abbrev pub is_prepared : DeliveryAttempt → Bool
is_prepared attempt = attempt_state_eqb attempt.state prepared

abbrev pub older_first : DeliveryAttempt → DeliveryAttempt → Bool
older_first a b = leb a.created_at b.created_at

-- What the scan found, oldest first.
abbrev pub prepared_of : List DeliveryAttempt → List DeliveryAttempt
prepared_of scanned = sort_by older_first (select is_prepared scanned)

abbrev pub queue_of :
    MemoryStore → Instant → QueueRequest → List DeliveryAttempt → DeliveryReconciliationQueue
queue_of st current r scanned =
    let waiting = prepared_of scanned in
    let collected = collect st current r.stale_after_minutes r.limit [] 0 waiting in
    record {
      generated_at = current;
      stale_after_minutes = r.stale_after_minutes;
      scan_limit = r.scan_limit;
      scan_limit_reached = eqb (length scanned) r.scan_limit;
      item_limit = r.limit;
      item_limit_reached = ltb r.limit (length waiting);
      prepared_count = length waiting;
      stale_count = collected.1;
      items = collected.0;
    }

unfoldable pub build_delivery_reconciliation_queue :
    MemoryStore → QueueRequest → Instant → Result DeliveryReconciliationQueue
build_delivery_reconciliation_queue st r clock = do
  require (not (eqb r.stale_after_minutes 0))
      (value_error "stale_after_minutes must be greater than zero")
  require (not (eqb r.limit 0)) (value_error "limit must be greater than zero")
  require (not (eqb r.scan_limit 0)) (value_error "scan_limit must be greater than zero")
  scanned ← list_delivery_attempts st none none r.scan_limit
  ok (queue_of st (now_or_clock r.now clock) r scanned)
