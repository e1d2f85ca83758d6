-- ===== src/Tests/Queues.antt =====
-- A queue with one place for two prepared delivery attempts.
use analyst_watch.Prelude.{ℕ, true, none, some, ◌≡◌, refl, List, [], ◌∷◌, get}
use analyst_watch.Result.{ok}
use analyst_watch.Models.{DeliveryAttempt, aware}
use analyst_watch.Memory.{
  MemoryStore, Claim, prepare, list_delivery_attempts, get_source, get_notification_candidate,
}
use analyst_watch.Reconciliations.{
  QueueRequest, DeliveryReconciliationQueue, build_delivery_reconciliation_queue, collect, queue_of,
}
use analyst_watch.Reconciliations.Queue.{IsQueue, build_delivery_reconciliation_queue-IsQueue}
use analyst_watch.Samples.{store, candidate}

abbrev claim_at : ℕ → Claim
claim_at t = record {
  candidate_id = "o2:opened";
  idempotency_key = "k";
  adapter = "dry-run";
  created_at = t;
  retry_minutes = 30;
  claim_owner = none;
}

abbrev first_attempt : DeliveryAttempt
first_attempt = record (prepare (claim_at 1000000) candidate 1) { id = "a1" }

abbrev second_attempt : DeliveryAttempt
second_attempt = record (prepare (claim_at 9000000000) candidate 2) { id = "a2" }

abbrev waiting_store : MemoryStore
waiting_store = record store {
  attempts = ("a2", second_attempt) ∷ ("a1", first_attempt) ∷ [];
  attempt_ids = "a2" ∷ "a1" ∷ [];
}

abbrev request : QueueRequest
request = record {
  now = some (aware 9060000000);
  stale_after_minutes = 30;
  limit = 1;
  scan_limit = 10;
}

abbrev listed : List DeliveryAttempt
listed = second_attempt ∷ first_attempt ∷ []

abbrev queue : DeliveryReconciliationQueue
queue = queue_of waiting_store 9060000000 request listed

queue_built : build_delivery_reconciliation_queue waiting_store request 0 ≡ ok queue
unfolding build_delivery_reconciliation_queue list_delivery_attempts get collect
queue_built = refl

-- The older attempt is listed; it is the stale one.
queue_counts :
    (queue.stale_count ≡ 1) × (queue.prepared_count ≡ 2) × (queue.item_limit_reached ≡ true)
unfolding collect get_source get_notification_candidate get
queue_counts = (refl, refl, refl)

build_delivery_reconciliation_queue-IsQueue_example :
    (scanned : List DeliveryAttempt) × (list_delivery_attempts waiting_store none none 10
      ≡ ok scanned)
    × IsQueue queue scanned
build_delivery_reconciliation_queue-IsQueue_example =
    build_delivery_reconciliation_queue-IsQueue waiting_store request 0 queue queue_built
