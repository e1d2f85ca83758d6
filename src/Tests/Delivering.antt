-- ===== src/Tests/Delivering.antt =====
-- Deliveries from a store with one eligible candidate: the first attempt fails, the second succeeds.
use analyst_watch.Prelude.{
  is_blank_or_padded, concat, decimal, strip, true, ◌≡◌, ◌≢◌, refl, none, some, List, [], ◌∷◌,
  eq_iff, arith, get, put,
}
use analyst_watch.Result.{ok}
use analyst_watch.Models.{DeliveryAttempt, succeeded, failed, dry_run, NotificationCandidate}
use analyst_watch.Memory.{
  get_notification_candidate, get_source, claim_delivery_attempt, next_number, latest_attempt,
  update_delivery_attempt, attempt_id, MemoryStore, Claim, plan_claim,
}
use analyst_watch.Service.{
  dry_run_adapter, dry_run_delivery, DeliveryAdapter, validate_execution_owner,
}
use analyst_watch.Persistence.Settled.{IsSettled, IsKeyed}
use analyst_watch.Deliveries.Runs.{
  checks, evaluates, after, Call, dry_runs, after_all, one_live_attempt, after_all-IsSettled,
}
use analyst_watch.Deliveries.Replays.{dry_run_twice}
use analyst_watch.Persistence.Claims.{live_attempt-blocks}
use analyst_watch.Deliveries.Retries.{decide_latest_iff}
use analyst_watch.Service.{decide_latest}
use analyst_watch.Prelude.{ℕ, true, ◌↔◌}
use analyst_watch.Service.{Ingested}
use analyst_watch.Prelude.{false}
use analyst_watch.Service.{
  evaluate_pending_notification_candidates, check_source, read_before, observe, decided_candidate,
  prune_source,
}
use analyst_watch.Memory.{list_observations, save_observation, list_notification_candidates}
use analyst_watch.Incidents.{incident_transition}
use analyst_watch.Samples.{store}

candidate_of_one : (c d : NotificationCandidate) → some c ≡ some d → c ≡ d
candidate_of_one c d h = ground arith

store-IsKeyed : IsKeyed store.candidates
unfolding get
store-IsKeyed i c h = ground (arith, eq_iff "o2:opened" i)

pub store-IsSettled : IsSettled store
unfolding get
store-IsSettled = record {
  keyed = store-IsKeyed;
  distinct = tt;
  filed = λ i a h. absurd (ground arith);
  ordered = λ i j a b h k p q less. absurd (ground arith);
}

-- A check that finds the source down, an evaluation with nothing to evaluate, a first attempt that
-- fails, and a second one that succeeds.
abbrev unavailable : Ingested
unavailable = record {
  available = false;
  dataset = none;
  http_status = some 503;
  response_ms = none;
  source_modified_at = none;
  response_etag = none;
  error = some "down";
}

abbrev calls : List Call
calls =
    checks 50 "o5" (λ s. unavailable) "s" none
    ∷ evaluates 60 "s" none
    ∷ dry_runs 100 "o2:opened" "k1" none (dry_run_adapter (some "down")) none
    ∷ dry_runs 9000000000 "o2:opened" "k2" none (dry_run_adapter none) none
    ∷ []

abbrev live : DeliveryAttempt
live = record {
  id = "o2:opened:dry-run:2";
  candidate_id = "o2:opened";
  source_id = "s";
  adapter = "dry-run";
  mode = dry_run;
  idempotency_key = "k2";
  attempt_number = 2;
  state = succeeded;
  created_at = 9000000000;
  claim_owner = some "ops";
  completed_at = some 9000000000;
  result_summary =
      some "Dry run prepared Opened candidate o2:opened; no external delivery was attempted.";
  error = none;
  reconciled_at = none;
  reconciled_by = none;
  reconciliation_note = none;
}

live-there : get "o2:opened:dry-run:2" (after_all "ops" calls store).attempts ≡ some live
unfolding after_all get after dry_run_delivery is_blank_or_padded get_notification_candidate
    get_source validate_execution_owner claim_delivery_attempt plan_claim next_number latest_attempt
    update_delivery_attempt attempt_id concat decimal strip put
    evaluate_pending_notification_candidates check_source read_before list_observations
    save_observation observe decided_candidate incident_transition prune_source
    list_notification_candidates
live-there = refl

live_is_live : live.state ≢ failed
live_is_live e = absurd (ground arith)

one_live_attempt_example : live ≡ live
one_live_attempt_example =
    one_live_attempt "ops" calls store "o2:opened:dry-run:2" "o2:opened:dry-run:2" live live
      store-IsSettled live-there live-there refl refl live_is_live live_is_live

after_all-IsSettled_example : IsSettled (after_all "ops" calls store)
after_all-IsSettled_example = after_all-IsSettled "ops" calls store store-IsSettled

-- A third dry run, under the second one's key, by an adapter that would fail.
abbrev left : MemoryStore
left = after_all "ops" calls store

abbrev third : Claim
third = record {
  candidate_id = "o2:opened";
  idempotency_key = "k3";
  adapter = "dry-run";
  created_at = 99000000000;
  retry_minutes = 30;
  claim_owner = none;
}

abbrev replay : Claim
replay = record third { idempotency_key = "k2" }

planned : plan_claim left replay ≡ ok (live, true)
unfolding after_all get after dry_run_delivery is_blank_or_padded get_notification_candidate
    get_source validate_execution_owner claim_delivery_attempt plan_claim next_number latest_attempt
    update_delivery_attempt attempt_id concat decimal strip put
    evaluate_pending_notification_candidates check_source read_before list_observations
    save_observation observe decided_candidate incident_transition prune_source
    list_notification_candidates
planned = refl

live_attempt-blocks_example : true ≡ true
live_attempt-blocks_example =
    live_attempt-blocks left replay "o2:opened:dry-run:2" live live true after_all-IsSettled_example
      live-there here here' live_is_live planned
  where
    here : live.candidate_id ≡ replay.candidate_id
    here = refl

    here' : live.adapter ≡ replay.adapter
    here' = refl

abbrev failing : DeliveryAdapter
failing = dry_run_adapter (some "down")

abbrev first : DeliveryAttempt
first = record live {
  id = "o2:opened:dry-run:1";
  idempotency_key = "k1";
  attempt_number = 1;
  state = failed;
  created_at = 100;
  completed_at = some 100;
  result_summary = none;
  error = some "down";
}

first-returned : (dry_run_delivery 100 "ops" "o2:opened" "k1" none failing none store).0 ≡ ok first
unfolding after_all get after dry_run_delivery is_blank_or_padded get_notification_candidate
    get_source validate_execution_owner claim_delivery_attempt plan_claim next_number latest_attempt
    update_delivery_attempt attempt_id concat decimal strip put
first-returned = refl

ops-valid : validate_execution_owner "ops" ≡ ok "ops"
unfolding after_all get after dry_run_delivery is_blank_or_padded get_notification_candidate
    get_source validate_execution_owner claim_delivery_attempt plan_claim next_number latest_attempt
    update_delivery_attempt attempt_id concat decimal strip put
ops-valid = refl

dry_run_twice_example :
    dry_run_delivery 999 "ops" "o2:opened" "k1" none
      (dry_run_adapter none)
      none
      (dry_run_delivery 100 "ops" "o2:opened" "k1" none failing none store).1
    ≡ (ok first, (dry_run_delivery 100 "ops" "o2:opened" "k1" none failing none store).1)
dry_run_twice_example =
    dry_run_twice "ops" "o2:opened" "k1" 100 999 none none failing (dry_run_adapter none) none none
      "ops" store first store-IsSettled first-returned ops-valid refl

decide_latest_iff_example :
    ((decide_latest "o2:opened" 30 500 (some first)).due ≡ true)
    ↔ ((n : ℕ) × (next_number (some first) 500 30 ≡ ok n))
decide_latest_iff_example = decide_latest_iff "o2:opened" 30 500 (some first)
