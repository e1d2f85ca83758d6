-- ===== src/Deliveries/Replays.antt =====
-- A delivery is not made twice under one idempotency key.
use analyst_watch.Prelude.{
  String, Bool, true, false, ◌≡◌, refl, sym, subst, ◌∙◌, ap, Option, some, arith, get,
  is_blank_or_padded, or_default, if◌then◌else◌,
}
use analyst_watch.Result.{Result, ok, err, Error}
use analyst_watch.Models.{
  NotificationCandidate, DeliveryAttempt, DateTime, Instant, now_or_clock, SourceDefinition,
}
use analyst_watch.Memory.{
  MemoryStore, plan_claim, finish_claim, claim_delivery_attempt, get_notification_candidate,
  get_source,
}
use analyst_watch.Service.{
  DeliveryAdapter, DryRun, dry_run_owned, dry_run_of_source, dry_run_of_candidate, claim_of,
  run_adapter, dry_run_delivery, validate_execution_owner,
}
use analyst_watch.Persistence.Settled.{IsSettled}
use analyst_watch.Deliveries.Leaves.{
  IsReplay-plan, some_injective, subst_replay, Leaves, of_candidate-Leaves,
}

-- A dry run of a replay returns the attempt and changes nothing.
module _ (st : MemoryStore) (e : DryRun) (a : DeliveryAttempt) (by : String)
    (source : SourceDefinition)
    (planned : plan_claim st (claim_of e source by) ≡ ok (a, true)) where
  replay_owned : (k : NotificationCandidate) → dry_run_owned e k source (ok by) st ≡ (ok a, st)
  unfolding claim_delivery_attempt
  replay_owned k =
      let c = claim_of e source by in
      ap
        (λ (r : Result (DeliveryAttempt × Bool)).
          run_adapter e.adapter k e.at (finish_claim c st r).0 (finish_claim c st r).1)
        planned

  replay_sourced :
      (k : NotificationCandidate) (found : Option SourceDefinition)
      → found ≡ some source
      → dry_run_of_source e (ok by) k found st ≡ (ok a, st)
  replay_sourced k found p =
      subst (λ (f : Option SourceDefinition). dry_run_of_source e (ok by) k f st ≡ (ok a, st))
        (sym p) (replay_owned k)

  replay_known :
      (k : NotificationCandidate) (found : Option NotificationCandidate)
      → found ≡ some k
      → get_source st k.source_id ≡ some source
      → dry_run_of_candidate e (ok by) found st ≡ (ok a, st)
  replay_known k found p q =
      subst (λ (f : Option NotificationCandidate). dry_run_of_candidate e (ok by) f st ≡ (ok a, st))
        (sym p) (replay_sourced k (get_source st k.source_id) q)

replayed :
    (st : MemoryStore) (d e : DryRun) (a : DeliveryAttempt) (by : String) (o : Result String)
    → Leaves st d a
    → o ≡ ok by
    → e.candidate_id ≡ d.candidate_id
    → e.idempotency_key ≡ d.idempotency_key
    → e.adapter.name ≡ d.adapter.name
    → dry_run_of_candidate e o (get_notification_candidate st e.candidate_id) st ≡ (ok a, st)
unfolding get_notification_candidate get_source
replayed st d e a by o l valid p q r =
    let again = subst_replay st d e a l.replay p q r in
    let planned = IsReplay-plan st (claim_of e l.source by) a again in
    let same : again.candidate ≡ l.replay.candidate =
      some_injective again.candidate l.replay.candidate
        (sym again.known ∙ (ap (λ (i : String). get i st.candidates) p ∙ l.replay.known)) in
    let found = ap (λ (k : NotificationCandidate). get k.source_id st.sources) same ∙ l.sourced in
    rw valid (replay_known st e a by l.source planned again.candidate _ again.known found)

-- The test of the key stands before both runs.
under_key :
    (b : Bool) (e : Error) (st : MemoryStore) (x : Result DeliveryAttempt × MemoryStore)
    (y : MemoryStore → Result DeliveryAttempt × MemoryStore) (a : DeliveryAttempt)
    → (x.0 ≡ ok a → y x.1 ≡ (ok a, x.1))
    → (if b then (err e, st) else x).0 ≡ ok a
    → let left = (if b then (err e, st) else x).1 in
      (if b then (err e, left) else y left) ≡ (ok a, left)
under_key true e st x y a f h = absurd (ground arith)
under_key false e st x y a f h = f h

-- A dry run that has returned an attempt can be repeated, at any later time, by any valid owner
-- and with any adapter of the same name: from the store that the first one left, the same
-- candidate and idempotency key return the same attempt, the adapter has no say in the result,
-- and the store stays as it is. The store before the first dry run is settled.
pub dry_run_twice :
    (owner candidate_id key : String) (clock clock' : Instant) (now now' : Option DateTime)
    (adapter adapter' : DeliveryAdapter) (by by' : Option String) (o : String) (st : MemoryStore)
    (a : DeliveryAttempt)
    → IsSettled st
    → (dry_run_delivery clock owner candidate_id key now adapter by st).0 ≡ ok a
    → validate_execution_owner (or_default by' owner) ≡ ok o
    → adapter'.name ≡ adapter.name
    → let left = (dry_run_delivery clock owner candidate_id key now adapter by st).1 in
      dry_run_delivery clock' owner candidate_id key now' adapter' by' left ≡ (ok a, left)
unfolding dry_run_delivery get_notification_candidate
dry_run_twice owner candidate_id key clock clock' now now' adapter adapter' by by' o st a s h valid
      same =
    let d : DryRun = record {
      candidate_id = candidate_id;
      idempotency_key = key;
      at = now_or_clock now clock;
      adapter = adapter;
    } in
    let e : DryRun = record {
      candidate_id = candidate_id;
      idempotency_key = key;
      at = now_or_clock now' clock';
      adapter = adapter';
    } in
    under_key (is_blank_or_padded key) _ st _
      (λ left.
        dry_run_of_candidate e (validate_execution_owner (or_default by' owner))
          (get_notification_candidate left candidate_id) left)
      a
      (λ ran.
        replayed _ d e a o _
          (of_candidate-Leaves st s d a (validate_execution_owner (or_default by owner))
            (get_notification_candidate st candidate_id) refl ran)
          valid refl refl same)
      h
