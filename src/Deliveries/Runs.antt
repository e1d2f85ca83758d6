-- ===== src/Deliveries/Runs.antt =====
-- After any calls of the service, a candidate has at most one live attempt by an adapter.
use analyst_watch.Prelude.{
  if◌then◌else◌, String, Bool, true, false, ◌≡◌, ◌≢◌, refl, sym, Option, none, some, List, [], ◌∷◌,
  arith, get, put, get-put_self, inl, inr, is_blank_or_padded, or_default,
}
use analyst_watch.Result.{Result, ok, err}
use analyst_watch.Models.{
  NotificationCandidate, DeliveryAttempt, prepared, failed, DateTime, Instant, now_or_clock,
  DeliveryReconciliationOutcome, SourceDefinition,
}
use analyst_watch.Memory.{
  finish_claim, MemoryStore, Claim, plan_claim, record_claim, claim_delivery_attempt,
  update_delivery_attempt, get_notification_candidate, get_source,
}
use analyst_watch.Service.{
  DryRun, dry_run_owned, dry_run_of_source, dry_run_of_candidate, claim_of, reconcile_owned,
  outcome_state, DeliveryAdapter, DeliveryResult, delivered, refused, crashed, completed,
  run_adapter, dry_run_delivery, reconcile_delivery_attempt, validate_execution_owner,
}
use analyst_watch.Service.{Ingested, check_source, evaluate_pending_notification_candidates}
use analyst_watch.Deliveries.Keeps.{check-KeepsIn, evaluate-KeepsIn, KeepsIn-IsSettled}
use analyst_watch.Persistence.Settled.{IsSettled, same_attempt, lt_cases}
use analyst_watch.Persistence.Claims.{
  Redoes, redo-IsSettled, finish_claim-IsSettled, reconcile-IsSettled, fresh-prepared,
}

pub completed-Redoes :
    (x : DeliveryAttempt) (at : Instant) (r : DeliveryResult) → Redoes x (completed x at r)
completed-Redoes x at (delivered s) = ground arith
completed-Redoes x at (refused s) = ground arith
completed-Redoes x at (crashed s) = ground arith

-- The claim and the completion of one dry run.
run_adapter-IsSettled :
    (st : MemoryStore) (c : Claim) (adapter : DeliveryAdapter) (k : NotificationCandidate)
    (at : Instant) (r : Result (DeliveryAttempt × Bool))
    → IsSettled st
    → plan_claim st c ≡ r
    → IsSettled (run_adapter adapter k at (finish_claim c st r).0 (finish_claim c st r).1).1
unfolding update_delivery_attempt
run_adapter-IsSettled st c adapter k at (err e) s h = s
run_adapter-IsSettled st c adapter k at (ok (x, true)) s h = s
run_adapter-IsSettled st c adapter k at (ok (x, false)) s h =
    let result = adapter.deliver k in
    let redo = completed-Redoes x at result in
    let stored : get x.id (put x.id x st.attempts) ≡ some x = get-put_self x.id x st.attempts in
    let stored' : get (completed x at result).id (put x.id x st.attempts) ≡ some x =
      rw redo.same_id stored in
    rw (stored', update_delivery_attempt)
      (redo-IsSettled (record_claim c.idempotency_key x st) (completed x at result).id x
        (completed x at result) (finish_claim-IsSettled st c (ok (x, false)) s h) stored'
        (λ dead. let up : x.state ≡ prepared = fresh-prepared st c x h in cc) redo)

module _ (d : DryRun) (st : MemoryStore) (s : IsSettled st) where
  owned-IsSettled :
      (k : NotificationCandidate) (source : SourceDefinition) (owner : Result String)
      → IsSettled (dry_run_owned d k source owner st).1
  unfolding claim_delivery_attempt
  owned-IsSettled k source (err e) = s
  owned-IsSettled k source (ok by) =
      run_adapter-IsSettled st (claim_of d source by) d.adapter k d.at _ s refl

  of_source-IsSettled :
      (owner : Result String) (k : NotificationCandidate) (source : Option SourceDefinition)
      → IsSettled (dry_run_of_source d owner k source st).1
  of_source-IsSettled owner k none = s
  of_source-IsSettled owner k (some source) = owned-IsSettled k source owner

  of_candidate-IsSettled :
      (owner : Result String) (k : Option NotificationCandidate)
      → IsSettled (dry_run_of_candidate d owner k st).1
  of_candidate-IsSettled owner none = s
  of_candidate-IsSettled owner (some k) = of_source-IsSettled owner k (get_source st k.source_id)

if-IsSettled :
    (b : Bool) (x y : Result DeliveryAttempt × MemoryStore)
    → IsSettled x.1
    → IsSettled y.1
    → IsSettled (if b then x else y).1
if-IsSettled true x y h k = h
if-IsSettled false x y h k = k

-- One dry run keeps the store settled.
pub dry_run-IsSettled :
    (clock : Instant) (owner candidate_id key : String) (now : Option DateTime)
    (adapter : DeliveryAdapter) (by : Option String) (st : MemoryStore)
    → IsSettled st
    → IsSettled (dry_run_delivery clock owner candidate_id key now adapter by st).1
unfolding dry_run_delivery
dry_run-IsSettled clock owner candidate_id key now adapter by st s =
    if-IsSettled (is_blank_or_padded key) _ _ s (
      of_candidate-IsSettled _ st s (validate_execution_owner (or_default by owner))
        (get_notification_candidate st candidate_id))

owned_reconcile-IsSettled :
    (at : Instant) (id : String) (outcome : DeliveryReconciliationOutcome) (note : String)
    (by : Result String) (st : MemoryStore)
    → IsSettled st
    → IsSettled (reconcile_owned at id outcome note by st).1
owned_reconcile-IsSettled at id outcome note (err e) st s = s
owned_reconcile-IsSettled at id outcome note (ok by) st s =
    reconcile-IsSettled st id (outcome_state outcome) at note (some by) s

-- A call of one of four methods, with the clock's reading. A check also takes the id of the new
-- observation and what the provider answers.
pub data Call : Type 0 where
  dry_runs : Instant → String → String → Option DateTime → DeliveryAdapter → Option String → Call
  reconciles :
      Instant
      → String
      → DeliveryReconciliationOutcome
      → String
      → Option DateTime
      → Option String
      → Call
  checks : Instant → String → (SourceDefinition → Ingested) → String → Option DateTime → Call
  evaluates : Instant → String → Option DateTime → Call

-- The store after one call; `owner` is the service's `execution_owner`.
unfoldable pub after : String → Call → MemoryStore → MemoryStore
after owner (dry_runs clock candidate_id key now adapter by) st =
    (dry_run_delivery clock owner candidate_id key now adapter by st).1
after owner (reconciles clock id outcome note now reviewer) st =
    (reconcile_delivery_attempt clock owner id outcome note now reviewer st).1
after owner (checks clock id ingest source_id now) st =
    (check_source clock id ingest source_id now st).1
after owner (evaluates clock source_id now) st =
    (evaluate_pending_notification_candidates clock source_id now st).1

unfoldable pub after_all : String → List Call → MemoryStore → MemoryStore
after_all owner [] st = st
after_all owner (c ∷ cs) st = after_all owner cs (after owner c st)

after-IsSettled :
    (owner : String) (c : Call) (st : MemoryStore) → IsSettled st → IsSettled (after owner c st)
unfolding after reconcile_delivery_attempt
after-IsSettled owner (dry_runs clock candidate_id key now adapter by) st s =
    dry_run-IsSettled clock owner candidate_id key now adapter by st s
after-IsSettled owner (reconciles clock id outcome note now reviewer) st s =
    if-IsSettled (is_blank_or_padded note) _ _ s (
      owned_reconcile-IsSettled (now_or_clock now clock) id outcome note
        (validate_execution_owner (or_default reviewer owner)) st s)
after-IsSettled owner (checks clock id ingest source_id now) st s =
    KeepsIn-IsSettled st (check_source clock id ingest source_id now st)
      (check-KeepsIn clock id ingest source_id now st) s
after-IsSettled owner (evaluates clock source_id now) st s =
    KeepsIn-IsSettled st (evaluate_pending_notification_candidates clock source_id now st)
      (evaluate-KeepsIn clock source_id now st) s

-- Any sequence of checks, evaluations of candidates, dry runs and reconciliations, whatever each of
-- them returns, takes a settled store
-- to a settled store: every attempt stands under the id made of its candidate, adapter and number,
-- and of the attempts for one candidate and adapter, each but the one of the greatest number has
-- failed.
pub after_all-IsSettled :
    (owner : String) (cs : List Call) (st : MemoryStore)
    → IsSettled st
    → IsSettled (after_all owner cs st)
unfolding after_all
after_all-IsSettled owner [] st s = s
after_all-IsSettled owner (c ∷ cs) st s =
    after_all-IsSettled owner cs (after owner c st) (after-IsSettled owner c st s)

-- After any checks, evaluations of candidates, dry runs and reconciliations from a settled store, in
-- any order and with any outcomes, two stored attempts for one candidate by one adapter of which neither has failed are the same:
-- there is at most one attempt in flight or successful.
pub one_live_attempt :
    (owner : String) (cs : List Call) (st : MemoryStore) (i j : String) (a b : DeliveryAttempt)
    → IsSettled st
    → get i (after_all owner cs st).attempts ≡ some a
    → get j (after_all owner cs st).attempts ≡ some b
    → a.candidate_id ≡ b.candidate_id
    → a.adapter ≡ b.adapter
    → a.state ≢ failed
    → b.state ≢ failed
    → a ≡ b
one_live_attempt owner cs st i j a b s ga gb p q la lb =
    let t = after_all-IsSettled owner cs st s in
    elim (lt_cases a.attempt_number b.attempt_number) [
      | inl (inl less) ↦ absurd (la (t.ordered i j a b ga gb p q less))
      | inl (inr more) ↦ absurd (lb (t.ordered j i b a gb ga (sym p) (sym q) more))
      | inr same ↦ same_attempt (after_all owner cs st) t i j a b ga gb p q same
    ]
