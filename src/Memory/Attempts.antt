-- ===== src/Memory/Attempts.antt =====
-- The delivery attempts of `MemoryStore`.
use analyst_watch.Prelude.{
  ℕ, ◌+◌, String, Bool, true, false, ◌&&◌, ◌||◌, not, Option, none, some, List, [], ◌∷◌, ◌++◌, ◌==◌,
  concat, decimal, map, get, put, contains, values, sort_by, select, ltb, eqb, take, if◌then◌else◌,
}
use analyst_watch.Result.{Result, ok, err, Exec, value_error, key_error, require, ◌>>=◌, ◌>>◌}
use analyst_watch.Models.{
  NotificationCandidate, DeliveryAttempt, DeliveryAttemptState, prepared, succeeded, failed,
  dry_run, eligible, candidate_state_eqb, attempt_state_eqb, Instant, minutes,
}
use analyst_watch.Memory.State.{MemoryStore, index, index_all, number_from}
use analyst_watch.Memory.Candidates.{matches}

abbrev pub of_pair : String → String → DeliveryAttempt → Bool
of_pair candidate_id adapter item = item.candidate_id == candidate_id && item.adapter == adapter

-- `max(..., key=lambda item: item.attempt_number, default=None)`: the first of the greatest.
abbrev pub highest : DeliveryAttempt → List DeliveryAttempt → DeliveryAttempt
highest best [] = best
highest best (a ∷ as') = highest (if ltb best.attempt_number a.attempt_number then a else best) as'

abbrev pub max_attempt : List DeliveryAttempt → Option DeliveryAttempt
max_attempt [] = none
max_attempt (a ∷ as') = some (highest a as')

unfoldable pub latest_attempt : MemoryStore → String → String → Option DeliveryAttempt
latest_attempt st candidate_id adapter =
    max_attempt (select (of_pair candidate_id adapter) (values st.attempts))

-- The number of the next attempt, after the tests on the latest one.
unfoldable pub next_number : Option DeliveryAttempt → Instant → ℕ → Result ℕ
next_number none created_at retry_minutes = ok 1
next_number (some latest) created_at retry_minutes = do
  require (not (attempt_state_eqb latest.state succeeded))
      (value_error "Candidate already has a successful dry-run delivery attempt")
  require (not (attempt_state_eqb latest.state prepared))
      (value_error "Candidate already has a Prepared dry-run delivery attempt")
  require (attempt_state_eqb latest.state failed)
      (value_error "A new delivery attempt requires the previous attempt to have Failed")
  elim latest.completed_at [
    | none ↦ err (value_error "Failed delivery attempt is missing its completion timestamp")
    | some completed_at ↦
        if ltb created_at (completed_at + minutes retry_minutes)
        then err (value_error "Delivery retry is not due")
        else ok (latest.attempt_number + 1)
  ]

-- The arguments of `claim_delivery_attempt`.
pub record Claim : Type 0 where
  pub candidate_id : String
  pub idempotency_key : String
  pub adapter : String
  pub created_at : Instant
  pub retry_minutes : ℕ
  pub claim_owner : Option String

-- `f"{candidate.id}:{adapter}:{attempt_number}"`
unfoldable pub attempt_id : String → String → ℕ → String
unfolding decimal
attempt_id candidate_id adapter n = concat (candidate_id ∷ ":" ∷ adapter ∷ ":" ∷ decimal n ∷ [])

abbrev pub prepare : Claim → NotificationCandidate → ℕ → DeliveryAttempt
prepare c candidate n = record {
  id = attempt_id candidate.id c.adapter n;
  candidate_id = candidate.id;
  source_id = candidate.source_id;
  adapter = c.adapter;
  mode = dry_run;
  idempotency_key = c.idempotency_key;
  attempt_number = n;
  state = prepared;
  created_at = c.created_at;
  claim_owner = c.claim_owner;
  completed_at = none;
  result_summary = none;
  error = none;
  reconciled_at = none;
  reconciled_by = none;
  reconciliation_note = none;
}

-- All that `claim_delivery_attempt` reads and tests, with the fields' bounds of the new attempt: the
-- attempt, and whether it is a replay.
unfoldable pub plan_claim : MemoryStore → Claim → Result (DeliveryAttempt × Bool)
plan_claim st c = elim (get c.candidate_id st.candidates) [
  | none ↦ err (key_error (concat ("Unknown notification candidate: " ∷ c.candidate_id ∷ [])))
  | some candidate ↦
      if not (candidate_state_eqb candidate.state eligible)
      then err (value_error "Only Eligible notification candidates can be attempted")
      else elim (get c.idempotency_key st.idempotency) [
        | some existing_id ↦ do
          existing ← index st.attempts existing_id
          require (of_pair c.candidate_id c.adapter existing)
              (value_error "Idempotency key belongs to a different delivery attempt")
          ok (existing, true)
        | none ↦ do
          n ← next_number (latest_attempt st c.candidate_id c.adapter) c.created_at c.retry_minutes
          require (not (c.adapter == "") && not (c.idempotency_key == ""))
              (value_error "String should have at least 1 character")
          ok (prepare c candidate n, false)
      ]
]

abbrev pub record_claim : String → DeliveryAttempt → MemoryStore → MemoryStore
record_claim idempotency_key attempt st = record st {
  attempts = put attempt.id attempt st.attempts;
  attempt_ids = st.attempt_ids ++ attempt.id ∷ [];
  idempotency = put idempotency_key attempt.id st.idempotency;
}

-- A replay returns the attempt that is there; a new attempt is stored.
abbrev pub finish_claim :
    Claim
    → MemoryStore
    → Result (DeliveryAttempt × Bool)
    → Result (DeliveryAttempt × Bool) × MemoryStore
finish_claim c st (err e) = (err e, st)
finish_claim c st (ok (attempt, true)) = (ok (attempt, true), st)
finish_claim c st (ok (attempt, false)) =
    (ok (attempt, false), record_claim c.idempotency_key attempt st)

unfoldable pub claim_delivery_attempt : Claim → Exec MemoryStore (DeliveryAttempt × Bool)
claim_delivery_attempt c st = finish_claim c st (plan_claim st c)

unfoldable pub update_delivery_attempt : DeliveryAttempt → Exec MemoryStore DeliveryAttempt
update_delivery_attempt attempt st =
    if contains attempt.id st.attempts
    then (ok attempt, record st { attempts = put attempt.id attempt st.attempts })
    else (err (value_error (concat ("Unknown delivery attempt: " ∷ attempt.id ∷ []))), st)

unfoldable pub get_delivery_attempt : MemoryStore → String → Option DeliveryAttempt
get_delivery_attempt st id = get id st.attempts

-- The key `(created_at, attempt_number, index)`, compared.
abbrev pub attempted_later : ℕ × DeliveryAttempt → ℕ × DeliveryAttempt → Bool
attempted_later a b =
    ltb b.1.created_at a.1.created_at
    || (eqb a.1.created_at b.1.created_at
        && (ltb b.1.attempt_number a.1.attempt_number
            || (eqb a.1.attempt_number b.1.attempt_number && ltb b.0 a.0)))

abbrev pub newest_attempt_first : ℕ × DeliveryAttempt → ℕ × DeliveryAttempt → Bool
newest_attempt_first a b = not (attempted_later b a)

unfoldable pub list_delivery_attempts :
    MemoryStore → Option String → Option String → ℕ → Result (List DeliveryAttempt)
list_delivery_attempts st candidate_id source_id limit = do
  items ← index_all st.attempts st.attempt_ids
  let indexed =
      select
        (λ (p : ℕ × DeliveryAttempt).
          matches candidate_id p.1.candidate_id && matches source_id p.1.source_id)
        (number_from 0 items)
  ok (map (λ (p : ℕ × DeliveryAttempt). p.1) (take limit (sort_by newest_attempt_first indexed)))

-- The fields that reconciliation sets.
abbrev pub reconciled :
    DeliveryAttempt → DeliveryAttemptState → Instant → String → Option String → DeliveryAttempt
reconciled attempt outcome at note by = record attempt {
  state = outcome;
  completed_at = some at;
  reconciled_at = some at;
  reconciled_by = by;
  reconciliation_note = some note;
  result_summary =
      if attempt_state_eqb outcome succeeded
      then some "Prepared attempt reconciled as successful after explicit review."
      else none;
  error =
      if attempt_state_eqb outcome failed
      then some "Prepared attempt reconciled as failed after explicit review."
      else none;
}

unfoldable pub reconcile_prepared_delivery_attempt :
    String
    → DeliveryAttemptState
    → Instant
    → String
    → Option String
    → Exec MemoryStore DeliveryAttempt
reconcile_prepared_delivery_attempt attempt_id outcome at note by st =
    if attempt_state_eqb outcome prepared
    then (err (value_error "Prepared attempts can reconcile only to Succeeded or Failed"), st)
    else elim (get attempt_id st.attempts) [
      | none ↦ (err (key_error (concat ("Unknown delivery attempt: " ∷ attempt_id ∷ []))), st)
      | some attempt ↦
          if not (attempt_state_eqb attempt.state prepared)
          then (err (value_error "Only Prepared delivery attempts can be reconciled"), st)
          else (
            ok (reconciled attempt outcome at note by),
            record st {
              attempts = put attempt_id (reconciled attempt outcome at note by) st.attempts;
            },
          )
    ]
