-- ===== src/Persistence/Claims.antt =====
-- Claiming, completing and reconciling delivery attempts.
use analyst_watch.Prelude.{
  ℕ, ◌+◌, ◌<◌, String, Bool, true, false, ◌≡◌, ◌≢◌, refl, sym, ◌∙◌, ap, Option, none, some, arith,
  get, put, values, select-In, get-In_values, subst, Bool-cases, inl, inr, ◌⊎◌,
}
use analyst_watch.Result.{err, ok, Result}
use analyst_watch.Models.{
  candidate_state_eqb, eligible, prepared, attempt_state_eqb, NotificationCandidate,
  DeliveryAttempt, failed, Instant, DeliveryAttemptState,
}
use analyst_watch.Memory.{
  finish_claim, record_claim, reconciled, reconcile_prepared_delivery_attempt, MemoryStore, Claim,
  of_pair, latest_attempt, next_number, prepare, attempt_id, plan_claim,
}
use analyst_watch.Persistence.Writes.{IsWritable, put-IsSettled}
use analyst_watch.Persistence.Settled.{
  max_none, le_cases, of_pair-eq_true, IsSettled, IsLatest, latest_attempt-IsLatest, live-latest,
  same_attempt,
}

-- A number is given out only after no attempt, or after one more than a failed one.
next_number-ok :
    (l : Option DeliveryAttempt) (at : Instant) (retry n : ℕ)
    → next_number l at retry ≡ ok n
    → ((l ≡ none) × (n ≡ 1))
      ⊎ ((m : DeliveryAttempt) × (l ≡ some m) × (m.state ≡ failed) × (n ≡ m.attempt_number + 1))
unfolding next_number
next_number-ok none at retry n h = inl (refl, ground arith)
next_number-ok (some m) at retry n h = inr (m, refl, ground arith, ground arith)

pub fresh-eligible :
    (st : MemoryStore) (c : Claim) (a : DeliveryAttempt) (k : NotificationCandidate)
    → plan_claim st c ≡ ok (a, false)
    → get c.candidate_id st.candidates ≡ some k
    → candidate_state_eqb k.state eligible ≡ true
unfolding plan_claim
fresh-eligible st c a k h g = ground arith

-- A fresh claim is for a candidate under the claim's id, and takes the next number.
pub plan-fresh :
    (st : MemoryStore) (c : Claim) (a : DeliveryAttempt)
    → plan_claim st c ≡ ok (a, false)
    → (k : NotificationCandidate) × (n : ℕ) × (get c.candidate_id st.candidates ≡ some k)
      × (next_number (latest_attempt st c.candidate_id c.adapter) c.created_at c.retry_minutes
          ≡ ok n)
      × (a ≡ prepare c k n)
unfolding plan_claim
plan-fresh st c a h = ground arith

select-eq_nil :
    (st : MemoryStore) (c d i : String) (b : DeliveryAttempt)
    → latest_attempt st c d ≡ none
    → get i st.attempts ≡ some b
    → b.candidate_id ≡ c
    → b.adapter ≡ d
    → ⊥
unfolding latest_attempt
select-eq_nil st c d i b h g p q = max_none _ b h (
    select-In (of_pair c d) (values st.attempts) b (get-In_values i b st.attempts g)
      (of_pair-eq_true c d b p q))

-- In a settled store, a stored attempt that has not failed blocks its candidate and adapter: a claim
-- of the two that is accepted, at any time and with any delay, is a replay.
pub live_attempt-blocks :
    (st : MemoryStore) (c : Claim) (i : String) (a x : DeliveryAttempt) (replayed : Bool)
    → IsSettled st
    → get i st.attempts ≡ some a
    → a.candidate_id ≡ c.candidate_id
    → a.adapter ≡ c.adapter
    → a.state ≢ failed
    → plan_claim st c ≡ ok (x, replayed)
    → replayed ≡ true
live_attempt-blocks st c i a x true s g p q live h = refl
live_attempt-blocks st c i a x false s g p q live h =
    let (k, n, _, given, _) = plan-fresh st c x h in
    elim (next_number-ok (latest_attempt st c.candidate_id c.adapter) c.created_at c.retry_minutes n
      given) [
        | inl (empty, _) ↦ absurd (select-eq_nil st c.candidate_id c.adapter i a empty g p q)
        | inr (m, l, dead, _) ↦ absurd (
            live (
              ap (λ (k : DeliveryAttempt). k.state)
                (live-latest st s i c.candidate_id c.adapter a m g p q live
                  (latest_attempt-IsLatest st c.candidate_id c.adapter m s.distinct l))
              ∙ dead))
      ]

module _ (st : MemoryStore) (c : Claim) (s : IsSettled st) (n : ℕ)
    (given : next_number (latest_attempt st c.candidate_id c.adapter) c.created_at c.retry_minutes
      ≡ ok n)
    (j : String) (b : DeliveryAttempt) (g : get j st.attempts ≡ some b)
    (p : b.candidate_id ≡ c.candidate_id) (q : b.adapter ≡ c.adapter) where
  fresh_cases :
      (m : DeliveryAttempt) × (IsLatest st c.candidate_id c.adapter m)
      × (m.state ≡ failed)
      × (n ≡ m.attempt_number + 1)
  fresh_cases =
      elim (next_number-ok (latest_attempt st c.candidate_id c.adapter) c.created_at c.retry_minutes
        n given) [
          | inl (empty, _) ↦ absurd (select-eq_nil st c.candidate_id c.adapter j b empty g p q)
          | inr (m, l, dead, e) ↦
              (m, latest_attempt-IsLatest st c.candidate_id c.adapter m s.distinct l, dead, e)
        ]

  fresh_above : b.attempt_number < n → b.state ≡ failed
  fresh_above less =
      let (m, latest, dead, e) = fresh_cases in
      elim (le_cases b.attempt_number m.attempt_number (latest.greatest j b g p q)) [
        | inl lt ↦
            s.ordered j latest.place b m g latest.stored (p ∙ sym latest.pair.0)
              (q ∙ sym latest.pair.1) lt
        | inr eq ↦
            ap (λ (k : DeliveryAttempt). k.state)
              (same_attempt st s j latest.place b m g latest.stored (p ∙ sym latest.pair.0)
                (q ∙ sym latest.pair.1) eq)
            ∙ dead
      ]

  fresh_below : n < b.attempt_number → ⊥
  fresh_below less =
      let (m, latest, dead, e) = fresh_cases in omega (arith, latest.greatest j b g p q)

fresh-IsWritable :
    (st : MemoryStore) (c : Claim) (x : DeliveryAttempt)
    → IsSettled st
    → plan_claim st c ≡ ok (x, false)
    → IsWritable st x
unfolding attempt_id
fresh-IsWritable st c x s h =
    let (k, n, found, given, made) = plan-fresh st c x h in
    let id_eq : k.id ≡ c.candidate_id = s.keyed c.candidate_id k found in
    subst (IsWritable st) (sym made) (record {
      filed = refl;
      above = λ j b ne g p q less. fresh_above st c s n given j b g (p ∙ id_eq) q less;
      below = λ j b ne g p q less.
          absurd (fresh_below st c s n given j b g (sym p ∙ id_eq) (sym q) less);
    })

pub fresh-prepared :
    (st : MemoryStore) (c : Claim) (x : DeliveryAttempt)
    → plan_claim st c ≡ ok (x, false)
    → x.state ≡ prepared
unfolding attempt_id
fresh-prepared st c x h =
    let (k, n, _, _, made) = plan-fresh st c x h in ap (λ (y : DeliveryAttempt). y.state) made

pub finish_claim-IsSettled :
    (st : MemoryStore) (c : Claim) (r : Result (DeliveryAttempt × Bool))
    → IsSettled st
    → plan_claim st c ≡ r
    → IsSettled (finish_claim c st r).1
finish_claim-IsSettled st c (err e) s h = s
finish_claim-IsSettled st c (ok (x, true)) s h = s
finish_claim-IsSettled st c (ok (x, false)) s h =
    put-IsSettled st s x (fresh-IsWritable st c x s h) (record_claim c.idempotency_key x st) refl
      refl

-- `y` is `x` with a new outcome.
pub record Redoes (x y : DeliveryAttempt) : Type 0 where
  pub same_id : y.id ≡ x.id
  pub same_candidate : y.candidate_id ≡ x.candidate_id
  pub same_adapter : y.adapter ≡ x.adapter
  pub same_number : y.attempt_number ≡ x.attempt_number

-- A live attempt may be given any outcome.
pub redo-IsWritable :
    (st : MemoryStore) (i : String) (x y : DeliveryAttempt)
    → IsSettled st
    → get i st.attempts ≡ some x
    → x.state ≢ failed
    → Redoes x y
    → IsWritable st y
redo-IsWritable st i x y s g live r = record {
  filed = cc ((s.filed i x g).1, r.same_id, r.same_candidate, r.same_adapter, r.same_number);
  above = λ j b ne gb p q less.
      s.ordered j i b x gb g (p ∙ r.same_candidate) (q ∙ r.same_adapter)
        (omega (arith, r.same_number));
  below = λ j b ne gb p q less. absurd (
      live (
        s.ordered i j x b g gb (sym r.same_candidate ∙ p) (sym r.same_adapter ∙ q)
          (omega (arith, r.same_number))));
}

-- Writing a new outcome over a live attempt keeps the store settled.
pub redo-IsSettled :
    (st : MemoryStore) (i : String) (x y : DeliveryAttempt)
    → IsSettled st
    → get i st.attempts ≡ some x
    → x.state ≢ failed
    → Redoes x y
    → IsSettled (record st { attempts = put i y st.attempts })
redo-IsSettled st i x y s g live r =
    put-IsSettled st s y (redo-IsWritable st i x y s g live r) _ refl
      (ap (λ k. put k y st.attempts) (sym (r.same_id ∙ (s.filed i x g).0)))

live_of_prepared :
    (a : DeliveryAttempt) → attempt_state_eqb a.state prepared ≡ true → a.state ≢ failed
live_of_prepared a h = ground arith

reconcile-IsSettled_on :
    (st : MemoryStore) (id : String) (outcome : DeliveryAttemptState) (at : Instant) (note : String)
    (by : Option String) (found : Option DeliveryAttempt)
    → IsSettled st
    → attempt_state_eqb outcome prepared ≡ false
    → get id st.attempts ≡ found
    → IsSettled (reconcile_prepared_delivery_attempt id outcome at note by st).1
unfolding reconcile_prepared_delivery_attempt
reconcile-IsSettled_on st id outcome at note by none s o g = rw (o, g) s
reconcile-IsSettled_on st id outcome at note by (some a) s o g =
    elim (Bool-cases (attempt_state_eqb a.state prepared)) [
      | inl t ↦
          rw (o, g, t)
            (redo-IsSettled st id a (reconciled a outcome at note by) s g (live_of_prepared a t)
              (record {
                same_id = refl;
                same_candidate = refl;
                same_adapter = refl;
                same_number = refl;
              }))
      | inr f ↦ rw (o, g, f) s
    ]

-- Reconciling any attempt with any outcome takes a settled store to a settled store, whatever it
-- returns.
pub reconcile-IsSettled :
    (st : MemoryStore) (id : String) (outcome : DeliveryAttemptState) (at : Instant) (note : String)
    (by : Option String)
    → IsSettled st
    → IsSettled (reconcile_prepared_delivery_attempt id outcome at note by st).1
unfolding reconcile_prepared_delivery_attempt
reconcile-IsSettled st id outcome at note by s =
    elim (Bool-cases (attempt_state_eqb outcome prepared)) [
      | inl t ↦ rw t s
      | inr f ↦ reconcile-IsSettled_on st id outcome at note by _ s f refl
    ]
