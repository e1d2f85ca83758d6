-- ===== src/Persistence/Writes.antt =====
-- Writing one delivery attempt beside those of a settled store.
use analyst_watch.Prelude.{
  ◌<◌, String, ◌≡◌, ◌≢◌, sym, ◌∙◌, ap, some, ◌==◌, eq_iff, arith, Dict, get, put, get-put,
  HasDistinctKeys-put, Bool-cases, inl, inr, ◌⊎◌,
}
use analyst_watch.Models.{DeliveryAttempt, failed}
use analyst_watch.Memory.{MemoryStore, attempt_id}
use analyst_watch.Persistence.Settled.{IsSettled}

-- What an attempt must be to be written beside those of a settled store.
pub record IsWritable (st : MemoryStore) (x : DeliveryAttempt) : Type 0 where
  pub filed : x.id ≡ attempt_id x.candidate_id x.adapter x.attempt_number
  pub above :
      (j : String) (b : DeliveryAttempt)
      → x.id ≢ j
      → get j st.attempts ≡ some b
      → b.candidate_id ≡ x.candidate_id
      → b.adapter ≡ x.adapter
      → b.attempt_number < x.attempt_number
      → b.state ≡ failed
  pub below :
      (j : String) (b : DeliveryAttempt)
      → x.id ≢ j
      → get j st.attempts ≡ some b
      → x.candidate_id ≡ b.candidate_id
      → x.adapter ≡ b.adapter
      → x.attempt_number < b.attempt_number
      → x.state ≡ failed

-- The attempt found after a write is the one written, under its id, or was there before.
put_cases :
    (x a : DeliveryAttempt) (i : String) (d : Dict DeliveryAttempt)
    → get i (put x.id x d) ≡ some a
    → ((x.id ≡ i) × (a ≡ x)) ⊎ ((x.id ≢ i) × (get i d ≡ some a))
put_cases x a i d h = elim (Bool-cases (x.id == i)) [
  | inl t ↦ inl (ground (arith, eq_iff x.id i), ground (arith, get-put x.id i x d))
  | inr f ↦ inr (ground (arith, eq_iff x.id i), ground (arith, get-put x.id i x d))
]

module _ (st : MemoryStore) (s : IsSettled st) (x : DeliveryAttempt) (w : IsWritable st x) where
  put-ordered :
      (i j : String) (a b : DeliveryAttempt)
      → ((x.id ≡ i) × (a ≡ x)) ⊎ ((x.id ≢ i) × (get i st.attempts ≡ some a))
      → ((x.id ≡ j) × (b ≡ x)) ⊎ ((x.id ≢ j) × (get j st.attempts ≡ some b))
      → a.candidate_id ≡ b.candidate_id
      → a.adapter ≡ b.adapter
      → a.attempt_number < b.attempt_number
      → a.state ≡ failed
  put-ordered i j a b (inl (_, p)) (inl (_, q)) c d less =
      let same : a ≡ b = p ∙ sym q in
      absurd (omega (arith, ap (λ (k : DeliveryAttempt). k.attempt_number) same))
  put-ordered i j a b (inl (_, p)) (inr (ne, gb)) c d less =
      rw p (w.below j b ne gb (rw p at c) (rw p at d) (rw p at less))
  put-ordered i j a b (inr (ne, ga)) (inl (_, q)) c d less =
      w.above i a ne ga (rw q at c) (rw q at d) (rw q at less)
  put-ordered i j a b (inr (_, ga)) (inr (_, gb)) c d less = s.ordered i j a b ga gb c d less

  pub put-IsSettled :
      (st' : MemoryStore)
      → st'.candidates ≡ st.candidates
      → st'.attempts ≡ put x.id x st.attempts
      → IsSettled st'
  put-IsSettled st' ec ea = record {
    keyed = rw ec s.keyed;
    distinct = rw ea (HasDistinctKeys-put x.id x st.attempts s.distinct);
    filed = λ i a g. elim (put_cases x a i st.attempts (rw ea at g)) [
      | inl (p, e) ↦ rw e (p, w.filed)
      | inr (_, old) ↦ s.filed i a old
    ];
    ordered = λ i j a b ga gb.
        put-ordered i j a b (put_cases x a i st.attempts (rw ea at ga))
          (put_cases x b j st.attempts (rw ea at gb));
  }
