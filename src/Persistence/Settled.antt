-- ===== src/Persistence/Settled.antt =====
-- The state of the delivery attempts between two calls: of the attempts for one candidate and
-- adapter, all but the last have failed.
use analyst_watch.Prelude.{
  ℕ, ◌≤◌, ◌<◌, String, true, ◌≡◌, ◌≢◌, refl, subst, sym, ◌∙◌, some, List, [], ◌∷◌, eq_iff, ltb,
  arith, In, In-select, select-In, Dict, get, values, HasDistinctKeys, get-In_values, In-values_get,
  Bool-cases, inl, inr, if◌then◌else◌, ◌⊎◌, none,
}
use analyst_watch.Models.{NotificationCandidate, DeliveryAttempt, failed}
use analyst_watch.Memory.{MemoryStore, of_pair, highest, max_attempt, latest_attempt, attempt_id}

abbrev pub IsKeyed : Dict NotificationCandidate → Type 0
IsKeyed d = (i : String) (c : NotificationCandidate) → get i d ≡ some c → c.id ≡ i

-- An attempt stands under its id, which its candidate, adapter and number make up.
abbrev pub IsFiled : String → DeliveryAttempt → Type 0
IsFiled i a = (a.id ≡ i) × (a.id ≡ attempt_id a.candidate_id a.adapter a.attempt_number)

pub record IsSettled (st : MemoryStore) : Type 0 where
  pub keyed : IsKeyed st.candidates
  pub distinct : HasDistinctKeys st.attempts
  pub filed : (i : String) (a : DeliveryAttempt) → get i st.attempts ≡ some a → IsFiled i a
  pub ordered :
      (i j : String) (a b : DeliveryAttempt)
      → get i st.attempts ≡ some a
      → get j st.attempts ≡ some b
      → a.candidate_id ≡ b.candidate_id
      → a.adapter ≡ b.adapter
      → a.attempt_number < b.attempt_number
      → a.state ≡ failed

abbrev greater : DeliveryAttempt → DeliveryAttempt → DeliveryAttempt
greater b x = if ltb b.attempt_number x.attempt_number then x else b

greater_cases : (b x : DeliveryAttempt) → (greater b x ≡ x) ⊎ (greater b x ≡ b)
greater_cases b x = elim (Bool-cases (ltb b.attempt_number x.attempt_number)) [
  | inl t ↦ inl (rw t)
  | inr f ↦ inr (rw f)
]

greater_bounds :
    (b x : DeliveryAttempt)
    → (b.attempt_number ≤ (greater b x).attempt_number)
      × (x.attempt_number ≤ (greater b x).attempt_number)
greater_bounds b x = ground arith

highest-ge :
    (b : DeliveryAttempt) (xs : List DeliveryAttempt)
    → b.attempt_number ≤ (highest b xs).attempt_number
highest-ge b [] = omega arith
highest-ge b (x ∷ xs) = omega (arith, greater_bounds b x, highest-ge (greater b x) xs)

highest-bounds :
    (b : DeliveryAttempt) (xs : List DeliveryAttempt) (a : DeliveryAttempt)
    → In a (b ∷ xs)
    → a.attempt_number ≤ (highest b xs).attempt_number
highest-bounds b xs a (inl e) = rw e (highest-ge b xs)
highest-bounds b [] a (inr m) = elim m [ ]
highest-bounds b (x ∷ xs) a (inr (inl e)) =
    rw e (omega (arith, greater_bounds b x, highest-ge (greater b x) xs))
highest-bounds b (x ∷ xs) a (inr (inr m)) = highest-bounds (greater b x) xs a (inr m)

In-highest : (b : DeliveryAttempt) (xs : List DeliveryAttempt) → In (highest b xs) (b ∷ xs)
In-highest b [] = inl refl
In-highest b (x ∷ xs) = elim (In-highest (greater b x) xs) [
  | inr m ↦ inr (inr m)
  | inl e ↦ elim (greater_cases b x) [ inl new ↦ inr (inl (e ∙ new)) | inr old ↦ inl (e ∙ old) ]
]

-- What the latest attempt of a pair is.
pub record IsLatest (st : MemoryStore) (candidate_id adapter : String) (m : DeliveryAttempt)
    : Type 0 where
  pub place : String
  pub stored : get place st.attempts ≡ some m
  pub pair : (m.candidate_id ≡ candidate_id) × (m.adapter ≡ adapter)
  pub greatest :
      (i : String) (a : DeliveryAttempt)
      → get i st.attempts ≡ some a
      → a.candidate_id ≡ candidate_id
      → a.adapter ≡ adapter
      → a.attempt_number ≤ m.attempt_number

of_pair_iff :
    (c d : String) (a : DeliveryAttempt)
    → of_pair c d a ≡ true
    → (a.candidate_id ≡ c) × (a.adapter ≡ d)
of_pair_iff c d a h = ground (arith, eq_iff a.candidate_id c, eq_iff a.adapter d)

pub of_pair-eq_true :
    (c d : String) (a : DeliveryAttempt) → a.candidate_id ≡ c → a.adapter ≡ d → of_pair c d a ≡ true
of_pair-eq_true c d a p q = ground (arith, eq_iff a.candidate_id c, eq_iff a.adapter d)

pub max_none :
    (xs : List DeliveryAttempt) (a : DeliveryAttempt) → max_attempt xs ≡ none → In a xs → ⊥
max_none [] a h m = elim m [ ]
max_none (x ∷ xs) a h m = absurd (ground arith)

max-eq_some :
    (xs : List DeliveryAttempt) (m : DeliveryAttempt)
    → max_attempt xs ≡ some m
    → In m xs × ((a : DeliveryAttempt) → In a xs → a.attempt_number ≤ m.attempt_number)
max-eq_some [] m h = absurd (ground arith)
max-eq_some (x ∷ xs) m h =
    let e : highest x xs ≡ m = ground arith in
    (
      subst (λ k. In k (x ∷ xs)) e (In-highest x xs),
      λ a i.
          subst (λ (k : DeliveryAttempt). a.attempt_number ≤ k.attempt_number) e
            (highest-bounds x xs a i),
    )

pub latest_attempt-IsLatest :
    (st : MemoryStore) (c d : String) (m : DeliveryAttempt)
    → HasDistinctKeys st.attempts
    → latest_attempt st c d ≡ some m
    → IsLatest st c d m
unfolding latest_attempt
latest_attempt-IsLatest st c d m distinct h =
    let (inside, most) = max-eq_some _ m h in
    let (found, fits) = In-select (of_pair c d) (values st.attempts) m inside in
    let (k, g) = In-values_get m st.attempts distinct found in
    record {
      place = k;
      stored = g;
      pair = of_pair_iff c d m fits;
      greatest = λ i a got p q. most a (
          select-In (of_pair c d) (values st.attempts) a (get-In_values i a st.attempts got)
            (of_pair-eq_true c d a p q));
    }

pub lt_cases : (m n : ℕ) → ((m < n) ⊎ (n < m)) ⊎ (m ≡ n)
lt_cases m n = grind arith

pub le_cases : (m n : ℕ) → m ≤ n → (m < n) ⊎ (m ≡ n)
le_cases m n h = grind arith

module _ (st : MemoryStore) (s : IsSettled st) where
  -- Two attempts of a pair with one number are one attempt.
  pub same_attempt :
      (i j : String) (a b : DeliveryAttempt)
      → get i st.attempts ≡ some a
      → get j st.attempts ≡ some b
      → a.candidate_id ≡ b.candidate_id
      → a.adapter ≡ b.adapter
      → a.attempt_number ≡ b.attempt_number
      → a ≡ b
  same_attempt i j a b ga gb p q n =
      let i-eq-j : i ≡ j =
        cc ((s.filed i a ga).0, (s.filed i a ga).1, (s.filed j b gb).0, (s.filed j b gb).1) in
      let gab : get j st.attempts ≡ some a = subst (λ k. get k st.attempts ≡ some a) i-eq-j ga in cc

  -- An attempt that has not failed is the latest of its pair.
  pub live-latest :
      (i c d : String) (a m : DeliveryAttempt)
      → get i st.attempts ≡ some a
      → a.candidate_id ≡ c
      → a.adapter ≡ d
      → a.state ≢ failed
      → IsLatest st c d m
      → a ≡ m
  live-latest i c d a m ga p q live latest =
      let below = latest.greatest i a ga p q in
      elim (le_cases a.attempt_number m.attempt_number below) [
        | inl less ↦ absurd (
            live (
              s.ordered i latest.place a m ga latest.stored (p ∙ sym latest.pair.0)
                (q ∙ sym latest.pair.1) less))
        | inr same ↦
            same_attempt i latest.place a m ga latest.stored (p ∙ sym latest.pair.0)
              (q ∙ sym latest.pair.1) same
      ]
