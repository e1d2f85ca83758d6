-- ===== src/Scorecards/Oldest.antt =====
-- The oldest observation that counts, by which the loop of analystwatch/scorecard_service.py ends.
use analyst_watch.Prelude.{
  ◌+◌, ◌-◌, ◌≤◌, ◌<◌, Bool, true, false, ◌&&◌, ◌≡◌, refl, ap, Option, none, some, List, [], ◌∷◌,
  ◌++◌, last?, select, All, All-map, leb, ltb, leb→le, subst, Bool-cases, inl, inr, ◌⊎◌, arith,
}
use analyst_watch.Models.{Observation, Instant, days, healthy, is_healthy}
use analyst_watch.Scorecards.History.{reaches_back}

-- The last entry that passes a test: no entry after it does.
record IsLastOf {ℓ} {A : Type ℓ} (p : A → Bool) (xs : List A) (a : A) : Type ℓ where
  before : List A
  after : List A
  split : xs ≡ before ++ a ∷ after
  passes : p a ≡ true
  rest : All (λ x. p x ≡ false) after

module _ {ℓ} {A : Type ℓ} where
  last?-some : (x : A) (xs : List A) → (a : A) × (last? (x ∷ xs) ≡ some a)
  last?-some x [] = (x, refl)
  last?-some x (y ∷ ys) = last?-some y ys

  last_or_only :
      (x : A) (xs : List A) (a : A)
      → last? (x ∷ xs) ≡ some a
      → (last? xs ≡ some a) ⊎ ((last? xs ≡ none) × (some x ≡ some a))
  last_or_only x [] a h = inr (refl, h)
  last_or_only x (y ∷ ys) a h = inl h

module _ {ℓ} {A : Type ℓ} (p : A → Bool) where
  none_passes : (xs : List A) → last? (select p xs) ≡ none → All (λ x. p x ≡ false) xs
  none_passes [] h = tt
  none_passes (x ∷ xs) h = elim (Bool-cases (p x)) [
    | inl t ↦ let (a, e) = last?-some x (select p xs) in absurd (let k = rw t at h in ground arith)
    | inr f ↦ (f, none_passes xs (rw f at h))
  ]

  last-select : (xs : List A) (a : A) → last? (select p xs) ≡ some a → IsLastOf p xs a
  last-select [] a h = absurd (ground arith)
  last-select (x ∷ xs) a h = elim (Bool-cases (p x)) [
    | inl t ↦ elim (last_or_only x (select p xs) a (rw t at h)) [
      | inl k ↦ later x (last-select xs a k)
      | inr (k, e) ↦
          let same : x ≡ a = ground arith in
          record {
            before = [];
            after = xs;
            split = ap (λ y. y ∷ xs) same;
            passes = subst (λ y. p y ≡ true) same t;
            rest = none_passes xs k;
          }
    ]
    | inr f ↦ later x (last-select xs a (rw f at h))
  ]
    where
      later : (x : A) {xs : List A} {a : A} → IsLastOf p xs a → IsLastOf p (x ∷ xs) a
      later x l = record {
        before = x ∷ l.before;
        after = l.after;
        split = ap (λ ys. x ∷ ys) l.split;
        passes = l.passes;
        rest = l.rest;
      }

-- The oldest observation that is not after the time, in a list that comes newest first: it is
-- healthy and more than 30 days older.
pub record ReachesBack (as_of : Instant) (os : List Observation) : Type 0 where
  pub newer : List Observation
  pub oldest : Observation
  pub older : List Observation
  pub split : os ≡ newer ++ oldest ∷ older
  pub counts : oldest.observed_at ≤ as_of
  pub rest : All (λ (o : Observation). as_of < o.observed_at) older
  pub recovered : oldest.health ≡ healthy
  pub old_enough : oldest.observed_at + days 30 < as_of

pub reaches_back-ReachesBack :
    (as_of : Instant) (os : List Observation)
    → reaches_back as_of (as_of - days 30) os ≡ true
    → ReachesBack as_of os
reaches_back-ReachesBack as_of os h = found (last? (select counted os)) refl h
  where
    counted : Observation → Bool
    counted o = leb o.observed_at as_of

    found :
        (m : Option Observation)
        → last? (select counted os) ≡ m
        → (elim m [
          | none ↦ false
          | some oldest ↦ ltb oldest.observed_at (as_of - days 30) && is_healthy oldest.health
        ])
          ≡ true
        → ReachesBack as_of os
    found none e k = absurd (ground arith)
    found (some o) e k =
        let l = last-select counted os o e in
        record {
          newer = l.before;
          oldest = o;
          older = l.after;
          split = l.split;
          counts = leb→le _ _ l.passes;
          rest =
              All-map (λ (x : Observation). counted x ≡ false)
                (λ (x : Observation). as_of < x.observed_at) l.after (λ x z. ground arith) l.rest;
          recovered = ground arith;
          old_enough = ground arith;
        }
