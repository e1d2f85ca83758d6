-- ===== src/Persistence/Pruning.antt =====
-- What pruning the row payloads of a source does to the observations.
use analyst_watch.Prelude.{
  String, false, ◌≡◌, ◌⊎◌, ◌∙◌, refl, subst, sym, ap, Option, none, some, List, [], ◌∷◌, ◌==◌, ◌||◌,
  eq_iff, arith, Dict, get, put, get-put_self, get-put_ne, any, is_some, Bool-cases, inl, inr,
}
use analyst_watch.Result.{Result, ok, err}
use analyst_watch.Models.{Observation, RowDiffEvidence, RowDiffComparison}
use analyst_watch.Memory.{
  MemoryStore, ids_of, without_samples, strip_row_diff_raw_payloads, prune_one, prune_all,
  prune_row_diff_payloads,
}

without_samples-idempotent :
    (c : Option RowDiffComparison) → without_samples (without_samples c) ≡ without_samples c
without_samples-idempotent none = refl
without_samples-idempotent (some c) = refl

-- Stripping twice is stripping once.
strip-idempotent_on :
    (o : Observation) (d : Option RowDiffEvidence)
    → o.row_diff ≡ d
    → strip_row_diff_raw_payloads (strip_row_diff_raw_payloads o) ≡ strip_row_diff_raw_payloads o
unfolding strip_row_diff_raw_payloads
strip-idempotent_on o none e = rw e refl
strip-idempotent_on o (some d) e =
    rw (e, without_samples-idempotent d.previous, without_samples-idempotent d.baseline) refl

-- An observation stays as it was, or is stripped of its row payloads.
abbrev pub Remains : List String → Dict Observation → Dict Observation → String → Type 0
Remains keep before after i =
    (get i after ≡ get i before)
    ⊎ ((o : Observation) × (get i before ≡ some o)
        × (get i after ≡ some (strip_row_diff_raw_payloads o))
        × (any (λ k. k == i) keep ≡ false))

some_observation : (x y : Observation) → some x ≡ some y → x ≡ y
some_observation x y h = ground arith

Remains-trans :
    (keep : List String) (a b c : Dict Observation) (i : String)
    → Remains keep a b i
    → Remains keep b c i
    → Remains keep a c i
Remains-trans keep a b c i (inl p) (inl q) = inl (q ∙ p)
Remains-trans keep a b c i (inl p) (inr (o, q, r, f)) = inr (o, sym p ∙ q, r, f)
Remains-trans keep a b c i (inr (o, p, r, f)) (inl q) = inr (o, p, q ∙ r, f)
Remains-trans keep a b c i (inr (o, p, r, f)) (inr (o', p', r', _)) =
    let same : o' ≡ strip_row_diff_raw_payloads o =
      some_observation o' (strip_row_diff_raw_payloads o) (sym p' ∙ r) in
    inr (
      o,
      p,
      r'
          ∙ ap (λ (x : Observation). some x)
              (ap strip_row_diff_raw_payloads same ∙ strip-idempotent_on o o.row_diff refl),
      f,
    )

put-Remains :
    (keep : List String) (id : String) (o : Observation) (d : Dict Observation) (i : String)
    → any (λ k. k == id) keep ≡ false
    → get id d ≡ some o
    → Remains keep d (put id (strip_row_diff_raw_payloads o) d) i
put-Remains keep id o d i f g = elim (Bool-cases (id == i)) [
  | inl t ↦
      let same : id ≡ i = (eq_iff id i).0 t in
      rw (← same) (inr (o, g, get-put_self id (strip_row_diff_raw_payloads o) d, f))
  | inr n ↦ inl (
      get-put_ne id i (strip_row_diff_raw_payloads o) d
        (λ e. absurd (ground (arith, (eq_iff id i).1 e))))
]

ok_dict : (x y : Dict Observation) → ok x ≡ ok y → x ≡ y
ok_dict x y h = ground arith

found-Remains :
    (keep : List String) (id : String) (d d' : Dict Observation) (i : String)
    (found : Option Observation)
    → any (λ k. k == id) keep ≡ false
    → get id d ≡ found
    → prune_one keep id d ≡ ok d'
    → Remains keep d d' i
found-Remains keep id d d' i none f g h = absurd (let k = rw (f, g) at h in ground arith)
found-Remains keep id d d' i (some o) f g h =
    elim (Bool-cases (is_some o.row_snapshot || is_some o.row_diff)) [
      | inl t ↦
          let e = ok_dict (put id (strip_row_diff_raw_payloads o) d) d' (rw (f, g, t) at h) in
          subst (λ x. Remains keep d x i) e (put-Remains keep id o d i f g)
      | inr n ↦
          let e = ok_dict d d' (rw (f, g, n) at h) in subst (λ x. Remains keep d x i) e (inl refl)
    ]

prune_one-Remains :
    (keep : List String) (id : String) (d d' : Dict Observation) (i : String)
    → prune_one keep id d ≡ ok d'
    → Remains keep d d' i
prune_one-Remains keep id d d' i h = elim (Bool-cases (any (λ k. k == id) keep)) [
  | inl t ↦ let e = ok_dict d d' (rw t at h) in subst (λ x. Remains keep d x i) e (inl refl)
  | inr f ↦ found-Remains keep id d d' i _ f refl h
]

next-Remains :
    (keep ids : List String) (d : Dict Observation) (id i : String) (r : Result (Dict Observation))
    → prune_one keep id d ≡ r
    → ((p : Dict Observation) → Remains keep p (prune_all keep ids p).1 i)
    → Remains keep d
        (elim r as (λ _. Result (Unit {0}) × Dict Observation) [
          | ok p ↦ prune_all keep ids p
          | err e ↦ (err e, d)
        ]).1
        i
next-Remains keep ids d id i (err e) h f = inl refl
next-Remains keep ids d id i (ok p) h f =
    Remains-trans keep d p (prune_all keep ids p).1 i (prune_one-Remains keep id d p i h) (f p)

all-Remains :
    (keep ids : List String) (d : Dict Observation) (i : String)
    → Remains keep d (prune_all keep ids d).1 i
all-Remains keep [] d i = inl refl
all-Remains keep (id ∷ ids) d i =
    next-Remains keep ids d id i (prune_one keep id d) refl (λ p. all-Remains keep ids p i)

pub prune-Remains :
    (source_id : String) (keep : List String) (st : MemoryStore) (i : String)
    → Remains keep st.observations (prune_row_diff_payloads source_id keep st).1.observations i
unfolding prune_row_diff_payloads
prune-Remains source_id keep st i =
    all-Remains keep (ids_of st.observation_ids source_id) st.observations i
