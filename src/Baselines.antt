-- ===== src/Baselines.antt =====
-- The promotion of a reviewed baseline (`promote_baseline_after_review` of analystwatch/service.py).
use analyst_watch.Prelude.{
  String, true, false, ◌≡◌, ◌≢◌, refl, ap, ◌∙◌, Option, none, some, List, ◌==◌, arith, get, put,
  Bool-cases, eq_iff, is_empty, inl, inr,
}
use analyst_watch.Result.{Result, ok, err}
use analyst_watch.Exec.{pure, continue, ◌>>◌}
use analyst_watch.Models.{Observation, BaselineReview, is_healthy, SourceDefinition}
use analyst_watch.Memory.{
  MemoryStore, get_source, get_observation, get_baseline, promote_baseline, is_successful,
  prune_row_diff_payloads,
}
use analyst_watch.Service.{
  prune_source, prune_found, prune_listed, prune_known, baseline_review, review_of, is_current,
  is_expected, promote_baseline_after_review, promote_and_prune, after_review,
}

listed-baselines :
    (s : SourceDefinition) (r : Result (List Observation)) (st : MemoryStore)
    → (prune_listed s r st).1.baseline_ids ≡ st.baseline_ids
unfolding prune_row_diff_payloads
listed-baselines s (err e) st = refl
listed-baselines s (ok items) st = refl

prune_source-baselines :
    (s : SourceDefinition) (st : MemoryStore) → (prune_source s st).1.baseline_ids ≡ st.baseline_ids
unfolding prune_source
prune_source-baselines s st = elim (Bool-cases (is_empty s.config.unique_keys)) [
  | inl t ↦ rw t refl
  | inr f ↦ rw f (listed-baselines s _ st)
]

found-baselines :
    (s : Option SourceDefinition) (st : MemoryStore)
    → (prune_found s st).1.baseline_ids ≡ st.baseline_ids
found-baselines none st = refl
found-baselines (some s) st = prune_source-baselines s st

-- The observation that is promoted.
record IsPromotable (st : MemoryStore) (source_id observation_id : String) (o : Observation)
    : Type 0 where
  pub found : get observation_id st.observations ≡ some o
  pub of_source : o.source_id ≡ source_id
  pub successful : is_successful o ≡ true

Promoted : MemoryStore → String → String → Result Observation × MemoryStore → Type 0
Promoted st source_id observation_id p =
    ((o : Observation) × IsPromotable st source_id observation_id o)
    × (p.1.baseline_ids ≡ put source_id observation_id st.baseline_ids)

promote_found :
    (st : MemoryStore) (source_id observation_id : String) (r : Observation)
    (found : Option Observation)
    → get observation_id st.observations ≡ found
    → (promote_baseline source_id observation_id st).0 ≡ ok r
    → Promoted st source_id observation_id (promote_baseline source_id observation_id st)
unfolding promote_baseline Promoted
promote_found st source_id observation_id r none g h =
    absurd (let k = rw (promote_baseline, g) at h in ground arith)
promote_found st source_id observation_id r (some o) g h =
    elim (Bool-cases (o.source_id == source_id)) [
      | inr f ↦ absurd (let k = rw (promote_baseline, g, f) at h in ground arith)
      | inl t ↦ elim (Bool-cases (is_successful o)) [
        | inr f ↦ absurd (let k = rw (promote_baseline, g, t, f) at h in ground arith)
        | inl u ↦
            rw (promote_baseline, g, t, u)
              (
                (
                  o,
                  record {
                    found = g;
                    of_source = (eq_iff o.source_id source_id).0 t;
                    successful = u;
                  },
                ),
                refl,
              )
      ]
    ]

ready_healthy :
    (source_id : String) (current : Option Observation) (o : Observation)
    → (review_of source_id current (some o)).ready ≡ true
    → (is_healthy o.health ≡ true) × (is_current current o ≡ false)
ready_healthy source_id none o r = absurd (ground arith)
ready_healthy source_id (some current) o r = ground arith

review_found :
    (st : MemoryStore) (source_id observation_id : String) (review : BaselineReview)
    (o : Observation) (source : Option SourceDefinition)
    → observation_id ≢ ""
    → get observation_id st.observations ≡ some o
    → get source_id st.sources ≡ source
    → baseline_review st source_id (some observation_id) ≡ ok review
    → review ≡ review_of source_id (get_baseline st source_id) (some o)
unfolding baseline_review get_source get_observation get_baseline
review_found st source_id observation_id review o none ne g k h =
    absurd (let l = rw (baseline_review, k) at h in ground arith)
review_found st source_id observation_id review o (some source) ne g k h =
    elim (Bool-cases (observation_id == "")) [
      | inl t ↦ absurd (ne ((eq_iff observation_id "").0 t))
      | inr f ↦ let l = rw (baseline_review, k, f, g) at h in ground arith
    ]

-- What a promotion that succeeded did.
pub record IsReviewed (source_id observation_id expected : String) (st st' : MemoryStore)
    : Type 0 where
  pub old : Observation
  pub was_baseline : get_baseline st source_id ≡ some old
  pub was_expected : old.id ≡ expected
  pub promoted : Observation
  pub stored : get observation_id st.observations ≡ some promoted
  pub of_source : promoted.source_id ≡ source_id
  pub successful : is_successful promoted ≡ true
  pub in_health : is_healthy promoted.health ≡ true
  pub is_new : promoted.id ≢ old.id
  pub marked : st'.baseline_ids ≡ put source_id observation_id st.baseline_ids

-- What follows the pruning changes no store.
after_prune :
    (x : Observation) (q : Result (Unit {0})) (m : MemoryStore)
    → (continue (λ (u : Unit {0}). pure x) q m).1 ≡ m
after_prune x (ok u) m = refl
after_prune x (err e) m = refl

after_promotion :
    (source_id : String) (p : Result Observation) (m : MemoryStore) (r : Observation)
    → (continue (λ (x : Observation). prune_known source_id >> pure x) p m).0 ≡ ok r
    → ((x : Observation) × (p ≡ ok x))
      × ((continue (λ (x : Observation). prune_known source_id >> pure x) p m).1.baseline_ids
          ≡ m.baseline_ids)
after_promotion source_id (err e) m r h = absurd (ground arith)
after_promotion source_id (ok x) m r h = (
  (x, refl),
  ap (λ (t : MemoryStore). t.baseline_ids)
        (after_prune x (prune_known source_id m).0 (prune_known source_id m).1)
      ∙ found-baselines (get_source m source_id) m,
)

promote_and_prune-ok :
    (st : MemoryStore) (source_id observation_id : String) (r : Observation)
    → (promote_and_prune source_id observation_id st).0 ≡ ok r
    → Promoted st source_id observation_id (promote_and_prune source_id observation_id st)
unfolding Promoted
promote_and_prune-ok st source_id observation_id r h =
    let ((x, went), kept) =
      after_promotion source_id (promote_baseline source_id observation_id st).0
        (promote_baseline source_id observation_id st).1 r h in
    let (found, put_there) = promote_found st source_id observation_id x _ refl went in
    (found, kept ∙ put_there)

expected_some :
    (b : Option Observation) (expected : String)
    → is_expected b expected ≡ true
    → (old : Observation) × (b ≡ some old) × (old.id ≡ expected)
expected_some none expected h = absurd (ground arith)
expected_some (some old) expected h = (old, refl, (eq_iff old.id expected).0 h)

not_current :
    (b : Option Observation) (old o : Observation)
    → b ≡ some old
    → is_current b o ≡ false
    → o.id ≢ old.id
not_current none old o e h = absurd (ground arith)
not_current (some c) old o e n = λ same. absurd (
    let k : c ≡ old = ground arith in
    ground (arith, eq_iff o.id c.id, ap (λ (x : Observation). x.id) k, same, n))

reviewed :
    (st : MemoryStore) (source_id observation_id expected : String) (r : Observation)
    (review : Result BaselineReview)
    → observation_id ≢ ""
    → is_expected (get_baseline st source_id) expected ≡ true
    → baseline_review st source_id (some observation_id) ≡ review
    → (after_review source_id observation_id review st).0 ≡ ok r
    → IsReviewed source_id observation_id expected st
        (after_review source_id observation_id review st).1
unfolding Promoted
reviewed st source_id observation_id expected r (err e) ne ex rv h = absurd (ground arith)
reviewed st source_id observation_id expected r (ok review) ne ex rv h =
    elim (Bool-cases review.ready) [
      | inr f ↦ absurd (let k = rw f at h in ground arith)
      | inl ready ↦
          let ((o, p), baselines) =
            promote_and_prune-ok st source_id observation_id r (rw ready at h) in
          let (old, was, ex') = expected_some (get_baseline st source_id) expected ex in
          let seen = review_found st source_id observation_id review o _ ne p.found refl rv in
          let (fine, other) =
            ready_healthy source_id (get_baseline st source_id) o (rw seen at ready) in
          rw ready (record {
            old = old;
            was_baseline = was;
            was_expected = ex';
            promoted = o;
            stored = p.found;
            of_source = p.of_source;
            successful = p.successful;
            in_health = fine;
            is_new = not_current (get_baseline st source_id) old o was other;
            marked = baselines;
          })
    ]

-- A promotion after review that succeeds found the baseline that the reviewer expected, and made
-- the source's baseline a stored observation of that source which is available with a profile,
-- Healthy and not the old baseline. The id of the observation is not empty.
pub promote_baseline_after_review-IsReviewed :
    (st : MemoryStore) (source_id observation_id expected : String) (r : Observation)
    → observation_id ≢ ""
    → (promote_baseline_after_review source_id observation_id expected st).0 ≡ ok r
    → IsReviewed source_id observation_id expected st
        (promote_baseline_after_review source_id observation_id expected st).1
unfolding promote_baseline_after_review
promote_baseline_after_review-IsReviewed st source_id observation_id expected r ne h =
    elim (Bool-cases (is_expected (get_baseline st source_id) expected)) [
      | inr f ↦ absurd (let k = rw f at h in ground arith)
      | inl t ↦ rw t (reviewed st source_id observation_id expected r _ ne t refl (rw t at h))
    ]
