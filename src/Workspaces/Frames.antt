-- ===== src/Workspaces/Frames.antt =====
-- What a write to the store in memory (analystwatch/memory_store.py) leaves alone of what another
-- workspace (analystwatch/workspace.py) reads.
use analyst_watch.Prelude.{
  String, Bool, true, false, ◌≡◌, ◌≢◌, refl, ◌∙◌, sym, ap, Option, none, some, Dict, is_some, inl,
  inr, Bool-cases, Option-cases, arith, get, put, get-put, eq_iff, ◌==◌,
}
use analyst_watch.Models.{SourceDefinition, Observation}
use analyst_watch.Memory
use analyst_watch.Memory.{MemoryStore, ids_of, store_observation}
use analyst_watch.Workspaces.Bound.{
  visible, sees, owns_source, get_source, get_observation, get_notification_candidate,
  get_delivery_attempt,
}

pub visible-same {ℓ} :
    {A : Type ℓ} (p q : A → Bool) (o : Option A) → ((a : A) → p a ≡ q a) → visible p o ≡ visible q o
visible-same p q none h = refl
visible-same p q (some a) h = rw (h a) refl

-- A write of something unseen over nothing seen.
pub visible-put {ℓ} :
    {V : Type ℓ} (p : V → Bool) (k i : String) (v : V) (d : Dict V)
    → p v ≡ false
    → visible p (get k d) ≡ none
    → visible p (get i (put k v d)) ≡ visible p (get i d)
visible-put p k i v d h n = elim (Bool-cases (k == i)) [
  | inr f ↦ rw (get-put k i v d, f) refl
  | inl t ↦ let same : k ≡ i = (eq_iff k i).0 t in rw (get-put k i v d, t, h, ← same) (sym n)
]

-- What one test lets see, no test that excludes it does.
pub visible-apart {ℓ} :
    {A : Type ℓ} (p q : A → Bool) (o : Option A)
    → ((a : A) → p a ≡ true → q a ≡ false)
    → is_some (visible p o) ≡ true
    → visible q o ≡ none
visible-apart p q none h s = refl
visible-apart p q (some a) h s = elim (Bool-cases (p a)) [
  | inl t ↦ rw (h a t) refl
  | inr f ↦ absurd (let k = rw f at s in ground arith)
]

pub visible-some {ℓ} :
    {A : Type ℓ} (p : A → Bool) (o : Option A) (a : A)
    → visible p o ≡ some a
    → (o ≡ some a) × (p a ≡ true)
visible-some p none a h = absurd (ground arith)
visible-some p (some x) a h = elim (Bool-cases (p x)) [
  | inl t ↦
      let e : some x ≡ some a = rw t at h in
      let same : x ≡ a = ground arith in (ap some same, rw (← same) t)
  | inr f ↦ absurd (let k = rw f at h in ground arith)
]

-- A workspace's source, by its workspace.
pub get_source-visible :
    (b : String) (st : MemoryStore) (id : String)
    → get_source b st id
      ≡ visible (λ (s : SourceDefinition). s.workspace_id == b) (get id st.sources)
unfolding get_source Memory.get_source owns_source
get_source-visible b st id = elim (Option-cases (get id st.sources)) [
  | inl n ↦ rw n refl
  | inr (s, g) ↦ rw g refl
]

pub apart : (b w x : String) → b ≢ w → (x == w) ≡ true → (x == b) ≡ false
apart b w x n h = elim (Bool-cases (x == b)) [
  | inr f ↦ f
  | inl t ↦ absurd (n (sym ((eq_iff x b).0 t) ∙ (eq_iff x w).0 h))
]

-- No source belongs to two workspaces.
pub sees-apart :
    (b w : String) (st : MemoryStore) (id : String)
    → b ≢ w
    → sees w st id ≡ true
    → sees b st id ≡ false
sees-apart b w st id n h = rw (get_source-visible b st id) (
    ap is_some (
      visible-apart (λ (s : SourceDefinition). s.workspace_id == w)
        (λ (s : SourceDefinition). s.workspace_id == b) (get id st.sources)
        (λ s. apart b w s.workspace_id n) (rw (get_source-visible w st id) at h)))

-- What a workspace reads by a key is the same after a change.
pub record Leaves (b : String) (st last : MemoryStore) : Type 0 where
  pub sources : (id : String) → get_source b last id ≡ get_source b st id
  pub observations : (id : String) → get_observation b last id ≡ get_observation b st id
  pub listed :
      (id : String)
      → sees b st id ≡ true
      → ids_of last.observation_ids id ≡ ids_of st.observation_ids id
  pub baselines :
      (id : String) → sees b st id ≡ true → get id last.baseline_ids ≡ get id st.baseline_ids
  pub reviews :
      (id : String) (o : Observation)
      → get_observation b st id ≡ some o
      → get id last.reviews ≡ get id st.reviews
  pub candidates :
      (id : String) → get_notification_candidate b last id ≡ get_notification_candidate b st id
  pub attempts : (id : String) → get_delivery_attempt b last id ≡ get_delivery_attempt b st id

pub Leaves-refl : (b : String) (st : MemoryStore) → Leaves b st st
Leaves-refl b st = record {
  sources = λ id. refl;
  observations = λ id. refl;
  listed = λ id h. refl;
  baselines = λ id h. refl;
  reviews = λ id o h. refl;
  candidates = λ id. refl;
  attempts = λ id. refl;
}

pub Leaves-trans :
    (b : String) (st mid last : MemoryStore)
    → Leaves b st mid
    → Leaves b mid last
    → Leaves b st last
Leaves-trans b st mid last h k = record {
  sources = λ id. k.sources id ∙ h.sources id;
  observations = λ id. k.observations id ∙ h.observations id;
  listed = λ id s. k.listed id (rw (h.sources id) s) ∙ h.listed id s;
  baselines = λ id s. k.baselines id (rw (h.sources id) s) ∙ h.baselines id s;
  reviews = λ id o s. k.reviews id o (h.observations id ∙ s) ∙ h.reviews id o s;
  candidates = λ id. k.candidates id ∙ h.candidates id;
  attempts = λ id. k.attempts id ∙ h.attempts id;
}
