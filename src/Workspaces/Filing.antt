-- ===== src/Workspaces/Filing.antt =====
-- The calls of the store in memory (analystwatch/memory_store.py) keep every observation filed under
-- its own source, and so do the calls through a workspace (analystwatch/workspace.py).
use analyst_watch.Prelude.{
  String, Bool, true, false, ◌≡◌, refl, ◌∙◌, sym, ap, Option, none, some, List, Dict, inl, inr,
  contains, Bool-cases, Option-cases, arith, get, put, get-put, get-put_self, eq_iff, ◌==◌, any,
  values,
}
use analyst_watch.Result.{Result, ok, err, Exec}
use analyst_watch.Models.{Observation, NotificationCandidate}
use analyst_watch.Memory
use analyst_watch.Memory.{
  MemoryStore, Claim, ids_of, strip_row_diff_raw_payloads, prune_all, prune_one, finish_save,
  store_optional_candidate, store_observation, mark_baseline, is_successful, finish_claim,
  plan_claim,
}
use analyst_watch.Persistence.Pruning.{Remains, prune-Remains}
use analyst_watch.Workspaces.Calls.{guarded}
use analyst_watch.Workspaces.Steps.{Files, IsFiled, IsFiled-kept, store_observation-IsFiled}

-- A guarded call has what the call has and what doing nothing has.
pub guarded-has {ℓ} :
    {A : Type 0} (P : MemoryStore → Type ℓ) (r : Result (Unit {0})) (call : Exec MemoryStore A)
    (st : MemoryStore)
    → P st
    → (r ≡ ok tt → P (call st).1)
    → P (guarded r call st).1
unfolding guarded
guarded-has P (err e) call st h k = h
guarded-has P (ok u) call st h k = k refl

-- The store's parts that hold observations.
pub record SameFiles (st last : MemoryStore) : Type 0 where
  pub observations : last.observations ≡ st.observations
  pub observation_ids : last.observation_ids ≡ st.observation_ids
  pub baseline_ids : last.baseline_ids ≡ st.baseline_ids

abbrev pub SameFiles-refl : (st : MemoryStore) → SameFiles st st
SameFiles-refl st = record { observations = refl; observation_ids = refl; baseline_ids = refl }

pub SameFiles-IsFiled : (st last : MemoryStore) → SameFiles st last → IsFiled st → IsFiled last
SameFiles-IsFiled st last s f =
    IsFiled-kept st last (λ id o g. (o, rw s.observations g, refl)) s.observation_ids s.baseline_ids
      f

pub candidate_stored-SameFiles :
    (c : Option NotificationCandidate) (o : Observation) (st : MemoryStore)
    → SameFiles st (store_optional_candidate c o st).1
candidate_stored-SameFiles none o st = SameFiles-refl st
candidate_stored-SameFiles (some c) o st = elim (Bool-cases (c.observation_id == o.id)) [
  | inr f ↦ rw f (SameFiles-refl st)
  | inl t ↦ elim (Bool-cases (contains c.id st.candidates)) [
    | inl u ↦ rw (t, u) (SameFiles-refl st)
    | inr v ↦
        elim (Bool-cases (
          any (λ (item : NotificationCandidate). item.observation_id == c.observation_id)
            (values st.candidates))) [
              | inl u ↦ rw (t, v, u) (SameFiles-refl st)
              | inr w ↦
                  rw (t, v, w)
                    (record { observations = refl; observation_ids = refl; baseline_ids = refl })
            ]
  ]
]

-- A baseline that is a stored observation of its source.
marked-IsFiled :
    (st : MemoryStore) (source_id id : String)
    → Files st source_id id
    → IsFiled st
    → IsFiled (record st { baseline_ids = put source_id id st.baseline_ids })
marked-IsFiled st source_id id stored f = record {
  listed = f.listed;
  marked = λ s i g. elim (Bool-cases (source_id == s)) [
    | inl t ↦
        let g' : some id ≡ some i = rw (get-put source_id s id st.baseline_ids, t) at g in
        let same : id ≡ i = ground arith in rw (← same, ← (eq_iff source_id s).0 t) stored
    | inr n ↦ f.marked s i (rw (get-put source_id s id st.baseline_ids, n) at g)
  ];
}

finish_save-IsFiled :
    (b : Bool) (o : Observation) (r : Result (Unit {0})) (m : MemoryStore)
    → get o.id m.observations ≡ some o
    → IsFiled m
    → IsFiled (finish_save b o r m).1
finish_save-IsFiled b o (err e) m g f = f
finish_save-IsFiled true o (ok u) m g f = marked-IsFiled m o.source_id o.id (o, g, refl) f
finish_save-IsFiled false o (ok u) m g f = f

pub save_observation-IsFiled :
    (o : Observation) (b : Bool) (c : Option NotificationCandidate) (st : MemoryStore)
    → IsFiled st
    → IsFiled (Memory.save_observation o b c st).1
unfolding Memory.save_observation
save_observation-IsFiled o b c st f = elim (Bool-cases (contains o.source_id st.sources)) [
  | inr n ↦ rw n f
  | inl t ↦ elim (Option-cases (get o.id st.observations)) [
    | inr (p, g) ↦ rw (t, g) f
    | inl g ↦
        let m = store_observation o st in
        let s = candidate_stored-SameFiles c o m in
        let mid = (store_optional_candidate c o m).1 in
        rw (t, g)
          (finish_save-IsFiled b o (store_optional_candidate c o m).0 mid
            (rw s.observations (get-put_self o.id o st.observations))
            (SameFiles-IsFiled m mid s (store_observation-IsFiled st o g f)))
  ]
]

strip-source_id : (o : Observation) → (strip_row_diff_raw_payloads o).source_id ≡ o.source_id
unfolding strip_row_diff_raw_payloads
strip-source_id o = refl

pub Remains-source :
    (keep : List String) (d e : Dict Observation) (id : String) (o : Observation)
    → Remains keep d e id
    → get id d ≡ some o
    → (p : Observation) × (get id e ≡ some p) × (p.source_id ≡ o.source_id)
Remains-source keep d e id o (inl s) g = (o, s ∙ g, refl)
Remains-source keep d e id o (inr (p, h, k, n)) g =
    let same : p ≡ o = (let j : some p ≡ some o = sym h ∙ g in ground arith) in
    (
      strip_row_diff_raw_payloads p,
      k,
      strip-source_id p ∙ ap (λ (x : Observation). x.source_id) same,
    )

pub prune-IsFiled :
    (source_id : String) (keep : List String) (st : MemoryStore)
    → IsFiled st
    → IsFiled (Memory.prune_row_diff_payloads source_id keep st).1
unfolding Memory.prune_row_diff_payloads
prune-IsFiled source_id keep st f =
    IsFiled-kept st (Memory.prune_row_diff_payloads source_id keep st).1
      (λ id o g. Remains-source keep st.observations _ id o (prune-Remains source_id keep st id) g)
      refl refl f

pub promote_baseline-IsFiled :
    (source_id id : String) (st : MemoryStore)
    → IsFiled st
    → IsFiled (Memory.promote_baseline source_id id st).1
unfolding Memory.promote_baseline
promote_baseline-IsFiled source_id id st f = elim (Option-cases (get id st.observations)) [
  | inl n ↦ rw (n, Memory.promote_baseline) f
  | inr (o, g) ↦ elim (Bool-cases (o.source_id == source_id)) [
    | inr n ↦ rw (g, Memory.promote_baseline, n) f
    | inl t ↦ elim (Bool-cases (is_successful o)) [
      | inr n ↦ rw (g, Memory.promote_baseline, t, n) f
      | inl u ↦
          rw (g, Memory.promote_baseline, t, u)
            (marked-IsFiled st source_id id (o, g, (eq_iff o.source_id source_id).0 t) f)
    ]
  ]
]
