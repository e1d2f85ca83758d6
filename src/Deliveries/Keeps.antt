-- ===== src/Deliveries/Keeps.antt =====
-- Checking sources and evaluating candidates make no delivery attempt.
use analyst_watch.Prelude.{
  String, Bool, true, false, ◌≡◌, refl, ◌∙◌, Option, none, some, List, [], ◌∷◌, arith, eq_iff, Dict,
  put, get-put, if◌then◌else◌, ◌==◌, contains, any, values, Bool-cases, inl, inr, is_empty,
}
use analyst_watch.Result.{Result, ok, err, Exec}
use analyst_watch.Exec.{pure, read, continue, ◌>>◌}
use analyst_watch.Models.{
  candidate_state_eqb, pending, now_or_clock, NotificationCandidate, Observation, SourceDefinition,
  Instant, DateTime, IncidentTransition,
}
use analyst_watch.Memory.{
  MemoryStore, store_observation, store_candidate, store_optional_candidate, finish_save,
  save_observation, list_notification_candidates, get_source, update_notification_candidate,
  prune_row_diff_payloads,
}
use analyst_watch.Service.{
  check_read, observe, decided_candidate, Before, Ingested, read_before, check_source, prune_source,
  prune_listed, evaluate_each, known_source, evaluate_pending_notification_candidates,
}
use analyst_watch.Incidents.{evaluate_notification_candidate}
use analyst_watch.Persistence.Settled.{IsKeyed, IsSettled}

pub record Keeps (st st' : MemoryStore) : Type 0 where
  pub same_attempts : st'.attempts ≡ st.attempts
  pub keyed : IsKeyed st.candidates → IsKeyed st'.candidates

pub Keeps-refl : (st : MemoryStore) → Keeps st st
Keeps-refl st = record { same_attempts = refl; keyed = λ k. k }

Keeps-trans : (a b c : MemoryStore) → Keeps a b → Keeps b c → Keeps a c
Keeps-trans a b c p q = record {
  same_attempts = q.same_attempts ∙ p.same_attempts;
  keyed = λ k. q.keyed (p.keyed k);
}

pub Keeps-IsSettled : (st st' : MemoryStore) → Keeps st st' → IsSettled st → IsSettled st'
Keeps-IsSettled st st' k s = record {
  keyed = k.keyed s.keyed;
  distinct = rw k.same_attempts s.distinct;
  filed = rw k.same_attempts s.filed;
  ordered = rw k.same_attempts s.ordered;
}

put-IsKeyed :
    (c : NotificationCandidate) (d : Dict NotificationCandidate)
    → IsKeyed d
    → IsKeyed (put c.id c d)
put-IsKeyed c d k i x h = ground (arith, get-put c.id i c d, eq_iff c.id i, k i x)

-- A step from `st` whose outcome keeps it.
unfoldable pub KeepsIn : {A : Type 0} → MemoryStore → Result A × MemoryStore → Type 0
KeepsIn st x = Keeps st x.1

unchanged : {A : Type 0} (st : MemoryStore) (r : Result A) → KeepsIn st (r, st)
unfolding KeepsIn
unchanged st r = Keeps-refl st

if-KeepsIn :
    {A : Type 0} (b : Bool) (st : MemoryStore) (x y : Result A × MemoryStore)
    → KeepsIn st x
    → KeepsIn st y
    → KeepsIn st (if b then x else y)
if-KeepsIn true st x y h k = h
if-KeepsIn false st x y h k = k

continue-KeepsIn :
    {A B : Type 0} (f : A → Exec MemoryStore B) (st : MemoryStore) (m : Result A × MemoryStore)
    → KeepsIn st m
    → ((a : A) (s : MemoryStore) → KeepsIn s (f a s))
    → KeepsIn st (continue f m.0 m.1)
unfolding KeepsIn
continue-KeepsIn f st (ok a, m) k h = Keeps-trans st m (f a m).1 k (h a m)
continue-KeepsIn f st (err e, m) k h = k

stores :
    {A : Type 0} (c : NotificationCandidate) (st : MemoryStore) (r : Result A) (ids : List String)
    → KeepsIn st (r, record st { candidates = put c.id c st.candidates; candidate_ids = ids })
unfolding KeepsIn
stores c st r ids = record { same_attempts = refl; keyed = put-IsKeyed c st.candidates }

candidate-KeepsIn :
    (c : NotificationCandidate) (o : Observation) (st : MemoryStore)
    → KeepsIn st (store_candidate c o st)
candidate-KeepsIn c o st =
    let own = c.observation_id == o.id in
    let again = contains c.id st.candidates in
    let other =
      any (λ (item : NotificationCandidate). item.observation_id == c.observation_id)
        (values st.candidates) in
    elim (Bool-cases own) [
      | inr f ↦ rw f (unchanged st _)
      | inl t ↦ elim (Bool-cases again) [
        | inl u ↦ rw (t, u) (unchanged st _)
        | inr v ↦ elim (Bool-cases other) [
          | inl u ↦ rw (t, v, u) (unchanged st _)
          | inr w ↦ rw (t, v, w) (stores c st _ _)
        ]
      ]
    ]

optional-KeepsIn :
    (c : Option NotificationCandidate) (o : Observation) (st : MemoryStore)
    → KeepsIn st (store_optional_candidate c o st)
optional-KeepsIn none o st = unchanged st _
optional-KeepsIn (some c) o st = candidate-KeepsIn c o st

finish-KeepsIn :
    (b : Bool) (o : Observation) (r : Result (Unit {0})) (st : MemoryStore)
    → KeepsIn st (finish_save b o r st)
unfolding KeepsIn
finish-KeepsIn b o (err e) st = Keeps-refl st
finish-KeepsIn true o (ok u) st = record { same_attempts = refl; keyed = λ k. k }
finish-KeepsIn false o (ok u) st = Keeps-refl st

stored-KeepsIn :
    (o : Observation) (b : Bool) (c : Option NotificationCandidate) (st : MemoryStore)
    → let p = store_optional_candidate c o (store_observation o st) in
      KeepsIn st (finish_save b o p.0 p.1)
unfolding KeepsIn
stored-KeepsIn o b c st =
    let m = store_observation o st in
    let p = store_optional_candidate c o m in
    let first : Keeps m p.1 = optional-KeepsIn c o m in
    let second : Keeps p.1 (finish_save b o p.0 p.1).1 = finish-KeepsIn b o p.0 p.1 in
    let all = Keeps-trans m p.1 (finish_save b o p.0 p.1).1 first second in
    record { same_attempts = all.same_attempts; keyed = all.keyed }

save-KeepsIn :
    (o : Observation) (b : Bool) (c : Option NotificationCandidate) (st : MemoryStore)
    → KeepsIn st (save_observation o b c st)
unfolding save_observation
save-KeepsIn o b c st = elim (Bool-cases (contains o.source_id st.sources)) [
  | inr f ↦ rw f (unchanged st _)
  | inl t ↦ elim (Bool-cases (contains o.id st.observations)) [
    | inl u ↦ rw (t, u) (unchanged st _)
    | inr v ↦ rw (t, v) (stored-KeepsIn o b c st)
  ]
]

listed-KeepsIn :
    (s : SourceDefinition) (r : Result (List Observation)) (st : MemoryStore)
    → KeepsIn st (prune_listed s r st)
unfolding prune_row_diff_payloads KeepsIn
listed-KeepsIn s (err e) st = Keeps-refl st
listed-KeepsIn s (ok os) st = record { same_attempts = refl; keyed = λ k. k }

prune-KeepsIn : (s : SourceDefinition) (st : MemoryStore) → KeepsIn st (prune_source s st)
unfolding prune_source
prune-KeepsIn s st = elim (Bool-cases (is_empty s.config.unique_keys)) [
  | inl t ↦ rw t (unchanged st _)
  | inr f ↦ rw f (listed-KeepsIn s _ st)
]

observed-KeepsIn :
    (o : Observation) (b : Bool) (c : Option NotificationCandidate) (s : SourceDefinition)
    (st : MemoryStore)
    → KeepsIn st ((save_observation o b c >> (prune_source s >> pure o)) st)
observed-KeepsIn o b c s st =
    continue-KeepsIn (λ _. prune_source s >> pure o) st (save_observation o b c st)
      (save-KeepsIn o b c st)
      (λ _ m.
        continue-KeepsIn (λ (u : Unit {0}). pure o) m (prune_source s m) (prune-KeepsIn s m)
          (λ _ l. unchanged l (ok o)))

check_read-KeepsIn :
    (at : Instant) (id : String) (ingest : SourceDefinition → Ingested) (r : Result Before)
    (st : MemoryStore)
    → KeepsIn st (check_read at id ingest r st)
check_read-KeepsIn at id ingest (err e) st = unchanged st (err e)
check_read-KeepsIn at id ingest (ok b) st =
    let o = observe id b.source at b.baseline b.history (ingest b.source) in
    observed-KeepsIn o o.is_baseline (decided_candidate b.source b.previous o) b.source st

-- A check of a source, whatever it returns.
pub check-KeepsIn :
    (clock : Instant) (id : String) (ingest : SourceDefinition → Ingested) (source_id : String)
    (now : Option DateTime) (st : MemoryStore)
    → KeepsIn st (check_source clock id ingest source_id now st)
unfolding check_source
check-KeepsIn clock id ingest source_id now st =
    check_read-KeepsIn (now_or_clock now clock) id ingest (read_before st source_id) st

update-KeepsIn :
    (c : NotificationCandidate) (st : MemoryStore) → KeepsIn st (update_notification_candidate c st)
unfolding update_notification_candidate
update-KeepsIn c st = elim (Bool-cases (contains c.id st.candidates)) [
  | inl t ↦ rw t (stores c st _ _)
  | inr f ↦ rw f (unchanged st _)
]

each-KeepsIn :
    (enabled : List IncidentTransition) (at : Instant) (cs : List NotificationCandidate)
    (st : MemoryStore)
    → KeepsIn st (evaluate_each enabled at cs st)
unfolding evaluate_each
each-KeepsIn enabled at [] st = unchanged st _
each-KeepsIn enabled at (c ∷ cs) st = elim (Bool-cases (candidate_state_eqb c.state pending)) [
  | inr f ↦ rw f (each-KeepsIn enabled at cs st)
  | inl t ↦ rw t (
      continue-KeepsIn _ st
        (update_notification_candidate (evaluate_notification_candidate c enabled at) st)
        (update-KeepsIn (evaluate_notification_candidate c enabled at) st)
        (λ u m.
          continue-KeepsIn _ m (evaluate_each enabled at cs m) (each-KeepsIn enabled at cs m)
            (λ us l. unchanged l _)))
]

known-KeepsIn :
    (source_id : String) (st : MemoryStore) (found : Option SourceDefinition)
    → get_source st source_id ≡ found
    → KeepsIn st (known_source source_id st)
known-KeepsIn source_id st none e = rw (known_source, e) (unchanged st _)
known-KeepsIn source_id st (some s) e = rw (known_source, e) (unchanged st _)

-- The evaluation of a source's pending candidates, whatever it returns.
pub evaluate-KeepsIn :
    (clock : Instant) (source_id : String) (now : Option DateTime) (st : MemoryStore)
    → KeepsIn st (evaluate_pending_notification_candidates clock source_id now st)
unfolding evaluate_pending_notification_candidates
evaluate-KeepsIn clock source_id now st =
    continue-KeepsIn _ st (known_source source_id st) (known-KeepsIn source_id st _ refl) (λ s m.
      continue-KeepsIn _ m (read (λ l. list_notification_candidates l (some source_id) 1000) m)
        (unchanged m _)
        (λ listed l.
          each-KeepsIn s.config.notification_transitions (now_or_clock now clock) listed l))

-- What keeps the attempts and the keys of the candidates keeps the store settled.
pub KeepsIn-IsSettled :
    {A : Type 0} (st : MemoryStore) (x : Result A × MemoryStore)
    → KeepsIn st x
    → IsSettled st
    → IsSettled x.1
unfolding KeepsIn
KeepsIn-IsSettled st x k s = Keeps-IsSettled st x.1 k s
