-- ===== src/Deliveries/Leaves.antt =====
-- What a dry run that returned an attempt leaves in the store.
use analyst_watch.Prelude.{
  String, Bool, true, false, ◌≡◌, refl, sym, subst, ◌∙◌, ap, Option, none, some, arith, get, put,
  get-put_self,
}
use analyst_watch.Result.{Result, ok, err}
use analyst_watch.Models.{
  NotificationCandidate, DeliveryAttempt, eligible, candidate_state_eqb, SourceDefinition,
}
use analyst_watch.Memory.{
  attempt_id, MemoryStore, Claim, of_pair, plan_claim, record_claim, finish_claim,
  claim_delivery_attempt, update_delivery_attempt, get_source,
}
use analyst_watch.Service.{
  DryRun, dry_run_owned, dry_run_of_source, dry_run_of_candidate, claim_of, completed, run_adapter,
}
use analyst_watch.Persistence.Settled.{IsSettled, of_pair-eq_true}
use analyst_watch.Persistence.Claims.{Redoes, plan-fresh, fresh-eligible}
use analyst_watch.Deliveries.Runs.{completed-Redoes}

-- What makes a claim a replay of `a`, in the store alone.
pub record IsReplay (st : MemoryStore) (candidate_id key adapter : String) (a : DeliveryAttempt)
    : Type 0 where
  pub candidate : NotificationCandidate
  pub place : String
  pub known : get candidate_id st.candidates ≡ some candidate
  pub is_eligible : candidate_state_eqb candidate.state eligible ≡ true
  pub claimed : get key st.idempotency ≡ some place
  pub stored : get place st.attempts ≡ some a
  pub pair : of_pair candidate_id adapter a ≡ true

plan-IsReplay :
    (st : MemoryStore) (c : Claim) (a : DeliveryAttempt)
    → plan_claim st c ≡ ok (a, true)
    → IsReplay st c.candidate_id c.idempotency_key c.adapter a
unfolding plan_claim
plan-IsReplay st c a h = ground arith

pub IsReplay-plan :
    (st : MemoryStore) (c : Claim) (a : DeliveryAttempt)
    → IsReplay st c.candidate_id c.idempotency_key c.adapter a
    → plan_claim st c ≡ ok (a, true)
unfolding plan_claim
IsReplay-plan st c a r = ground arith

update_stored :
    (m : MemoryStore) (x y : DeliveryAttempt)
    → get y.id m.attempts ≡ some x
    → update_delivery_attempt y m ≡ (ok y, record m { attempts = put y.id y m.attempts })
unfolding update_delivery_attempt
update_stored m x y g = rw g

ok_injective : (x y : DeliveryAttempt) → ok x ≡ ok y → x ≡ y
ok_injective x y h = ground arith

pub some_injective : (x y : NotificationCandidate) → some x ≡ some y → x ≡ y
some_injective x y h = ground arith

-- After the adapter has run, or the attempt was replayed, the same claim is a replay of the result.
module _ (st : MemoryStore) (s : IsSettled st) (d : DryRun) (k : NotificationCandidate)
    (known : get d.candidate_id st.candidates ≡ some k) where
  ran :
      SourceDefinition
      → String
      → Result (DeliveryAttempt × Bool)
      → Result DeliveryAttempt × MemoryStore
  ran source by r =
      let c = claim_of d source by in
      run_adapter d.adapter k d.at (finish_claim c st r).0 (finish_claim c st r).1

  -- What stays of the store, and what the claim has become.
  record HasRun (st' : MemoryStore) (a : DeliveryAttempt) : Type 0 where
    pub candidates : st'.candidates ≡ st.candidates
    pub sources : st'.sources ≡ st.sources
    pub replay : IsReplay st' d.candidate_id d.idempotency_key d.adapter.name a

  fresh-replay :
      (source : SourceDefinition) (by : String) (x y : DeliveryAttempt)
      → plan_claim st (claim_of d source by) ≡ ok (x, false)
      → Redoes x y
      → let m = record_claim d.idempotency_key x st in
        IsReplay
          (record m { attempts = put y.id y m.attempts })
          d.candidate_id
          d.idempotency_key
          d.adapter.name
          y
  unfolding attempt_id
  fresh-replay source by x y h redo =
      let (j, n, found, _, made) = plan-fresh st (claim_of d source by) x h in
      let id_eq : j.id ≡ d.candidate_id = s.keyed d.candidate_id j found in
      record {
        candidate = k;
        place = x.id;
        known = known;
        is_eligible = fresh-eligible st (claim_of d source by) x k h known;
        claimed = get-put_self d.idempotency_key x.id st.idempotency;
        stored =
            subst (λ i. get i (put y.id y (put x.id x st.attempts)) ≡ some y) redo.same_id
              (get-put_self y.id y (put x.id x st.attempts));
        pair =
            of_pair-eq_true d.candidate_id d.adapter.name y
              (redo.same_candidate ∙ (ap (λ (t : DeliveryAttempt). t.candidate_id) made ∙ id_eq))
              (redo.same_adapter ∙ ap (λ (t : DeliveryAttempt). t.adapter) made);
      }

  ran-HasRun :
      (source : SourceDefinition) (by : String) (r : Result (DeliveryAttempt × Bool))
      (a : DeliveryAttempt)
      → plan_claim st (claim_of d source by) ≡ r
      → (ran source by r).0 ≡ ok a
      → HasRun (ran source by r).1 a
  unfolding ran
  ran-HasRun source by (err e) a h g = absurd (ground arith)
  ran-HasRun source by (ok (x, true)) a h g = record {
    candidates = refl;
    sources = refl;
    replay =
        let e : x ≡ a = ground arith in
        subst (IsReplay st d.candidate_id d.idempotency_key d.adapter.name) e
          (plan-IsReplay st _ x h);
  }
  ran-HasRun source by (ok (x, false)) a h g =
      let y = completed x d.at (d.adapter.deliver k) in
      let redo = completed-Redoes x d.at (d.adapter.deliver k) in
      let m = record_claim d.idempotency_key x st in
      let there : get y.id m.attempts ≡ some x =
        rw redo.same_id (get-put_self x.id x st.attempts) in
      let done = update_stored m x y there in
      let same : y ≡ a =
        ok_injective y a (sym (ap (λ (t : Result DeliveryAttempt × MemoryStore). t.0) done) ∙ g) in
      rw done (record {
        candidates = refl;
        sources = refl;
        replay =
            subst
              (IsReplay (record m { attempts = put y.id y m.attempts }) d.candidate_id
                d.idempotency_key d.adapter.name)
              same (fresh-replay source by x y h redo);
      })

-- What a successful dry run leaves: its claim is a replay, and the candidate's source is known.
pub record Leaves (st' : MemoryStore) (d : DryRun) (a : DeliveryAttempt) : Type 0 where
  pub replay : IsReplay st' d.candidate_id d.idempotency_key d.adapter.name a
  pub source : SourceDefinition
  pub sourced : get replay.candidate.source_id st'.sources ≡ some source

HasRun-Leaves :
    (st st' : MemoryStore) (s : IsSettled st) (d : DryRun) (k : NotificationCandidate)
    (known : get d.candidate_id st.candidates ≡ some k) (source : SourceDefinition)
    (a : DeliveryAttempt)
    → get k.source_id st.sources ≡ some source
    → HasRun st s d k known st' a
    → Leaves st' d a
HasRun-Leaves st st' s d k known source a g r = record {
  replay = r.replay;
  source = source;
  sourced =
      let same : r.replay.candidate ≡ k =
        some_injective r.replay.candidate k
          (sym r.replay.known ∙ (ap (get d.candidate_id) r.candidates ∙ known)) in
      ap (λ (c : NotificationCandidate). get c.source_id st'.sources) same
      ∙ (ap (get k.source_id) r.sources ∙ g);
}

module _ (st : MemoryStore) (s : IsSettled st) (d : DryRun) (a : DeliveryAttempt) where
  owned-Leaves :
      (owner : Result String) (k : NotificationCandidate) (source : SourceDefinition)
      → get d.candidate_id st.candidates ≡ some k
      → get k.source_id st.sources ≡ some source
      → (dry_run_owned d k source owner st).0 ≡ ok a
      → Leaves (dry_run_owned d k source owner st).1 d a
  unfolding claim_delivery_attempt ran
  owned-Leaves (err e) k source known g h = absurd (ground arith)
  owned-Leaves (ok by) k source known g h =
      HasRun-Leaves st _ s d k known source a g
        (ran-HasRun st s d k known source by (plan_claim st (claim_of d source by)) a refl h)

  of_source-Leaves :
      (owner : Result String) (k : NotificationCandidate) (source : Option SourceDefinition)
      → get d.candidate_id st.candidates ≡ some k
      → get k.source_id st.sources ≡ source
      → (dry_run_of_source d owner k source st).0 ≡ ok a
      → Leaves (dry_run_of_source d owner k source st).1 d a
  of_source-Leaves owner k none known g h = absurd (ground arith)
  of_source-Leaves owner k (some source) known g h = owned-Leaves owner k source known g h

  pub of_candidate-Leaves :
      (owner : Result String) (k : Option NotificationCandidate)
      → get d.candidate_id st.candidates ≡ k
      → (dry_run_of_candidate d owner k st).0 ≡ ok a
      → Leaves (dry_run_of_candidate d owner k st).1 d a
  unfolding get_source
  of_candidate-Leaves owner none known h = absurd (ground arith)
  of_candidate-Leaves owner (some k) known h = of_source-Leaves owner k _ known refl h

pub subst_replay :
    (st : MemoryStore) (d e : DryRun) (a : DeliveryAttempt)
    → IsReplay st d.candidate_id d.idempotency_key d.adapter.name a
    → e.candidate_id ≡ d.candidate_id
    → e.idempotency_key ≡ d.idempotency_key
    → e.adapter.name ≡ d.adapter.name
    → IsReplay st e.candidate_id e.idempotency_key e.adapter.name a
subst_replay st d e a l p q r = rw (p, q, r) l
