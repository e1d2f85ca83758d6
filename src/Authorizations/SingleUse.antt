-- ===== src/Authorizations/SingleUse.antt =====
-- An authorization state is consumed once, whatever calls the store of
-- analystwatch/oauth_authorization_store.py serves afterwards.
use analyst_watch.Prelude.{
  String, true, false, ◌≡◌, not, Option, none, some, inl, inr, ◌==◌, Dict, get, contains, is_some,
  refl, arith, get-put_self, get-put_ne, eq_iff, Bool-cases, ap, sym, ◌∙◌, subst,
}
use analyst_watch.Result.{
  require, Error, authorization_error, ◌>>=◌, ◌>>◌, Result, ok, err, bind-ok, require-ok, same_ok,
  Result-cases,
}
use analyst_watch.Memory.{index}
use analyst_watch.Models.{DateTime, Instant}
use analyst_watch.Credentials.{Library, Keyring}
use analyst_watch.Authorizations.Transactions.{
  Transaction, Consumption, revalidate_authorization_transaction, authorization_state_digest,
  consume_authorization_transaction, revalidated, check_transaction, validate_now, check_consumable,
  open_verifier, consumption_of,
}
use analyst_watch.Authorizations.Store.{
  found_or, check_workspace, check_provider, accept_new, AuthorizationStore, Callback, create,
  decide_consume, consume,
}

found_or-ok : {A : Type 0} (o : Option A) (a : A) → found_or o ≡ ok a → o ≡ some a
found_or-ok none a h = absurd (ground arith)
found_or-ok (some b) a h = ap some (same_ok b a h)

same_some : {A : Type 0} (a b : A) → some a ≡ some b → a ≡ b
same_some a b h = ground arith

index-ok : {V : Type 0} (d : Dict V) (k : String) (v : V) → index d k ≡ ok v → get k d ≡ some v
index-ok d k v h = ground arith

-- A transaction that is accepted has a new ID and a new digest.
accept_new-ok :
    (given t : Transaction) (st : AuthorizationStore)
    → accept_new given st ≡ ok t
    → (contains t.transaction_id st.records ≡ false)
      × (contains t.state_sha256_b64 st.state_index ≡ false)
unfolding accept_new
accept_new-ok given t st h =
    let known = λ (t : Transaction). contains t.transaction_id st.records in
    let indexed = λ (t : Transaction). contains t.state_sha256_b64 st.state_index in
    let exists = authorization_error "Authorization transaction already exists" in
    let used = authorization_error "Authorization transaction must be unconsumed when created" in
    let (r, k, h1) =
      bind-ok (revalidate_authorization_transaction given)
        (λ t.
          require (not (is_some t.consumed_at)) used
          >> (require (not (known t)) exists >> (require (not (indexed t)) exists >> ok t)))
        t h in
    let (c1, h2) =
      require-ok (not (is_some r.consumed_at)) used
        (require (not (known r)) exists >> (require (not (indexed r)) exists >> ok r)) t h1 in
    let (c2, h3) =
      require-ok (not (known r)) exists (require (not (indexed r)) exists >> ok r) t h2 in
    let (c3, h4) = require-ok (not (indexed r)) exists (ok r) t h3 in
    let same : r ≡ t = same_ok r t h4 in rw (← same) (ground arith, ground arith)

same_pair :
    {A B : Type 0} (a c : A) (b d : B)
    → ok (let p : A × B = (a, b) in p) ≡ ok (let p : A × B = (c, d) in p)
    → (a ≡ c) × (b ≡ d)
same_pair a c b d h = ground arith

module _ (lib : Library) where
  -- A call that changes the store, whether it returns or raises.
  pub data AuthorizationStep : AuthorizationStore → AuthorizationStore → Type 0 where
    created : (t : Transaction) (st : AuthorizationStore) → AuthorizationStep st (create t st).1
    consumed :
        (ring : Keyring lib) (state : String) (call : Callback) (st : AuthorizationStore)
        → AuthorizationStep st (consume lib ring state call st).1

  pub data AuthorizationSteps : AuthorizationStore → AuthorizationStore → Type 0 where
    done : (st : AuthorizationStore) → AuthorizationSteps st st
    then_step :
        (st mid last : AuthorizationStore)
        → AuthorizationSteps st mid
        → AuthorizationStep mid last
        → AuthorizationSteps st last

  -- The digest leads to a transaction that was consumed.
  pub record IsSpent (digest : String) (st : AuthorizationStore) : Type 0 where
    pub transaction_id : String
    pub transaction : Transaction
    pub indexed : get digest st.state_index ≡ some transaction_id
    pub stored : get transaction_id st.records ≡ some transaction
    pub is_consumed : is_some transaction.consumed_at ≡ true

  revalidated-eq : (r : Result (Unit {0})) (t s : Transaction) → revalidated r t ≡ ok s → t ≡ s
  revalidated-eq (ok u) t s h = same_ok t s h
  revalidated-eq (err e) t s h = absurd (ground arith)

  check_consumable-ok :
      (t : Transaction) (state : String) (now : DateTime) (time : Instant)
      → check_consumable lib t state now ≡ ok time
      → is_some t.consumed_at ≡ false
  unfolding check_consumable revalidate_authorization_transaction
  check_consumable-ok t state now time h = elim (Bool-cases (is_some t.consumed_at)) [
    | inr f ↦ f
    | inl v ↦ elim (Result-cases (validate_now now)) [
      | inr (e, k) ↦ absurd (let g = rw (check_consumable, k) at h in ground arith)
      | inl (i, k) ↦ elim (Result-cases (check_transaction t)) [
        | inr (e, l) ↦ absurd (
            let g = rw (check_consumable, k, revalidate_authorization_transaction, l) at h in
            ground arith)
        | inl (u, l) ↦ absurd (
            let g = rw (check_consumable, k, revalidate_authorization_transaction, l, v) at h in
            ground arith)
      ]
    ]
  ]

  -- What a consumption of a transaction that returns has found and made.
  consume_transaction-ok :
      (t : Transaction) (ring : Keyring lib) (state : String) (now : DateTime) (c : Consumption)
      → consume_authorization_transaction lib t ring state now ≡ ok c
      → (is_some t.consumed_at ≡ false) × (is_some c.transaction.consumed_at ≡ true)
  unfolding consume_authorization_transaction
  consume_transaction-ok t ring state now c h =
      let (time, k, h1) =
        bind-ok (check_consumable lib t state now)
          (λ time. do verifier ← open_verifier lib t ring; ok (consumption_of lib t time verifier))
          c h in
      let (verifier, l, h2) =
        bind-ok (open_verifier lib t ring) (λ verifier. ok (consumption_of lib t time verifier)) c
          h1 in
      let same : consumption_of lib t time verifier ≡ c = same_ok _ c h2 in
      (check_consumable-ok t state now time k, rw (← same) refl)

  -- What a consumption in the store that returns has found.
  decide_consume-ok :
      (st : AuthorizationStore) (ring : Keyring lib) (state : String) (call : Callback)
      (id : String) (c : Consumption)
      → decide_consume lib st ring state call ≡ ok (id, c)
      → (digest : String) × (t : Transaction) × (authorization_state_digest lib state ≡ ok digest)
        × (get digest st.state_index ≡ some id)
        × (get id st.records ≡ some t)
        × (consume_authorization_transaction lib t ring state call.now ≡ ok c)
  unfolding decide_consume
  decide_consume-ok st ring state call id c h =
      let finish = λ (id : String) (t : Transaction). (do
        used ← consume_authorization_transaction lib t ring state call.now
        let found : String × Consumption = (id, used)
        ok found) in
      let after_workspace = λ (id : String) (t : Transaction). (do
        v ← check_provider t call.expected_provider
        finish id t) in
      let after_read = λ (id : String) (t : Transaction). (do
        u ← check_workspace t call.expected_workspace
        after_workspace id t) in
      let after_index = λ (id : String). (do t ← index st.records id; after_read id t) in
      let (digest, d, h1) =
        bind-ok (authorization_state_digest lib state)
          (λ digest. do
            transaction_id ← found_or (get digest st.state_index)
            after_index transaction_id)
          (id, c) h in
      let (found, f, h2) = bind-ok (found_or (get digest st.state_index)) after_index (id, c) h1 in
      let (t, g, h3) = bind-ok (index st.records found) (after_read found) (id, c) h2 in
      let (u, w, h4) =
        bind-ok (check_workspace t call.expected_workspace) (λ u. after_workspace found t) (id, c)
          h3 in
      let (v, p, h5) =
        bind-ok (check_provider t call.expected_provider) (λ v. finish found t) (id, c) h4 in
      let (made, m, h6) =
        bind-ok (consume_authorization_transaction lib t ring state call.now)
          (λ used. let pair : String × Consumption = (found, used) in ok pair) (id, c) h5 in
      let (same_id, same_made) = same_pair found id made c h6 in
      let indexed : get digest st.state_index ≡ some id =
        subst (λ x. get digest st.state_index ≡ some x) same_id
          (found_or-ok (get digest st.state_index) found f) in
      let stored : get id st.records ≡ some t =
        subst (λ x. get x st.records ≡ some t) same_id (index-ok st.records found t g) in
      (
        digest,
        t,
        d,
        indexed,
        stored,
        subst (λ x. consume_authorization_transaction lib t ring state call.now ≡ ok x) same_made m,
      )

  create-IsSpent :
      (digest : String) (t : Transaction) (st : AuthorizationStore)
      → IsSpent digest st
      → IsSpent digest (create t st).1
  unfolding create
  create-IsSpent digest t st s = elim (Result-cases (accept_new t st)) [
    | inr (e, k) ↦ rw (create, k) s
    | inl (made, k) ↦
        let (new_id, new_digest) = accept_new-ok t made st k in
        rw (create, k)
          (record {
            transaction_id = s.transaction_id;
            transaction = s.transaction;
            indexed =
                get-put_ne made.state_sha256_b64 digest made.transaction_id st.state_index
                  (λ e. absurd (let i = s.indexed in let n = rw e at new_digest in ground arith))
                ∙ s.indexed;
            stored =
                get-put_ne made.transaction_id s.transaction_id made st.records
                  (λ e. absurd (let i = s.stored in let n = rw e at new_id in ground arith))
                ∙ s.stored;
            is_consumed = s.is_consumed;
          })
  ]

  consume-IsSpent :
      (digest : String) (ring : Keyring lib) (state : String) (call : Callback)
      (st : AuthorizationStore)
      → IsSpent digest st
      → IsSpent digest (consume lib ring state call st).1
  unfolding consume
  consume-IsSpent digest ring state call st s =
      elim (Result-cases (decide_consume lib st ring state call)) [
        | inr (e, k) ↦ rw (consume, k) s
        | inl ((id, c), k) ↦
            let (d, t, x, i, f, made) = decide_consume-ok st ring state call id c k in
            elim (Bool-cases (id == s.transaction_id)) [
              | inl v ↦
                  let same : id ≡ s.transaction_id = ground (arith, eq_iff id s.transaction_id) in
                  rw (consume, k)
                    (record {
                      transaction_id = id;
                      transaction = c.transaction;
                      indexed = s.indexed ∙ ap some (sym same);
                      stored = get-put_self id c.transaction st.records;
                      is_consumed = (consume_transaction-ok t ring state call.now c made).1;
                    })
              | inr n ↦
                  rw (consume, k)
                    (record {
                      transaction_id = s.transaction_id;
                      transaction = s.transaction;
                      indexed = s.indexed;
                      stored =
                          get-put_ne id s.transaction_id c.transaction st.records
                            (λ e. absurd (ground (arith, eq_iff id s.transaction_id)))
                          ∙ s.stored;
                      is_consumed = s.is_consumed;
                    })
            ]
      ]

  AuthorizationSteps-IsSpent :
      (digest : String) (st last : AuthorizationStore)
      → AuthorizationSteps st last
      → IsSpent digest st
      → IsSpent digest last
  AuthorizationSteps-IsSpent digest st _ (done _) s = s
  AuthorizationSteps-IsSpent digest st _ (then_step _ mid _ steps (created t _)) s =
      create-IsSpent digest t mid (AuthorizationSteps-IsSpent digest st mid steps s)
  AuthorizationSteps-IsSpent digest st _ (then_step _ mid _ steps (consumed ring state call _)) s =
      consume-IsSpent digest ring state call mid (AuthorizationSteps-IsSpent digest st mid steps s)

  consume-spends :
      (ring : Keyring lib) (state : String) (call : Callback) (st : AuthorizationStore)
      (c : Consumption)
      → (consume lib ring state call st).0 ≡ ok c
      → (digest : String) × (authorization_state_digest lib state ≡ ok digest)
        × IsSpent digest (consume lib ring state call st).1
  unfolding consume
  consume-spends ring state call st c h =
      elim (Result-cases (decide_consume lib st ring state call)) [
        | inr (e, k) ↦ absurd (let g = rw (consume, k) at h in ground arith)
        | inl ((id, made), k) ↦
            let (d, t, x, i, f, m) = decide_consume-ok st ring state call id made k in
            (
              d,
              x,
              rw (consume, k)
                  (record {
                    transaction_id = id;
                    transaction = made.transaction;
                    indexed = i;
                    stored = get-put_self id made.transaction st.records;
                    is_consumed = (consume_transaction-ok t ring state call.now made m).1;
                  }),
            )
      ]

  -- When a state was consumed, then whatever transactions are created and whatever states are
  -- consumed afterwards, every further attempt to consume that state raises an error and leaves
  -- the store as it is, whichever keyring, time and expectations it comes with.
  pub consume-once :
      (ring again : Keyring lib) (state : String) (call next : Callback)
      (st last : AuthorizationStore) (c : Consumption)
      → (consume lib ring state call st).0 ≡ ok c
      → AuthorizationSteps (consume lib ring state call st).1 last
      → (e : Error) × (consume lib again state next last ≡ (err e, last))
  unfolding consume
  consume-once ring again state call next st last c h steps =
      let (digest, x, s) = consume-spends ring state call st c h in
      let spent =
        AuthorizationSteps-IsSpent digest (consume lib ring state call st).1 last steps s in
      elim (Result-cases (decide_consume lib last again state next)) [
        | inr (e, k) ↦ (e, rw (consume, k) refl)
        | inl ((id, made), k) ↦
            let (d, t, y, i, f, m) = decide_consume-ok last again state next id made k in
            let same : d ≡ digest = same_ok d digest (sym y ∙ x) in
            let id_same : id ≡ spent.transaction_id =
              same_some id spent.transaction_id
                (sym (subst (λ z. get z last.state_index ≡ some id) same i) ∙ spent.indexed) in
            let t_same : t ≡ spent.transaction =
              same_some t spent.transaction
                (sym (subst (λ z. get z last.records ≡ some t) id_same f) ∙ spent.stored) in
            let fresh : is_some t.consumed_at ≡ false =
              (consume_transaction-ok t again state next.now made m).0 in
            let old = spent.is_consumed in absurd (let g = rw t_same at fresh in ground arith)
      ]
