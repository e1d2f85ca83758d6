-- ===== src/Credentials/Revocation.antt =====
-- What the calls of `MemoryCredentialStore` (analystwatch/credential_store.py) keep of a record:
-- its account, its creation, and its revocation.
use analyst_watch.Prelude.{
  ◌≤◌, String, false, true, ◌≡◌, inl, inr, some, none, refl, Option, ◌==◌, [], ◌∷◌, ◌&&◌, arith,
  eq_iff, eq_refl, is_some, Bool-cases, ◌∙◌, sym, ltb, subst,
}
use analyst_watch.Result.{ok, bind-ok, same_ok, Result-cases, ◌>>=◌}
use analyst_watch.Workspaces.{validate_workspace_id, validate_workspace_id-eq}
use analyst_watch.Models.{DateTime, naive, aware}
use analyst_watch.Credentials.Crypto.{microsoft, google, ConnectionProvider}
use analyst_watch.Credentials.Records.{
  same_provider, ProviderCredentialRecord, validate_credential_replacement,
  revoke_credential_record,
}
use analyst_watch.Credentials.Store.{
  MemoryCredentialStore, lookup, assign, upsert, revoke, decide_revoke, validated_credential_id,
  check_replacement, revoke_found,
}

-- A call that changes the store, whether it returns or raises.
pub data CredentialStep : MemoryCredentialStore → MemoryCredentialStore → Type 0 where
  upserted :
      (r : ProviderCredentialRecord) (st : MemoryCredentialStore)
      → CredentialStep st (upsert r st).1
  revoked :
      (workspace credential : String) (at_time : DateTime) (st : MemoryCredentialStore)
      → CredentialStep st (revoke workspace credential at_time st).1

pub data CredentialSteps : MemoryCredentialStore → MemoryCredentialStore → Type 0 where
  done : (st : MemoryCredentialStore) → CredentialSteps st st
  then_step :
      (st mid last : MemoryCredentialStore)
      → CredentialSteps st mid
      → CredentialStep mid last
      → CredentialSteps st last

-- What a later record of a credential has in common with an earlier one.
pub record Succeeds (r s : ProviderCredentialRecord) : Type 0 where
  pub provider : s.provider ≡ r.provider
  pub subject_id : s.subject_id ≡ r.subject_id
  pub created_at : s.created_at ≡ r.created_at
  pub updated_at : r.updated_at ≤ s.updated_at
  pub revoked_at : is_some r.revoked_at ≡ true → is_some s.revoked_at ≡ true

pub Succeeds-refl : (r : ProviderCredentialRecord) → Succeeds r r
Succeeds-refl r = record {
  provider = refl;
  subject_id = refl;
  created_at = refl;
  updated_at = omega arith;
  revoked_at = λ h. h;
}

Succeeds-trans : (r s t : ProviderCredentialRecord) → Succeeds r s → Succeeds s t → Succeeds r t
Succeeds-trans r s t h k = record {
  provider = k.provider ∙ h.provider;
  subject_id = k.subject_id ∙ h.subject_id;
  created_at = k.created_at ∙ h.created_at;
  updated_at = let a = h.updated_at in let b = k.updated_at in omega arith;
  revoked_at = λ v. k.revoked_at (h.revoked_at v);
}

pub lookup-assign_self :
    (w c : String) (r : ProviderCredentialRecord) (st : MemoryCredentialStore)
    → lookup w c (assign w c r st) ≡ some r
unfolding lookup assign
lookup-assign_self w c r [] = rw (eq_refl w, eq_refl c) refl
lookup-assign_self w c r (e ∷ st) = ground (arith, lookup-assign_self w c r st)

-- A write under another workspace or credential.
lookup-assign_apart :
    (w c v d : String) (r : ProviderCredentialRecord) (st : MemoryCredentialStore)
    → (v == w && d == c) ≡ false
    → lookup w c (assign v d r st) ≡ lookup w c st
unfolding lookup assign
lookup-assign_apart w c v d r [] h = ground arith
lookup-assign_apart w c v d r (e ∷ st) h = ground (
  arith,
  lookup-assign_apart w c v d r st h,
  eq_iff e.workspace w,
  eq_iff e.workspace v,
  eq_iff e.credential c,
  eq_iff e.credential d,
  eq_iff v w,
  eq_iff d c,
)

pub same_provider-eq : (p q : ConnectionProvider) → same_provider p q ≡ true → p ≡ q
unfolding same_provider
same_provider-eq microsoft microsoft h = refl
same_provider-eq microsoft google h = absurd (ground arith)
same_provider-eq google microsoft h = absurd (ground arith)
same_provider-eq google google h = refl

pub replacement-Succeeds :
    (r s : ProviderCredentialRecord) → validate_credential_replacement r s ≡ ok tt → Succeeds r s
unfolding validate_credential_replacement
replacement-Succeeds r s h = record {
  provider = sym (same_provider-eq r.provider s.provider (ground arith));
  subject_id = ground (arith, eq_iff r.subject_id s.subject_id);
  created_at = ground arith;
  updated_at = ground arith;
  revoked_at = ground arith;
}

pub revoke_credential_record-Succeeds :
    (r s : ProviderCredentialRecord) (t : DateTime)
    → revoke_credential_record r t ≡ ok s
    → Succeeds r s × (is_some s.revoked_at ≡ true)
unfolding revoke_credential_record
revoke_credential_record-Succeeds r s (naive t) h = absurd (ground arith)
revoke_credential_record-Succeeds r s (aware t) h = elim (Bool-cases (is_some r.revoked_at)) [
  | inl v ↦
      let same : r ≡ s = same_ok r s (rw (revoke_credential_record, v) at h) in
      rw (← same) (Succeeds-refl r, v)
  | inr f ↦ elim (Bool-cases (ltb t r.updated_at)) [
    | inl l ↦ absurd (let k = rw (revoke_credential_record, f, l) at h in ground arith)
    | inr g ↦
        let made : ProviderCredentialRecord = record r { revoked_at = some t; updated_at = t } in
        let same : made ≡ s = same_ok made s (rw (revoke_credential_record, f, g) at h) in
        rw (← same) (
          record {
            provider = refl;
            subject_id = refl;
            created_at = refl;
            updated_at = ground arith;
            revoked_at = λ u. refl;
          },
          refl,
        )
  ]
]

-- The record under a key after a write that a test may refuse.
upsert-Succeeds :
    (w c : String) (r s : ProviderCredentialRecord) (st : MemoryCredentialStore)
    → lookup w c st ≡ some r
    → (t : ProviderCredentialRecord) × (lookup w c (upsert s st).1 ≡ some t) × Succeeds r t
unfolding upsert
upsert-Succeeds w c r s st h = elim (Bool-cases (s.workspace_id == w && s.credential_id == c)) [
  | inl t ↦
      let ew : s.workspace_id ≡ w = ground (arith, eq_iff s.workspace_id w) in
      let ec : s.credential_id ≡ c = ground (arith, eq_iff s.credential_id c) in
      let found : lookup s.workspace_id s.credential_id st ≡ some r =
        subst (λ x. lookup x s.credential_id st ≡ some r) (sym ew)
          (subst (λ y. lookup w y st ≡ some r) (sym ec) h) in
      let written = assign s.workspace_id s.credential_id s st in
      let stored : lookup w c written ≡ some s =
        subst (λ x. lookup x c written ≡ some s) ew
          (subst (λ y. lookup s.workspace_id y written ≡ some s) ec
            (lookup-assign_self s.workspace_id s.credential_id s st)) in
      elim (Result-cases (validate_credential_replacement r s)) [
        | inl (u, k) ↦ (s, rw (upsert, found, k) stored, replacement-Succeeds r s k)
        | inr (e, k) ↦ (r, rw (upsert, found, k) h, Succeeds-refl r)
      ]
  | inr f ↦ (
    r,
    elim (Result-cases (check_replacement (lookup s.workspace_id s.credential_id st) s)) [
      | inl (u, k) ↦
          rw (upsert, k) (lookup-assign_apart w c s.workspace_id s.credential_id s st f ∙ h)
      | inr (e, k) ↦ rw (upsert, k) h
    ],
    Succeeds-refl r,
  )
]

pub same_some : {A : Type 0} (a b : A) → some a ≡ some b → a ≡ b
same_some a b h = ground arith

pub validated_credential_id-eq : (s t : String) → validated_credential_id s ≡ ok t → s ≡ t
unfolding validated_credential_id
validated_credential_id-eq s t h = ground arith

revoke_found-ok :
    (d : String) (t : DateTime) (o : Option ProviderCredentialRecord) (s : ProviderCredentialRecord)
    → revoke_found d t o ≡ ok s
    → (old : ProviderCredentialRecord) × (o ≡ some old) × (revoke_credential_record old t ≡ ok s)
revoke_found-ok d t none s h = absurd (ground arith)
revoke_found-ok d t (some old) s h = (old, refl, h)

-- A revocation that returns has found a record and revoked it.
pub decide_revoke-ok :
    (v d : String) (t : DateTime) (s : ProviderCredentialRecord) (st : MemoryCredentialStore)
    → decide_revoke v d t st ≡ ok s
    → (old : ProviderCredentialRecord) × (lookup v d st ≡ some old)
      × (revoke_credential_record old t ≡ ok s)
unfolding decide_revoke
decide_revoke-ok v d t s st h =
    let (w, ew, h1) =
      bind-ok (validate_workspace_id v)
        (λ workspace. do
          credential ← validated_credential_id d
          revoke_found credential t (lookup workspace credential st))
        s h in
    let (c, ec, h2) =
      bind-ok (validated_credential_id d)
        (λ credential. revoke_found credential t (lookup w credential st)) s h1 in
    let (old, found, made) = revoke_found-ok c t (lookup w c st) s h2 in
    let sw = validate_workspace_id-eq v w ew in
    let sc = validated_credential_id-eq d c ec in (old, rw (sw, sc) found, made)

revoke-Succeeds :
    (w c v d : String) (t : DateTime) (r : ProviderCredentialRecord) (st : MemoryCredentialStore)
    → lookup w c st ≡ some r
    → (s : ProviderCredentialRecord) × (lookup w c (revoke v d t st).1 ≡ some s) × Succeeds r s
unfolding revoke
revoke-Succeeds w c v d t r st h = elim (Result-cases (decide_revoke v d t st)) [
  | inr (e, k) ↦ (r, rw (revoke, k) h, Succeeds-refl r)
  | inl (s, k) ↦ elim (Bool-cases (v == w && d == c)) [
    | inr f ↦ (r, rw (revoke, k) (lookup-assign_apart w c v d s st f ∙ h), Succeeds-refl r)
    | inl g ↦
        let ev : v ≡ w = ground (arith, eq_iff v w) in
        let ed : d ≡ c = ground (arith, eq_iff d c) in
        let (old, found, made) = decide_revoke-ok v d t s st k in
        let same : old ≡ r = same_some old r (sym found ∙ rw (ev, ed) h) in
        (
          s,
          rw (revoke, k, ev, ed) (lookup-assign_self w c s st),
          (revoke_credential_record-Succeeds r s t (rw same at made)).0,
        )
  ]
]

-- However the store is called, a credential that it has keeps its provider, its account and its
-- time of creation, its time of update never goes back, and once revoked it stays revoked.
pub CredentialSteps-Succeeds :
    (w c : String) (r : ProviderCredentialRecord) (st last : MemoryCredentialStore)
    → CredentialSteps st last
    → lookup w c st ≡ some r
    → (s : ProviderCredentialRecord) × (lookup w c last ≡ some s) × Succeeds r s
CredentialSteps-Succeeds w c r st _ (done _) h = (r, h, Succeeds-refl r)
CredentialSteps-Succeeds w c r st _ (then_step _ mid _ steps (upserted s _)) h =
    let (m, g, k) = CredentialSteps-Succeeds w c r st mid steps h in
    let (t, f, l) = upsert-Succeeds w c m s mid g in (t, f, Succeeds-trans r m t k l)
CredentialSteps-Succeeds w c r st _ (then_step _ mid _ steps (revoked v d t _)) h =
    let (m, g, k) = CredentialSteps-Succeeds w c r st mid steps h in
    let (s, f, l) = revoke-Succeeds w c v d t m mid g in (s, f, Succeeds-trans r m s k l)
