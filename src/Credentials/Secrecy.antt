-- ===== src/Credentials/Secrecy.antt =====
-- After a revocation no call of the store (analystwatch/credential_store.py) lets a token of the
-- credential be unsealed, and the calls for one workspace leave the others alone.
use analyst_watch.Prelude.{
  inl, inr, String, true, ◌≡◌, ◌≢◌, some, refl, ◌==◌, [], ◌∷◌, arith, eq_iff, is_some, Bool-cases,
  select, List, subst,
}
use analyst_watch.Result.{ok, err, crypto_error, Result-cases, same_ok}
use analyst_watch.Workspaces.{validate_workspace_id, validate_workspace_id-eq}
use analyst_watch.Models.{DateTime}
use analyst_watch.Credentials.Packages.{Library}
use analyst_watch.Credentials.Crypto.{Keyring, SecretKind, EncryptedSecret}
use analyst_watch.Credentials.Records.{ProviderCredentialRecord}
use analyst_watch.Credentials.Store.{
  MemoryCredentialStore, CredentialEntry, has_pair, lookup, assign, upsert, revoke, decide_revoke,
  list_credentials, check_replacement,
}
use analyst_watch.Credentials.Sealing.{unseal}
use analyst_watch.Credentials.Revocation.{
  CredentialSteps, CredentialSteps-Succeeds, decide_revoke-ok, revoke_credential_record-Succeeds,
  lookup-assign_self,
}

unseal-revoked :
    (lib : Library) (r : ProviderCredentialRecord) (ring : Keyring lib) (kind : SecretKind)
    (e : EncryptedSecret)
    → is_some r.revoked_at ≡ true
    → unseal lib r ring kind e ≡ err (crypto_error "Credential is revoked")
unfolding unseal
unseal-revoked lib r ring kind e h = rw h refl

revoke-lookup :
    (w c : String) (t : DateTime) (r : ProviderCredentialRecord) (st : MemoryCredentialStore)
    → (revoke w c t st).0 ≡ ok r
    → (lookup w c (revoke w c t st).1 ≡ some r) × (is_some r.revoked_at ≡ true)
unfolding revoke
revoke-lookup w c t r st h = elim (Result-cases (decide_revoke w c t st)) [
  | inr (e, k) ↦ absurd (let g = rw (revoke, k) at h in ground arith)
  | inl (s, k) ↦
      let same : s ≡ r = same_ok s r (rw (revoke, k) at h) in
      let (old, found, made) = decide_revoke-ok w c t s st k in
      (
        rw (revoke, k, ← same) (lookup-assign_self w c s st),
        rw (← same) (revoke_credential_record-Succeeds old s t made).1,
      )
]

-- When a revocation has returned, then whatever calls change the store afterwards, the credential
-- is still stored, and no secret can be unsealed from its record: the attempt is refused because
-- the credential is revoked.
pub revoke-unseal :
    (lib : Library) (w c : String) (t : DateTime) (r : ProviderCredentialRecord)
    (st last : MemoryCredentialStore)
    → (revoke w c t st).0 ≡ ok r
    → CredentialSteps (revoke w c t st).1 last
    → (s : ProviderCredentialRecord) × (lookup w c last ≡ some s)
      × ((ring : Keyring lib) (kind : SecretKind) (e : EncryptedSecret)
          → unseal lib s ring kind e ≡ err (crypto_error "Credential is revoked"))
revoke-unseal lib w c t r st last h steps =
    let (found, gone) = revoke-lookup w c t r st h in
    let (s, kept, k) = CredentialSteps-Succeeds w c r (revoke w c t st).1 last steps found in
    (s, kept, λ ring kind e. unseal-revoked lib s ring kind e (k.revoked_at gone))

select-assign :
    (w v d : String) (r : ProviderCredentialRecord) (st : MemoryCredentialStore)
    → v ≢ w
    → select (λ (e : CredentialEntry). e.workspace == w) (assign v d r st)
      ≡ select (λ (e : CredentialEntry). e.workspace == w) st
unfolding assign
select-assign w v d r [] h = ground (arith, eq_iff v w)
select-assign w v d r (e ∷ st) h = elim (Bool-cases (has_pair v d e)) [
  | inl t ↦ ground (arith, eq_iff e.workspace w, eq_iff e.workspace v)
  | inr f ↦ rw f (ground (arith, select-assign w v d r st h))
]

-- The entries of a workspace, in the store's order.
abbrev in_workspace : String → MemoryCredentialStore → List CredentialEntry
in_workspace w st = select (λ (e : CredentialEntry). e.workspace == w) st

list_credentials-same :
    (w : String) (st last : MemoryCredentialStore)
    → in_workspace w st ≡ in_workspace w last
    → list_credentials st w ≡ list_credentials last w
unfolding list_credentials
list_credentials-same w st last h = elim (Result-cases (validate_workspace_id w)) [
  | inl (v, e) ↦
      let same : in_workspace v st ≡ in_workspace v last =
        subst (λ x. in_workspace x st ≡ in_workspace x last) (validate_workspace_id-eq w v e) h in
      rw (list_credentials, e, same) refl
  | inr (x, e) ↦ rw (list_credentials, e) refl
]

-- A write under one workspace and a revocation under it leave the list of every other workspace
-- as it was.
pub list_credentials-isolated :
    (w v d : String) (t : DateTime) (r : ProviderCredentialRecord) (st : MemoryCredentialStore)
    → v ≢ w
    → r.workspace_id ≢ w
    → (list_credentials (upsert r st).1 w ≡ list_credentials st w)
      × (list_credentials (revoke v d t st).1 w ≡ list_credentials st w)
unfolding upsert revoke
list_credentials-isolated w v d t r st h k = (
  elim (Result-cases (check_replacement (lookup r.workspace_id r.credential_id st) r)) [
    | inl (u, e) ↦
        rw (upsert, e)
          (list_credentials-same w (assign r.workspace_id r.credential_id r st) st
            (select-assign w r.workspace_id r.credential_id r st k))
    | inr (x, e) ↦ rw (upsert, e) refl
  ],
  elim (Result-cases (decide_revoke v d t st)) [
    | inl (s, e) ↦
        rw (revoke, e) (list_credentials-same w (assign v d s st) st (select-assign w v d s st h))
    | inr (x, e) ↦ rw (revoke, e) refl
  ],
)
