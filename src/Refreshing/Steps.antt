-- ===== src/Refreshing/Steps.antt =====
-- What the replacement of a credential is made of (analystwatch/credential_refresh.py).
use analyst_watch.Prelude.{
  String, true, false, not, ◌≡◌, refl, ◌∙◌, ap, Option, none, some, ◌⊎◌, inl, inr, Bool-cases,
  is_some, ◌==◌, leb, ◌<◌, ◌≤◌, eq_iff, arith, subst,
}
use analyst_watch.Result.{ok, require-ok, bind-ok, caught, caught-ok, same_ok}
use analyst_watch.Models.{Instant, DateTime, naive, aware}
use analyst_watch.Workspaces.{validate_workspace_id, validate_workspace_id-eq}
use analyst_watch.Credentials.{
  Library, Keyring, ProviderCredentialRecord, same_provider, seal_provider_credential,
  unseal_refresh_token, MemoryCredentialStore, lookup, get_credential, validated_credential_id,
}
use analyst_watch.Credentials.Revocation.{validated_credential_id-eq}
use analyst_watch.Refreshing.Returns.{found_or-ok, same_key, get_credential-found}
use analyst_watch.Refreshing.{
  TokenSet, Identity, Provider, validate_now, is_fresh, not_decrypted, not_encrypted, required,
  request_of, created_as, replace, exchanged, update, found_or, decide_refresh, is_subset,
}

-- The access token is known to expire after the given time.
abbrev pub IsFresh : ProviderCredentialRecord → Instant → Type 0
IsFresh r now = (t : Instant) × (r.access_token_expires_at ≡ some t) × (now < t)

-- It is not known to.
abbrev pub HasExpired : ProviderCredentialRecord → Instant → Type 0
HasExpired r now = (t : Instant) → r.access_token_expires_at ≡ some t → t ≤ now

pub is_fresh-IsFresh :
    (r : ProviderCredentialRecord) (now : Instant) → is_fresh r now ≡ true → IsFresh r now
is_fresh-IsFresh r now h = fresh r.access_token_expires_at refl
  where
    fresh : (e : Option Instant) → r.access_token_expires_at ≡ e → IsFresh r now
    fresh none k = absurd (ground (arith, k))
    fresh (some t) k = (t, k, ground (arith, k))

pub is_fresh-HasExpired :
    (r : ProviderCredentialRecord) (now : Instant) → is_fresh r now ≡ false → HasExpired r now
is_fresh-HasExpired r now h t k = ground (arith, k)

validate_now-aware : (t : DateTime) (now : Instant) → validate_now t ≡ ok now → t ≡ aware now
validate_now-aware (naive s) now h = absurd (ground arith)
validate_now-aware (aware s) now h = ap aware (same_ok s now h)

required-ok {ℓ} :
    {A : Type ℓ} (o : Option A) (m : String) (a : A) → required o m ≡ ok a → o ≡ some a
required-ok none m a h = absurd (ground arith)
required-ok (some b) m a h = ap some (same_ok b a h)

module _ (lib : Library) (ring : Keyring lib) (nonce next_nonce : lib.Bytes) (p : Provider) where
  -- What a replacement is made of.
  pub record IsRenewal (now : Instant) (existing s : ProviderCredentialRecord) : Type 0 where
    pub token : String
    pub stored : unseal_refresh_token lib existing ring ≡ ok (some token)
    pub tokens : TokenSet
    pub identity : Identity
    pub answered : p.exchange token ≡ ok tokens
    pub expiring : is_some tokens.expires_at ≡ true
    pub identified : p.identity tokens.access ≡ some identity
    pub account : identity.subject_id ≡ existing.subject_id
    pub made : ProviderCredentialRecord
    pub sealed :
        seal_provider_credential lib ring nonce next_nonce
          (request_of existing tokens identity token now)
        ≡ ok made
    pub renewed : created_as existing made ≡ s

  replace-IsRenewal :
      (existing s : ProviderCredentialRecord) (now : Instant) (token : String) (tokens : TokenSet)
      → unseal_refresh_token lib existing ring ≡ ok (some token)
      → p.exchange token ≡ ok tokens
      → replace lib ring nonce next_nonce p existing now token tokens ≡ ok s
      → IsRenewal now existing s
  unfolding replace
  replace-IsRenewal existing s now token tokens o e h =
      let (a, h1) = require-ok (is_some tokens.expires_at) _ _ s h in
      let (b, h2) = require-ok (is_subset tokens.scopes p.scopes) _ _ s h1 in
      let (i, k, h3) = bind-ok (required (p.identity tokens.access) _) _ s h2 in
      let (c, h4) = require-ok (i.subject_id == existing.subject_id) _ _ s h3 in
      let (made, m, h5) =
        bind-ok
          (caught not_encrypted (
            seal_provider_credential lib ring nonce next_nonce
              (request_of existing tokens i token now)))
          (λ made. ok (created_as existing made)) s h4 in
      record {
        token = token;
        stored = o;
        tokens = tokens;
        identity = i;
        answered = e;
        expiring = a;
        identified = required-ok (p.identity tokens.access) _ i k;
        account = ground (arith, eq_iff i.subject_id existing.subject_id);
        made = made;
        sealed = caught-ok not_encrypted _ made m;
        renewed = same_ok (created_as existing made) s h5;
      }

  exchanged-IsRenewal :
      (existing s : ProviderCredentialRecord) (now : Instant)
      → exchanged lib ring nonce next_nonce p existing now ≡ ok s
      → IsRenewal now existing s
  unfolding exchanged
  exchanged-IsRenewal existing s now h =
      let (a, h1) = require-ok (leb existing.updated_at now) _ _ s h in
      let (stored, b, h2) =
        bind-ok (caught not_decrypted (unseal_refresh_token lib existing ring)) _ s h1 in
      let (token, c, h3) = bind-ok (required stored _) _ s h2 in
      let (tokens, d, h4) =
        bind-ok (p.exchange token)
          (λ tokens. replace lib ring nonce next_nonce p existing now token tokens) s h3 in
      let sent : unseal_refresh_token lib existing ring ≡ ok (some token) =
        caught-ok not_decrypted _ stored b ∙ ap ok (required-ok stored _ token c) in
      replace-IsRenewal existing s now token tokens sent d h4

  -- The record as it was while its token is fresh, a replacement afterwards.
  abbrev pub IsUpdate : Instant → ProviderCredentialRecord → ProviderCredentialRecord → Type 0
  IsUpdate now existing s =
      (IsFresh existing now × (existing ≡ s)) ⊎ (HasExpired existing now × IsRenewal now existing s)

  update-live :
      (existing s : ProviderCredentialRecord) (now : Instant)
      → update lib ring nonce next_nonce p existing now ≡ ok s
      → (is_some existing.revoked_at ≡ false) × IsUpdate now existing s
  unfolding update
  update-live existing s now h =
      let (a, h1) = require-ok (same_provider existing.provider p.provider) _ _ s h in
      let (b, h2) = require-ok (not (is_some existing.revoked_at)) _ _ s h1 in
      (
        ground arith,
        elim (Bool-cases (is_fresh existing now)) [
          | inl t ↦ inl (is_fresh-IsFresh existing now t, same_ok existing s (rw t at h2))
          | inr f ↦
              inr (
                is_fresh-HasExpired existing now f,
                exchanged-IsRenewal existing s now (rw f at h2),
              )
        ],
      )

  pub decide_refresh-found :
      (w c : String) (t : DateTime) (st : MemoryCredentialStore) (old s : ProviderCredentialRecord)
      → decide_refresh lib ring nonce next_nonce p w c t st ≡ ok (old, s)
      → (now : Instant) × (t ≡ aware now)
        × (lookup w c st ≡ some old)
        × (is_some old.revoked_at ≡ false)
        × IsUpdate now old s
  unfolding decide_refresh
  decide_refresh-found w c t st old s h =
      let (now, a, h1) = bind-ok (validate_now t) _ (old, s) h in
      let (w', b, h2) = bind-ok (validate_workspace_id w) _ (old, s) h1 in
      let (c', d, h3) = bind-ok (validated_credential_id c) _ (old, s) h2 in
      let (stored, e, h4) = bind-ok (get_credential st w' c') _ (old, s) h3 in
      let (existing, f, h5) = bind-ok (found_or stored c') _ (old, s) h4 in
      let (replacement, g, h6) =
        bind-ok (update lib ring nonce next_nonce p existing now) (λ x. ok (existing, x)) (old, s)
          h5 in
      let pair = same_ok (existing, replacement) (old, s) h6 in
      let k =
        get_credential-found w' c' st existing (e ∙ ap ok (found_or-ok stored c' existing f)) in
      let key : lookup w c st ≡ some existing =
        same_key w w' c c' st existing (validate_workspace_id-eq w w' b)
          (validated_credential_id-eq c c' d) k in
      let (live, made) = update-live existing replacement now g in
      let (found, alive, updated) =
        subst
          (λ x.
            (lookup w c st ≡ some x.0) × (is_some x.0.revoked_at ≡ false) × IsUpdate now x.0 x.1)
          pair (key, live, made) in
      (now, validate_now-aware t now a, found, alive, updated)
