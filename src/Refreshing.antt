-- ===== src/Refreshing.antt =====
-- analystwatch/credential_refresh.py over the credential store in memory. The call runs under the
-- store's lock, so it is one step; what the provider answers is an argument.
pub mod Renewal
pub mod Steps
pub mod Returns
use analyst_watch.Prelude.{
  String, Bool, true, false, not, ◌&&◌, Option, none, some, List, [], ◌∷◌, ◌==◌, eqb, leb, ltb, all,
  any, is_some, is_empty, if◌then◌else◌,
}
use analyst_watch.Result.{
  Result, Error, ok, err, caught, value_error, key_error, crypto_error, refresh_error, require,
  Exec, ◌>>=◌, ◌>>◌,
}
use analyst_watch.Models.{Instant, DateTime, naive, aware}
use analyst_watch.Workspaces.{validate_workspace_id}
use analyst_watch.Credentials.{
  Library, Keyring, ConnectionProvider, EncryptedSecret, ProviderCredentialRecord, same_provider,
  SealRequest, seal_provider_credential, unseal_refresh_token, validate_credential_replacement,
  MemoryCredentialStore, get_credential, upsert, validated_credential_id,
}

-- `OAuthTokenSet`
pub record TokenSet : Type 0 where
  pub access : String
  pub refresh : Option String
  pub scopes : List String
  pub expires_at : Option Instant

-- What the code uses of `ConnectionAccountIdentity`.
pub record Identity : Type 0 where
  pub subject_id : String
  pub display_name : Option String
  pub email : Option String

-- The configured provider and its scopes, and what it answers: to a refresh token, which
-- `_exchange_refresh_token` sends, and to an access token, where `none` is an error of discovery.
pub record Provider : Type 0 where
  pub provider : ConnectionProvider
  pub scopes : List String
  pub exchange : String → Result TokenSet
  pub identity : String → Option Identity

-- `_validate_now`
abbrev pub validate_now : DateTime → Result Instant
validate_now (naive t) = err (value_error "OAuth token exchange time must be timezone-aware")
validate_now (aware t) = ok t

-- `access_token_expires_at is not None and access_token_expires_at > now`
abbrev pub is_fresh : ProviderCredentialRecord → Instant → Bool
is_fresh r now = elim r.access_token_expires_at [ none ↦ false | some t ↦ ltb now t ]

-- `except CredentialCryptoError`
abbrev pub not_decrypted : Error → Error
not_decrypted (crypto_error m) =
    refresh_error "Stored OAuth refresh token could not be decrypted safely."
not_decrypted e = e

-- `except ValueError`, of which an error of encryption is one.
abbrev pub not_encrypted : Error → Error
not_encrypted (value_error m) =
    refresh_error "Refreshed provider credential could not be encrypted safely."
not_encrypted (crypto_error m) =
    refresh_error "Refreshed provider credential could not be encrypted safely."
not_encrypted e = e

-- `except KeyError`
abbrev pub not_connected : Error → Error
not_connected (key_error m) = refresh_error "Stored OAuth credential is not connected for refresh."
not_connected e = e

-- `if value is None: raise`
abbrev pub required {ℓ} : {A : Type ℓ} → Option A → String → Result A
required none message = err (refresh_error message)
required (some a) message = ok a

-- `tokens.refresh_token or refresh_token`
abbrev pub token_or : Option String → String → String
token_or none token = token
token_or (some t) token = if t == "" then token else t

-- `tokens.scopes or existing.scopes`
abbrev pub scopes_or : List String → List String → List String
scopes_or [] scopes = scopes
scopes_or (s ∷ ss) scopes = s ∷ ss

abbrev pub is_subset : List String → List String → Bool
is_subset ss ts = all (λ s. any (λ t. t == s) ts) ss

abbrev pub request_of :
    ProviderCredentialRecord → TokenSet → Identity → String → Instant → SealRequest
request_of existing tokens identity token now = record {
  credential = existing.credential_id;
  workspace = existing.workspace_id;
  provider = existing.provider;
  subject = existing.subject_id;
  access = tokens.access;
  refresh = some (token_or tokens.refresh token);
  scopes = scopes_or tokens.scopes existing.scopes;
  expires_at = elim tokens.expires_at [ none ↦ none | some t ↦ some (aware t) ];
  display_name = identity.display_name;
  email = identity.email;
  now = aware now;
}

-- `replacement.model_copy(update={"created_at": existing.created_at})`
abbrev pub created_as :
    ProviderCredentialRecord → ProviderCredentialRecord → ProviderCredentialRecord
created_as existing made = record made { created_at = existing.created_at }

module _ (lib : Library) (ring : Keyring lib) (nonce next_nonce : lib.Bytes) (p : Provider) where
  -- The end of `update`, after the exchange.
  unfoldable pub replace :
      ProviderCredentialRecord → Instant → String → TokenSet → Result ProviderCredentialRecord
  replace existing now token tokens = do
    require (is_some tokens.expires_at)
        (refresh_error "OAuth token refresh returned no verified access-token expiry.")
    require (is_subset tokens.scopes p.scopes) (
        refresh_error
          "OAuth token refresh returned scope evidence outside the configured provider scope.")
    identity ←
        required (p.identity tokens.access)
          "Account identity could not be verified after token refresh."
    require (identity.subject_id == existing.subject_id) (
        refresh_error
          "OAuth token refresh resolved a different provider account; reconnect/account switch is required.")
    made ← caught not_encrypted (
        seal_provider_credential lib ring nonce next_nonce
          (request_of existing tokens identity token now))
    ok (created_as existing made)

  unfoldable pub exchanged : ProviderCredentialRecord → Instant → Result ProviderCredentialRecord
  exchanged existing now = do
    require (leb existing.updated_at now)
        (refresh_error "Credential refresh time precedes the latest stored credential update.")
    stored ← caught not_decrypted (unseal_refresh_token lib existing ring)
    token ← required stored "Stored OAuth credential has no refresh token; reconnect is required."
    tokens ← p.exchange token
    replace existing now token tokens

  -- `update`
  unfoldable pub update : ProviderCredentialRecord → Instant → Result ProviderCredentialRecord
  update existing now = do
    require (same_provider existing.provider p.provider)
        (refresh_error "Stored OAuth credential provider does not match refresh configuration.")
    require (not (is_some existing.revoked_at))
        (refresh_error "Stored OAuth credential is revoked; reconnect before refreshing it.")
    let rest = exchanged existing now in if is_fresh existing now then ok existing else rest

abbrev pub same_texts : List String → List String → Bool
same_texts [] [] = true
same_texts (s ∷ ss) (t ∷ ts) = s == t && same_texts ss ts
same_texts _ _ = false

abbrev pub same_option {ℓ} : {A : Type ℓ} → (A → A → Bool) → Option A → Option A → Bool
same_option same none none = true
same_option same (some a) (some b) = same a b
same_option same _ _ = false

abbrev pub same_secret : EncryptedSecret → EncryptedSecret → Bool
same_secret a b =
    a.key_id == b.key_id && a.nonce_b64 == b.nonce_b64 && a.ciphertext_b64 == b.ciphertext_b64

-- `replacement == existing`
unfoldable pub same_record : ProviderCredentialRecord → ProviderCredentialRecord → Bool
same_record r s =
    r.credential_id == s.credential_id
    && r.workspace_id == s.workspace_id
    && same_provider r.provider s.provider
    && r.subject_id == s.subject_id
    && same_option (◌==◌) r.display_name s.display_name
    && same_option (◌==◌) r.email s.email
    && same_texts r.scopes s.scopes
    && same_secret r.access_token s.access_token
    && same_option same_secret r.refresh_token s.refresh_token
    && same_option eqb r.access_token_expires_at s.access_token_expires_at
    && eqb r.created_at s.created_at
    && eqb r.updated_at s.updated_at
    && same_option eqb r.revoked_at s.revoked_at

-- The end of `_locked_credential_update`, from the replacement on.
abbrev pub guarded_upsert :
    ProviderCredentialRecord
    → Result (Unit {0})
    → Exec MemoryCredentialStore ProviderCredentialRecord
guarded_upsert replacement (err e) store = (err e, store)
guarded_upsert replacement (ok u) store = upsert replacement store

unfoldable pub write_replacement :
    Result (ProviderCredentialRecord × ProviderCredentialRecord)
    → Exec MemoryCredentialStore ProviderCredentialRecord
write_replacement (err e) store = (err e, store)
write_replacement (ok (existing, replacement)) store =
    if same_record replacement existing
    then (ok existing, store)
    else guarded_upsert replacement (validate_credential_replacement existing replacement) store

abbrev pub found_or : Option ProviderCredentialRecord → String → Result ProviderCredentialRecord
found_or none credential_id = err (key_error credential_id)
found_or (some r) credential_id = ok r

module _ (lib : Library) (ring : Keyring lib) (nonce next_nonce : lib.Bytes) (p : Provider) where
  -- The part that reads the store: the stored record and its replacement.
  unfoldable pub decide_refresh :
      String
      → String
      → DateTime
      → MemoryCredentialStore
      → Result (ProviderCredentialRecord × ProviderCredentialRecord)
  decide_refresh workspace_id credential_id at_time store = do
    now ← validate_now at_time
    workspace ← validate_workspace_id workspace_id
    credential ← validated_credential_id credential_id
    stored ← get_credential store workspace credential
    existing ← found_or stored credential
    replacement ← update lib ring nonce next_nonce p existing now
    ok (existing, replacement)

  unfoldable pub refresh_provider_credential_if_expired :
      String → String → DateTime → Exec MemoryCredentialStore ProviderCredentialRecord
  refresh_provider_credential_if_expired workspace_id credential_id at_time store =
      let done =
        write_replacement (decide_refresh workspace_id credential_id at_time store) store in
      (caught not_connected done.0, done.1)
