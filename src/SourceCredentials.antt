-- ===== src/SourceCredentials.antt =====
-- `StoredSourceCredentialResolver` of analystwatch/source_credentials.py over the credential store
-- in memory. The keyring and the provider that the environment configures are arguments; an error
-- of resolution is a `ValueError`.
pub mod Candidates
pub mod Bearer
use analyst_watch.Prelude.{
  String, Bool, true, false, not, Option, none, some, List, [], ◌∷◌, ◌==◌, is_some, if◌then◌else◌,
  concat,
}
use analyst_watch.Result.{
  Result, Error, ok, err, caught, value_error, crypto_error, refresh_error, require, Exec, ◌>>=◌,
  ◌>>◌,
}
use analyst_watch.Models.{
  Instant, DateTime, naive, aware, SourceDefinition, SourceType, microsoft_excel, google_sheets,
}
use analyst_watch.Credentials.{
  Library, Keyring, ConnectionProvider, microsoft, google, same_provider, ProviderCredentialRecord,
  MemoryCredentialStore, get_credential, unseal_access_token,
}
use analyst_watch.Refreshing.{Provider, is_fresh, refresh_provider_credential_if_expired}

-- `_SOURCE_PROVIDERS.get(source_type)`
abbrev pub source_provider : SourceType → Option ConnectionProvider
source_provider microsoft_excel = some microsoft
source_provider google_sheets = some google
source_provider _ = none

abbrev pub found {ℓ} : {A : Type ℓ} → Option A → String → Result A
found none message = err (value_error message)
found (some a) message = ok a

abbrev pub aware_now : DateTime → Result Instant
aware_now (naive t) =
    err (value_error "Stored OAuth credential resolution time must be timezone-aware.")
aware_now (aware t) = ok t

-- `except OAuthCredentialRefreshError`
abbrev pub not_refreshed : Error → Error
not_refreshed (refresh_error m) = value_error m
not_refreshed e = e

-- `except CredentialCryptoError`
abbrev pub not_unsealed : Error → Error
not_unsealed (crypto_error m) = value_error "Stored OAuth credential could not be decrypted safely."
not_unsealed e = e

module _ (lib : Library) where
  -- The workspace of the resolver, what the clock and the environment say, and the two nonces of a
  -- refresh.
  pub record Resolver : Type 0 where
    pub workspace_id : String
    pub now : DateTime
    pub load_keyring : Option (Keyring lib)
    pub load_provider : ConnectionProvider → Option Provider
    pub nonce : lib.Bytes
    pub next_nonce : lib.Bytes

  -- What is known of the stored credential before a refresh.
  pub record Candidate : Type 0 where
    pub stored : ProviderCredentialRecord
    pub provider : ConnectionProvider
    pub now : Instant
    pub ring : Keyring lib

  unfoldable pub find_candidate :
      Resolver → SourceDefinition → String → MemoryCredentialStore → Result Candidate
  find_candidate r source credential_id store = do
    require (source.workspace_id == r.workspace_id)
        (value_error "Stored source credential is not available in this workspace.")
    provider ←
        found (source_provider source.source_type)
          "Stored OAuth credentials are supported only for Microsoft Excel and Google Sheets."
    answer ← get_credential store r.workspace_id credential_id
    stored ← found answer "Stored OAuth credential is not connected for this source."
    require (same_provider stored.provider provider)
        (value_error "Stored OAuth credential provider does not match this source type.")
    require (not (is_some stored.revoked_at))
        (value_error "Stored OAuth credential is revoked; reconnect before monitoring this source.")
    now ← aware_now r.now
    ring ← found r.load_keyring "Credential encryption keyring is not configured"
    ok (record { stored = stored; provider = provider; now = now; ring = ring })

  -- `expired_or_unknown`: the credential is refreshed if the provider is configured.
  abbrev pub refresh_with :
      Resolver
      → String
      → Candidate
      → Option Provider
      → Exec MemoryCredentialStore ProviderCredentialRecord
  refresh_with r credential_id c none store = (
    err (
        value_error
          "Stored OAuth access token is expired or has no verified expiry, and automatic refresh is unavailable; reconnect is required."),
    store,
  )
  refresh_with r credential_id c (some p) store =
      let done =
        refresh_provider_credential_if_expired lib c.ring r.nonce r.next_nonce p r.workspace_id
          credential_id (aware c.now) store in
      (caught not_refreshed done.0, done.1)

  unfoldable pub usable :
      Resolver → String → Candidate → Exec MemoryCredentialStore ProviderCredentialRecord
  usable r credential_id c store =
      if is_fresh c.stored c.now
      then (ok c.stored, store)
      else refresh_with r credential_id c (r.load_provider c.provider) store

  -- The value of the header `Authorization`.
  unfoldable pub bearer : Candidate → ProviderCredentialRecord → Result String
  bearer c current = do
    require (is_fresh current c.now) (
        value_error "Stored OAuth access token is not usable after refresh; reconnect is required.")
    token ← caught not_unsealed (unseal_access_token lib current c.ring)
    ok (concat ("Bearer " ∷ token ∷ []))

  abbrev pub present : Candidate → Result ProviderCredentialRecord → Result (Option String)
  present c (err e) = err e
  present c (ok current) = do header ← bearer c current; ok (some header)

  abbrev pub resolve_candidate :
      Resolver → String → Result Candidate → Exec MemoryCredentialStore (Option String)
  resolve_candidate r credential_id (err e) store = (err e, store)
  resolve_candidate r credential_id (ok c) store =
      let done = usable r credential_id c store in (present c done.0, done.1)

  abbrev pub resolve_id :
      Resolver → SourceDefinition → Option String → Exec MemoryCredentialStore (Option String)
  resolve_id r source none store = (ok none, store)
  resolve_id r source (some credential_id) store =
      resolve_candidate r credential_id (find_candidate r source credential_id store) store

  unfoldable pub resolve : Resolver → SourceDefinition → Exec MemoryCredentialStore (Option String)
  resolve r source store = resolve_id r source source.config.credential_id store
