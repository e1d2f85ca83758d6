-- ===== src/Credentials/Sealing.antt =====
-- `seal_provider_credential`, `unseal_access_token` and `unseal_refresh_token` of
-- analystwatch/credential_store.py. The nonces of the two encryptions are arguments.
use analyst_watch.Prelude.{String, not, Option, none, some, List, ◌==◌, strip, is_some, Bool, false}
use analyst_watch.Result.{Result, ok, err, value_error, crypto_error, require, ◌>>=◌, ◌>>◌}
use analyst_watch.Models.{Instant, DateTime, naive, aware}
use analyst_watch.Credentials.Packages.{Library}
use analyst_watch.Credentials.Crypto.{
  ConnectionProvider, EncryptedSecret, SecretKind, access_token, refresh_token, Keyring, encrypt,
  decrypt, credential_associated_data,
}
use analyst_watch.Credentials.Records.{ProviderCredentialRecord, validate_record}

-- `validate_timezone`
abbrev pub aware_time : DateTime → Result Instant
aware_time (naive t) = err (value_error "Credential timestamps must be timezone-aware")
aware_time (aware t) = ok t

abbrev pub aware_option : Option DateTime → Result (Option Instant)
aware_option none = ok none
aware_option (some t) = do i ← aware_time t; ok (some i)

-- The arguments of a sealing but for the keyring.
pub record SealRequest : Type 0 where
  pub credential : String
  pub workspace : String
  pub provider : ConnectionProvider
  pub subject : String
  pub access : String
  pub refresh : Option String
  pub scopes : List String
  pub expires_at : Option DateTime
  pub display_name : Option String
  pub email : Option String
  pub now : DateTime

-- `value is not None and (not value or not value.strip())`
abbrev pub is_empty_token : Option String → Bool
is_empty_token none = false
is_empty_token (some value) = strip value == ""

module _ (lib : Library) where
  abbrev pub encrypt_option :
      Keyring lib → lib.Bytes → Option String → lib.Bytes → Result (Option EncryptedSecret)
  encrypt_option ring nonce none aad = ok none
  encrypt_option ring nonce (some token) aad = do
    e ← encrypt lib ring nonce (lib.encode token) aad
    ok (some e)

  -- The data that a token of the request is bound to.
  abbrev pub request_data : SealRequest → SecretKind → Result lib.Bytes
  request_data r kind =
      credential_associated_data lib r.workspace r.provider r.credential r.subject kind

  -- `ProviderCredentialRecord(...)`
  abbrev pub sealed_record :
      SealRequest → EncryptedSecret → Option EncryptedSecret → Result ProviderCredentialRecord
  sealed_record r access refresh = do
    expires ← aware_option r.expires_at
    now ← aware_time r.now
    validate_record (record {
      credential_id = r.credential;
      workspace_id = r.workspace;
      provider = r.provider;
      subject_id = r.subject;
      display_name = r.display_name;
      email = r.email;
      scopes = r.scopes;
      access_token = access;
      refresh_token = refresh;
      access_token_expires_at = expires;
      created_at = now;
      updated_at = now;
      revoked_at = none;
    })

  unfoldable pub seal_provider_credential :
      Keyring lib → lib.Bytes → lib.Bytes → SealRequest → Result ProviderCredentialRecord
  seal_provider_credential ring nonce next_nonce r = do
    require (not (strip r.access == "")) (value_error "access_token must be non-empty")
    require (not (is_empty_token r.refresh))
        (value_error "refresh_token must be non-empty when provided")
    access_aad ← request_data r access_token
    refresh_aad ← request_data r refresh_token
    access ← encrypt lib ring nonce (lib.encode r.access) access_aad
    refresh ← encrypt_option ring next_nonce r.refresh refresh_aad
    sealed_record r access refresh

  -- `plaintext.decode("utf-8")`
  abbrev pub decode_plaintext : lib.Bytes → Result String
  decode_plaintext plaintext = elim (lib.decode plaintext) [
    | none ↦ err (crypto_error "Credential plaintext encoding is invalid")
    | some token ↦ ok token
  ]

  unfoldable pub unseal :
      ProviderCredentialRecord → Keyring lib → SecretKind → EncryptedSecret → Result String
  unseal r ring kind envelope = do
    require (not (is_some r.revoked_at)) (crypto_error "Credential is revoked")
    associated_data ←
        credential_associated_data lib r.workspace_id r.provider r.credential_id r.subject_id kind
    plaintext ← decrypt lib ring envelope associated_data
    decode_plaintext plaintext

  unfoldable pub unseal_access_token : ProviderCredentialRecord → Keyring lib → Result String
  unseal_access_token r ring = unseal r ring access_token r.access_token

  abbrev pub unseal_option :
      ProviderCredentialRecord → Keyring lib → Option EncryptedSecret → Result (Option String)
  unseal_option r ring none = ok none
  unseal_option r ring (some envelope) = do
    token ← unseal r ring refresh_token envelope
    ok (some token)

  unfoldable pub unseal_refresh_token :
      ProviderCredentialRecord → Keyring lib → Result (Option String)
  unseal_refresh_token r ring = unseal_option r ring r.refresh_token
