-- ===== src/Authorizations/Transactions.antt =====
-- analystwatch/oauth_authorization.py. The random bytes are arguments, and so are `hashlib`,
-- `base64` and the rest of the record `Library`. `hmac.compare_digest` is equality.
use Prim.Native.String.{count}
use analyst_watch.Prelude.{
  ℕ, ◌+◌, String, Bool, true, false, ◌&&◌, not, Option, none, some, [], ◌∷◌, leb, ltb, ◌==◌, strip,
  is_some,
}
use analyst_watch.Result.{
  Result, ok, err, value_error, key_error, runtime_error, refresh_error, crypto_error,
  authorization_error, require, ◌>>=◌, ◌>>◌,
}
use analyst_watch.Models.{Instant, DateTime, naive, aware, minutes}
use analyst_watch.Workspaces.{validate_workspace_id}
use analyst_watch.Credentials.{
  Library, text, number, ConnectionProvider, provider_value, EncryptedSecret, Keyring, encrypt,
  decrypt, is_identifier, is_opaque, encode_base64,
}

pub data Operation : Type 0 where
  connect reconnect : Operation

abbrev pub operation_value : Operation → String
operation_value connect = "connect"
operation_value reconnect = "reconnect"

pub data AadVersion : Type 0 where
  first_version second_version : AadVersion

-- The times are timezone-aware.
pub record Transaction : Type 0 where
  pub transaction_id : String
  pub workspace_id : String
  pub user_id : String
  pub provider : ConnectionProvider
  pub credential_id : String
  pub operation : Operation
  pub aad_version : AadVersion
  pub state_sha256_b64 : String
  pub pkce_verifier : EncryptedSecret
  pub created_at : Instant
  pub expires_at : Instant
  pub consumed_at : Option Instant

abbrev pub not_earlier : Option Instant → Instant → Bool
not_earlier none t = true
not_earlier (some s) t = leb t s

abbrev pub version_allows : AadVersion → Operation → Bool
version_allows first_version reconnect = false
version_allows first_version connect = true
version_allows second_version o = true

abbrev pub within_size : ℕ → String → Bool
within_size size value = leb 1 (count value) && leb (count value) size

-- The fields' bounds and the validators of `OAuthAuthorizationTransaction`.
unfoldable pub check_transaction : Transaction → Result (Unit {0})
check_transaction t = do
  require
      (within_size 128 t.transaction_id
        && within_size 128 t.workspace_id
        && within_size 256 t.user_id
        && within_size 256 t.credential_id)
      (value_error "field length")
  require
      (t.transaction_id == strip t.transaction_id
        && t.user_id == strip t.user_id
        && t.credential_id == strip t.credential_id)
      (value_error "Authorization transaction identifiers must be trimmed")
  require (is_opaque t.state_sha256_b64)
      (value_error "Authorization state digest must be canonical base64url")
  workspace ← validate_workspace_id t.workspace_id
  require (ltb t.created_at t.expires_at)
      (value_error "Authorization transaction expiry must follow creation")
  require (not_earlier t.consumed_at t.created_at)
      (value_error "Authorization transaction consumption must not precede creation")
  require (version_allows t.aad_version t.operation)
      (value_error "Legacy authorization transactions can represent connect only")

-- `model_validate` of a transaction's fields, with its `ValueError` caught.
abbrev pub revalidated : Result (Unit {0}) → Transaction → Result Transaction
revalidated (ok u) t = ok t
revalidated (err e) t = err (authorization_error "Authorization transaction metadata is invalid")

unfoldable pub revalidate_authorization_transaction : Transaction → Result Transaction
revalidate_authorization_transaction t = revalidated (check_transaction t) t

-- `_validate_now`
abbrev pub validate_now : DateTime → Result Instant
validate_now (naive t) = err (value_error "Authorization transaction time must be timezone-aware")
validate_now (aware t) = ok t

-- `_trimmed_identifier`, whose size is 256 wherever it is called.
abbrev pub trimmed_identifier : String → Result (Unit {0})
trimmed_identifier value =
    require (is_identifier 256 value)
      (value_error "identifier must be non-empty, trimmed, and at most 256 characters")

-- What a start of an authorization is asked for.
pub record BeginRequest : Type 0 where
  pub workspace : String
  pub user : String
  pub provider : ConnectionProvider
  pub credential : String
  pub now : DateTime
  pub ttl_minutes : ℕ
  pub operation : Operation

pub record AuthorizationStart : Type 0 where
  pub transaction : Transaction
  pub state : String
  pub code_challenge : String

pub record Consumption : Type 0 where
  pub transaction : Transaction
  pub verifier : String

-- `except CredentialCryptoError`
abbrev pub secret_or_refusal {ℓ} : {A : Type ℓ} → Result A → Result A
secret_or_refusal (ok a) = ok a
secret_or_refusal (err (crypto_error m)) =
    err (authorization_error "Authorization transaction secret could not be authenticated")
secret_or_refusal (err (value_error m)) = err (value_error m)
secret_or_refusal (err (key_error m)) = err (key_error m)
secret_or_refusal (err (runtime_error m)) = err (runtime_error m)
secret_or_refusal (err (authorization_error m)) = err (authorization_error m)
secret_or_refusal (err (refresh_error m)) = err (refresh_error m)

module _ (lib : Library) where
  -- `_sha256_b64`
  abbrev pub sha256_b64 : lib.Bytes → String
  sha256_b64 value = encode_base64 lib (lib.sha256 value)

  unfoldable pub authorization_state_digest : String → Result String
  authorization_state_digest state = do
    require (is_opaque state) (authorization_error "Authorization state is invalid")
    ok (sha256_b64 (lib.encode_ascii state))

  -- `_authorization_associated_data`; the keys are dumped in their order.
  unfoldable pub authorization_associated_data :
      String
      → String
      → ConnectionProvider
      → String
      → String
      → Operation
      → AadVersion
      → Result lib.Bytes
  authorization_associated_data workspace user provider credential transaction_id operation
        second_version =
      ok (
        lib.dump (
          ("credential_id", text credential)
          ∷ ("operation", text (operation_value operation))
          ∷ ("provider", text (provider_value provider))
          ∷ ("purpose", text "oauth_pkce_verifier")
          ∷ ("transaction_id", text transaction_id)
          ∷ ("user_id", text user)
          ∷ ("version", number 2)
          ∷ ("workspace_id", text workspace)
          ∷ []))
  authorization_associated_data workspace user provider credential transaction_id reconnect
        first_version =
      err (authorization_error "Legacy authorization operation is invalid")
  authorization_associated_data workspace user provider credential transaction_id connect
        first_version =
      ok (
        lib.dump (
          ("credential_id", text credential)
          ∷ ("provider", text (provider_value provider))
          ∷ ("purpose", text "oauth_pkce_verifier")
          ∷ ("transaction_id", text transaction_id)
          ∷ ("user_id", text user)
          ∷ ("version", number 1)
          ∷ ("workspace_id", text workspace)
          ∷ []))

  -- The data of a transaction's own fields.
  abbrev pub transaction_data : Transaction → Result lib.Bytes
  transaction_data t =
      authorization_associated_data t.workspace_id t.user_id t.provider t.credential_id
        t.transaction_id t.operation t.aad_version

  abbrev pub new_transaction :
      BeginRequest → Instant → String → String → EncryptedSecret → Transaction
  new_transaction r now transaction_id digest secret = record {
    transaction_id = transaction_id;
    workspace_id = r.workspace;
    user_id = r.user;
    provider = r.provider;
    credential_id = r.credential;
    operation = r.operation;
    aad_version = second_version;
    state_sha256_b64 = digest;
    pkce_verifier = secret;
    created_at = now;
    expires_at = now + minutes r.ttl_minutes;
    consumed_at = none;
  }

  -- `OAuthAuthorizationStart(...)`, with the validator of its tokens.
  abbrev pub start_of : Transaction → String → String → Result AuthorizationStart
  start_of t state challenge = do
    require (is_opaque state && is_opaque challenge)
        (value_error "OAuth state/challenge must be canonical base64url")
    ok (record { transaction = t; state = state; code_challenge = challenge })

  -- The part of the start that follows the drawing of the tokens.
  unfoldable pub begin_with :
      Keyring lib
      → lib.Bytes
      → BeginRequest
      → Instant
      → String
      → String
      → String
      → Result AuthorizationStart
  begin_with ring nonce r now transaction_id state verifier = do
    digest ← authorization_state_digest state
    aad ←
        authorization_associated_data r.workspace r.user r.provider r.credential transaction_id
          r.operation second_version
    secret ← encrypt lib ring nonce (lib.encode_ascii verifier) aad
    u ← check_transaction (new_transaction r now transaction_id digest secret)
    start_of (new_transaction r now transaction_id digest secret) state
        (sha256_b64 (lib.encode_ascii verifier))

  -- The arguments are the three tokens' random bytes, the nonce and the request.
  unfoldable pub begin_authorization_transaction :
      Keyring lib
      → lib.Bytes
      → lib.Bytes
      → lib.Bytes
      → lib.Bytes
      → BeginRequest
      → Result AuthorizationStart
  begin_authorization_transaction ring id_bytes state_bytes verifier_bytes nonce r = do
    now ← validate_now r.now
    require (leb 1 r.ttl_minutes && leb r.ttl_minutes 15)
        (value_error "Authorization transaction TTL must be between 1 and 15 minutes")
    workspace ← validate_workspace_id r.workspace
    trimmed_identifier r.user
    trimmed_identifier r.credential
    begin_with ring nonce r now (encode_base64 lib id_bytes) (encode_base64 lib state_bytes)
        (encode_base64 lib verifier_bytes)

  abbrev pub decode_verifier : lib.Bytes → Result String
  decode_verifier bytes = elim (lib.decode_ascii bytes) [
    | none ↦ err (authorization_error "Authorization transaction verifier encoding is invalid")
    | some verifier ↦ ok verifier
  ]

  -- The tests on the transaction, the time and the state; the result is the time.
  unfoldable pub check_consumable : Transaction → String → DateTime → Result Instant
  check_consumable stored state now = do
    time ← validate_now now
    t ← revalidate_authorization_transaction stored
    require (not (is_some t.consumed_at))
        (authorization_error "Authorization transaction was already consumed")
    require (ltb time t.expires_at) (authorization_error "Authorization transaction has expired")
    digest ← authorization_state_digest state
    require (digest == t.state_sha256_b64) (authorization_error "Authorization state did not match")
    ok time

  -- The decryption of the verifier.
  unfoldable pub open_verifier : Transaction → Keyring lib → Result String
  open_verifier t ring = do
    aad ← transaction_data t
    bytes ← secret_or_refusal (decrypt lib ring t.pkce_verifier aad)
    decode_verifier bytes

  abbrev pub consumption_of : Transaction → Instant → String → Consumption
  consumption_of t time verifier = record {
    transaction = record t { consumed_at = some time };
    verifier = verifier;
  }

  unfoldable pub consume_authorization_transaction :
      Transaction → Keyring lib → String → DateTime → Result Consumption
  consume_authorization_transaction t ring state now = do
    time ← check_consumable t state now
    verifier ← open_verifier t ring
    ok (consumption_of t time verifier)
