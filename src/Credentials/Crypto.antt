-- ===== src/Credentials/Crypto.antt =====
-- analystwatch/credential_crypto.py: the keyring, encryption, decryption and key rotation, and the
-- data that a secret is bound to. The random nonce is an argument.
use Prim.Native.String.{count}
use analyst_watch.Prelude.{
  ℕ, String, Bool, ◌&&◌, ◌||◌, not, Option, none, some, [], ◌∷◌, eqb, leb, ltb, ◌==◌,
  is_blank_or_padded, Dict, get, contains, is_empty, strip,
}
use analyst_watch.Result.{Result, ok, err, value_error, crypto_error, require, ◌>>=◌, ◌>>◌}
use analyst_watch.Memory.{index}
use analyst_watch.Workspaces.{validate_workspace_id}
use analyst_watch.Credentials.Packages.{Library, text, number, encode_base64, decode_base64}

-- `ConnectionProvider` of analystwatch/connection_discovery.py.
pub data ConnectionProvider : Type 0 where
  microsoft google : ConnectionProvider

abbrev pub provider_value : ConnectionProvider → String
provider_value microsoft = "microsoft"
provider_value google = "google"

pub data SecretKind : Type 0 where
  access_token refresh_token : SecretKind

abbrev pub secret_kind_value : SecretKind → String
secret_kind_value access_token = "access_token"
secret_kind_value refresh_token = "refresh_token"

-- `EncryptedCredentialSecret`; its version and algorithm are constants.
pub record EncryptedSecret : Type 0 where
  pub key_id : String
  pub nonce_b64 : String
  pub ciphertext_b64 : String

unfoldable pub validate_envelope : EncryptedSecret → Result EncryptedSecret
validate_envelope e = do
  require
      (leb 1 (count e.key_id)
        && leb (count e.key_id) 128
        && not (e.nonce_b64 == "")
        && not (e.ciphertext_b64 == ""))
      (value_error "field length")
  require (e.key_id == strip e.key_id) (value_error "key_id must be trimmed")
  ok e

-- A text of at most `size` characters, not empty and trimmed.
abbrev pub is_identifier : ℕ → String → Bool
is_identifier size value = not (is_blank_or_padded value || ltb size (count value))

module _ (lib : Library) where
  pub record Keyring : Type 0 where
    pub keys : Dict lib.Bytes
    pub active_key_id : String

  -- The tests that the constructor makes on each key.
  unfoldable pub validate_keys : Dict lib.Bytes → Result (Unit {0})
  validate_keys [] = ok tt
  validate_keys ((key_id, key) ∷ keys) = do
    require (not (is_blank_or_padded key_id || ltb 128 (count key_id)))
        (value_error "Credential encryption key IDs must be non-empty and trimmed")
    require (eqb (lib.byte_count key) 32)
        (value_error "Credential encryption keys must be exactly 32 bytes")
    validate_keys keys

  -- `CredentialKeyring(keys, active_key_id=...)`
  unfoldable pub new_keyring : Dict lib.Bytes → String → Result Keyring
  new_keyring keys active_key_id = do
    require (not (is_empty keys)) (value_error "At least one credential encryption key is required")
    validate_keys keys
    require (contains active_key_id keys)
        (value_error "Active credential encryption key ID is not present in the keyring")
    ok (record { keys = keys; active_key_id = active_key_id })

  -- `not b`
  abbrev pub is_empty_bytes : lib.Bytes → Bool
  is_empty_bytes b = eqb (lib.byte_count b) 0

  unfoldable pub encrypt : Keyring → lib.Bytes → lib.Bytes → lib.Bytes → Result EncryptedSecret
  encrypt ring nonce plaintext associated_data = do
    require (not (is_empty_bytes plaintext)) (value_error "Credential secret must not be empty")
    require (not (is_empty_bytes associated_data))
        (value_error "Credential associated data must not be empty")
    key ← index ring.keys ring.active_key_id
    validate_envelope (record {
      key_id = ring.active_key_id;
      nonce_b64 = encode_base64 lib nonce;
      ciphertext_b64 = encode_base64 lib (lib.seal key nonce plaintext associated_data);
    })

  -- `none` raises `CredentialCryptoError`.
  abbrev or_crypto_error {ℓ} : {A : Type ℓ} → Option A → String → Result A
  or_crypto_error none message = err (crypto_error message)
  or_crypto_error (some a) message = ok a

  unfoldable pub decrypt : Keyring → EncryptedSecret → lib.Bytes → Result lib.Bytes
  decrypt ring envelope associated_data = do
    require (not (is_empty_bytes associated_data))
        (value_error "Credential associated data must not be empty")
    key ←
        or_crypto_error (get envelope.key_id ring.keys) "Credential encryption key is not available"
    nonce ←
        or_crypto_error (decode_base64 lib envelope.nonce_b64)
          "Credential ciphertext encoding is invalid"
    ciphertext ←
        or_crypto_error (decode_base64 lib envelope.ciphertext_b64)
          "Credential ciphertext encoding is invalid"
    require (eqb (lib.byte_count nonce) 12) (crypto_error "Credential ciphertext nonce is invalid")
    or_crypto_error (lib.unseal key nonce ciphertext associated_data)
        "Credential ciphertext could not be authenticated"

  unfoldable pub reencrypt :
      Keyring → lib.Bytes → EncryptedSecret → lib.Bytes → Result EncryptedSecret
  reencrypt ring nonce envelope associated_data = do
    plaintext ← decrypt ring envelope associated_data
    encrypt ring nonce plaintext associated_data

  unfoldable pub credential_associated_data :
      String → ConnectionProvider → String → String → SecretKind → Result lib.Bytes
  credential_associated_data workspace_id provider credential_id subject_id secret_kind = do
    workspace_id ← validate_workspace_id workspace_id
    require (is_identifier 256 credential_id)
        (value_error "credential_id must be non-empty, trimmed, and at most 256 characters")
    require (is_identifier 512 subject_id)
        (value_error "subject_id must be non-empty, trimmed, and at most 512 characters")
    ok (
        lib.dump (
          ("credential_id", text credential_id)
          ∷ ("provider", text (provider_value provider))
          ∷ ("secret_kind", text (secret_kind_value secret_kind))
          ∷ ("subject_id", text subject_id)
          ∷ ("version", number 1)
          ∷ ("workspace_id", text workspace_id)
          ∷ []))
