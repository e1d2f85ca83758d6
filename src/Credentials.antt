-- ===== src/Credentials.antt =====
-- Encrypted credentials of providers: analystwatch/credential_crypto.py, credential_store.py.
mod Packages
mod Crypto
mod Records
mod Store
mod Sealing
pub mod Rotation
pub mod Secrecy
pub mod Revocation
pub mod Unsealing
pub use Packages.*
unfoldable pub use Packages.{is_opaque, rstrip_padding, encode_base64, decode_base64}
pub use Crypto.*
unfoldable pub use Crypto.{
  validate_keys, new_keyring, validate_envelope, encrypt, decrypt, reencrypt,
  credential_associated_data,
}
pub use Records.*
unfoldable pub use Records.{
  normalize_scopes, check_record, validate_record, validate_credential_replacement,
  revoke_credential_record, same_provider,
}
pub use Store.*
unfoldable pub use Store.{
  lookup, assign, validated_credential_id, upsert, get_credential, list_credentials, decide_revoke,
  revoke,
}
pub use Sealing.*
unfoldable pub use Sealing.{
  seal_provider_credential, unseal, unseal_access_token, unseal_refresh_token,
}
