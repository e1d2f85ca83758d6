-- ===== src/Tests/Secrets.antt =====
-- A keyring whose active key changes, a sealed credential and its revocation.
use analyst_watch.Workspaces.{validate_workspace_id}
use analyst_watch.Prelude.{is_blank_or_padded, strip}
use analyst_watch.Credentials.{
  check_record, credential_associated_data, decide_revoke, decode_base64, encode_base64,
  normalize_scopes, revoke_credential_record, rstrip_padding, validate_envelope, validate_keys,
  validate_record, validated_credential_id,
}
use analyst_watch.Prelude.{none, some, ◌≡◌, ◌≢◌, refl, ◌∷◌, [], String, get, eq_iff, arith}
use analyst_watch.Result.{ok, err, crypto_error}
use analyst_watch.Models.{aware}
use analyst_watch.Credentials.{
  Keyring, EncryptedSecret, encrypt, decrypt, reencrypt, SealRequest, seal_provider_credential,
  unseal_access_token, unseal_refresh_token, ProviderCredentialRecord, google,
  MemoryCredentialStore, upsert, revoke, lookup, list_credentials, unseal, SecretKind, new_keyring,
}
use analyst_watch.Credentials.Rotation.{reencrypt-rotates}
use analyst_watch.Credentials.Unsealing.{unseal-seal_provider_credential}
use analyst_watch.Credentials.Revocation.{
  CredentialSteps-Succeeds, done, then_step, upserted, revoked, Succeeds,
}
use analyst_watch.Credentials.Secrecy.{revoke-unseal, list_credentials-isolated}
use analyst_watch.Tests.Packages.{plain, plain-IsLibrary}

abbrev key_bytes : String
key_bytes = "0123456789abcdef0123456789abcdef"

abbrev other_bytes : String
other_bytes = "fedcba9876543210fedcba9876543210"

abbrev pub nonce : String
nonce = "nonce-nonce-"

abbrev pub ring : Keyring plain
ring = record { keys = ("k1", key_bytes) ∷ []; active_key_id = "k1" }

abbrev rotated : Keyring plain
rotated = record { keys = ("k1", key_bytes) ∷ ("k2", other_bytes) ∷ []; active_key_id = "k2" }

abbrev pub sealed : EncryptedSecret
sealed = record {
  key_id = "k1";
  nonce_b64 = "xxxnxxxoxxxnxxxcxxxexxx-xxxnxxxoxxxnxxxcxxxexxx-xxx";
  ciphertext_b64 = "xxxxxxxtxxx";
}

abbrev resealed : EncryptedSecret
resealed = record sealed { key_id = "k2" }

ring_accepted : new_keyring plain (("k1", key_bytes) ∷ []) "k1" ≡ ok ring
unfolding new_keyring validate_keys is_blank_or_padded get
ring_accepted = refl

encrypted : encrypt plain ring nonce "t" "aad" ≡ ok sealed
unfolding encrypt get validate_envelope encode_base64 rstrip_padding strip
encrypted = refl

reencrypted : reencrypt plain rotated nonce sealed "aad" ≡ ok resealed
unfolding reencrypt decrypt get decode_base64 is_blank_or_padded encrypt validate_envelope
    encode_base64 rstrip_padding
reencrypted = refl

same_key : get "k1" rotated.keys ≡ get "k1" ring.keys
unfolding get
same_key = refl

reencrypt-rotates_example :
    (resealed.key_id ≡ "k2") × (decrypt plain rotated resealed "aad" ≡ ok "t")
reencrypt-rotates_example =
    reencrypt-rotates plain plain-IsLibrary ring rotated nonce nonce "t" "aad" sealed resealed
      encrypted refl refl same_key reencrypted

abbrev request : SealRequest
request = record {
  credential = "c1";
  workspace = "team";
  provider = google;
  subject = "user-7";
  access = "t";
  refresh = some "t";
  scopes = "read" ∷ "mail" ∷ "read" ∷ [];
  expires_at = none;
  display_name = none;
  email = none;
  now = aware 5;
}

abbrev pub made : ProviderCredentialRecord
made = record {
  credential_id = "c1";
  workspace_id = "team";
  provider = google;
  subject_id = "user-7";
  display_name = none;
  email = none;
  scopes = "mail" ∷ "read" ∷ [];
  access_token = sealed;
  refresh_token = some sealed;
  access_token_expires_at = none;
  created_at = 5;
  updated_at = 5;
  revoked_at = none;
}

request_sealed : seal_provider_credential plain ring nonce nonce request ≡ ok made
unfolding seal_provider_credential strip credential_associated_data validate_workspace_id encrypt
    get validate_envelope encode_base64 rstrip_padding validate_record check_record normalize_scopes
request_sealed = refl

unseal-seal_provider_credential_example :
    (unseal_access_token plain made rotated ≡ ok "t")
    × (unseal_refresh_token plain made rotated ≡ ok (some "t"))
unseal-seal_provider_credential_example =
    unseal-seal_provider_credential plain plain-IsLibrary ring rotated nonce nonce request made
      request_sealed refl refl same_key

abbrev pub before : MemoryCredentialStore
before = (record { workspace = "team"; credential = "c1"; stored = made }) ∷ []

abbrev gone : ProviderCredentialRecord
gone = record made { updated_at = 9; revoked_at = some 9 }

made_found : lookup "team" "c1" before ≡ some made
unfolding lookup
made_found = refl

made_revoked : (revoke "team" "c1" (aware 9) before).0 ≡ ok gone
unfolding revoke decide_revoke validate_workspace_id validated_credential_id lookup
    revoke_credential_record
made_revoked = refl

-- A rotated attempt to store the credential without its revocation.
abbrev after : MemoryCredentialStore
after = (revoke "team" "c1" (aware 9) before).1

CredentialSteps-Succeeds_example :
    (s : ProviderCredentialRecord) × (lookup "team" "c1" (upsert made after).1 ≡ some s)
    × Succeeds made s
CredentialSteps-Succeeds_example =
    CredentialSteps-Succeeds "team" "c1" made before (upsert made after).1
      (then_step before after (upsert made after).1
        (then_step before before after (done before) (revoked "team" "c1" (aware 9) before))
        (upserted made after))
      made_found

revoke-unseal_example :
    (s : ProviderCredentialRecord) × (lookup "team" "c1" (upsert made after).1 ≡ some s)
    × ((k : Keyring plain) (kind : SecretKind) (e : EncryptedSecret)
        → unseal plain s k kind e ≡ err (crypto_error "Credential is revoked"))
revoke-unseal_example =
    revoke-unseal plain "team" "c1" (aware 9) gone before (upsert made after).1 made_revoked
      (then_step after after (upsert made after).1 (done after) (upserted made after))

team_other : ◌≢◌ {A = String} "team" "other"
team_other e = absurd (ground (arith, eq_iff "team" "other"))

list_credentials-isolated_example :
    (list_credentials (upsert made before).1 "other" ≡ list_credentials before "other")
    × (list_credentials (revoke "team" "c1" (aware 9) before).1 "other"
        ≡ list_credentials before "other")
list_credentials-isolated_example =
    list_credentials-isolated "other" "team" "c1" (aware 9) made before team_other team_other
