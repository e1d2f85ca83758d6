-- ===== src/Credentials/Records.antt =====
-- `ProviderCredentialRecord` of analystwatch/credential_store.py with its validators, its
-- replacement and its revocation.
use Prim.Native.String.{count}
use analyst_watch.Prelude.{
  String, Bool, true, ◌&&◌, ◌||◌, not, Option, none, some, List, [], ◌∷◌, eqb, leb, ltb, ◌==◌,
  if◌then◌else◌, strip, is_blank_or_padded, is_some, all, sort_by, str_leb,
}
use analyst_watch.Result.{Result, ok, err, value_error, require, ◌>>=◌, ◌>>◌}
use analyst_watch.Models.{Instant, DateTime, naive, aware}
use analyst_watch.Workspaces.{validate_workspace_id}
use analyst_watch.Credentials.Crypto.{ConnectionProvider, provider_value, EncryptedSecret}

-- The stored times are timezone-aware.
pub record ProviderCredentialRecord : Type 0 where
  pub credential_id : String
  pub workspace_id : String
  pub provider : ConnectionProvider
  pub subject_id : String
  pub display_name : Option String
  pub email : Option String
  pub scopes : List String
  pub access_token : EncryptedSecret
  pub refresh_token : Option EncryptedSecret
  pub access_token_expires_at : Option Instant
  pub created_at : Instant
  pub updated_at : Instant
  pub revoked_at : Option Instant

valid_optional_text : Option String → Bool
valid_optional_text none = true
valid_optional_text (some value) = not (is_blank_or_padded value) && leb (count value) 512

-- `set`: each text once.
add_text : String → List String → List String
add_text s [] = s ∷ []
add_text s (t ∷ ts) = let rest = add_text s ts in if s == t then t ∷ ts else t ∷ rest

distinct_texts : List String → List String
distinct_texts [] = []
distinct_texts (s ∷ ss) = add_text s (distinct_texts ss)

-- `normalize_scopes`
unfoldable pub normalize_scopes : List String → Result (List String)
unfolding add_text distinct_texts
normalize_scopes scopes = do
  require (all (λ (s : String). not (is_blank_or_padded s || ltb 512 (count s))) scopes)
      (value_error "Credential scopes must be non-empty, trimmed strings")
  ok (sort_by str_leb (distinct_texts scopes))

not_before : Option Instant → Instant → Bool
not_before none t = true
not_before (some s) t = leb t s

-- The fields' bounds, the fields' validators and the validator of the model; the result is what
-- the scopes are normalised to.
unfoldable pub check_record : ProviderCredentialRecord → Result (List String)
unfolding valid_optional_text not_before
check_record r = do
  require
      (leb 1 (count r.credential_id)
        && leb (count r.credential_id) 256
        && leb 1 (count r.subject_id)
        && leb (count r.subject_id) 512)
      (value_error "field length")
  require (r.credential_id == strip r.credential_id && r.subject_id == strip r.subject_id)
      (value_error "Credential identifiers must be trimmed")
  require (leb (count r.workspace_id) 128) (value_error "field length")
  workspace_id ← validate_workspace_id r.workspace_id
  require (valid_optional_text r.display_name && valid_optional_text r.email)
      (value_error "Optional credential identity fields must be non-empty and trimmed")
  scopes ← normalize_scopes r.scopes
  require (leb r.created_at r.updated_at) (value_error "updated_at must not precede created_at")
  require (not_before r.revoked_at r.created_at)
      (value_error "revoked_at must not precede created_at")
  ok scopes

-- The validated record: the scopes are normalised, all else is kept.
unfoldable pub validate_record : ProviderCredentialRecord → Result ProviderCredentialRecord
validate_record r = do scopes ← check_record r; ok (record r { scopes = scopes })

unfoldable pub same_provider : ConnectionProvider → ConnectionProvider → Bool
same_provider p q = provider_value p == provider_value q

unfoldable pub validate_credential_replacement :
    ProviderCredentialRecord → ProviderCredentialRecord → Result (Unit {0})
unfolding same_provider
validate_credential_replacement existing replacement = do
  require
      (existing.workspace_id == replacement.workspace_id
        && existing.credential_id == replacement.credential_id)
      (value_error "Credential replacement identity does not match the stored record")
  require
      (same_provider existing.provider replacement.provider
        && existing.subject_id == replacement.subject_id)
      (value_error
        "Credential account/provider replacement requires an explicit account-switch flow")
  require (eqb existing.created_at replacement.created_at)
      (value_error "Credential created_at is immutable")
  require (leb existing.updated_at replacement.updated_at)
      (value_error "Credential update is older than the stored record")
  require (not (is_some existing.revoked_at && not (is_some replacement.revoked_at)))
      (value_error "A revoked credential cannot be silently reactivated")

unfoldable pub revoke_credential_record :
    ProviderCredentialRecord → DateTime → Result ProviderCredentialRecord
revoke_credential_record existing (naive t) = err (value_error "revoked_at must be timezone-aware")
revoke_credential_record existing (aware revoked_at) =
    if is_some existing.revoked_at
    then ok existing
    else if ltb revoked_at existing.updated_at
    then err (value_error "revoked_at must not precede the latest credential update")
    else ok (record existing { revoked_at = some revoked_at; updated_at = revoked_at })
