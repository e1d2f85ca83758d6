-- ===== src/Credentials/Store.antt =====
-- `MemoryCredentialStore` of analystwatch/credential_store.py: the records by workspace and
-- credential, in the order of their first insertion. A copy of a record is the record.
use analyst_watch.Prelude.{
  String, Bool, ◌&&◌, Option, none, some, List, [], ◌∷◌, ◌==◌, if◌then◌else◌, select, sort_by,
  str_leb,
}
use analyst_watch.Result.{Result, ok, err, value_error, key_error, require, Exec, ◌>>=◌, ◌>>◌}
use analyst_watch.Models.{DateTime}
use analyst_watch.Workspaces.{validate_workspace_id}
use analyst_watch.Credentials.Crypto.{is_identifier}
use analyst_watch.Credentials.Records.{
  ProviderCredentialRecord, validate_credential_replacement, revoke_credential_record,
}

pub record CredentialEntry : Type 0 where
  pub workspace : String
  pub credential : String
  pub stored : ProviderCredentialRecord

abbrev pub MemoryCredentialStore : Type 0
MemoryCredentialStore = List CredentialEntry

abbrev pub has_pair : String → String → CredentialEntry → Bool
has_pair workspace credential e = e.workspace == workspace && e.credential == credential

-- `self._records.get((workspace, credential))`
unfoldable pub lookup : String → String → MemoryCredentialStore → Option ProviderCredentialRecord
lookup workspace credential [] = none
lookup workspace credential (e ∷ es) =
    if has_pair workspace credential e then some e.stored else lookup workspace credential es

-- `self._records[(workspace, credential)] = record`
unfoldable pub assign :
    String → String → ProviderCredentialRecord → MemoryCredentialStore → MemoryCredentialStore
assign workspace credential r [] =
    (record { workspace = workspace; credential = credential; stored = r }) ∷ []
assign workspace credential r (e ∷ es) =
    let rest = assign workspace credential r es in
    if has_pair workspace credential e then (record e { stored = r }) ∷ es else e ∷ rest

-- `_validated_credential_id`
unfoldable pub validated_credential_id : String → Result String
validated_credential_id credential_id = do
  require (is_identifier 256 credential_id)
      (value_error "credential_id must be non-empty, trimmed, and at most 256 characters")
  ok credential_id

abbrev pub check_replacement :
    Option ProviderCredentialRecord → ProviderCredentialRecord → Result (Unit {0})
check_replacement none r = ok tt
check_replacement (some existing) r = validate_credential_replacement existing r

-- A write that a test may refuse.
abbrev pub write_if {ℓ} :
    {A : Type ℓ}
    → Result (Unit {0})
    → A
    → MemoryCredentialStore
    → MemoryCredentialStore
    → Result A × MemoryCredentialStore
write_if (ok u) a written kept = (ok a, written)
write_if (err e) a written kept = (err e, kept)

unfoldable pub upsert :
    ProviderCredentialRecord → Exec MemoryCredentialStore ProviderCredentialRecord
upsert r store =
    write_if (check_replacement (lookup r.workspace_id r.credential_id store) r) r
      (assign r.workspace_id r.credential_id r store) store

unfoldable pub get_credential :
    MemoryCredentialStore → String → String → Result (Option ProviderCredentialRecord)
get_credential store workspace_id credential_id = do
  workspace ← validate_workspace_id workspace_id
  credential ← validated_credential_id credential_id
  ok (lookup workspace credential store)

abbrev pub stored_in : List CredentialEntry → List ProviderCredentialRecord
stored_in [] = []
stored_in (e ∷ es) = e.stored ∷ stored_in es

unfoldable pub list_credentials :
    MemoryCredentialStore → String → Result (List ProviderCredentialRecord)
list_credentials store workspace_id = do
  workspace ← validate_workspace_id workspace_id
  ok (
      sort_by (λ (a b : ProviderCredentialRecord). str_leb a.credential_id b.credential_id)
        (stored_in (select (λ (e : CredentialEntry). e.workspace == workspace) store)))

-- `record is None`, then `revoke_credential_record`.
abbrev pub revoke_found :
    String → DateTime → Option ProviderCredentialRecord → Result ProviderCredentialRecord
revoke_found credential_id revoked_at none = err (key_error credential_id)
revoke_found credential_id revoked_at (some r) = revoke_credential_record r revoked_at

abbrev pub write_result :
    String
    → String
    → MemoryCredentialStore
    → Result ProviderCredentialRecord
    → Result ProviderCredentialRecord × MemoryCredentialStore
write_result workspace credential store (ok r) = (ok r, assign workspace credential r store)
write_result workspace credential store (err e) = (err e, store)

-- The part of `revoke` that reads the store.
unfoldable pub decide_revoke :
    String → String → DateTime → MemoryCredentialStore → Result ProviderCredentialRecord
decide_revoke workspace_id credential_id revoked_at store = do
  workspace ← validate_workspace_id workspace_id
  credential ← validated_credential_id credential_id
  revoke_found credential revoked_at (lookup workspace credential store)

unfoldable pub revoke :
    String → String → DateTime → Exec MemoryCredentialStore ProviderCredentialRecord
revoke workspace_id credential_id revoked_at store =
    write_result workspace_id credential_id store
      (decide_revoke workspace_id credential_id revoked_at store)
