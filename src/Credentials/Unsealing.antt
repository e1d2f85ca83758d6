-- ===== src/Credentials/Unsealing.antt =====
-- The tokens of a sealed credential, analystwatch/credential_store.py.
use analyst_watch.Prelude.{
  String, ◌≡◌, some, none, get, refl, Option, List, not, strip, ◌==◌, subst,
}
use analyst_watch.Result.{ok, ◌>>=◌, bind-ok, same_ok, require-ok, value_error}
use analyst_watch.Models.{Instant}
use analyst_watch.Credentials.Packages.{Library, IsLibrary}
use analyst_watch.Credentials.Crypto.{
  EncryptedSecret, Keyring, encrypt, credential_associated_data, SecretKind, access_token,
  refresh_token,
}
use analyst_watch.Credentials.Records.{ProviderCredentialRecord, validate_record, check_record}
use analyst_watch.Credentials.Sealing.{
  SealRequest, unseal, encrypt_option, request_data, sealed_record, aware_option, aware_time,
  seal_provider_credential, decode_plaintext, unseal_access_token, unseal_option,
  unseal_refresh_token, is_empty_token,
}
use analyst_watch.Credentials.Rotation.{decrypt-encrypt}

-- Validation keeps a record but for its scopes.
validate_record-keeps :
    (r s : ProviderCredentialRecord)
    → validate_record r ≡ ok s
    → (scopes : List String) × (record r { scopes = scopes } ≡ s)
unfolding validate_record
validate_record-keeps r s h =
    let (scopes, c, e) =
      bind-ok (check_record r) (λ scopes. ok (record r { scopes = scopes })) s h in
    (scopes, same_ok (record r { scopes = scopes }) s e)

abbrev record_of :
    SealRequest
    → EncryptedSecret
    → Option EncryptedSecret
    → Option Instant
    → Instant
    → List String
    → ProviderCredentialRecord
record_of r access refresh expires now scopes = record {
  credential_id = r.credential;
  workspace_id = r.workspace;
  provider = r.provider;
  subject_id = r.subject;
  display_name = r.display_name;
  email = r.email;
  scopes = scopes;
  access_token = access;
  refresh_token = refresh;
  access_token_expires_at = expires;
  created_at = now;
  updated_at = now;
  revoked_at = none;
}

module _ (lib : Library) where
  sealed_record-ok :
      (r : SealRequest) (access : EncryptedSecret) (refresh : Option EncryptedSecret)
      (made : ProviderCredentialRecord)
      → sealed_record lib r access refresh ≡ ok made
      → (expires : Option Instant) × (now : Instant) × (scopes : List String) × (record_of r access
            refresh expires now scopes
          ≡ made)
        × (aware_option r.expires_at ≡ ok expires)
  sealed_record-ok r access refresh made h =
      let (expires, e, h1) =
        bind-ok (aware_option r.expires_at)
          (λ expires. do
            now ← aware_time r.now
            validate_record (record_of r access refresh expires now r.scopes))
          made h in
      let (now, n, h2) =
        bind-ok (aware_time r.now)
          (λ now. validate_record (record_of r access refresh expires now r.scopes)) made h1 in
      let (scopes, same) =
        validate_record-keeps (record_of r access refresh expires now r.scopes) made h2 in
      (expires, now, scopes, same, e)

  encrypt_option-ok :
      (ring : Keyring lib) (nonce aad : lib.Bytes) (token : String) (e : Option EncryptedSecret)
      → encrypt_option lib ring nonce (some token) aad ≡ ok e
      → (f : EncryptedSecret) × (encrypt lib ring nonce (lib.encode token) aad ≡ ok f)
        × (some f ≡ e)
  encrypt_option-ok ring nonce aad token e h =
      let (f, g, k) =
        bind-ok (encrypt lib ring nonce (lib.encode token) aad) (λ f. ok (some f)) e h in
      (f, g, same_ok (some f) e k)

  -- What a sealing that returns has encrypted.
  record IsSealed (ring : Keyring lib) (nonce next_nonce : lib.Bytes) (r : SealRequest)
      (made : ProviderCredentialRecord) : Type 0 where
    access_aad : lib.Bytes
    refresh_aad : lib.Bytes
    access : EncryptedSecret
    refresh : Option EncryptedSecret
    access_data : request_data lib r access_token ≡ ok access_aad
    refresh_data : request_data lib r refresh_token ≡ ok refresh_aad
    access_sealed : encrypt lib ring nonce (lib.encode r.access) access_aad ≡ ok access
    refresh_sealed : encrypt_option lib ring next_nonce r.refresh refresh_aad ≡ ok refresh
    recorded : sealed_record lib r access refresh ≡ ok made

  seal-IsSealed :
      (ring : Keyring lib) (nonce next_nonce : lib.Bytes) (r : SealRequest)
      (made : ProviderCredentialRecord)
      → seal_provider_credential lib ring nonce next_nonce r ≡ ok made
      → IsSealed ring nonce next_nonce r made
  unfolding seal_provider_credential
  seal-IsSealed ring nonce next_nonce r made h =
      let refresh_of =
        λ (refresh_aad : lib.Bytes). encrypt_option lib ring next_nonce r.refresh refresh_aad in
      let access_of =
        λ (access_aad : lib.Bytes). encrypt lib ring nonce (lib.encode r.access) access_aad in
      let (p, h1) =
        require-ok (not (strip r.access == "")) (value_error "access_token must be non-empty") _
          made h in
      let (q, h2) =
        require-ok (not (is_empty_token r.refresh))
          (value_error "refresh_token must be non-empty when provided") _ made h1 in
      let (access_aad, da, h3) =
        bind-ok (request_data lib r access_token)
          (λ access_aad. do
            refresh_aad ← request_data lib r refresh_token
            access ← access_of access_aad
            refresh ← refresh_of refresh_aad
            sealed_record lib r access refresh)
          made h2 in
      let (refresh_aad, dr, h4) =
        bind-ok (request_data lib r refresh_token)
          (λ refresh_aad. do
            access ← access_of access_aad
            refresh ← refresh_of refresh_aad
            sealed_record lib r access refresh)
          made h3 in
      let (access, ea, h5) =
        bind-ok (access_of access_aad)
          (λ access. do refresh ← refresh_of refresh_aad; sealed_record lib r access refresh) made
          h4 in
      let (refresh, er, h6) =
        bind-ok (refresh_of refresh_aad) (λ refresh. sealed_record lib r access refresh) made h5 in
      record {
        access_aad = access_aad;
        refresh_aad = refresh_aad;
        access = access;
        refresh = refresh;
        access_data = da;
        refresh_data = dr;
        access_sealed = ea;
        refresh_sealed = er;
        recorded = h6;
      }

  -- The sealed record expires when the request says.
  pub seal-expires :
      (ring : Keyring lib) (nonce next_nonce : lib.Bytes) (r : SealRequest)
      (made : ProviderCredentialRecord)
      → seal_provider_credential lib ring nonce next_nonce r ≡ ok made
      → aware_option r.expires_at ≡ ok made.access_token_expires_at
  seal-expires ring nonce next_nonce r made h =
      let s = seal-IsSealed ring nonce next_nonce r made h in
      let (expires, now, scopes, built, e) =
        sealed_record-ok r s.access s.refresh made s.recorded in
      subst (λ x. aware_option r.expires_at ≡ ok x.access_token_expires_at) built e

  module _ (laws : IsLibrary lib) where
    -- What one token is sealed to is unsealed to the token, from every record with the request's
    -- identity that is not revoked.
    unseal-encrypt :
        (ring later : Keyring lib) (nonce aad : lib.Bytes) (r : SealRequest) (kind : SecretKind)
        (token : String) (e : EncryptedSecret) (made : ProviderCredentialRecord)
        → request_data lib r kind ≡ ok aad
        → encrypt lib ring nonce (lib.encode token) aad ≡ ok e
        → lib.byte_count nonce ≡ 12
        → get ring.active_key_id later.keys ≡ get ring.active_key_id ring.keys
        → (made.revoked_at ≡ none)
        → credential_associated_data lib made.workspace_id made.provider made.credential_id
            made.subject_id kind
          ≡ request_data lib r kind
        → unseal lib made later kind e ≡ ok token
    unfolding unseal
    unseal-encrypt ring later nonce aad r kind token e made d h n same alive identity =
        let opened = decrypt-encrypt lib laws ring later nonce (lib.encode token) aad e h n same in
        rw (alive, identity, d, opened, decode_plaintext, laws.decode-encode token) refl

    unseal_option-encrypt :
        (ring later : Keyring lib) (nonce aad : lib.Bytes) (r : SealRequest) (token : Option String)
        (e : Option EncryptedSecret) (made : ProviderCredentialRecord)
        → request_data lib r refresh_token ≡ ok aad
        → encrypt_option lib ring nonce token aad ≡ ok e
        → lib.byte_count nonce ≡ 12
        → get ring.active_key_id later.keys ≡ get ring.active_key_id ring.keys
        → made.revoked_at ≡ none
        → credential_associated_data lib made.workspace_id made.provider made.credential_id
            made.subject_id refresh_token
          ≡ request_data lib r refresh_token
        → unseal_option lib made later e ≡ ok token
    unseal_option-encrypt ring later nonce aad r none e made d h n same alive identity =
        rw (← same_ok none e h) refl
    unseal_option-encrypt ring later nonce aad r (some token) e made d h n same alive identity =
        let (f, g, built) = encrypt_option-ok ring nonce aad token e h in
        let opened =
          unseal-encrypt ring later nonce aad r refresh_token token f made d g n same alive
            identity in
        rw (← built, opened) refl

    -- The access token and the refresh token that were sealed are unsealed from the record, under
    -- every keyring that has the same key under the ID that was active at the sealing, when the
    -- two nonces have 12 bytes.
    pub unseal-seal_provider_credential :
        (ring later : Keyring lib) (nonce next_nonce : lib.Bytes) (r : SealRequest)
        (made : ProviderCredentialRecord)
        → seal_provider_credential lib ring nonce next_nonce r ≡ ok made
        → lib.byte_count nonce ≡ 12
        → lib.byte_count next_nonce ≡ 12
        → get ring.active_key_id later.keys ≡ get ring.active_key_id ring.keys
        → (unseal_access_token lib made later ≡ ok r.access)
          × (unseal_refresh_token lib made later ≡ ok r.refresh)
    unfolding unseal_access_token unseal_refresh_token
    unseal-seal_provider_credential ring later nonce next_nonce r made h n m same =
        let s = seal-IsSealed ring nonce next_nonce r made h in
        let (expires, now, scopes, built, e) =
          sealed_record-ok r s.access s.refresh made s.recorded in
        rw (← built) (
          unseal-encrypt ring later nonce s.access_aad r access_token r.access s.access
              (record_of r s.access s.refresh expires now scopes) s.access_data s.access_sealed n
              same refl refl,
          unseal_option-encrypt ring later next_nonce s.refresh_aad r r.refresh s.refresh
              (record_of r s.access s.refresh expires now scopes) s.refresh_data s.refresh_sealed m
              same refl refl,
        )
