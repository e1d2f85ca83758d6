-- ===== src/Tests/Renewals.antt =====
-- A credential whose access token has no known expiry is refreshed.
use analyst_watch.Prelude.{
  false, none, some, ◌≡◌, refl, [], ◌∷◌, get, strip, is_blank_or_padded, is_some,
}
use analyst_watch.Result.{ok}
use analyst_watch.Models.{Instant, aware}
use analyst_watch.Workspaces.{validate_workspace_id}
use analyst_watch.Credentials.{
  google, ProviderCredentialRecord, lookup, assign, upsert, get_credential, validated_credential_id,
  seal_provider_credential, credential_associated_data, encrypt, decrypt, decode_base64,
  encode_base64, rstrip_padding, validate_envelope, validate_record, check_record, normalize_scopes,
  validate_credential_replacement, unseal, unseal_refresh_token, same_provider,
}
use analyst_watch.Credentials.Revocation.{Succeeds}
use analyst_watch.Refreshing.{
  Provider, refresh_provider_credential_if_expired, decide_refresh, write_replacement, update,
  exchanged, replace, same_record,
}
use analyst_watch.Refreshing.Renewal.{IsOutcome, refresh-IsOutcome}
use analyst_watch.Tests.Packages.{plain, plain-IsLibrary}
use analyst_watch.Tests.Secrets.{ring, nonce, made, before}

abbrev pub provider : Provider
provider = record {
  provider = google;
  scopes = "mail" ∷ "read" ∷ [];
  exchange = λ token.
      ok (record { access = "t"; refresh = none; scopes = "mail" ∷ []; expires_at = some 100 });
  identity =
      λ token. some (record { subject_id = "user-7"; display_name = some "Ann"; email = none });
}

abbrev renewed : ProviderCredentialRecord
renewed = record made {
  display_name = some "Ann";
  scopes = "mail" ∷ [];
  access_token_expires_at = some 100;
  updated_at = 9;
}

refresh_returns :
    (refresh_provider_credential_if_expired plain ring nonce nonce provider "team" "c1"
      (aware 9)
      before).0
    ≡ ok renewed
unfolding refresh_provider_credential_if_expired decide_refresh write_replacement update exchanged
    replace same_record lookup assign upsert get_credential validated_credential_id
    seal_provider_credential credential_associated_data encrypt decrypt decode_base64 encode_base64
    rstrip_padding validate_envelope validate_record check_record normalize_scopes
    validate_credential_replacement unseal unseal_refresh_token same_provider validate_workspace_id
    get strip is_blank_or_padded
refresh_returns = refl

refresh-IsOutcome_example :
    (now : Instant) × (old : ProviderCredentialRecord) × (aware 9 ≡ aware now)
    × (lookup "team" "c1" before ≡ some old)
    × (is_some old.revoked_at ≡ false)
    × Succeeds old renewed
    × IsOutcome plain ring nonce nonce provider now old renewed before
        (refresh_provider_credential_if_expired plain ring nonce nonce provider "team" "c1"
          (aware 9)
          before).1
refresh-IsOutcome_example =
    refresh-IsOutcome plain ring nonce nonce provider plain-IsLibrary refl refl "team" "c1"
      (aware 9) before renewed refresh_returns
