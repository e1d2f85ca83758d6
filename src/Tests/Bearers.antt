-- ===== src/Tests/Bearers.antt =====
-- A source that is read with a stored credential, which is refreshed first.
use analyst_watch.Prelude.{some, ◌≡◌, refl, get, strip, is_blank_or_padded, concat}
use analyst_watch.Result.{ok}
use analyst_watch.Models.{aware, SourceDefinition, google_sheets}
use analyst_watch.Workspaces.{validate_workspace_id}
use analyst_watch.Credentials.{
  lookup, assign, upsert, get_credential, validated_credential_id, seal_provider_credential,
  credential_associated_data, encrypt, decrypt, decode_base64, encode_base64, rstrip_padding,
  validate_envelope, validate_record, check_record, normalize_scopes,
  validate_credential_replacement, unseal, unseal_refresh_token, unseal_access_token, same_provider,
}
use analyst_watch.Refreshing.{
  refresh_provider_credential_if_expired, decide_refresh, write_replacement, update, exchanged,
  replace, same_record,
}
use analyst_watch.SourceCredentials.{Resolver, resolve, find_candidate, usable, bearer}
use analyst_watch.SourceCredentials.Bearer.{StandsBehind, resolve-StandsBehind}
use analyst_watch.Samples.{source, config}
use analyst_watch.Tests.Packages.{plain, plain-IsLibrary}
use analyst_watch.Tests.Secrets.{ring, nonce, before}
use analyst_watch.Tests.Renewals.{provider}

abbrev sheet : SourceDefinition
sheet = record source {
  workspace_id = "team";
  source_type = google_sheets;
  config = record config { credential_id = some "c1" };
}

abbrev resolver : Resolver plain
resolver = record {
  workspace_id = "team";
  now = aware 9;
  load_keyring = some ring;
  load_provider = λ p. some provider;
  nonce = nonce;
  next_nonce = nonce;
}

header_resolved : (resolve plain resolver sheet before).0 ≡ ok (some "Bearer t")
unfolding resolve find_candidate usable bearer refresh_provider_credential_if_expired decide_refresh
    write_replacement update exchanged replace same_record lookup assign upsert get_credential
    validated_credential_id seal_provider_credential credential_associated_data encrypt decrypt
    decode_base64 encode_base64 rstrip_padding validate_envelope validate_record check_record
    normalize_scopes validate_credential_replacement unseal unseal_refresh_token unseal_access_token
    same_provider validate_workspace_id get strip is_blank_or_padded concat
header_resolved = refl

resolve-StandsBehind_example :
    StandsBehind plain resolver sheet "Bearer t" before (resolve plain resolver sheet before).1
resolve-StandsBehind_example =
    resolve-StandsBehind plain resolver sheet plain-IsLibrary refl refl before "Bearer t"
      header_resolved
