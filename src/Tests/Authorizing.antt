-- ===== src/Tests/Authorizing.antt =====
-- An authorization state that a callback consumes, and that comes a second time.
use analyst_watch.Prelude.{
  none, some, ◌≡◌, refl, ◌∷◌, [], String, get, put, strip, is_blank_or_padded,
}
use analyst_watch.Result.{Error, ok, err}
use analyst_watch.Models.{aware}
use analyst_watch.Workspaces.{validate_workspace_id}
use analyst_watch.Credentials.{
  is_opaque, encode_base64, rstrip_padding, decrypt, decode_base64, Keyring, google,
}
use analyst_watch.Authorizations.{
  accept_new, revalidate_authorization_transaction, check_transaction, decide_consume,
  consume_authorization_transaction, check_consumable, authorization_state_digest, open_verifier,
  authorization_associated_data, Transaction, connect, second_version, AuthorizationStore, Callback,
  Consumption, consume, create,
}
use analyst_watch.Authorizations.SingleUse.{consume-once, done, then_step, created}
use analyst_watch.Tests.Packages.{plain}

abbrev ring : Keyring plain
ring = record { keys = ("k1", "0123456789abcdef0123456789abcdef") ∷ []; active_key_id = "k1" }

abbrev state : String
state = "AAAAAAAAAAAAAAAAAAAAAAAAAAAAAAAAAAAAAAAAAAA"

abbrev waiting : Transaction
waiting = record {
  transaction_id = "t1";
  workspace_id = "team";
  user_id = "u1";
  provider = google;
  credential_id = "c1";
  operation = connect;
  aad_version = second_version;
  state_sha256_b64 = "xxx0xxx1xxx2xxx3xxx4xxx5xxx6xxx7xxx8xxx9xxx";
  pkce_verifier = record {
    key_id = "k1";
    nonce_b64 = "xxxnxxxoxxxnxxxcxxxexxx-xxxnxxxoxxxnxxxcxxxexxx-xxx";
    ciphertext_b64 = "xxxxxxxtxxx";
  };
  created_at = 5;
  expires_at = 600;
  consumed_at = none;
}

abbrev no_transactions : AuthorizationStore
no_transactions = record { records = []; state_index = [] }

abbrev store : AuthorizationStore
store = record {
  records = ("t1", waiting) ∷ [];
  state_index = (waiting.state_sha256_b64, "t1") ∷ [];
}

abbrev callback : Callback
callback = record {
  now = aware 9;
  expected_workspace = some "team";
  expected_provider = some google;
}

abbrev consumption : Consumption
consumption = record { transaction = record waiting { consumed_at = some 9 }; verifier = "t" }

waiting_created : create waiting no_transactions ≡ (ok waiting, store)
unfolding create accept_new revalidate_authorization_transaction check_transaction is_opaque
    validate_workspace_id strip get put
waiting_created = refl

state_consumed : (consume plain ring state callback store).0 ≡ ok consumption
unfolding consume decide_consume consume_authorization_transaction check_consumable
    revalidate_authorization_transaction check_transaction is_opaque validate_workspace_id strip get
    put authorization_state_digest encode_base64 rstrip_padding open_verifier
    authorization_associated_data decrypt decode_base64 is_blank_or_padded
state_consumed = refl

abbrev consumed_store : AuthorizationStore
consumed_store = (consume plain ring state callback store).1

consume-once_example :
    (e : Error) × (consume plain ring state callback (create waiting consumed_store).1
      ≡ (err e, (create waiting consumed_store).1))
consume-once_example =
    consume-once plain ring ring state callback callback store (create waiting consumed_store).1
      consumption state_consumed
      (then_step consumed_store consumed_store (create waiting consumed_store).1
        (done consumed_store) (created waiting consumed_store))
