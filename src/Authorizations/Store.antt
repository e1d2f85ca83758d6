-- ===== src/Authorizations/Store.antt =====
-- `MemoryOAuthAuthorizationStore` of analystwatch/oauth_authorization_store.py. Each method runs
-- under the store's lock, so it is one step; a copy of a transaction is the transaction.
use analyst_watch.Prelude.{String, not, Option, none, some, ◌==◌, Dict, get, put, contains, is_some}
use analyst_watch.Result.{
  Result, Exec, ok, err, value_error, authorization_error, require, ◌>>=◌, ◌>>◌,
}
use analyst_watch.Models.{DateTime}
use analyst_watch.Memory.{index}
use analyst_watch.Workspaces.{validate_workspace_id}
use analyst_watch.Credentials.{Library, ConnectionProvider, provider_value, Keyring, is_identifier}
use analyst_watch.Authorizations.Transactions.{
  Transaction, Consumption, revalidate_authorization_transaction, authorization_state_digest,
  consume_authorization_transaction,
}

pub record AuthorizationStore : Type 0 where
  pub records : Dict Transaction
  pub state_index : Dict String

-- `_transaction_for_create`, and the tests that both keys are new.
unfoldable pub accept_new : Transaction → AuthorizationStore → Result Transaction
accept_new given store = do
  t ← revalidate_authorization_transaction given
  require (not (is_some t.consumed_at))
      (authorization_error "Authorization transaction must be unconsumed when created")
  require (not (contains t.transaction_id store.records))
      (authorization_error "Authorization transaction already exists")
  require (not (contains t.state_sha256_b64 store.state_index))
      (authorization_error "Authorization transaction already exists")
  ok t

abbrev pub write_new :
    AuthorizationStore → Result Transaction → Result Transaction × AuthorizationStore
write_new store (err e) = (err e, store)
write_new store (ok t) = (
  ok t,
  record {
    records = put t.transaction_id t store.records;
    state_index = put t.state_sha256_b64 t.transaction_id store.state_index;
  },
)

unfoldable pub create : Transaction → Exec AuthorizationStore Transaction
create given store = write_new store (accept_new given store)

-- `_validate_transaction_id`, then the record if there is one.
unfoldable pub get_transaction : AuthorizationStore → String → Result (Option Transaction)
get_transaction store transaction_id = do
  require (is_identifier 128 transaction_id)
      (value_error "transaction_id must be non-empty, trimmed, and at most 128 characters")
  ok (get transaction_id store.records)

abbrev pub check_workspace : Transaction → Option String → Result (Unit {0})
check_workspace t none = ok tt
check_workspace t (some expected) = do
  workspace ← validate_workspace_id expected
  require (t.workspace_id == workspace)
      (authorization_error "Authorization callback workspace mismatch")

abbrev pub check_provider : Transaction → Option ConnectionProvider → Result (Unit {0})
check_provider t none = ok tt
check_provider t (some expected) =
    require (provider_value t.provider == provider_value expected)
      (authorization_error "Authorization callback provider mismatch")

abbrev pub found_or {ℓ} : {A : Type ℓ} → Option A → Result A
found_or none = err (authorization_error "Authorization transaction was not found")
found_or (some a) = ok a

-- What a callback brings besides its state.
pub record Callback : Type 0 where
  pub now : DateTime
  pub expected_workspace : Option String
  pub expected_provider : Option ConnectionProvider

module _ (lib : Library) where
  -- The part of `consume` that reads the store: the transaction's ID and what was consumed.
  unfoldable pub decide_consume :
      AuthorizationStore → Keyring lib → String → Callback → Result (String × Consumption)
  decide_consume store ring state call = do
    digest ← authorization_state_digest lib state
    transaction_id ← found_or (get digest store.state_index)
    t ← index store.records transaction_id
    u ← check_workspace t call.expected_workspace
    v ← check_provider t call.expected_provider
    consumed ← consume_authorization_transaction lib t ring state call.now
    ok (transaction_id, consumed)

  abbrev pub write_consumed :
      AuthorizationStore → Result (String × Consumption) → Result Consumption × AuthorizationStore
  write_consumed store (err e) = (err e, store)
  write_consumed store (ok (transaction_id, consumed)) = (
    ok consumed,
    record store { records = put transaction_id consumed.transaction store.records },
  )

  unfoldable pub consume : Keyring lib → String → Callback → Exec AuthorizationStore Consumption
  consume ring state call store = write_consumed store (decide_consume store ring state call)
