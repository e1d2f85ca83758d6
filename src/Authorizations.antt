-- ===== src/Authorizations.antt =====
-- OAuth authorization transactions: analystwatch/oauth_authorization.py and the store in memory of
-- analystwatch/oauth_authorization_store.py.
mod Transactions
mod Store
pub mod SingleUse
pub use Transactions.*
unfoldable pub use Transactions.{
  check_consumable, open_verifier, check_transaction, revalidate_authorization_transaction,
  authorization_state_digest, authorization_associated_data, begin_with,
  begin_authorization_transaction, consume_authorization_transaction,
}
pub use Store.*
unfoldable pub use Store.{accept_new, create, get_transaction, decide_consume, consume}
