-- ===== src/Models.antt =====
-- The data model, analystwatch/models.py.
mod Kinds
mod Instants
mod Rules
mod Config
mod Profiles
mod Records
pub use Kinds.*
pub use Instants.*
pub use Rules.*
unfoldable pub use Rules.{has_duplicates, validate_contract}
pub use Config.*
unfoldable pub use Config.{validate_threshold_order, validate_stored_credential_binding}
pub use Profiles.*
pub use Records.*
