-- ===== src/Dependencies.antt =====
-- Assets that feed one another, analystwatch/dependencies.py.
mod Assets
mod Search
pub mod Termination
mod Adjacency
mod Reach
mod Invariant
pub mod Found
pub use Assets.*
unfoldable pub use Assets.{key, validate_edge, unique_from, adjacency_from, neighbors}
pub use Search.*
unfoldable pub use Search.{visit, run, count_kinds, calculate_blast_radius}
pub use Adjacency.*
pub use Reach.*
