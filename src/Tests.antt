-- ===== src/Tests.antt =====
-- The theorems at concrete inputs.
mod Delivering
mod Checking
mod Graphs
mod Packages
mod Secrets
mod Authorizing
mod Tenants
mod Queues
mod Scores
mod Snapshots
mod Renewals
mod Bearers
