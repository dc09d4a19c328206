-- ===== src/Registry.antt =====
-- internal/data/registry.go: the registry repository over PostgreSQL.
-- `Modules` has the operations on a module, `Tags` those on a stable tag, `Drafts` those on a draft
-- tag, `Dependencies` the edges between tags.
pub mod Modules
pub mod Tags
pub mod Drafts
pub mod Dependencies
pub mod Reads
pub mod WellFormed
pub mod Invariant
pub mod Frozen
pub mod Calls
pub mod Immutable
pub mod Pulls
pub mod Pushed
pub mod Repushed
pub mod Transitive
pub mod Ends
mod Tests
mod Walks
