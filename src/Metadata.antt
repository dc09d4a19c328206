-- ===== src/Metadata.antt =====
-- What the registry knows of the contents of a tag: internal/utils, internal/data/metadata.go and the
-- daemon of internal/background/protoparsing.go that fills it in.
pub mod Texts
pub mod Refs
pub mod Retrieve
pub mod Packages
pub mod Metadata
pub mod Parsers
pub mod Store
pub mod Daemons
pub mod Processed
pub mod Kept
pub mod Runs
pub mod Bounds
pub mod Gathered
mod Tests
