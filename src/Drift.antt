-- ===== src/Drift.antt =====
-- Drift between two versions of a module: internal/background/driftdetection.go.
pub mod Maps
pub mod Numbers
pub mod Protos
pub mod Extract
pub mod Severity
pub mod Ranges
pub mod Compatible
pub mod Puts
pub mod Declared
pub mod Collected
pub mod Breaking
pub mod Versions
pub mod Store
pub mod Events
pub mod Hashes
pub mod Recorded
pub mod Hashed
pub mod Statuses
pub mod Worst
pub mod Detect
pub mod Detected
mod Tests
mod Runs
