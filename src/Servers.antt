-- ===== src/Servers.antt =====
-- The handlers of the gRPC services: internal/server.
pub mod Api
pub mod Users
pub mod Registry
pub mod Metadata
pub mod Drift
pub mod Tokens
pub mod Accounts
pub mod Published
pub mod Pushes
mod Tests
mod Runs
