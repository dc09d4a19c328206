-- ===== src/Access.antt =====
-- Who may call what: internal/data/acl.go, the user look-up of internal/data/users.go, and
-- internal/middleware.
pub mod Acl
pub mod Users
pub mod Requests
pub mod Middleware
pub mod Server
pub mod Checks
pub mod Authorized
pub mod Grants
pub mod Closed
pub mod Policy
mod Tests
