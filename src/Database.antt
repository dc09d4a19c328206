-- ===== src/Database.antt =====
-- The database behind the repositories of internal/data: its tables (migrations/*.sql), the errors
-- that the repositories return, and the monad in which they run their statements.
pub mod Tables
pub mod Errors
pub mod Io
pub mod Keeps
pub mod Triples
pub mod Rows
pub mod Total
pub mod Queries
pub mod Quiet
pub mod Outcomes
pub mod Orders
