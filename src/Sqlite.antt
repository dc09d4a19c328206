-- ===== src/Sqlite.antt =====
-- The SQLite repositories: internal/data/sqlite. The tables are those of migrations/sqlite, with the
-- columns of the PostgreSQL tables. A UUID comes from uuid.New() and is the `uuid` of the answer to
-- the statement that stores it; the texts of stored UUIDs and times are read back as they were
-- written. A time is a number of seconds, the resolution of datetime('now'), and a Boolean column
-- holds 1 or 0.
pub mod Users
pub mod Acl
pub mod Tokens
pub mod Granted
mod Tests
pub mod Modules
pub mod Removed
