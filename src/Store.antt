-- ===== src/Store.antt =====
-- tile/store: sessions, runs and committed history behind atomic operations on a SQLite database.
pub mod Errors
pub mod Models
pub mod Rows
pub mod Tables
pub mod Exec
mod Post
pub mod Invariant
pub mod Operations
pub mod Atomic
pub mod Effects
pub mod Keeps
pub mod Reachable
pub mod Promises
pub mod Samples
mod Examples
pub mod Statements
pub mod Sqlite
