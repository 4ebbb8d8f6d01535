-- ===== src/Storage.antt =====
-- crates/kuatia-storage: the in-memory store behind the `Store` trait. A method that mutates a table
-- returns the new table; the locks make each method one step.
mod Records
unfoldable pub use Records.*
pub mod Tables
pub mod Events
pub mod Accounts
pub mod Commit
pub mod Queries
pub mod Projections
pub mod Tests
