-- ===== src/Types.antt =====
-- crates/kuatia-types: the records of the ledger, by file. The names of the children are passed on.
mod Ids
mod Accounts
mod Postings
mod Envelopes
mod Transfers
mod Books
pub mod Select
pub mod Canonical
unfoldable pub use Ids.*
unfoldable pub use Accounts.*
unfoldable pub use Postings.*
unfoldable pub use Envelopes.*
unfoldable pub use Transfers.*
unfoldable pub use Books.*
