-- ===== src/Ledger.antt =====
-- crates/kuatia/src/ledger: the engine that joins the pure core and the store. A call is modelled as run
-- alone: the store that it reads is the store that it writes.
mod Errors
unfoldable pub use Errors.*
pub mod Commit
pub mod Balance
pub mod Queries
pub mod Intent
pub mod Lifecycle
pub mod Reachable
pub mod Saga
pub mod Tests
