-- ===== src/Core.antt =====
-- crates/kuatia-core: the pure decisions of the ledger.
pub mod Accumulate
pub mod Hash
pub mod Required
pub mod Validate
pub mod Resolve
pub mod Tests
