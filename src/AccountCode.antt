-- ===== src/AccountCode.antt =====
-- crates/kuatia-types/src/account_code.rs: the printed code of an account. The pair of ids is packed
-- (Pack), permuted (Feistel, Walk), written in base 36 with two check digits (Base36), and read back
-- (Code).
pub mod Pack
pub mod Feistel
pub mod Walk
pub mod Base36
pub mod Code
mod Tests
