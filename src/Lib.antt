-- ===== src/Lib.antt =====
-- Verification of kuatia, a double-entry ledger whose value lives in postings that are created once and
-- spent once. A transfer's movements are resolved into an envelope of postings to consume and to create;
-- validation turns an envelope and the loaded state into a plan; the store applies a plan as one step.
--
-- Files and the code they model:
--   Prelude: shared lists, maps, integers, equality tests and the results of calls. A Rust call that
--     returns Result is an Outcome: ok, err or panic. A HashMap is an association list in which a key
--     occurs once; a claim does not depend on the order of iteration where the source leaves it open,
--     except that a loop that stops at the first failure reports the first in the order of the list.
--   Money: crates/kuatia-money/src/lib.rs. A Cent is an integer; each checked operation tests the range of
--     the default backing i64.
--   Types: crates/kuatia-types/src. Identifiers, accounts and their flags, postings, envelopes, transfers,
--     books, and the canonical bytes. Flags are tested bit by bit.
--   Core.Hash: crates/kuatia-core/src/hash.rs. SHA-256 is a parameter.
--   Core.Required, Core.Validate: crates/kuatia-core/src/validate.rs. One definition for each numbered
--     step of validate_and_plan, and validate_and_plan itself, in the order of the source.
--   Core.Resolve: crates/kuatia-core/src/posting_resolution.rs. draft_movements and resolve_envelope.
--   Storage: crates/kuatia-storage/src. Records of the store; Tables is PostingStore for InMemoryStore,
--     Events the event log, Accounts the version chains with commit_transition and the books, Commit is
--     commit_envelope. A method that mutates a table returns the new table. The locks that a method takes
--     make it one step, so orderings of concurrent calls are sequences of these steps.
--   Ledger: crates/kuatia/src/ledger. Commit is commit_envelope of the ledger, with what it loads and how it
--     answers; Intent resolves an intent against the store, commits it, and reverses a transfer; Lifecycle
--     creates, freezes, unfreezes and closes accounts; Reachable is the stores that these calls reach. A
--     call is run alone: the store that it reads is the store that it writes.
--   Ledger.Saga: crates/kuatia/src/saga.rs, the loop over movements and its compensation.
--   AccountCode: crates/kuatia-types/src/account_code.rs. Pack packs an account into 93 bits, Feistel is the
--     keyed permutation, Walk the cycle-walking over it, Base36 the body and the check digits, Code the
--     printed code and its parser.
--   AutoId: crates/kuatia-types/src/autoid.rs. The clock and the counter are arguments.
--   Money.Amount: the decimal parser and formatter of crates/kuatia-money/src/lib.rs.
--   Storage.Queries: crates/kuatia-storage/src/query.rs and the queries of mem_store.rs. Storage.Projections:
--     the cached balance points, a table beside the others.
--   Ledger.Balance: crates/kuatia/src/ledger/balance.rs. An append in the background is a step of its own.
--   Ledger.Queries: crates/kuatia/src/ledger/query.rs.
--   Inflight: crates/kuatia/src/inflight/projection.rs. Meta reads and writes the metadata of a transfer,
--     with the CBOR codec as a parameter; Projection derives the status of an inflight; Funders splits a
--     refund.
--   Prelude.Bits, Prelude.Text: exclusive or on numbers; texts as lists of code points.
--   The modules named Tests: runs at concrete inputs.
--
-- Bounds: amounts are tested against 64 bits, versions against 64 bits, the index of a created posting is
-- cut to 16 bits as in the source. Cycle-walking has fuel for 2 ^ 94 rounds, one for each block of 94 bits,
-- which is enough: a walk of a permutation never meets a block outside the domain twice.
-- The digits of a number n are printed with fuel n + 1, enough since each round divides by the base. All
-- other loops go over lists.
--
-- Not modelled: interleavings inside one call of the ledger, the inflight calls that change the
-- ledger, the SQL store, the dashboard, serde and CBOR forms,
-- the i128 backing of amounts, and the texts of errors.
pub mod Prelude
pub mod Money
pub mod Types
pub mod Core
pub mod Storage
pub mod Ledger
pub mod AccountCode
pub mod AutoId
pub mod Inflight
