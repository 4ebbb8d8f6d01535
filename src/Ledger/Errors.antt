-- ===== src/Ledger/Errors.antt =====
-- crates/kuatia/src/error.rs: the errors that the modelled calls answer with, and their conversions.
use kuatia.Prelude.{ℕ}
use kuatia.Money.{OverflowError}
use kuatia.Types.{AccountId, AssetId, BookId, EnvelopeId, PostingId}
use kuatia.Core.Required.{ValidationError}
use kuatia.Core.Resolve.{InsufficientFunds, ResolveError, selection, resolve_overflow}
use kuatia.Storage.{StoreError}

pub data LedgerError : Type 0 where
  validation_error : ValidationError → LedgerError
  store_error : StoreError → LedgerError
  selection_error : InsufficientFunds → LedgerError
  transfer_not_found : EnvelopeId → LedgerError
  double_spent : PostingId → LedgerError
  unknown_account account_not_empty account_already_closed account_already_exists :
      AccountId → LedgerError
  account_version_conflict : AccountId → (expected : ℕ) → LedgerError
  book_not_found book_already_exists : BookId → LedgerError
  ledger_overflow : LedgerError
  under_fetched_state : AccountId → AssetId → LedgerError
  inflight_not_found not_inflight_transaction : EnvelopeId → LedgerError
  inflight_already_open inflight_self_movement : AccountId → LedgerError
  inflight_leg_not_found : (destination : AccountId) → AssetId → LedgerError
  compensation_failed : (original compensation : LedgerError) → LedgerError

abbrev pub from_overflow : OverflowError → LedgerError
from_overflow _ = ledger_overflow

abbrev pub from_resolve : ResolveError → LedgerError
from_resolve (selection s) = selection_error s
from_resolve resolve_overflow = ledger_overflow
