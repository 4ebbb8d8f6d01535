-- ===== src/Ledger/Commit.antt =====
-- crates/kuatia/src/ledger/commit.rs, balance.rs: a transfer is resolved, validated against the state that
-- is loaded from the store, and applied by the store. `seq` and `now` are what the id generator and the
-- clock hand out.
pub mod Loaded
pub mod Prepared
pub mod Conserves
use kuatia.Prelude.{
  ℕ, ◌==◌, Bool, true, false, not, Option, none, some, List, [], ◌∷◌, ◌++◌, map, ℤ, int_eq, nat_eq,
  list_eq, if◌then◌else◌, is_empty, Outcome, ok, err, panic, ◌>>=◌, map_err, ok_or,
}
use kuatia.Prelude.Bytes.{Bytes}
use kuatia.Prelude.Map.{Map, lookup, insert, contains_key}
use kuatia.Prelude.Sort.{sort, dedup}
use kuatia.Money.{Cent, checked_sum}
use kuatia.Types.{
  AccountId, AssetId, BalanceKey, BookId, Account, AccountSnapshotId, Book, Envelope, Posting,
  NewPosting, PostingId, EnvelopeId, Receipt, Transfer, active, live, default_book, le_account,
  account_id_eq, balance_key_eq, posting_id_eq, referenced_accounts, set_account_snapshots,
}
use kuatia.Core.Hash.{envelope_id, account_snapshot_id}
use kuatia.Core.Required.{
  PlanInput, Plan, ValidationError, required_state, account_frozen, account_closed,
  overdraft_exceeded,
}
use kuatia.Core.Validate.{validate_and_plan}
use kuatia.Core.Resolve.{Debit, MovementDraft, draft_movements, resolve_envelope, debit_key}
use kuatia.Storage.{
  StoreError, not_found, internal, EnvelopeRecord, LedgerEvent, transfer_committed, InMemoryStore,
}
use kuatia.Storage.Tables.{get_postings, get_postings_by_account}
use kuatia.Storage.Accounts.{get_account, get_accounts, get_book}
use kuatia.Storage.Commit.{
  CommitRequest, CommitRejection, CommitOutcome, committed, already_committed, rejected,
  double_spend,
}
use kuatia.Storage.Commit as Store
use kuatia.Ledger.Errors.{
  LedgerError, validation_error, store_error, transfer_not_found, double_spent, book_not_found,
  under_fetched_state, from_overflow, from_resolve,
}

unfoldable pub compute_balance : InMemoryStore → AccountId → AssetId → Outcome LedgerError Cent
compute_balance s account asset = map_err from_overflow (
    checked_sum (
      map (λ p. p.value)
        (get_postings_by_account s.postings account.id (some account.sub) (some asset) live)))

-- `for (account, asset) in &required.balances { .. }`
unfoldable pub load_balances :
    InMemoryStore
    → List BalanceKey
    → Map BalanceKey Cent
    → Outcome LedgerError (Map BalanceKey Cent)
unfolding compute_balance
load_balances s [] m = ok m
load_balances s (key ∷ ks) m = do
  bal ← compute_balance s key.0 key.1
  load_balances s ks (insert key bal m)

-- A missing default book restricts nothing; any other missing book is an error.
unfoldable pub load_book : InMemoryStore → BookId → Outcome LedgerError (Option Book)
load_book s id = elim (get_book s.books id) [
  | ok b ↦ ok (some b)
  | err not_found ↦ if id == default_book then ok none else err (book_not_found id)
  | err internal ↦ err (store_error internal)
  | panic ↦ panic
]

pub record LoadedState : Type 0 where
  pub consumed_postings : List Posting
  pub accounts : Map AccountId Account
  pub balances : Map BalanceKey Cent
  pub book : Option Book

-- `collect` of `(a.id, a)`
unfoldable pub index_accounts : List Account → Map AccountId Account → Map AccountId Account
index_accounts [] m = m
index_accounts (a ∷ rest) m = index_accounts rest (insert a.id a m)

abbrev pub load_consumed : InMemoryStore → Envelope → Outcome LedgerError (List Posting)
load_consumed s e =
    if is_empty e.consumes then ok [] else map_err store_error (get_postings s.postings e.consumes)

unfoldable pub load : InMemoryStore → Envelope → Outcome LedgerError LoadedState
unfolding load_balances load_book index_accounts required_state
load s e = do
  consumed_postings ← load_consumed s e
  let required = required_state e consumed_postings
  account_list ← map_err store_error (get_accounts s.accounts required.accounts)
  balances ← load_balances s required.balances []
  book ← load_book s e.book
  ok (record {
    consumed_postings = consumed_postings;
    accounts = index_accounts account_list [];
    balances = balances;
    book = book;
  })

-- The first required balance that was not loaded.
unfoldable pub missing_balance : List BalanceKey → Map BalanceKey Cent → Option BalanceKey
missing_balance [] m = none
missing_balance (k ∷ ks) m = if contains_key k m then missing_balance ks m else some k

abbrev pub map_rejection : CommitRejection → LedgerError
map_rejection (double_spend id) = double_spent id
map_rejection (Store.account_frozen id) = validation_error (account_frozen id)
map_rejection (Store.account_closed id) = validation_error (account_closed id)
map_rejection (Store.overdraft_exceeded account asset projected) =
    validation_error (overdraft_exceeded account asset projected)

abbrev pub answer : Outcome StoreError CommitOutcome → Outcome LedgerError Receipt
answer (ok (committed r)) = ok r
answer (ok (already_committed r)) = ok r
answer (ok (rejected reason)) = err (map_rejection reason)
answer (err e) = err (store_error e)
answer panic = panic

-- What the store is asked to apply.
unfoldable pub request_of : ℤ → Envelope → LoadedState → Plan → CommitRequest
request_of now e loaded plan = record {
  transfer_id = plan.transfer_id;
  consume = plan.postings_to_deactivate;
  create = plan.postings_to_create;
  envelope_record = record {
    envelope = e;
    receipt = record { transfer_id = plan.transfer_id };
    created_at = now;
  };
  involved = dedup (
      sort le_account (
        map (λ p. p.owner) plan.postings_to_create ++ map (λ p. p.owner) loaded.consumed_postings));
  event = record { seq = 0; timestamp = now; kind = transfer_committed plan.transfer_id };
}

module _ (sha256 : Bytes → Bytes) where
  unfoldable pub resolve_snapshots :
      InMemoryStore → List AccountId → Outcome LedgerError (List AccountSnapshotId)
  resolve_snapshots s ids = do
    accounts ← map_err store_error (get_accounts s.accounts ids)
    ok (map (account_snapshot_id sha256) accounts)

  unfoldable pub plan_of : Envelope → LoadedState → Outcome LedgerError Plan
  unfolding missing_balance
  plan_of e loaded =
      elim (missing_balance (required_state e loaded.consumed_postings).balances loaded.balances) [
        | some key ↦ err (under_fetched_state key.0 key.1)
        | none ↦ map_err validation_error (
            validate_and_plan sha256 (record {
              envelope = e;
              consumed_postings = loaded.consumed_postings;
              accounts = loaded.accounts;
              balances = loaded.balances;
              book = loaded.book;
            }))
      ]

  abbrev pub pin_snapshots : InMemoryStore → Envelope → Outcome LedgerError Envelope
  pin_snapshots s e =
      if is_empty e.account_snapshots
      then resolve_snapshots s (dedup (sort le_account (map (λ p. p.owner) e.creates)))
        >>= (λ snaps. ok (set_account_snapshots snaps e))
      else ok e

  -- The part after the check for a transfer that is there already.
  unfoldable pub prepare : InMemoryStore → Envelope → ℤ → Outcome LedgerError CommitRequest
  unfolding load plan_of request_of
  prepare s e now = do loaded ← load s e; plan ← plan_of e loaded; ok (request_of now e loaded plan)

  abbrev pub apply_request :
      ℕ
      → InMemoryStore
      → Outcome LedgerError CommitRequest
      → Outcome LedgerError Receipt × InMemoryStore
  apply_request seq s (ok req) =
      let (outcome, s') = Store.commit_envelope seq req s in (answer outcome, s')
  apply_request seq s (err e) = (err e, s)
  apply_request seq s panic = (panic, s)

  abbrev pub commit_pinned :
      ℕ
      → ℤ
      → InMemoryStore
      → Outcome LedgerError Envelope
      → Outcome LedgerError Receipt × InMemoryStore
  commit_pinned seq now s (err e) = (err e, s)
  commit_pinned seq now s panic = (panic, s)
  commit_pinned seq now s (ok e) = elim (lookup (envelope_id sha256 e) s.transfers) [
    | some old ↦ (ok old.receipt, s)
    | none ↦ apply_request seq s (prepare s e now)
  ]

  unfoldable pub commit_envelope :
      ℕ → ℤ → Envelope → InMemoryStore → Outcome LedgerError Receipt × InMemoryStore
  unfolding resolve_snapshots prepare
  commit_envelope seq now envelope s = commit_pinned seq now s (pin_snapshots s envelope)
