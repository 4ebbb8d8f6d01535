-- ===== src/Ledger/Intent.antt =====
-- crates/kuatia/src/ledger/commit.rs: a transfer is resolved to an envelope, and committed; a committed
-- transfer is reversed by an envelope that consumes what it created.
pub mod Conserves
pub mod Reverse
use kuatia.Prelude.{
  ℕ, suc, ◌%◌, ◌^◌, Option, none, some, List, [], ◌∷◌, map, ℤ, nat_eq, list_eq, Outcome, ok, err,
  panic, ◌>>=◌, map_err, ok_or,
}
use kuatia.Prelude.Bytes.{Bytes}
use kuatia.Prelude.Map.{Map, lookup, insert}
use kuatia.Types.{
  AccountId, Account, BalanceKey, Envelope, EnvelopeId, Posting, NewPosting, PostingId, Receipt,
  Transfer, active, account_id_eq, balance_key_eq, referenced_accounts, set_account_snapshots,
}
use kuatia.Core.Resolve.{Debit, debit_key, draft_movements, resolve_envelope}
use kuatia.Storage.{EnvelopeRecord, InMemoryStore}
use kuatia.Storage.Tables.{get_postings_by_account}
use kuatia.Storage.Accounts.{get_account}
use kuatia.Ledger.Errors.{LedgerError, store_error, transfer_not_found, from_overflow, from_resolve}
use kuatia.Ledger.Commit.{load_consumed, resolve_snapshots, commit_envelope}

-- The postings and the accounts that resolution reads.
pub record Loads : Type 0 where
  pub available : Map BalanceKey (List Posting)
  pub accounts : Map AccountId Account

-- `if let Entry::Vacant(e) = accounts.entry(id) { e.insert(get_account(id)?) }`
unfoldable pub load_account :
    InMemoryStore → AccountId → Map AccountId Account → Outcome LedgerError (Map AccountId Account)
load_account s id accounts = elim (lookup id accounts) [
  | some a ↦ ok accounts
  | none ↦ map_err store_error (get_account s.accounts id) >>= λ a. ok (insert id a accounts)
]

-- `for debit in &draft.debits { .. }`
unfoldable pub load_debits : InMemoryStore → List Debit → Loads → Outcome LedgerError Loads
unfolding load_account
load_debits s [] l = ok l
load_debits s (d ∷ ds) l = do
  let postings =
      get_postings_by_account s.postings d.account.id (some d.account.sub) (some d.asset) active
  accounts ← load_account s d.account l.accounts
  load_debits s ds
      (record { available = insert (debit_key d) postings l.available; accounts = accounts })

-- The ids that a transfer's created postings have, from an index; `i as u16` wraps.
unfoldable pub created_ids : EnvelopeId → ℕ → List NewPosting → List PostingId
created_ids tid i [] = []
created_ids tid i (p ∷ ps) =
    record { transfer = tid; index = i % 2 ^ 16 } ∷ created_ids tid (suc i) ps

abbrev pub give_back : Posting → NewPosting
give_back p = record { owner = p.owner; asset = p.asset; value = p.value; payer = none }

-- The envelope that `reverse` commits.
unfoldable pub reverse_envelope : InMemoryStore → EnvelopeRecord → Outcome LedgerError Envelope
unfolding created_ids
reverse_envelope s r = do
  original_consumed ← load_consumed s r.envelope
  ok (record {
    consumes = created_ids r.receipt.transfer_id 0 r.envelope.creates;
    creates = map give_back original_consumed;
    account_snapshots = [];
    book = r.envelope.book;
    metadata = r.envelope.metadata;
  })

abbrev pub Answer : Type 0
Answer = Outcome LedgerError Receipt × InMemoryStore

module _ (sha256 : Bytes → Bytes) where
  unfoldable pub resolve : InMemoryStore → Transfer → Outcome LedgerError Envelope
  unfolding load_debits resolve_snapshots
  resolve s t = do
    draft ← map_err from_overflow (draft_movements t)
    l ← load_debits s draft.debits (record { available = []; accounts = [] })
    envelope ← map_err from_resolve (resolve_envelope t draft l.available l.accounts)
    snapshots ← resolve_snapshots sha256 s (referenced_accounts envelope)
    ok (set_account_snapshots snapshots envelope)

  -- An error leaves the store as it was.
  abbrev pub commit_resolved : ℕ → ℤ → InMemoryStore → Outcome LedgerError Envelope → Answer
  commit_resolved seq now s (ok e) = commit_envelope sha256 seq now e s
  commit_resolved seq now s (err e) = (err e, s)
  commit_resolved seq now s panic = (panic, s)

  unfoldable pub commit : ℕ → ℤ → Transfer → InMemoryStore → Answer
  unfolding resolve
  commit seq now t s = commit_resolved seq now s (resolve s t)

  unfoldable pub reverse : ℕ → ℤ → EnvelopeId → InMemoryStore → Answer
  unfolding reverse_envelope
  reverse seq now id s = elim (lookup id s.transfers) [
    | none ↦ (err (transfer_not_found id), s)
    | some r ↦ commit_resolved seq now s (reverse_envelope s r)
  ]
