-- ===== src/Ledger/Tests.antt =====
-- A run of the ledger from the empty store: two accounts are opened and a deposit is committed.
use kuatia.Prelude.{◌≡◌, none, [], ◌∷◌, pos, negsuc, arith}
use kuatia.Prelude.Bytes.{Bytes}
use kuatia.Types.{AccountId, Envelope, main_account, new_account, new_no_overdraft, default_book}
use kuatia.Storage.{InMemoryStore}
use kuatia.Storage.Commit.Value.{live_value}
use kuatia.Ledger.Commit.{commit_envelope}
use kuatia.Ledger.Commit.Conserves.{IsSound, commit_envelope-conserves}
use kuatia.Ledger.Lifecycle.{create_account}
use kuatia.Ledger.Reachable.{
  empty_store, Reachable, start, next, commits, opens, Reachable-IsBalanced,
}

abbrev digest : Bytes → Bytes
digest b = b

abbrev alice : AccountId
alice = main_account (pos 1)

abbrev world : AccountId
world = main_account (pos 9)

-- The deposit of 100 for alice, against the outside world.
abbrev deposited : Envelope
deposited = record {
  consumes = [];
  creates =
      record { owner = alice; asset = 1; value = pos 100; payer = none }
      ∷ record { owner = world; asset = 1; value = negsuc 99; payer = none }
      ∷ [];
  account_snapshots = [];
  book = default_book;
  metadata = [];
}

abbrev one_account : InMemoryStore
one_account = (create_account 1 (pos 10) (new_no_overdraft alice) empty_store).1

abbrev two_accounts : InMemoryStore
two_accounts = (create_account 2 (pos 11) (new_account world) one_account).1

abbrev paid_in : InMemoryStore
paid_in = (commit_envelope digest 3 (pos 12) deposited two_accounts).1

two_accounts-Reachable : Reachable digest two_accounts
two_accounts-Reachable =
    next one_account two_accounts
      (next empty_store one_account start (opens 1 (pos 10) (new_no_overdraft alice)))
      (opens 2 (pos 11) (new_account world))

paid_in-Reachable : Reachable digest paid_in
paid_in-Reachable =
    next two_accounts paid_in two_accounts-Reachable (commits 3 (pos 12) deposited (omega arith))

commit_conserves_example :
    IsSound (commit_envelope digest 3 (pos 12) deposited two_accounts).1
    × (live_value 1 (commit_envelope digest 3 (pos 12) deposited two_accounts).1.postings
        ≡ live_value 1 two_accounts.postings)
commit_conserves_example =
    commit_envelope-conserves digest 3 (pos 12) deposited two_accounts 1
      (Reachable-IsBalanced digest 1 two_accounts two_accounts-Reachable).0 (omega arith)

Reachable-IsBalanced_example : IsSound paid_in × (live_value 1 paid_in.postings ≡ pos 0)
Reachable-IsBalanced_example = Reachable-IsBalanced digest 1 paid_in paid_in-Reachable
