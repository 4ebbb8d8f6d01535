-- ===== src/Ledger/Saga/Tests.antt =====
-- Runs of crates/kuatia/src/saga.rs and of the reversal in crates/kuatia/src/ledger/commit.rs.
use kuatia.Types.{posting_id_beq}
use kuatia.Prelude.Sort.{dedup, insert_sorted}
use kuatia.Storage.Accounts.{current_version, get_book}
use kuatia.Storage.Accounts.{create_account as opens_account}
use kuatia.Ledger.Commit.{commit_envelope}
use kuatia.Core.Hash.{account_snapshot_id, envelope_id}
use kuatia.Money.{checked_sum}
use kuatia.Storage.Tables.{get_postings_by_account}
use kuatia.Core.Validate.{validate_and_plan}
use kuatia.Prelude.{for_each}
use kuatia.Storage.Commit.{commit_envelope as applies}
use kuatia.Types.{deposit, balance_key_beq, account_id_beq, referenced_accounts}
use kuatia.Money.{checked_neg, fits, checked_add}
use kuatia.Prelude.{◌-ℤ◌, ◌+ℤ◌}
use kuatia.Core.Resolve.{draft_movements, resolve_envelope}
use kuatia.Core.Accumulate.{get_or_zero}
use kuatia.Prelude.Map.{lookup, insert}
use kuatia.Prelude.Sort.{sort}
use kuatia.Storage.Accounts.{get_accounts}
use kuatia.Prelude.{
  ℕ, ◌+◌, ◌^◌, ◌-◌, ◌≡◌, refl, List, [], ◌∷◌, ◌++◌, map, ℤ, pos, negsuc, some, none, Outcome, ok,
  err,
}
use kuatia.Prelude.Bytes.{Bytes}
use kuatia.Types.{AccountId, Receipt, Transfer, main_account, new_account, new_no_overdraft}
use kuatia.Storage.{InMemoryStore}
use kuatia.Ledger.Errors.{LedgerError}
use kuatia.Ledger.Intent.{commit}
use kuatia.Types.{Posting, Envelope, default_book}
use kuatia.Storage.{EnvelopeRecord}
use kuatia.Storage.Tables.{get_postings}
use kuatia.Core.Validate.{number_postings}
use kuatia.Ledger.Intent.{reverse_envelope}
use kuatia.Ledger.Intent.Reverse.{holding, new_holding, reverse_envelope-mirrors}
use kuatia.Ledger.Lifecycle.{create_account}
use kuatia.Ledger.Reachable.{empty_store}
use kuatia.Ledger.Saga.{Leg, DepositInput, deposits, build, run_loop, run_movements, Answers}
use kuatia.Ledger.Saga.Unwinds.{Unwinds, commit_each, run_movements-ends}

abbrev digest : Bytes → Bytes
digest b = 7 ∷ []

abbrev alice : AccountId
alice = main_account (pos 1)

abbrev world : AccountId
world = main_account (pos 9)

abbrev seqs : ℕ → ℕ
seqs n = n + 3

abbrev clock : ℕ → ℤ
clock n = pos (n + 12)

abbrev opened : InMemoryStore
opened =
    (create_account 2 (pos 11) (new_account world)
      (create_account 1 (pos 10) (new_no_overdraft alice) empty_store).1).1

abbrev hundred : DepositInput
hundred = record { to = alice; asset = 1; amount = pos 100; external = world }

abbrev least : DepositInput
least = record { to = alice; asset = 1; amount = negsuc (2 ^ 63 - 1); external = world }

-- The transfer of the first movement, and the store after it.
abbrev receipts : List Receipt
receipts = record { transfer_id = 7 ∷ [] } ∷ []

abbrev paid_in : InMemoryStore
paid_in = (run_movements digest seqs clock (deposits hundred ∷ []) opened).1

first_commits :
    commit_each digest seqs clock 0 (deposits hundred ∷ []) opened ≡ some (receipts, paid_in)
unfolding commit_each build commit run_movements run_loop deposit checked_neg fits ◌-ℤ◌
    draft_movements checked_add ◌+ℤ◌ get_or_zero lookup insert balance_key_beq account_id_beq sort
    resolve_envelope get_accounts referenced_accounts dedup insert_sorted current_version
    create_account commit_envelope account_snapshot_id checked_sum get_postings_by_account get_book
    validate_and_plan for_each envelope_id opens_account applies
first_commits = refl

run_movements-ends_example :
    (◌≡◌ {A = Answers}
      (run_movements digest seqs clock (deposits hundred ∷ []) opened)
      (ok receipts, paid_in))
    × ((m : Leg) (rest : List Leg) (t : Transfer) (e : LedgerError) (s2 : InMemoryStore)
        → build m ≡ ok t
        → ◌≡◌ {A = Outcome LedgerError Receipt × InMemoryStore}
            (commit digest (seqs 1) (clock 1) t paid_in)
            (err e, s2)
        → Unwinds digest seqs clock e 2 receipts s2
            (run_movements digest seqs clock ((deposits hundred ∷ []) ++ (m ∷ rest)) opened))
    × ((m : Leg) (rest : List Leg) (e : LedgerError)
        → build m ≡ err e
        → ◌≡◌ {A = Answers}
            (run_movements digest seqs clock ((deposits hundred ∷ []) ++ (m ∷ rest)) opened)
            (err e, paid_in))
run_movements-ends_example =
    run_movements-ends digest seqs clock (deposits hundred ∷ []) opened paid_in receipts
      first_commits

-- A transfer that consumed a posting of 70 for alice and created one of 70 for the world.
abbrev spent : Posting
spent = record {
  id = record { transfer = 1 ∷ []; index = 4 };
  owner = alice;
  asset = 1;
  value = pos 70;
}

abbrev with_spent : InMemoryStore
with_spent = record empty_store {
  postings = record { immutable = (spent.id, spent) ∷ []; active = []; reserved = [] };
}

abbrev recorded : EnvelopeRecord
recorded = record {
  envelope = record {
    consumes = spent.id ∷ [];
    creates = record { owner = world; asset = 1; value = pos 70; payer = none } ∷ [];
    account_snapshots = [];
    book = default_book;
    metadata = [];
  };
  receipt = record { transfer_id = 2 ∷ [] };
  created_at = pos 20;
}

abbrev mirrored : Envelope
mirrored = record {
  consumes = record { transfer = 2 ∷ []; index = 0 } ∷ [];
  creates = record { owner = alice; asset = 1; value = pos 70; payer = none } ∷ [];
  account_snapshots = [];
  book = default_book;
  metadata = [];
}

recorded-mirrored : reverse_envelope with_spent recorded ≡ ok mirrored
unfolding reverse_envelope get_postings lookup posting_id_beq
recorded-mirrored = refl

reverse_envelope-mirrors_example :
    (ps : List Posting) × (get_postings with_spent.postings (spent.id ∷ []) ≡ ok ps)
    × (map new_holding mirrored.creates ≡ map holding ps)
    × (mirrored.consumes ≡ map (λ p. p.id) (number_postings (2 ∷ []) 0 recorded.envelope.creates))
reverse_envelope-mirrors_example =
    reverse_envelope-mirrors with_spent recorded mirrored recorded-mirrored
