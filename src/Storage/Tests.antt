-- ===== src/Storage/Tests.antt =====
-- A small store for the tests: one account that forbids overdraft holds a coin and pays another.
use kuatia.Prelude.{
  ◌≡◌, ◌≢◌, ◌⊎◌, inr, refl, true, false, none, some, List, [], ◌∷◌, pos, ok, contains, for_each,
  nat_eq, list_eq, int_eq, ◌+ℤ◌, ◌≤ℤ◌, All, ◌+◌, ◌++◌, last, map, sum, if◌then◌else◌,
}
use kuatia.Prelude.Map.{lookup, insert, contains_key}
use kuatia.Prelude.Sort.{sort, dedup, insert_sorted}
use kuatia.Money.{checked_add, checked_sum, checked_sum_from, fits}
use kuatia.Types.{
  AccountId, PostingId, Account, Envelope, Posting, Receipt, main_account, new_account,
  new_no_overdraft, default_book, posting_id_beq, account_id_beq, posting_id_eq, account_id_eq,
  is_active, is_spent, with_flag, closed, is_closed,
}
use kuatia.Types.Select.{postings_at, asset_value}
use kuatia.Storage.Records.{
  LedgerEvent, transfer_committed, account_closed, PostingTables, InMemoryStore, event_dedup_key,
}
use kuatia.Storage.Tables.{
  posting_state, reserve_postings, release_postings, deactivate_postings, insert_postings,
}
use kuatia.Storage.Tables.Valid.{IsValid, operations-IsValid}
use kuatia.Storage.Tables.States.{
  after_reserve, after_release, after_deactivate, after_insert, posting_state-reserve_postings,
  posting_state-release_postings, posting_state-deactivate_postings, posting_state-insert_postings,
}
use kuatia.Storage.Events.{append_event, append_event_locked, find_event}
use kuatia.Storage.Events.Unique.{IsUnique, append_event-IsUnique, append_event-replay}
use kuatia.Storage.Accounts.{
  create_account, append_account_version, commit_transition, AccountTables, applied,
  current_version,
}
use kuatia.Storage.Accounts.Chain.{HasChain, Appended, commit_transition-cases, operations-HasChain}
use kuatia.Storage.Commit.{
  CommitRequest, committed, already_committed, guards, guard_open, guard_active, guard_floor,
  guard_asset, touched_assets, account_of, apply_commit, commit_envelope,
}
use kuatia.Storage.Commit.Guards.{IsOpen, commit_envelope-cases, commit_envelope-IsOpen}
use kuatia.Storage.Commit.Replay.{here, commits, commit_envelope-replay}
use kuatia.Storage.Commit.Effect.{IsFresh, commit_envelope-IsValid, commit_envelope-states}
use kuatia.Storage.Commit.Value.{live_value, commit_envelope-value}
use kuatia.Storage.Commit.Touched.{Moves}
use kuatia.Storage.Commit.Floor.{active_balance, commit_envelope-floor}
use mathlib.Core.List.{Memᴰ}

abbrev alice : AccountId
alice = main_account (pos 1)

abbrev bank : AccountId
bank = main_account (pos 2)

abbrev coin : PostingId
coin = record { transfer = 7 ∷ []; index = 0 }

abbrev note : PostingId
note = record { transfer = 8 ∷ []; index = 0 }

abbrev held : Posting
held = record { id = coin; owner = alice; asset = 1; value = pos 100 }

abbrev paid : Posting
paid = record {
  id = record { transfer = 9 ∷ []; index = 0 };
  owner = bank;
  asset = 1;
  value = pos 60;
}

abbrev kept : Posting
kept = record {
  id = record { transfer = 9 ∷ []; index = 1 };
  owner = alice;
  asset = 1;
  value = pos 40;
}

abbrev lent : Posting
lent = record { id = note; owner = bank; asset = 1; value = pos 5 }

abbrev tables : PostingTables
tables = record {
  immutable = (coin, held) ∷ (note, lent) ∷ [];
  active = (coin, held) ∷ [];
  reserved = (note, (lent, pos 3)) ∷ [];
}

tables-IsValid : IsValid tables
unfolding lookup posting_id_beq
tables-IsValid = record {
  immutable_map = (refl, (refl, tt));
  active_map = (refl, tt);
  reserved_map = (refl, tt);
  named = (refl, (refl, tt));
  active_known = (refl, tt);
  reserved_known = (refl, tt);
  disjoint = (refl, tt);
}

operations-IsValid_example :
    IsValid (reserve_postings (coin ∷ []) (pos 4) tables).0
    × IsValid (release_postings (coin ∷ []) (pos 4) tables).0
    × IsValid (deactivate_postings (coin ∷ []) (some (pos 3)) tables).0
    × IsValid (insert_postings (paid ∷ []) tables).0
operations-IsValid_example =
    operations-IsValid (coin ∷ []) (paid ∷ []) (pos 4) (some (pos 3)) tables tables-IsValid

reserve_postings_example : posting_state (reserve_postings (coin ∷ []) (pos 4) tables).0 coin ≡ (
    if contains coin (coin ∷ [])
    then after_reserve (pos 4) (posting_state tables coin)
    else posting_state tables coin)
reserve_postings_example =
    posting_state-reserve_postings (coin ∷ []) tables coin tables-IsValid (pos 4)

release_postings_example : posting_state (release_postings (note ∷ []) (pos 3) tables).0 note ≡ (
    if contains note (note ∷ [])
    then after_release (pos 3) (posting_state tables note)
    else posting_state tables note)
release_postings_example =
    posting_state-release_postings (note ∷ []) tables note tables-IsValid (pos 3)

deactivate_postings_example :
    posting_state (deactivate_postings (note ∷ []) (some (pos 3)) tables).0 note ≡ (
      if contains note (note ∷ [])
      then after_deactivate (some (pos 3)) (posting_state tables note)
      else posting_state tables note)
deactivate_postings_example =
    posting_state-deactivate_postings (note ∷ []) tables note tables-IsValid (some (pos 3))

insert_postings_example : posting_state (insert_postings (paid ∷ []) tables).0 coin ≡ (
    if contains coin (map (λ p. p.id) (paid ∷ []))
    then after_insert (posting_state tables coin)
    else posting_state tables coin)
insert_postings_example = posting_state-insert_postings (paid ∷ []) tables coin tables-IsValid

abbrev receipt : Receipt
receipt = record { transfer_id = 9 ∷ [] }

abbrev envelope : Envelope
envelope = record {
  consumes = coin ∷ [];
  creates =
      record { owner = bank; asset = 1; value = pos 60; payer = some alice }
      ∷ record { owner = alice; asset = 1; value = pos 40; payer = none }
      ∷ [];
  account_snapshots = [];
  book = default_book;
  metadata = [];
}

abbrev happened : LedgerEvent
happened = record { seq = 0; timestamp = pos 17; kind = transfer_committed (9 ∷ []) }

abbrev request : CommitRequest
request = record {
  transfer_id = 9 ∷ [];
  consume = coin ∷ [];
  create = paid ∷ kept ∷ [];
  envelope_record = record { envelope = envelope; receipt = receipt; created_at = pos 17 };
  involved = alice ∷ bank ∷ [];
  event = happened;
}

abbrev store : InMemoryStore
store = record {
  postings = tables;
  accounts = (alice, new_no_overdraft alice ∷ []) ∷ (bank, new_account bank ∷ []) ∷ [];
  transfers = [];
  transfer_accounts = [];
  events = [];
  books = [];
}

accepted : (commit_envelope 5 request store).0 ≡ ok (committed receipt)
unfolding commit_envelope guards guard_open guard_active guard_floor guard_asset touched_assets
    account_of current_version lookup contains for_each sort insert_sorted dedup checked_add
    checked_sum checked_sum_from fits ◌+ℤ◌ posting_id_beq account_id_beq
accepted = refl

fresh : IsFresh tables (paid ∷ kept ∷ [])
unfolding lookup contains posting_id_beq
fresh = ((refl, (refl, tt)), (refl, (refl, tt)))

commit_envelope-cases_example :
    ((commit_envelope 5 request store).1 ≡ store)
      × ((r : Receipt) → (commit_envelope 5 request store).0 ≢ ok (committed r))
    ⊎ (lookup request.transfer_id store.transfers ≡ none)
      × (guards store.accounts store.postings.active request ≡ ok tt)
      × (commit_envelope 5 request store ≡ (ok (committed receipt), apply_commit 5 request store))
commit_envelope-cases_example = commit_envelope-cases 5 request store

commit_envelope-IsOpen_example :
    All (IsOpen store) request.involved
    × All (λ id. contains_key id store.postings.active ≡ true) request.consume
commit_envelope-IsOpen_example = commit_envelope-IsOpen 5 request store accepted

-- Another transfer, which is committed in between.
abbrev other_request : CommitRequest
other_request = record request { transfer_id = 11 ∷ []; consume = []; create = [] }

abbrev in_between : InMemoryStore
in_between = (commit_envelope 6 other_request (commit_envelope 5 request store).1).1

commit_envelope-replay_example :
    commit_envelope 7 request in_between ≡ (ok (already_committed receipt), in_between)
commit_envelope-replay_example =
    commit_envelope-replay 5 7 request request store in_between accepted
      (commits (commit_envelope 5 request store).1 6 other_request here) refl

commit_envelope-IsValid_example : IsValid (commit_envelope 5 request store).1.postings
commit_envelope-IsValid_example = commit_envelope-IsValid 5 request store tables-IsValid fresh

commit_envelope-states_example : posting_state (commit_envelope 5 request store).1.postings coin ≡ (
    if contains coin (map (λ p. p.id) request.create)
    then is_active
    else if contains coin request.consume
    then is_spent
    else posting_state store.postings coin)
commit_envelope-states_example = commit_envelope-states 5 request store coin tables-IsValid accepted

commit_envelope-value_example :
    live_value 1 (commit_envelope 5 request store).1.postings
      +ℤ sum (map (asset_value 1) (postings_at store.postings.active request.consume))
    ≡ live_value 1 store.postings +ℤ sum (map (asset_value 1) request.create)
unfolding contains
commit_envelope-value_example =
    commit_envelope-value 5 request store 1 tables-IsValid (refl, tt) fresh accepted

-- Alice spends the coin.
alice-Moves : Moves request store.postings alice 1
unfolding lookup posting_id_beq
alice-Moves = inr (coin, held, Memᴰ.head refl, refl, refl, refl)

commit_envelope-floor_example :
    pos 0 ≤ℤ active_balance alice 1 (commit_envelope 5 request store).1.postings
unfolding contains current_version lookup account_id_beq
commit_envelope-floor_example =
    commit_envelope-floor 5 request store alice 1 tables-IsValid fresh accepted refl refl refl
      alice-Moves

abbrev closing : LedgerEvent
closing = record { seq = 0; timestamp = pos 18; kind = account_closed alice 2 }

-- A log with one event, to which another one and then the same one again are appended.
abbrev one_event : List LedgerEvent
one_event = happened ∷ []

append_event-IsUnique_example :
    IsUnique (append_event 6 closing one_event).1
    × (append_event_locked 6 closing one_event ≡ (append_event 6 closing one_event).1)
append_event-IsUnique_example = append_event-IsUnique 6 closing one_event (tt, tt)

-- A second event with the same key is not appended.
kept_once : append_event 6 happened one_event ≡ (0, one_event)
unfolding append_event event_dedup_key find_event
kept_once = refl

append_event-replay_example :
    append_event 6 happened (append_event 5 happened []).1
    ≡ ((append_event 5 happened []).0, (append_event 5 happened []).1)
unfolding event_dedup_key
append_event-replay_example = append_event-replay 5 6 happened happened [] refl refl

-- The account of alice, closed.
abbrev closed_alice : Account
closed_alice = record (new_no_overdraft alice) { version = 2; flags = with_flag closed 8 }

abbrev account_tables : AccountTables
account_tables = record { accounts = store.accounts; events = [] }

commit_transition-cases_example :
    ((commit_transition 7 closed_alice closing account_tables).0 ≢ ok applied)
      × ((commit_transition 7 closed_alice closing account_tables).1.accounts
          ≡ account_tables.accounts)
    ⊎ ((versions : List Account) × (current : Account) × (lookup alice account_tables.accounts
          ≡ some versions)
        × (last versions ≡ some current)
        × (is_closed current ≡ false)
        × (2 ≡ current.version + 1)
        × (commit_transition 7 closed_alice closing account_tables ≡ (
          ok applied,
          record {
            accounts = insert alice (versions ++ (closed_alice ∷ [])) account_tables.accounts;
            events = append_event_locked 7 closing account_tables.events;
          },
        )))
commit_transition-cases_example = commit_transition-cases 7 closed_alice closing account_tables

operations-HasChain_example :
    All HasChain (create_account closed_alice account_tables.accounts).0
    × Appended (append_account_version closed_alice account_tables.accounts)
    × All HasChain (commit_transition 7 closed_alice closing account_tables).1.accounts
operations-HasChain_example =
    operations-HasChain closed_alice 7 closing account_tables
      ((refl, (new_no_overdraft alice, refl)), ((refl, (new_account bank, refl)), tt))
