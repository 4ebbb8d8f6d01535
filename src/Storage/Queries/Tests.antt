-- ===== src/Storage/Queries/Tests.antt =====
-- Queries of a store with two recorded transfers, the later one recorded first.
use kuatia.Prelude.{
  ℕ, ◌≡◌, refl, ◌↔◌, none, some, List, [], ◌∷◌, length, take, drop, pos, nat_eq, list_eq, int_eq,
}
use kuatia.Prelude.Map.{lookup, IsMap}
use kuatia.Prelude.Sort.{sort, insert_sorted}
use kuatia.Types.{AccountId, main_account, default_book}
use kuatia.Storage.Records.{EnvelopeRecord, InMemoryStore}
use kuatia.Storage.Queries.{TransferQuery, query_transfers}
use kuatia.Storage.Queries.Answers.{IsAnswer, query_transfers-answers}
use kuatia.Storage.Queries.Sorted.{IsSorted}
use mathlib.Core.List.{Memᴰ}

abbrev alice : AccountId
alice = main_account (pos 1)

abbrev bank : AccountId
bank = main_account (pos 2)

abbrev recorded : ℕ → ℕ → EnvelopeRecord
recorded tid at_time = record {
  envelope = record {
    consumes = [];
    creates = [];
    account_snapshots = [];
    book = default_book;
    metadata = [];
  };
  receipt = record { transfer_id = tid ∷ [] };
  created_at = pos at_time;
}

abbrev two_transfers : InMemoryStore
two_transfers = record {
  postings = record { immutable = []; active = []; reserved = [] };
  accounts = [];
  transfers = (9 ∷ [], recorded 9 20) ∷ (8 ∷ [], recorded 8 10) ∷ [];
  transfer_accounts = (9 ∷ [], alice ∷ bank ∷ []) ∷ (8 ∷ [], alice ∷ []) ∷ [];
  events = [];
  books = [];
}

abbrev of_alice : TransferQuery
of_alice = record {
  account = some (pos 1);
  sub = none;
  from_ts = some (pos 10);
  to_ts = none;
  book = none;
  limit = some 1;
  offset = some 1;
}

-- The second page of one transfer each.
second_page :
    query_transfers two_transfers of_alice ≡ record { items = recorded 9 20 ∷ []; total = 2 }
unfolding lookup query_transfers sort insert_sorted
second_page = refl

distinct_ids : IsMap two_transfers.transfers × IsMap two_transfers.transfer_accounts
unfolding lookup
distinct_ids = ((refl, (refl, tt)), (refl, (refl, tt)))

query_transfers-answers_example :
    (all : List EnvelopeRecord) × ((query_transfers two_transfers of_alice).items
      ≡ take 1 (drop 1 all))
    × ((query_transfers two_transfers of_alice).total ≡ length all)
    × IsSorted all
    × ((r : EnvelopeRecord) → Memᴰ r all ↔ IsAnswer two_transfers of_alice r)
query_transfers-answers_example =
    query_transfers-answers two_transfers of_alice distinct_ids.0 distinct_ids.1
