-- ===== src/Ledger/Balance/Tests.antt =====
-- A transfer that spends a posting of 100 and gives 40 back.
use kuatia.Types.{account_id_beq, posting_id_beq}
use kuatia.Money.{checked_add, fits, checked_sub}
use kuatia.Prelude.{◌+ℤ◌, contains}
use kuatia.Prelude.Map.{lookup}
use kuatia.Prelude.{
  ◌≡◌, refl, none, some, List, [], ◌∷◌, ◌+◌, length, pos, negsuc, ◌-ℤ◌, sum, ok, nat_eq, list_eq,
  int_eq,
}
use kuatia.Types.{
  AccountId, Posting, PostingId, main_account, default_book, account_id_eq, posting_id_eq,
}
use kuatia.Storage.{EnvelopeRecord, InMemoryStore}
use kuatia.Storage.Tables.{get_postings}
use kuatia.Ledger.Balance.{fold_account_delta}
use kuatia.Ledger.Balance.Consumed.{IsConsumedOnce}
use kuatia.Ledger.Balance.Exact.{all_creates, new_own, own, fold_account_delta-IsExact}

abbrev alice : AccountId
alice = main_account (pos 1)

abbrev coin : PostingId
coin = record { transfer = 7 ∷ []; index = 0 }

abbrev held : Posting
held = record { id = coin; owner = alice; asset = 1; value = pos 100 }

abbrev payment : EnvelopeRecord
payment = record {
  envelope = record {
    consumes = coin ∷ [];
    creates =
        record { owner = main_account (pos 2); asset = 1; value = pos 60; payer = some alice }
        ∷ record { owner = alice; asset = 1; value = pos 40; payer = none }
        ∷ [];
    account_snapshots = [];
    book = default_book;
    metadata = [];
  };
  receipt = record { transfer_id = 9 ∷ [] };
  created_at = pos 20;
}

abbrev spent_once : InMemoryStore
spent_once = record {
  postings = record { immutable = (coin, held) ∷ []; active = []; reserved = [] };
  accounts = [];
  transfers = [];
  transfer_accounts = [];
  events = [];
  books = [];
}

-- The transfer is listed twice: what it creates counts twice, and what it consumes once.
twice : fold_account_delta spent_once alice 1 (payment ∷ payment ∷ []) ≡ ok (negsuc 19, 3)
unfolding fold_account_delta account_id_beq checked_add fits ◌+ℤ◌ contains get_postings lookup
    posting_id_beq checked_sub ◌-ℤ◌
twice = refl

fold_account_delta-IsExact_example :
    (ids : List PostingId) × (ps : List Posting) × IsConsumedOnce (payment ∷ payment ∷ []) ids
    × (get_postings spent_once.postings ids ≡ ok ps)
    × (negsuc 19
        ≡ sum (new_own alice 1 (all_creates (payment ∷ payment ∷ []))) -ℤ sum (own alice 1 ps))
    × (3
        ≡ length (new_own alice 1 (all_creates (payment ∷ payment ∷ []))) + length (own alice 1 ps))
fold_account_delta-IsExact_example =
    fold_account_delta-IsExact spent_once alice 1 (payment ∷ payment ∷ []) (negsuc 19, 3) twice
