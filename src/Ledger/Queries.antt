-- ===== src/Ledger/Queries.antt =====
-- crates/kuatia/src/ledger/query.rs: reads that pass through to the store, and the creation of books.
use kuatia.Prelude.{
  ℕ, none, some, List, [], ◌∷◌, map, int_eq, if◌then◌else◌, eqb, Outcome, ok, err, map_err,
}
use kuatia.Types.{AccountId, Account, Book, BookId, Posting, PostingState, every}
use kuatia.Storage.{EnvelopeRecord, LedgerEvent, InMemoryStore}
use kuatia.Storage.Tables.{get_postings_by_account, get_posting_states}
use kuatia.Storage.Accounts as Store
use kuatia.Storage.Events as Log
use kuatia.Storage.Queries.{TransferQuery, PostingQuery, Page, get_transfers_for_account}
use kuatia.Storage.Queries as Queries
use kuatia.Ledger.Errors.{LedgerError, store_error, unknown_account, book_already_exists}

unfoldable pub list_accounts : InMemoryStore → List Account
unfolding Store.list_accounts
list_accounts s = Store.list_accounts s.accounts

-- Every error of the store becomes the one that names the account.
unfoldable pub get_account : InMemoryStore → AccountId → Outcome LedgerError Account
unfolding Store.get_account
get_account s id = map_err (λ _. unknown_account id) (Store.get_account s.accounts id)

unfoldable pub history : InMemoryStore → AccountId → List EnvelopeRecord
unfolding get_transfers_for_account
history s account = get_transfers_for_account s account.id (some account.sub)

unfoldable pub query_transfers : InMemoryStore → TransferQuery → Page EnvelopeRecord
unfolding Queries.query_transfers
query_transfers s query = Queries.query_transfers s query

unfoldable pub postings : InMemoryStore → AccountId → List Posting
unfolding get_postings_by_account
postings s account = get_postings_by_account s.postings account.id (some account.sub) none every

abbrev pub zip {ℓ κ} : {A : Type ℓ} {B : Type κ} → List A → List B → List (A × B)
zip [] ys = []
zip (x ∷ xs) [] = []
zip (x ∷ xs) (y ∷ ys) = (x, y) ∷ zip xs ys

unfoldable pub postings_with_state : InMemoryStore → AccountId → List (Posting × PostingState)
unfolding postings get_posting_states
postings_with_state s account =
    let held = postings s account in zip held (get_posting_states s.postings (map (λ p. p.id) held))

unfoldable pub query_postings : InMemoryStore → PostingQuery → Page Posting
unfolding Queries.query_postings
query_postings s query = Queries.query_postings s query

unfoldable pub account_history : InMemoryStore → AccountId → Outcome LedgerError (List Account)
unfolding Store.get_account_history
account_history s id = map_err store_error (Store.get_account_history s.accounts id)

unfoldable pub create_book : Book → InMemoryStore → Outcome LedgerError (Unit {0}) × InMemoryStore
unfolding Store.create_book
create_book book s =
    let (books, created) = Store.create_book book s.books in
    (if eqb created 0 then err (book_already_exists book.id) else ok tt, record s { books = books })

unfoldable pub get_book : InMemoryStore → BookId → Outcome LedgerError Book
unfolding Store.get_book
get_book s id = map_err store_error (Store.get_book s.books id)

unfoldable pub list_books : InMemoryStore → List Book
list_books s = Store.list_books s.books

unfoldable pub get_events_since : InMemoryStore → (after_seq limit : ℕ) → List LedgerEvent
unfolding Log.get_events_since
get_events_since s after_seq limit = Log.get_events_since after_seq limit s.events
