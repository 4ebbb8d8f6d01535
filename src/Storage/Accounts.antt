-- ===== src/Storage/Accounts.antt =====
-- crates/kuatia-storage/src/mem_store.rs: `AccountStore` and `BookStore` for `InMemoryStore`, and
-- `commit_transition`. Versions are `u64`; a chain of versions is the list that its account maps to.
pub mod Chain
use kuatia.Prelude.{
  ℕ, ◌+◌, ◌^◌, Bool, true, false, not, Option, none, some, List, [], ◌∷◌, ◌++◌, last, ltb, leb, eqb,
  if◌then◌else◌, Outcome, ok, err, ◌>>=◌, ok_or, int_eq,
}
use kuatia.Prelude.Map.{Map, lookup, insert, contains_key, values}
use kuatia.Types.{AccountId, Account, BookId, Book, is_closed, account_id_eq}
use kuatia.Storage.Records.{StoreError, not_found, internal, LedgerEvent}
use kuatia.Storage.Events.{append_event_locked}

-- `accounts.get(id).and_then(|v| v.last())`
unfoldable pub current_version : AccountId → Map AccountId (List Account) → Option Account
current_version id accounts = elim (lookup id accounts) [
  | none ↦ none
  | some versions ↦ last versions
]

unfoldable pub get_account : Map AccountId (List Account) → AccountId → Outcome StoreError Account
get_account accounts id = ok_or (current_version id accounts) not_found

unfoldable pub get_accounts :
    Map AccountId (List Account) → List AccountId → Outcome StoreError (List Account)
get_accounts accounts [] = ok []
get_accounts accounts (id ∷ ids) = do
  a ← ok_or (current_version id accounts) not_found
  rest ← get_accounts accounts ids
  ok (a ∷ rest)

unfoldable pub create_account :
    Account → Map AccountId (List Account) → Map AccountId (List Account) × ℕ
create_account a accounts =
    if contains_key a.id accounts then (accounts, 0) else (insert a.id (a ∷ []) accounts, 1)

-- `u64::checked_add(1)`
abbrev pub next_version : ℕ → Option ℕ
next_version v = if ltb (v + 1) (2 ^ 64) then some (v + 1) else none

-- `versions.last().map(|a| a.version).unwrap_or(0)`
abbrev pub last_version : List Account → ℕ
last_version versions = elim (last versions) [ none ↦ 0 | some a ↦ a.version ]

unfoldable pub append_account_version :
    Account → Map AccountId (List Account) → Outcome StoreError (Map AccountId (List Account) × ℕ)
append_account_version a accounts = elim (lookup a.id accounts) [
  | none ↦ ok (accounts, 0)
  | some versions ↦ elim (next_version (last_version versions)) [
    | none ↦ err internal
    | some expected ↦
        if eqb a.version expected
        then ok (insert a.id (versions ++ (a ∷ [])) accounts, 1)
        else ok (accounts, 0)
  ]
]

unfoldable pub get_account_history :
    Map AccountId (List Account) → AccountId → Outcome StoreError (List Account)
get_account_history accounts id = ok_or (lookup id accounts) not_found

abbrev pub last_of_each : List (List Account) → List Account
last_of_each [] = []
last_of_each (v ∷ vs) = elim (last v) [ none ↦ last_of_each vs | some a ↦ a ∷ last_of_each vs ]

unfoldable pub list_accounts : Map AccountId (List Account) → List Account
list_accounts accounts = last_of_each (values accounts)

pub data TransitionRejection : Type 0 where
  already_closed : AccountId → TransitionRejection
  version_conflict : AccountId → (expected : ℕ) → TransitionRejection

pub data TransitionOutcome : Type 0 where
  applied already_applied : TransitionOutcome
  transition_rejected : TransitionRejection → TransitionOutcome

-- The tables that a transition writes.
pub record AccountTables : Type 0 where
  pub accounts : Map AccountId (List Account)
  pub events : List LedgerEvent

unfoldable pub commit_transition :
    ℕ → Account → LedgerEvent → AccountTables → Outcome StoreError TransitionOutcome × AccountTables
commit_transition seq next event t = elim (lookup next.id t.accounts) [
  | none ↦ (err internal, t)
  | some versions ↦ elim (last versions) [
    | none ↦ (err internal, t)
    | some current ↦
        if is_closed current
        then (ok (transition_rejected (already_closed next.id)), t)
        else if leb next.version current.version
        then (ok already_applied, record t { events = append_event_locked seq event t.events })
        else elim (next_version current.version) [
          | none ↦ (err internal, t)
          | some expected ↦
              if not (eqb next.version expected)
              then (ok (transition_rejected (version_conflict next.id next.version)), t)
              else (
                ok applied,
                record {
                  accounts = insert next.id (versions ++ (next ∷ [])) t.accounts;
                  events = append_event_locked seq event t.events;
                },
              )
        ]
  ]
]

unfoldable pub create_book : Book → Map BookId Book → Map BookId Book × ℕ
create_book b books = if contains_key b.id books then (books, 0) else (insert b.id b books, 1)

unfoldable pub get_book : Map BookId Book → BookId → Outcome StoreError Book
get_book books id = ok_or (lookup id books) not_found

abbrev pub list_books : Map BookId Book → List Book
list_books books = values books
