-- ===== src/Ledger/Lifecycle.antt =====
-- crates/kuatia/src/ledger/lifecycle.rs, transition.rs: accounts are created, frozen, unfrozen and closed.
-- `seq` and `now` are what the id generator and the clock hand out.
use kuatia.Prelude.{
  ℕ, Bool, not, none, some, ℤ, if◌then◌else◌, is_empty, Outcome, ok, err, panic, eqb,
}
use kuatia.Types.{
  AccountId, AccountFlags, Account, is_closed, with_flag, without_flag, frozen, closed, live,
}
use kuatia.Storage.{
  StoreError, LedgerEventKind, account_created, account_frozen, account_unfrozen, account_closed,
  InMemoryStore,
}
use kuatia.Storage.Tables.{get_postings_by_account}
use kuatia.Storage.Events.{append_event}
use kuatia.Storage.Accounts.{
  get_account, next_version, AccountTables, TransitionOutcome, applied, already_applied,
  transition_rejected, already_closed, version_conflict,
}
use kuatia.Storage.Accounts as Store
use kuatia.Ledger.Errors.{
  LedgerError, store_error, unknown_account, account_not_empty, account_already_closed,
  account_already_exists, account_version_conflict, ledger_overflow,
}

abbrev pub Answer : Type 0
Answer = Outcome LedgerError (Unit {0})

abbrev pub tables_of : InMemoryStore → AccountTables
tables_of s = record { accounts = s.accounts; events = s.events }

abbrev pub with_tables : InMemoryStore → AccountTables → InMemoryStore
with_tables s t = record s { accounts = t.accounts; events = t.events }

abbrev pub transition_answer : Outcome StoreError TransitionOutcome → Answer
transition_answer (ok applied) = ok tt
transition_answer (ok already_applied) = ok tt
transition_answer (ok (transition_rejected (already_closed a))) = err (account_already_closed a)
transition_answer (ok (transition_rejected (version_conflict a v))) =
    err (account_version_conflict a v)
transition_answer (err e) = err (store_error e)
transition_answer panic = panic

-- The store's answer, and the store with the tables that it wrote.
abbrev pub settle :
    InMemoryStore → Outcome StoreError TransitionOutcome × AccountTables → Answer × InMemoryStore
settle s (o, t) = (transition_answer o, with_tables s t)

-- What is left once the account is loaded.
abbrev pub transition_from :
    ℕ
    → ℤ
    → (AccountFlags → AccountFlags)
    → (AccountId → ℕ → LedgerEventKind)
    → AccountId
    → InMemoryStore
    → Outcome StoreError Account
    → Answer × InMemoryStore
transition_from seq now mutate make_event id s (err e) = (err (unknown_account id), s)
transition_from seq now mutate make_event id s panic = (panic, s)
transition_from seq now mutate make_event id s (ok current) =
    if is_closed current
    then (err (account_already_closed id), s)
    else elim (next_version current.version) [
      | none ↦ (err ledger_overflow, s)
      | some v ↦ settle s (
          Store.commit_transition seq (record current { version = v; flags = mutate current.flags })
            (record { seq = 0; timestamp = now; kind = make_event id v }) (tables_of s))
    ]

unfoldable pub transition :
    ℕ
    → ℤ
    → (AccountFlags → AccountFlags)
    → (AccountId → ℕ → LedgerEventKind)
    → AccountId
    → InMemoryStore
    → Answer × InMemoryStore
transition seq now mutate make_event id s =
    transition_from seq now mutate make_event id s (get_account s.accounts id)

unfoldable pub create_account : ℕ → ℤ → Account → InMemoryStore → Answer × InMemoryStore
create_account seq now account s =
    let (accounts, n) = Store.create_account account s.accounts in
    if eqb n 0 then (err (account_already_exists account.id), s) else (
      ok tt,
      record s {
        accounts = accounts;
        events =
            (append_event seq
              (record { seq = 0; timestamp = now; kind = account_created account.id }) s.events).1;
      },
    )

unfoldable pub freeze : ℕ → ℤ → AccountId → InMemoryStore → Answer × InMemoryStore
unfolding transition
freeze seq now = transition seq now (with_flag frozen) account_frozen

unfoldable pub unfreeze : ℕ → ℤ → AccountId → InMemoryStore → Answer × InMemoryStore
unfolding transition
unfreeze seq now = transition seq now (without_flag frozen) account_unfrozen

unfoldable pub has_live_postings : AccountId → InMemoryStore → Bool
has_live_postings account s =
    not (is_empty (get_postings_by_account s.postings account.id (some account.sub) none live))

unfoldable pub close : ℕ → ℤ → AccountId → InMemoryStore → Answer × InMemoryStore
unfolding transition has_live_postings
close seq now id s =
    if has_live_postings id s
    then (err (account_not_empty id), s)
    else transition seq now (λ flags. without_flag frozen (with_flag closed flags)) account_closed
        id s
