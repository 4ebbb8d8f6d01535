-- ===== src/Storage/Accounts/Chain.antt =====
-- crates/kuatia-storage/src/mem_store.rs: the version chains of accounts, and the outcomes of a transition.
use kuatia.Prelude.{
  ℕ, ◌≡◌, ◌≢◌, ◌⊎◌, refl, ◌+◌, true, false, some, List, [], ◌∷◌, ◌++◌, last, arith, Bool-cases,
  Option-cases, inl, inr, All, Outcome, ok, err, panic, eqb, leb,
}
use kuatia.Prelude.Map.{Map, lookup, insert, All-insert_entry, All-lookup, contains_key}
use kuatia.Types.{AccountId, Account, is_closed, account_id_eq}
use kuatia.Storage.Records.{StoreError, LedgerEvent}
use kuatia.Storage.Accounts.{
  create_account, append_account_version, next_version, last_version, AccountTables,
  commit_transition, applied,
}
use kuatia.Storage.Events.{append_event_locked}

-- The versions of one account: they name it, and each is one more than the version before it.
abbrev pub IsChain : AccountId → List Account → Type 0
IsChain id [] = Unit
IsChain id (a ∷ []) = a.id ≡ id
IsChain id (a ∷ b ∷ rest) = (a.id ≡ id) × (b.version ≡ a.version + 1) × IsChain id (b ∷ rest)

append-IsChain :
    (id : AccountId) (versions : List Account) (current next : Account)
    → IsChain id versions
    → last versions ≡ some current
    → next.id ≡ id
    → next.version ≡ current.version + 1
    → IsChain id (versions ++ (next ∷ []))
append-IsChain id [] current next c l n v = cc
append-IsChain id (a ∷ []) current next c l n v = let same : a ≡ current = cc in (c, rw same v, n)
append-IsChain id (a ∷ b ∷ rest) current next c l n v =
    (c.0, c.1, append-IsChain id (b ∷ rest) current next c.2 l n v)

next_version-eq : (v : ℕ) {n : ℕ} → next_version v ≡ some n → n ≡ v + 1
next_version-eq v h = ground arith

-- Every account has a chain, which has a version.
abbrev pub HasChain : AccountId × List Account → Type 0
HasChain x = IsChain x.0 x.1 × ((a : Account) × (last x.1 ≡ some a))

last-append : (xs : List Account) (a : Account) → last (xs ++ (a ∷ [])) ≡ some a
last-append [] a = refl
last-append (x ∷ []) a = refl
last-append (x ∷ y ∷ xs) a = last-append (y ∷ xs) a

append-HasChain :
    (accounts : Map AccountId (List Account)) (versions : List Account) (next : Account) {n : ℕ}
    → All HasChain accounts
    → lookup next.id accounts ≡ some versions
    → next_version (last_version versions) ≡ some n
    → eqb next.version n ≡ true
    → All HasChain (insert next.id (versions ++ (next ∷ [])) accounts)
append-HasChain accounts versions next {n} h found room same =
    let (chain, (current, l)) =
      All-lookup (λ k vs. HasChain (k, vs)) next.id versions accounts h found in
    let v : n ≡ current.version + 1 = next_version-eq _ (rw (last_version, l) at room) in
    All-insert_entry HasChain next.id (versions ++ (next ∷ [])) accounts
      (
        append-IsChain next.id versions current next chain l refl (ground arith),
        (next, last-append versions next),
      )
      h

pub create_account-HasChain :
    (a : Account) (accounts : Map AccountId (List Account))
    → All HasChain accounts
    → All HasChain (create_account a accounts).0
unfolding create_account
create_account-HasChain a accounts h = elim (Bool-cases (contains_key a.id accounts)) [
  | inl old ↦ rw (old, create_account) h
  | inr new ↦
      rw (new, create_account)
        (All-insert_entry HasChain a.id (a ∷ []) accounts (refl, (a, refl)) h)
]

-- The tables after an append that may fail.
abbrev pub Appended : Outcome StoreError (Map AccountId (List Account) × ℕ) → Type 0
Appended (ok (accounts, n)) = All HasChain accounts
Appended (err e) = Unit
Appended panic = ⊥

pub append_account_version-HasChain :
    (a : Account) (accounts : Map AccountId (List Account))
    → All HasChain accounts
    → Appended (append_account_version a accounts)
unfolding append_account_version
append_account_version-HasChain a accounts h = elim (Option-cases (lookup a.id accounts)) [
  | inl absent ↦ rw (absent, append_account_version) h
  | inr (versions, found) ↦ elim (Option-cases (next_version (last_version versions))) [
    | inl full ↦ rw (append_account_version, found, full) tt
    | inr (n, room) ↦ elim (Bool-cases (eqb a.version n)) [
      | inl same ↦
          rw (append_account_version, found, room, same)
            (append-HasChain accounts versions a h found room same)
      | inr other ↦ rw (append_account_version, found, room, other) h
    ]
  ]
]

-- A transition either answers something else than `applied` and leaves the accounts as they are, or
-- it answers `applied`, the head was not closed, the new version is one more than the head's, and
-- the new version is appended and its event logged.
pub commit_transition-cases :
    (seq : ℕ) (next : Account) (event : LedgerEvent) (t : AccountTables)
    → ((commit_transition seq next event t).0 ≢ ok applied)
        × ((commit_transition seq next event t).1.accounts ≡ t.accounts)
      ⊎ ((versions : List Account) × (current : Account) × (lookup next.id t.accounts
            ≡ some versions)
          × (last versions ≡ some current)
          × (is_closed current ≡ false)
          × (next.version ≡ current.version + 1)
          × (commit_transition seq next event t ≡ (
            ok applied,
            record {
              accounts = insert next.id (versions ++ (next ∷ [])) t.accounts;
              events = append_event_locked seq event t.events;
            },
          )))
unfolding commit_transition
commit_transition-cases seq next event t = elim (Option-cases (lookup next.id t.accounts)) [
  | inl absent ↦ rw (commit_transition, absent) (inl (λ p. cc, refl))
  | inr (versions, found) ↦ elim (Option-cases (last versions)) [
    | inl empty ↦ rw (commit_transition, found, empty) (inl (λ p. cc, refl))
    | inr (current, head) ↦ elim (Bool-cases (is_closed current)) [
      | inl shut ↦ rw (commit_transition, found, head, shut) (inl (λ p. cc, refl))
      | inr current_open ↦ elim (Bool-cases (leb next.version current.version)) [
        | inl old ↦ rw (commit_transition, found, head, current_open, old) (inl (λ p. cc, refl))
        | inr later ↦ elim (Option-cases (next_version current.version)) [
          | inl full ↦
              rw (commit_transition, found, head, current_open, later, full) (inl (λ p. cc, refl))
          | inr (n, room) ↦ elim (Bool-cases (eqb next.version n)) [
            | inl same ↦
                let one_more : next.version ≡ current.version + 1 =
                  ground (arith, next_version-eq current.version room) in
                inr (
                  versions,
                  current,
                  found,
                  head,
                  current_open,
                  one_more,
                  rw (commit_transition, found, head, current_open, later, room, same),
                )
            | inr other ↦
                rw (commit_transition, found, head, current_open, later, room, other)
                  (inl (λ p. cc, refl))
          ]
        ]
      ]
    ]
  ]
]

commit_transition-HasChain :
    (seq : ℕ) (next : Account) (event : LedgerEvent) (t : AccountTables)
    → All HasChain t.accounts
    → All HasChain (commit_transition seq next event t).1.accounts
commit_transition-HasChain seq next event t h = elim (commit_transition-cases seq next event t) [
  | inl (other, same) ↦ rw same h
  | inr (versions, current, found, head, current_open, one_more, result) ↦
      let (chain, some_head) =
        All-lookup (λ k vs. HasChain (k, vs)) next.id versions t.accounts h found in
      rw result (
        All-insert_entry HasChain next.id (versions ++ (next ∷ [])) t.accounts
          (
            append-IsChain next.id versions current next chain head refl one_more,
            (next, last-append versions next),
          )
          h)
]

-- Every account keeps a gap-free chain of versions that name it, whether an account is created, a
-- version is appended, or a transition is committed.
pub operations-HasChain :
    (a : Account) (seq : ℕ) (event : LedgerEvent) (t : AccountTables)
    → All HasChain t.accounts
    → All HasChain (create_account a t.accounts).0
      × Appended (append_account_version a t.accounts)
      × All HasChain (commit_transition seq a event t).1.accounts
operations-HasChain a seq event t h = (
  create_account-HasChain a t.accounts h,
  append_account_version-HasChain a t.accounts h,
  commit_transition-HasChain seq a event t h,
)
