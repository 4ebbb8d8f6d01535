-- ===== src/Storage/Commit/Guards.antt =====
-- The outcomes of `commit_envelope`, and what its guards have established when it commits.
use kuatia.Prelude.{
  ◌≡◌, ◌≢◌, ◌⊎◌, refl, ℕ, Bool, true, false, not, none, some, arith, Outcome, ok, err, panic,
  >>=-eq-ok, >>-eq-ok, ok_or-eq-ok, reject_if-eq-ok, for_each-All, Option-cases, inl, inr, All,
  All-imp, list_eq, nat_eq,
}
use kuatia.Prelude.Map.{lookup, contains_key}
use kuatia.Types.{AccountId, Account, Receipt, is_frozen, is_closed, account_id_eq, posting_id_eq}
use kuatia.Storage.Records.{InMemoryStore}
use kuatia.Storage.Accounts.{current_version}
use kuatia.Storage.Commit.{
  CommitRequest, committed, Stop, fail, reject, guards, guard_open, guard_active, guard_floor,
  account_of, apply_commit, commit_envelope,
}

-- A call either leaves the whole store as it is and does not answer `committed`, or the transfer was
-- not stored, every guard passes, and it answers `committed` with the receipt and the changed store.
pub commit_envelope-cases :
    (seq : ℕ) (req : CommitRequest) (s : InMemoryStore)
    → ((commit_envelope seq req s).1 ≡ s)
        × ((r : Receipt) → (commit_envelope seq req s).0 ≢ ok (committed r))
      ⊎ (lookup req.transfer_id s.transfers ≡ none)
        × (guards s.accounts s.postings.active req ≡ ok tt)
        × (commit_envelope seq req s
            ≡ (ok (committed req.envelope_record.receipt), apply_commit seq req s))
unfolding commit_envelope
commit_envelope-cases seq req s = elim (Option-cases (lookup req.transfer_id s.transfers)) [
  | inr (old, found) ↦ rw (commit_envelope, found) (inl (refl, λ r p. cc))
  | inl new ↦ by_guards (guards s.accounts s.postings.active req) refl new
]
  where
    by_guards :
        (g : Outcome Stop (Unit {0}))
        → guards s.accounts s.postings.active req ≡ g
        → lookup req.transfer_id s.transfers ≡ none
        → ((commit_envelope seq req s).1 ≡ s)
            × ((r : Receipt) → (commit_envelope seq req s).0 ≢ ok (committed r))
          ⊎ (lookup req.transfer_id s.transfers ≡ none)
            × (guards s.accounts s.postings.active req ≡ ok tt)
            × (commit_envelope seq req s
                ≡ (ok (committed req.envelope_record.receipt), apply_commit seq req s))
    by_guards (ok tt) g new = inr (new, g, rw (commit_envelope, new, g))
    by_guards (err (fail e)) g new = rw (commit_envelope, new, g) (inl (refl, λ r p. cc))
    by_guards (err (reject r)) g new = rw (commit_envelope, new, g) (inl (refl, λ r p. cc))
    by_guards panic g new = rw (commit_envelope, new, g) (inl (refl, λ r p. cc))

-- An account that is there, and neither frozen nor closed.
abbrev pub IsOpen : InMemoryStore → AccountId → Type 0
IsOpen s id =
    (a : Account) × (current_version id s.accounts ≡ some a)
    × (is_frozen a ≡ false)
    × (is_closed a ≡ false)

guard_open-IsOpen :
    (s : InMemoryStore) (id : AccountId) → guard_open s.accounts id ≡ ok tt → IsOpen s id
unfolding guard_open account_of
guard_open-IsOpen s id h =
    let (a, found, r) = >>=-eq-ok _ _ h in
    let (f, c) = >>-eq-ok _ _ r in
    (a, ok_or-eq-ok _ _ found, reject_if-eq-ok _ _ f, reject_if-eq-ok _ _ c)

not-false : (b : Bool) → not b ≡ false → b ≡ true
not-false b h = ground arith

pub guards-All :
    (s : InMemoryStore) (req : CommitRequest)
    → guards s.accounts s.postings.active req ≡ ok tt
    → All (IsOpen s) req.involved
      × All (λ id. contains_key id s.postings.active ≡ true) req.consume
      × All (λ id. guard_floor s.accounts s.postings.active req id ≡ ok tt) req.involved
unfolding guards guard_active
guards-All s req h =
    let (a, r) = >>-eq-ok _ _ h in
    let (b, c) = >>-eq-ok _ _ r in
    (
      All-imp _ (guard_open-IsOpen s) (for_each-All _ _ a),
      All-imp _ (λ id k. not-false _ (reject_if-eq-ok _ _ k)) (for_each-All _ _ b),
      for_each-All _ _ c,
    )

-- If a call answers `committed`, then every involved account exists and was neither frozen nor closed,
-- and every consumed posting was active.
pub commit_envelope-IsOpen :
    (seq : ℕ) (req : CommitRequest) (s : InMemoryStore) {r : Receipt}
    → (commit_envelope seq req s).0 ≡ ok (committed r)
    → All (IsOpen s) req.involved × All (λ id. contains_key id s.postings.active ≡ true) req.consume
commit_envelope-IsOpen seq req s {r} h = elim (commit_envelope-cases seq req s) [
  | inl (same, other) ↦ absurd (other r h)
  | inr (new, passed, result) ↦ let (a, b, c) = guards-All s req passed in (a, b)
]
