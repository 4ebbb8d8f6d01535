-- ===== src/Core/Validate/Steps.antt =====
-- The steps of `validate_and_plan` that read the loaded accounts and postings, and panics.
use kuatia.Prelude.{
  ◌≡◌, ◌≢◌, nat_eq, subst, some, List, [], ◌∷◌, Outcome, ok, panic, for_each-All, All, All-imp,
  All-map, map_err, map_err-eq-ok, >>=-eq-ok, ok_or-eq-ok, or_panic-eq-ok, ok-injective, reject_if,
  ok_or, Bool-cases, inl, inr,
}
use kuatia.Prelude.Map.{Map, lookup, insert, All-lookup, All-insert}
use kuatia.Prelude.Panics.{
  >>=-ne-panic, >>-ne-panic, for_each-ne-panic, reject_if-ne-panic, ok_or-ne-panic,
  or_panic-ne-panic, map_err-ne-panic,
}
use kuatia.Money.{Cent, OverflowError, checked_add, checked_sub, is_negative}
use kuatia.Money.Sums.{checked_add-ne-panic, checked_sub-ne-panic}
use kuatia.Types.{
  is_frozen, AccountId, Account, BalanceKey, PostingId, Posting, NewPosting, forbids_overdraft,
  posting_id_eq, account_id_eq, balance_key_eq,
}
use kuatia.Core.Accumulate.{accumulate}
use kuatia.Core.Accumulate.Laws.{accumulate-All, accumulate-ne-panic}
use kuatia.Core.Required.{
  account_not_found, account_frozen, ValidationError, posting_not_found, from_overflow,
}
use kuatia.Core.Validate
use kuatia.Core.Validate.{validate_and_plan}

-- A loaded account.
abbrev pub IsLoaded : Map AccountId Account → AccountId → Type 0
IsLoaded accounts aid = (a : Account) × (lookup aid accounts ≡ some a)

abbrev pub IsSupplied : Map PostingId Posting → PostingId → Type 0
IsSupplied by_id pid = (p : Posting) × (lookup pid by_id ≡ some p)

pub check_duplicates-ne-panic :
    (seen pids : List PostingId) → Validate.check_duplicates seen pids ≢ panic
unfolding Validate.check_duplicates
check_duplicates-ne-panic seen [] = λ p. cc
check_duplicates-ne-panic seen (pid ∷ pids) =
    >>-ne-panic _ _ (reject_if-ne-panic _ _) (λ _. check_duplicates-ne-panic (pid ∷ seen) pids)

pub consumed_of-ne-panic :
    (by_id : Map PostingId Posting) (pids : List PostingId)
    → All (IsSupplied by_id) pids
    → Validate.consumed_of by_id pids ≢ panic
unfolding Validate.consumed_of
consumed_of-ne-panic by_id [] h = λ p. cc
consumed_of-ne-panic by_id (pid ∷ pids) h =
    >>=-ne-panic _ _ (or_panic-ne-panic _ h.0.1)
      (λ p _. >>=-ne-panic _ _ (consumed_of-ne-panic by_id pids h.1) (λ ps _ q. cc))

pub check_exists-IsSupplied :
    (by_id : Map PostingId Posting) (pids : List PostingId)
    → Validate.check_exists by_id pids ≡ ok tt
    → All (IsSupplied by_id) pids
unfolding Validate.check_exists
check_exists-IsSupplied by_id pids h =
    All-imp pids
      (λ pid e.
        let (p, found, _) = >>=-eq-ok _ _ e in (p, ok_or-eq-ok _ (posting_not_found pid) found))
      (for_each-All pids _ h)

-- What holds of the supplied postings holds of those found among them.
pub index_postings-All :
    (P : Posting → Type 0) (ps : List Posting) (m : Map PostingId Posting)
    → All (λ x. P x.1) m
    → All P ps
    → All (λ x. P x.1) (Validate.index_postings m ps)
unfolding Validate.index_postings
index_postings-All P [] m h ps = h
index_postings-All P (p ∷ rest) m h ps =
    index_postings-All P rest (insert p.id p m) (All-insert P p.id p m ps.0 h) ps.1

pub consumed_of-All :
    (P : Posting → Type 0) (by_id : Map PostingId Posting) (pids : List PostingId)
    {ps : List Posting}
    → All (λ x. P x.1) by_id
    → Validate.consumed_of by_id pids ≡ ok ps
    → All P ps
unfolding Validate.consumed_of
consumed_of-All P by_id [] all h = subst (All P) (ok-injective h) tt
consumed_of-All P by_id (pid ∷ pids) all h =
    let (p, found, rest) = >>=-eq-ok _ _ h in
    let (ps, more, last) = >>=-eq-ok _ _ rest in
    let here : P p =
      All-lookup (λ _. P) pid p by_id all (or_panic-eq-ok {E = ValidationError} _ found) in
    let both : All P (p ∷ ps) = (here, consumed_of-All P by_id pids all more) in
    subst (All P) (ok-injective last) both

module _ (accounts : Map AccountId Account) where
  pub check_account-ne-panic : (aid : AccountId) → Validate.check_account accounts aid ≢ panic
  unfolding Validate.check_account
  check_account-ne-panic aid =
      >>=-ne-panic (ok_or (lookup aid accounts) (account_not_found aid)) _ (ok_or-ne-panic _ _)
        (λ a _.
          >>-ne-panic (reject_if (is_frozen a) (account_frozen aid)) _ (reject_if-ne-panic _ _)
            (λ _. reject_if-ne-panic _ _))

  pub check_negative-ne-panic : (p : NewPosting) → Validate.check_negative accounts p ≢ panic
  unfolding Validate.check_negative
  check_negative-ne-panic p = elim (Bool-cases (is_negative p.value)) [
    | inl neg ↦ rw neg (
        >>=-ne-panic (ok_or (lookup p.owner accounts) (account_not_found p.owner)) _
          (ok_or-ne-panic _ _) (λ a _. reject_if-ne-panic (forbids_overdraft a) _))
    | inr nonneg ↦ rw nonneg (λ q. cc)
  ]

  pub check_projected-ne-panic :
      (balances : Map BalanceKey Cent) (key : BalanceKey) (delta : Cent)
      → Validate.check_projected balances key delta ≢ panic
  check_projected-ne-panic balances key delta =
      >>=-ne-panic _ _ (map_err-ne-panic _ _ (checked_add-ne-panic _ _))
        (λ c _. reject_if-ne-panic _ _)

  pub check_floor-ne-panic :
      (balances : Map BalanceKey Cent) (x : BalanceKey × Cent)
      → IsLoaded accounts x.0.0
      → Validate.check_floor accounts balances x ≢ panic
  unfolding Validate.check_floor
  check_floor-ne-panic balances (key, delta) (a, known) =
      >>=-ne-panic _ _ (or_panic-ne-panic _ known) (λ b _. elim (Bool-cases (forbids_overdraft b)) [
        | inl e ↦ rw e (check_projected-ne-panic balances key delta)
        | inr e ↦ rw e (λ q. cc)
      ])

  pub check_overdraft-ne-panic :
      (balances : Map BalanceKey Cent) (consumed : List Posting) (creates : List NewPosting)
      → All (λ p. IsLoaded accounts p.owner) consumed
      → All (λ p. IsLoaded accounts p.owner) creates
      → Validate.check_overdraft accounts balances consumed creates ≢ panic
  unfolding Validate.check_overdraft
  check_overdraft-ne-panic balances consumed creates hs ks =
      >>=-ne-panic (map_err from_overflow debits) _
        (map_err-ne-panic from_overflow debits (accumulate-ne-panic _ checked_sub-ne-panic _ []))
        (λ debited e.
          >>=-ne-panic (map_err from_overflow (credits debited)) _
            (map_err-ne-panic from_overflow (credits debited)
              (accumulate-ne-panic _ checked_add-ne-panic _ debited))
            (λ deltas f. for_each-ne-panic deltas (Validate.check_floor accounts balances) (
              All-imp deltas (check_floor-ne-panic balances) (
                accumulate-All Loaded checked_add _ debited (map_err-eq-ok from_overflow _ f)
                  (All-map (λ x. Loaded x.0) new_owner_entry creates ks)
                  (accumulate-All Loaded checked_sub _ [] (map_err-eq-ok from_overflow _ e)
                    (All-map (λ x. Loaded x.0) owner_entry consumed hs) tt)))))
    where
      Loaded : BalanceKey → Type 0
      Loaded key = IsLoaded accounts key.0

      owner_entry : Posting → BalanceKey × Cent
      owner_entry p = ((p.owner, p.asset), p.value)

      new_owner_entry : NewPosting → BalanceKey × Cent
      new_owner_entry p = ((p.owner, p.asset), p.value)

      debits : Outcome OverflowError (Map BalanceKey Cent)
      debits = accumulate checked_sub (Validate.owner_entries consumed) []

      credits : Map BalanceKey Cent → Outcome OverflowError (Map BalanceKey Cent)
      credits debited = accumulate checked_add (Validate.new_owner_entries creates) debited
