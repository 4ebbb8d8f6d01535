-- ===== src/Core/Validate/Total.antt =====
-- `validate_and_plan` indexes maps where a missing key would panic: the keys of these maps.
use kuatia.Prelude.{
  ◌≡◌, ◌≢◌, ℕ, nat_eq, ◌&&◌, Option, none, some, List, [], ◌++◌, Outcome, ok, panic, ◌>>◌, for_each,
  for_each-All, All, All-imp, All-every, map_err, reject_if, ok_or, or_panic, is_empty, Bool-cases,
  inl, inr, eqb,
}
use kuatia.Prelude.Bytes.{Bytes}
use kuatia.Prelude.Map.{Map, keys, lookup}
use kuatia.Prelude.Panics.{
  >>=-ne-panic, >>-ne-panic, for_each-ne-panic, reject_if-ne-panic, ok_or-ne-panic,
  or_panic-ne-panic, map_err-ne-panic,
}
use kuatia.Money.{Cent, OverflowError, checked_add}
use kuatia.Money.Sums.{checked_add-ne-panic}
use kuatia.Types.{
  AccountId, Account, AccountSnapshotId, Book, PostingId, Posting, NewPosting, posting_id_eq,
  account_id_eq, balance_key_eq,
}
use kuatia.Core.Accumulate.{accumulate}
use kuatia.Core.Accumulate.Laws.{accumulate-ne-panic}
use kuatia.Core.Required.{
  empty_transfer, PlanInput, account_not_found, ValidationError, posting_not_found, from_overflow,
  posting_keys,
}
use kuatia.Core.Validate
use kuatia.Core.Validate.{validate_and_plan}
use kuatia.Core.Validate.Access.{IsOpen, check_account-IsOpen, owners-IsOpen}
use kuatia.Core.Validate.Steps.{
  IsLoaded, check_duplicates-ne-panic, consumed_of-ne-panic, check_exists-IsSupplied,
  index_postings-All, consumed_of-All, check_account-ne-panic, check_negative-ne-panic,
  check_overdraft-ne-panic,
}

check_conservation-ne-panic :
    (consumed : List Posting) (creates : List NewPosting)
    → Validate.check_conservation consumed creates ≢ panic
unfolding Validate.check_conservation Validate.check_asset
check_conservation-ne-panic consumed creates =
    >>=-ne-panic (map_err from_overflow (sums (Validate.asset_entries consumed))) _
      (map_err-ne-panic from_overflow _ (accumulate-ne-panic _ checked_add-ne-panic _ []))
      (λ c _.
        >>=-ne-panic (map_err from_overflow (sums (Validate.new_asset_entries creates))) _
          (map_err-ne-panic from_overflow _ (accumulate-ne-panic _ checked_add-ne-panic _ []))
          (λ d _.
            for_each-ne-panic (keys c ++ keys d) (Validate.check_asset c d)
              (All-every (λ a. reject_if-ne-panic _ _) _)))
  where
    sums : List (ℕ × Cent) → Outcome OverflowError (Map ℕ Cent)
    sums entries = accumulate checked_add entries []

check_book_assets-ne-panic :
    (book : Book) (consumed : List Posting) (creates : List NewPosting)
    → Validate.check_book_assets book consumed creates ≢ panic
unfolding Validate.check_book_assets
check_book_assets-ne-panic book consumed creates =
    elim (Bool-cases (is_empty book.policy.allowed_assets)) [
      | inl free ↦ rw free (λ q. cc)
      | inr bound ↦ rw bound (for_each-ne-panic _ _ (All-every (λ a. reject_if-ne-panic _ _) _))
    ]

check_book_accounts-ne-panic :
    (book : Book) (accounts : Map AccountId Account) (owners : List AccountId)
    → All (IsLoaded accounts) owners
    → Validate.check_book_accounts book accounts owners ≢ panic
unfolding Validate.check_book_accounts
check_book_accounts-ne-panic book accounts owners h =
    elim (Bool-cases (is_empty book.policy.allowed_accounts && eqb book.policy.allowed_flags 0)) [
      | inl free ↦ rw free (λ q. cc)
      | inr bound ↦ rw bound (
          for_each-ne-panic owners _ (
            All-imp owners
              (λ aid known.
                >>=-ne-panic (or_panic (lookup aid accounts)) _ (or_panic-ne-panic _ known.1)
                  (λ a _. reject_if-ne-panic _ _))
              h))
    ]

check_book-ne-panic :
    (sha256 : Bytes → Bytes) (input : PlanInput) (consumed : List Posting) (owners : List AccountId)
    → All (IsLoaded input.accounts) owners
    → Validate.check_book sha256 input consumed owners ≢ panic
check_book-ne-panic sha256 input consumed owners h = split input.book
  where
    split :
        (b : Option Book)
        → (elim b as (λ _. Outcome ValidationError (Unit {0})) [
          | none ↦ ok tt
          | some book ↦
              Validate.check_book_assets book consumed input.envelope.creates
              >> Validate.check_book_accounts book input.accounts owners
        ])
          ≢ panic
    split none = λ q. cc
    split (some book) =
        >>-ne-panic (Validate.check_book_assets book consumed input.envelope.creates) _
          (check_book_assets-ne-panic book consumed input.envelope.creates)
          (λ _. check_book_accounts-ne-panic book input.accounts owners h)

module _ (sha256 : Bytes → Bytes) where
  check_snapshot-ne-panic :
      (accounts : Map AccountId Account) (snap : AccountSnapshotId)
      → Validate.check_snapshot sha256 accounts snap ≢ panic
  unfolding Validate.check_snapshot
  check_snapshot-ne-panic accounts snap =
      >>=-ne-panic (ok_or (lookup snap.account accounts) (account_not_found snap.account)) _
        (ok_or-ne-panic _ _) (λ a _. reject_if-ne-panic _ _)

  check_exists-ne-panic :
      (by_id : Map PostingId Posting) (pids : List PostingId)
      → Validate.check_exists by_id pids ≢ panic
  unfolding Validate.check_exists
  check_exists-ne-panic by_id pids = for_each-ne-panic pids _ (
      All-every
        (λ pid.
          >>=-ne-panic (ok_or (lookup pid by_id) (posting_not_found pid)) _ (ok_or-ne-panic _ _)
            (λ p _ q. cc))
        pids)

  -- Validation answers with a plan or with an error on every input: none of its map look-ups by index
  -- panics.
  pub validate-ne-panic : (input : PlanInput) → validate_and_plan sha256 input ≢ panic
  unfolding validate_and_plan
  validate-ne-panic input =
      >>-ne-panic (reject_if (is_empty e.consumes && is_empty e.creates) empty_transfer) _
        (reject_if-ne-panic _ _)
        λ _.
          >>-ne-panic (Validate.check_duplicates [] e.consumes) _
            (check_duplicates-ne-panic [] e.consumes)
            λ _.
              >>-ne-panic (Validate.check_exists by_id e.consumes) _
                (check_exists-ne-panic by_id e.consumes)
                λ h3.
                  >>-ne-panic (for_each owners (Validate.check_account input.accounts)) _
                    (for_each-ne-panic owners _
                      (All-every (check_account-ne-panic input.accounts) _))
                    λ h4.
                      >>-ne-panic
                        (for_each e.account_snapshots
                          (Validate.check_snapshot sha256 input.accounts))
                        _
                        (for_each-ne-panic e.account_snapshots _
                          (All-every (check_snapshot-ne-panic input.accounts) _))
                        λ _.
                          >>=-ne-panic (Validate.consumed_of by_id e.consumes) _
                            (consumed_of-ne-panic by_id e.consumes
                              (check_exists-IsSupplied by_id e.consumes h3))
                            λ consumed h6.
                              >>-ne-panic (Validate.check_book sha256 input consumed owners) _
                                (check_book-ne-panic sha256 input consumed owners
                                  (owners-IsLoaded h4))
                                λ _.
                                  >>-ne-panic (Validate.check_conservation consumed e.creates) _
                                    (check_conservation-ne-panic consumed e.creates)
                                    λ _.
                                      >>-ne-panic
                                        (for_each e.creates
                                          (Validate.check_negative input.accounts))
                                        _
                                        (for_each-ne-panic e.creates _
                                          (All-every (check_negative-ne-panic input.accounts) _))
                                        λ _.
                                          >>-ne-panic
                                            (Validate.check_overdraft input.accounts input.balances
                                              consumed e.creates)
                                            _
                                            (check_overdraft-ne-panic input.accounts input.balances
                                              consumed e.creates
                                              (consumed_of-All Loaded by_id e.consumes
                                                (index_postings-All Loaded input.consumed_postings
                                                  [] tt
                                                  (All-imp _ (λ p. weaken p.owner)
                                                    (owners-IsOpen input h4).1))
                                                h6)
                                              (All-imp _ (λ p. weaken p.owner)
                                                (owners-IsOpen input h4).0))
                                            λ _ q. cc
    where
      open input use {envelope as e}

      by_id : Map PostingId Posting
      by_id = Validate.index_postings [] input.consumed_postings

      owners : List AccountId
      owners = (posting_keys e input.consumed_postings).owners

      Loaded : Posting → Type 0
      Loaded p = IsLoaded input.accounts p.owner

      weaken : (aid : AccountId) → IsOpen input.accounts aid → IsLoaded input.accounts aid
      weaken aid (a, found, _, _) = (a, found)

      owners-IsLoaded :
          for_each owners (Validate.check_account input.accounts) ≡ ok tt
          → All (IsLoaded input.accounts) owners
      owners-IsLoaded h =
          All-imp owners (λ aid c. weaken aid (check_account-IsOpen input.accounts aid c))
            (for_each-All owners _ h)
