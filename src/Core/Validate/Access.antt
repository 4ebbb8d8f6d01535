-- ===== src/Core/Validate/Access.antt =====
-- Steps 2 to 5c of `validate_and_plan`: which postings, accounts and books a plan may touch.
use kuatia.Prelude.{
  ◌≡◌, ◌≢◌, refl, pos, Bool, true, false, not, ◌&&◌, some, List, [], ◌∷◌, map, arith, ok, >>=-eq-ok,
  >>-eq-ok, for_each-All, for_each, reject_if-eq-ok, is_empty, All-of_map, All-append_left,
  All-append_right, Bool-cases, inl, inr, ◌⊎◌, All, All-imp, All-every, ℕ, or_panic-eq-ok,
  ok_or-eq-ok, ==→eq, contains, list_eq, nat_eq, eqb,
}
use kuatia.Prelude.Bytes.{Bytes}
use kuatia.Prelude.Map.{Map, lookup}
use kuatia.Prelude.Sort.{All-of_sort, All-of_dedup}
use kuatia.Prelude.Distinct.{IsDistinct, contains_none}
use kuatia.Prelude.Members.{contains-Memᴰ}
use mathlib.Core.List.{Memᴰ}
use Prim.Native.Nat.{bit_and}
use kuatia.Types.{
  base, AccountId, Account, AccountSnapshotId, Book, PostingId, Posting, NewPosting, is_frozen,
  is_closed, account_id_eq, posting_id_eq, le_account,
}
use kuatia.Core.Hash.{account_hash}
use kuatia.Core.Required.{
  PlanInput, Plan, ValidationError, account_not_found, posting_not_found, posting_keys,
}
use kuatia.Core.Validate.{
  index_postings, check_duplicates, check_exists, check_account, check_snapshot, check_book_assets,
  check_book_accounts, build_plan, is_listed, validate_and_plan,
}
use kuatia.Core.Validate.Inversion.{validate-Passed}

-- An account that is loaded, not frozen and not closed.
abbrev pub IsOpen : Map AccountId Account → AccountId → Type 0
IsOpen accounts aid =
    (a : Account) × (lookup aid accounts ≡ some a) × (is_frozen a ≡ false) × (is_closed a ≡ false)

pub check_account-IsOpen :
    (accounts : Map AccountId Account) (aid : AccountId)
    → check_account accounts aid ≡ ok tt
    → IsOpen accounts aid
unfolding check_account
check_account-IsOpen accounts aid h =
    let (a, found, r) = >>=-eq-ok _ _ h in
    let (h1, h2) = >>-eq-ok _ _ r in
    (a, ok_or-eq-ok _ (account_not_found aid) found, reject_if-eq-ok _ _ h1, reject_if-eq-ok _ _ h2)

-- The owners' check, read back on the postings.
pub owners-IsOpen :
    (input : PlanInput)
    → for_each
        (posting_keys input.envelope input.consumed_postings).owners
        (check_account input.accounts)
      ≡ ok tt
    → All (λ p. IsOpen input.accounts p.owner) input.envelope.creates
      × All (λ p. IsOpen input.accounts p.owner) input.consumed_postings
unfolding posting_keys
owners-IsOpen input h =
    let owners : All (IsOpen input.accounts) _ = All-of_sort (IsOpen input.accounts) le_account _ (
      All-of_dedup (IsOpen input.accounts) _
        (All-imp _ (check_account-IsOpen input.accounts) (for_each-All _ _ h))) in
    (
      All-of_map (IsOpen input.accounts) (λ q. q.owner) _
          (All-append_left (IsOpen input.accounts) _ _ owners),
      All-of_map (IsOpen input.accounts) (λ q. q.owner) _
          (All-append_right (IsOpen input.accounts) _ _ owners),
    )

-- If validation returns a plan, then the owner of every created posting and of every consumed
-- posting is loaded, not frozen and not closed.
pub validate-IsOpen :
    (sha256 : Bytes → Bytes) (input : PlanInput) {plan : Plan}
    → validate_and_plan sha256 input ≡ ok plan
    → All (λ p. IsOpen input.accounts p.owner) input.envelope.creates
      × All (λ p. IsOpen input.accounts p.owner) input.consumed_postings
validate-IsOpen sha256 input h = owners-IsOpen input (validate-Passed sha256 input h).accounts

-- A pinned account whose loaded state has the pinned hash.
abbrev pub IsCurrent : (Bytes → Bytes) → Map AccountId Account → AccountSnapshotId → Type 0
IsCurrent sha256 accounts snap =
    (a : Account) × (lookup snap.account accounts ≡ some a)
    × (snap.snapshot_id ≡ account_hash sha256 a)

not-false : (b : Bool) → not b ≡ false → b ≡ true
not-false true h = refl
not-false false h = cc

check_snapshot-IsCurrent :
    (sha256 : Bytes → Bytes) (accounts : Map AccountId Account) (snap : AccountSnapshotId)
    → check_snapshot sha256 accounts snap ≡ ok tt
    → IsCurrent sha256 accounts snap
unfolding check_snapshot
check_snapshot-IsCurrent sha256 accounts snap h =
    let (a, found, r) = >>=-eq-ok _ _ h in
    (
      a,
      ok_or-eq-ok _ (account_not_found snap.account) found,
      ==→eq _ _ (not-false _ (reject_if-eq-ok _ _ r)),
    )

-- If validation returns a plan, then every pinned account is loaded in the state that was pinned.
pub validate-IsCurrent :
    (sha256 : Bytes → Bytes) (input : PlanInput) {plan : Plan}
    → validate_and_plan sha256 input ≡ ok plan
    → All (IsCurrent sha256 input.accounts) input.envelope.account_snapshots
validate-IsCurrent sha256 input h =
    let p = validate-Passed sha256 input h in
    All-imp _ (check_snapshot-IsCurrent sha256 input.accounts) (for_each-All _ _ p.snapshots)

check_duplicates-IsDistinct :
    (seen pids : List PostingId)
    → check_duplicates seen pids ≡ ok tt
    → IsDistinct pids × All (λ q. contains q seen ≡ false) pids
unfolding check_duplicates contains
check_duplicates-IsDistinct seen [] h = (tt, tt)
check_duplicates-IsDistinct seen (pid ∷ pids) h =
    let (fresh, rest) = >>-eq-ok _ _ h in
    let (distinct, apart) = check_duplicates-IsDistinct (pid ∷ seen) pids rest in
    (
      (contains_none pid pids (All-imp pids (λ q k. ground arith) apart), distinct),
      (reject_if-eq-ok _ _ fresh, All-imp pids (λ q k. ground arith) apart),
    )

-- If validation returns a plan, then the plan spends the postings that the envelope consumes, no
-- posting twice, and all of them were supplied.
pub validate-IsDistinct :
    (sha256 : Bytes → Bytes) (input : PlanInput) {plan : Plan}
    → validate_and_plan sha256 input ≡ ok plan
    → (plan.postings_to_deactivate ≡ input.envelope.consumes)
      × IsDistinct plan.postings_to_deactivate
      × All
          (λ pid. (p : Posting) × (lookup pid (index_postings [] input.consumed_postings) ≡ some p))
          plan.postings_to_deactivate
unfolding build_plan check_exists
validate-IsDistinct sha256 input h =
    let p = validate-Passed sha256 input h in
    rw p.planned (
      refl,
      (check_duplicates-IsDistinct [] input.envelope.consumes p.distinct).0,
      All-imp _
          (λ pid e.
            let (q, found, _) = >>=-eq-ok _ _ e in (q, ok_or-eq-ok _ (posting_not_found pid) found))
          (for_each-All _ _ p.exist),
    )

is_empty-nil {ℓ} : {A : Type ℓ} (xs : List A) → is_empty xs ≡ true → xs ≡ []
is_empty-nil [] h = refl
is_empty-nil (x ∷ xs) h = cc

-- The assets of a book: all, or those that it lists.
abbrev pub AllowsAsset : Book → ℕ → Type 0
AllowsAsset book asset =
    (is_empty book.policy.allowed_assets ≡ true)
    ⊎ (contains asset book.policy.allowed_assets ≡ true)

-- The accounts of a book: all, if it lists neither accounts nor flags, or else the loaded ones whose main
-- account is listed or whose flags have a bit in common with
-- the allowed ones.
abbrev pub AllowsAccount : Book → Map AccountId Account → AccountId → Type 0
AllowsAccount book accounts aid =
    (book.policy.allowed_accounts ≡ []) × (book.policy.allowed_flags ≡ 0)
    ⊎ ((a : Account) × (lookup aid accounts ≡ some a)
        × (Memᴰ (record { id = aid.id; sub = pos 0 }) book.policy.allowed_accounts
            ⊎ (bit_and a.flags book.policy.allowed_flags ≢ 0)))

module _ (book : Book) where
  check_book_assets-Allows :
      (consumed : List Posting) (creates : List NewPosting)
      → check_book_assets book consumed creates ≡ ok tt
      → All (AllowsAsset book) (map (λ p. p.asset) creates)
  unfolding check_book_assets
  check_book_assets-Allows consumed creates h =
      elim (Bool-cases (is_empty book.policy.allowed_assets)) [
        | inl free ↦ All-every (λ _. inl free) _
        | inr bound ↦ All-append_right (AllowsAsset book) (map (λ p. p.asset) consumed) _ (
            All-imp _ (λ a e. inr (not-false _ (reject_if-eq-ok _ _ e)))
              (for_each-All _ _ (rw bound at h)))
      ]

  unlisted :
      (is_empty book.policy.allowed_accounts && eqb book.policy.allowed_flags 0) ≡ true
      → (book.policy.allowed_accounts ≡ []) × (book.policy.allowed_flags ≡ 0)
  unlisted h = (is_empty-nil book.policy.allowed_accounts (ground arith), ground arith)

  listed :
      (aid : AccountId) (a : Account)
      → is_listed book aid a ≡ true
      → Memᴰ (record { id = aid.id; sub = pos 0 }) book.policy.allowed_accounts
        ⊎ (bit_and a.flags book.policy.allowed_flags ≢ 0)
  listed aid a h = elim (Bool-cases (contains (base aid) book.policy.allowed_accounts)) [
    | inl there ↦ inl (contains-Memᴰ (base aid) book.policy.allowed_accounts there)
    | inr missing ↦ inr (λ apart.
        let both : (not (eqb book.policy.allowed_flags 0)
              && not (eqb (bit_and a.flags book.policy.allowed_flags) 0))
            ≡ true =
          rw missing at h in
        ground arith)
  ]

  check_book_accounts-Allows :
      (accounts : Map AccountId Account) (owners : List AccountId)
      → check_book_accounts book accounts owners ≡ ok tt
      → All (AllowsAccount book accounts) owners
  unfolding check_book_accounts
  check_book_accounts-Allows accounts owners h =
      elim (Bool-cases (is_empty book.policy.allowed_accounts && eqb book.policy.allowed_flags 0)) [
        | inl free ↦ All-every (λ _. inl (unlisted free)) owners
        | inr bound ↦
            All-imp _
              (λ aid e.
                let (a, found, r) = >>=-eq-ok _ _ e in
                inr (
                  a,
                  or_panic-eq-ok {E = ValidationError} _ found,
                  listed aid a (not-false _ (reject_if-eq-ok _ _ r)),
                ))
              (for_each-All _ _ (rw bound at h))
      ]

-- If validation under a book returns a plan, then the asset of every created posting is listed by the book,
-- unless it lists no asset; and its owner is a loaded account whose main account is listed by the book, or
-- whose flags have a bit in common with the allowed ones, unless the book lists neither.
pub validate-book :
    (sha256 : Bytes → Bytes) (input : PlanInput) (book : Book) {plan : Plan}
    → validate_and_plan sha256 input ≡ ok plan
    → input.book ≡ some book
    → All (λ p. AllowsAsset book p.asset) input.envelope.creates
      × All (λ p. AllowsAccount book input.accounts p.owner) input.envelope.creates
unfolding posting_keys
validate-book sha256 input book h gated =
    let p = validate-Passed sha256 input h in
    let (assets, accounts) = >>-eq-ok _ _ (rw gated at p.booked) in
    let owners : All (AllowsAccount book input.accounts) _ =
      All-of_sort (AllowsAccount book input.accounts) le_account _ (
        All-of_dedup (AllowsAccount book input.accounts) _
          (check_book_accounts-Allows book _ _ accounts)) in
    (
      All-of_map (AllowsAsset book) (λ q. q.asset) _ (check_book_assets-Allows book _ _ assets),
      All-of_map (AllowsAccount book input.accounts) (λ q. q.owner) _
          (All-append_left (AllowsAccount book input.accounts) _ _ owners),
    )
