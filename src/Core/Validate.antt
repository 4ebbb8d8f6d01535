-- ===== src/Core/Validate.antt =====
-- crates/kuatia-core/src/validate.rs: `validate_and_plan`, one function for each of its numbered
-- steps. Sets and maps are iterated in the order of insertion, which Rust leaves open; where a set
-- is only tested element by element, an element may be tested twice.
pub mod Inversion
pub mod Conservation
pub mod Floor
pub mod Access
pub mod Steps
pub mod Total
use kuatia.Prelude.{
  ℕ, ◌+◌, ◌%◌, ◌^◌, Bool, not, ◌&&◌, ◌||◌, none, some, List, [], ◌∷◌, ◌++◌, map, Outcome, ok, ◌>>=◌,
  ◌>>◌, reject_if, ok_or, or_panic, for_each, map_err, contains, ◌==◌, list_eq, nat_eq, int_eq,
  if◌then◌else◌, is_empty, eqb,
}
use kuatia.Prelude.Bytes.{Bytes}
use kuatia.Prelude.Map.{Map, lookup, insert, keys}
use kuatia.Money.{Cent, is_negative, checked_add, checked_sub}
use kuatia.Types.{
  AccountId, AssetId, BalanceKey, PostingId, EnvelopeId, AccountSnapshotId, Account, Book, Envelope,
  Posting, NewPosting, base, is_frozen, is_closed, forbids_overdraft, intersects, account_id_eq,
  posting_id_eq, balance_key_eq,
}
use kuatia.Core.Required.{
  PlanInput, Plan, ValidationError, empty_transfer, duplicate_consumed_posting, posting_not_found,
  account_not_found, account_frozen, account_closed, conservation_violation, overdraft_exceeded,
  account_version_mismatch, negative_posting_on_non_system_account, book_asset_not_allowed,
  book_account_not_allowed, Check, from_overflow, posting_keys,
}
use kuatia.Core.Accumulate.{accumulate, get_or_zero}
use kuatia.Core.Hash.{account_hash, envelope_id}

-- Step 2: `seen` is the set of the ids that the loop has met.
unfoldable pub check_duplicates : List PostingId → List PostingId → Check
check_duplicates seen [] = ok tt
check_duplicates seen (pid ∷ pids) =
    reject_if (contains pid seen) (duplicate_consumed_posting pid)
    >> check_duplicates (pid ∷ seen) pids

-- `collect` into a `HashMap`: a later posting replaces an earlier one of the same id.
unfoldable pub index_postings : Map PostingId Posting → List Posting → Map PostingId Posting
index_postings m [] = m
index_postings m (p ∷ ps) = index_postings (insert p.id p m) ps

-- Step 3.
unfoldable pub check_exists : Map PostingId Posting → List PostingId → Check
check_exists by_id pids =
    for_each pids λ pid. ok_or (lookup pid by_id) (posting_not_found pid) >>= λ _. ok tt

-- Step 5.
unfoldable pub check_account : Map AccountId Account → AccountId → Check
check_account accounts aid = do
  account ← ok_or (lookup aid accounts) (account_not_found aid)
  reject_if (is_frozen account) (account_frozen aid)
  reject_if (is_closed account) (account_closed aid)

-- `consumed_by_id[pid]` for each consumed id; an id that is not there is a panic.
unfoldable pub consumed_of :
    Map PostingId Posting → List PostingId → Outcome ValidationError (List Posting)
consumed_of by_id [] = ok []
consumed_of by_id (pid ∷ pids) = do
  p ← or_panic (lookup pid by_id)
  ps ← consumed_of by_id pids
  ok (p ∷ ps)

abbrev pub asset_entries : List Posting → List (AssetId × Cent)
asset_entries ps = map (λ p. (p.asset, p.value)) ps

abbrev pub new_asset_entries : List NewPosting → List (AssetId × Cent)
new_asset_entries ps = map (λ p. (p.asset, p.value)) ps

abbrev pub owner_entries : List Posting → List (BalanceKey × Cent)
owner_entries ps = map (λ p. ((p.owner, p.asset), p.value)) ps

abbrev pub new_owner_entries : List NewPosting → List (BalanceKey × Cent)
new_owner_entries ps = map (λ p. ((p.owner, p.asset), p.value)) ps

-- Step 5c: the assets that a book allows.
unfoldable pub check_book_assets : Book → List Posting → List NewPosting → Check
check_book_assets book consumed creates =
    if is_empty book.policy.allowed_assets
    then ok tt
    else for_each (map (λ p. p.asset) consumed ++ map (λ p. p.asset) creates) λ asset.
      reject_if (not (contains asset book.policy.allowed_assets))
        (book_asset_not_allowed book.id asset)

-- Step 5c: the accounts that a book allows, by their base account or by a flag.
abbrev pub is_listed : Book → AccountId → Account → Bool
is_listed book aid account =
    contains (base aid) book.policy.allowed_accounts
    || not (eqb book.policy.allowed_flags 0) && intersects account.flags book.policy.allowed_flags

unfoldable pub check_book_accounts : Book → Map AccountId Account → List AccountId → Check
check_book_accounts book accounts owners =
    if is_empty book.policy.allowed_accounts && eqb book.policy.allowed_flags 0
    then ok tt
    else for_each owners λ aid. do
      account ← or_panic (lookup aid accounts)
      reject_if (not (is_listed book aid account)) (book_account_not_allowed book.id aid)

-- Step 6.
unfoldable pub check_asset : Map AssetId Cent → Map AssetId Cent → AssetId → Check
check_asset consumed created asset =
    let consumed_sum = get_or_zero asset consumed in
    let created_sum = get_or_zero asset created in
    reject_if (not (consumed_sum == created_sum))
      (conservation_violation asset consumed_sum created_sum)

unfoldable pub check_conservation : List Posting → List NewPosting → Check
unfolding accumulate check_asset
check_conservation consumed creates = do
  consumed_by_asset ← map_err from_overflow (accumulate checked_add (asset_entries consumed) [])
  created_by_asset ← map_err from_overflow (accumulate checked_add (new_asset_entries creates) [])
  for_each (keys consumed_by_asset ++ keys created_by_asset)
      (check_asset consumed_by_asset created_by_asset)

-- Step 7.
unfoldable pub check_negative : Map AccountId Account → NewPosting → Check
check_negative accounts p =
    if is_negative p.value
    then (do
      account ← ok_or (lookup p.owner accounts) (account_not_found p.owner)
      reject_if (forbids_overdraft account)
          (negative_posting_on_non_system_account p.owner p.asset p.value))
    else ok tt

-- Step 8: the change of each balance, and the floor of the accounts that forbid overdraft.
abbrev pub check_projected : Map BalanceKey Cent → BalanceKey → Cent → Check
check_projected balances key delta = do
  projected ← map_err from_overflow (checked_add (get_or_zero key balances) delta)
  reject_if (is_negative projected) (overdraft_exceeded key.0 key.1 projected)

unfoldable pub check_floor : Map AccountId Account → Map BalanceKey Cent → BalanceKey × Cent → Check
check_floor accounts balances (key, delta) = or_panic (lookup key.0 accounts) >>= λ account.
    if forbids_overdraft account then check_projected balances key delta else ok tt

unfoldable pub check_overdraft :
    Map AccountId Account → Map BalanceKey Cent → List Posting → List NewPosting → Check
unfolding accumulate check_floor
check_overdraft accounts balances consumed creates = do
  debited ← map_err from_overflow (accumulate checked_sub (owner_entries consumed) [])
  deltas ← map_err from_overflow (accumulate checked_add (new_owner_entries creates) debited)
  for_each deltas (check_floor accounts balances)

-- The created postings with their ids; `i as u16` keeps 16 bits.
unfoldable pub number_postings : EnvelopeId → ℕ → List NewPosting → List Posting
number_postings tid i [] = []
number_postings tid i (p ∷ ps) =
    record {
      id = record { transfer = tid; index = i % 2 ^ 16 };
      owner = p.owner;
      asset = p.asset;
      value = p.value;
    }
    ∷ number_postings tid (i + 1) ps

module _ (sha256 : Bytes → Bytes) where
  -- Step 5b.
  unfoldable pub check_snapshot : Map AccountId Account → AccountSnapshotId → Check
  check_snapshot accounts snap = do
    account ← ok_or (lookup snap.account accounts) (account_not_found snap.account)
    let actual = account_hash sha256 account
    reject_if (not (snap.snapshot_id == actual))
        (account_version_mismatch snap.account snap.snapshot_id actual)

  unfoldable pub build_plan : Envelope → Plan
  unfolding number_postings
  build_plan e =
      let tid = envelope_id sha256 e in
      record {
        transfer_id = tid;
        postings_to_deactivate = e.consumes;
        postings_to_create = number_postings tid 0 e.creates;
      }

  abbrev pub check_book : PlanInput → List Posting → List AccountId → Check
  check_book input consumed owners = elim input.book [
    | none ↦ ok tt
    | some book ↦
        check_book_assets book consumed input.envelope.creates
        >> check_book_accounts book input.accounts owners
  ]

  unfoldable pub validate_and_plan : PlanInput → Outcome ValidationError Plan
  unfolding check_duplicates index_postings check_exists check_account check_snapshot consumed_of
      check_conservation check_negative check_overdraft check_book_assets check_book_accounts
      build_plan posting_keys
  validate_and_plan input = do
    let e = input.envelope
    reject_if (is_empty e.consumes && is_empty e.creates) empty_transfer
    check_duplicates [] e.consumes
    let by_id = index_postings [] input.consumed_postings
    check_exists by_id e.consumes
    let owners = (posting_keys e input.consumed_postings).owners
    for_each owners (check_account input.accounts)
    for_each e.account_snapshots (check_snapshot input.accounts)
    consumed ← consumed_of by_id e.consumes
    check_book input consumed owners
    check_conservation consumed e.creates
    for_each e.creates (check_negative input.accounts)
    check_overdraft input.accounts input.balances consumed e.creates
    ok (build_plan e)
