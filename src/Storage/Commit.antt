-- ===== src/Storage/Commit.antt =====
-- crates/kuatia-storage/src/mem_store.rs: `commit_envelope`, which spends and creates postings as one
-- step. The locks that it takes make the whole call one step. A set of assets is listed in increasing
-- order; the source's `HashSet` leaves the order open.
pub mod Guards
pub mod Replay
pub mod Effect
pub mod Value
pub mod Touched
pub mod Floor
use kuatia.Prelude.{
  ℕ, Bool, true, false, not, ◌&&◌, Option, none, some, List, [], ◌∷◌, ◌++◌, map, filter, last, ◌==◌,
  Eq, nat_eq, list_eq, int_eq, ℤ, if◌then◌else◌, Outcome, ok, err, panic, ◌>>=◌, ◌>>◌, for_each,
  reject_if, ok_or, map_err, contains, leb,
}
use kuatia.Prelude.Map.{Map, lookup, insert, remove, contains_key, values}
use kuatia.Prelude.Bytes.{Bytes}
use kuatia.Prelude.Sort.{sort, dedup}
use kuatia.Money.{Cent, OverflowError, checked_add, checked_sum, is_negative}
use kuatia.Types.{
  AccountId, AssetId, PostingId, EnvelopeId, Account, Posting, Receipt, is_frozen, is_closed,
  forbids_overdraft, account_id_eq, posting_id_eq,
}
use kuatia.Types.Select.{remove_ids}
use kuatia.Storage.Records.{
  StoreError, internal, EnvelopeRecord, LedgerEvent, PostingTables, InMemoryStore,
}
use kuatia.Storage.Events.{append_event_locked}
use kuatia.Storage.Accounts.{current_version}

pub record CommitRequest : Type 0 where
  pub transfer_id : EnvelopeId
  pub consume : List PostingId
  pub create : List Posting
  pub envelope_record : EnvelopeRecord
  pub involved : List AccountId
  pub event : LedgerEvent

pub data CommitRejection : Type 0 where
  double_spend : PostingId → CommitRejection
  account_frozen account_closed : AccountId → CommitRejection
  overdraft_exceeded : AccountId → AssetId → (projected : Cent) → CommitRejection

pub data CommitOutcome : Type 0 where
  committed already_committed : Receipt → CommitOutcome
  rejected : CommitRejection → CommitOutcome

-- An early return of the guards: with an error, or with a rejection.
pub data Stop : Type 0 where
  fail : StoreError → Stop
  reject : CommitRejection → Stop

abbrev pub Guard : Type 0
Guard = Outcome Stop (Unit {0})

abbrev pub on_overflow : OverflowError → Stop
on_overflow _ = fail internal

-- `account_of`
unfoldable pub account_of : Map AccountId (List Account) → AccountId → Outcome Stop Account
account_of accounts id = ok_or (current_version id accounts) (fail internal)

unfoldable pub guard_open : Map AccountId (List Account) → AccountId → Guard
unfolding account_of
guard_open accounts id = do
  account ← account_of accounts id
  reject_if (is_frozen account) (reject (account_frozen id))
  reject_if (is_closed account) (reject (account_closed id))

unfoldable pub guard_active : Map PostingId Posting → PostingId → Guard
guard_active active id = reject_if (not (contains_key id active)) (reject (double_spend id))

-- The assets of the account's created postings, and of its consumed ones.
abbrev pub consumed_assets : Map PostingId Posting → AccountId → List PostingId → List AssetId
consumed_assets active aid [] = []
consumed_assets active aid (id ∷ ids) = elim (lookup id active) [
  | none ↦ consumed_assets active aid ids
  | some p ↦
      if p.owner == aid
      then p.asset ∷ consumed_assets active aid ids
      else consumed_assets active aid ids
]

-- Is it a posting of the account in the asset?
abbrev pub is_of : AccountId → AssetId → Posting → Bool
is_of aid asset p = p.owner == aid && p.asset == asset

unfoldable pub touched_assets : Map PostingId Posting → CommitRequest → AccountId → List AssetId
touched_assets active req aid = dedup (
    sort leb (
      map (λ p. p.asset) (filter (λ p. p.owner == aid) req.create)
      ++ consumed_assets active aid req.consume))

unfoldable pub guard_asset : Map PostingId Posting → CommitRequest → AccountId → AssetId → Guard
guard_asset active req aid asset = do
  live_sum ← map_err on_overflow (
      checked_sum (
        map (λ p. p.value)
          (filter (λ p. is_of aid asset p && not (contains p.id req.consume)) (values active))))
  created_sum ←
      map_err on_overflow (checked_sum (map (λ p. p.value) (filter (is_of aid asset) req.create)))
  projected ← map_err on_overflow (checked_add live_sum created_sum)
  reject_if (is_negative projected) (reject (overdraft_exceeded aid asset projected))

unfoldable pub guard_floor :
    Map AccountId (List Account) → Map PostingId Posting → CommitRequest → AccountId → Guard
unfolding account_of guard_asset touched_assets
guard_floor accounts active req aid = do
  account ← account_of accounts aid
  if forbids_overdraft account
      then for_each (touched_assets active req aid) (guard_asset active req aid)
      else ok tt

unfoldable pub guards : Map AccountId (List Account) → Map PostingId Posting → CommitRequest → Guard
unfolding guard_open guard_active guard_floor
guards accounts active req = do
  for_each req.involved (guard_open accounts)
  for_each req.consume (guard_active active)
  for_each req.involved (guard_floor accounts active req)

-- `immutable.entry(id).or_insert_with(..)`, then the posting becomes active.
unfoldable pub create_one : Posting → PostingTables → PostingTables
create_one p t = record t {
  immutable = if contains_key p.id t.immutable then t.immutable else insert p.id p t.immutable;
  active = insert p.id p t.active;
}

unfoldable pub create_all : List Posting → PostingTables → PostingTables
unfolding create_one
create_all [] t = t
create_all (p ∷ ps) t = create_all ps (create_one p t)

-- The changes, once every guard has passed.
unfoldable pub apply_commit : ℕ → CommitRequest → InMemoryStore → InMemoryStore
unfolding create_all remove_ids append_event_locked
apply_commit seq req s = record s {
  postings =
      create_all req.create
        (record (s.postings) { active = remove_ids req.consume s.postings.active });
  transfer_accounts = insert req.transfer_id req.involved s.transfer_accounts;
  transfers = insert req.transfer_id req.envelope_record s.transfers;
  events = append_event_locked seq req.event s.events;
}

unfoldable pub commit_envelope :
    ℕ → CommitRequest → InMemoryStore → Outcome StoreError CommitOutcome × InMemoryStore
unfolding guards apply_commit
commit_envelope seq req s = elim (lookup req.transfer_id s.transfers) [
  | some existing ↦ (ok (already_committed existing.receipt), s)
  | none ↦ elim (guards s.accounts s.postings.active req) [
    | ok _ ↦ (ok (committed req.envelope_record.receipt), apply_commit seq req s)
    | err (fail e) ↦ (err e, s)
    | err (reject r) ↦ (ok (rejected r), s)
    | panic ↦ (panic, s)
  ]
]
