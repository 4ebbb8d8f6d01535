-- ===== src/Ledger/Balance.antt =====
-- crates/kuatia/src/ledger/balance.rs: the everyday balance, read from the closest cache point and the
-- transfers after it. The table of the cache points is an argument beside the store. The background append
-- that a read spawns is a step of its own; a read answers whether it spawns one. `now` is the clock.
pub mod Consumed
pub mod Exact
pub mod Tests
use kuatia.Prelude.{
  ℕ, ◌+◌, ◌^◌, ◌-◌, Bool, true, false, not, ◌&&◌, ◌||◌, Option, none, some, List, [], ◌∷◌, ◌++◌,
  map, filter, ◌==◌, nat_eq, ℤ, pos, negsuc, ◌+ℤ◌, ◌-ℤ◌, eqb_ℤ, leb_ℤ, ltb_ℤ, ltb, leb,
  if◌then◌else◌, contains, Outcome, ok, ◌>>=◌, map_err,
}
use kuatia.Prelude.Sort.{sort}
use kuatia.Money.{Cent, OverflowError, cent_zero, checked_add, checked_sub}
use kuatia.Types.{
  AccountId, AssetId, NewPosting, Posting, PostingId, account_id_eq, posting_id_eq, le_account,
  is_closed,
}
use kuatia.Storage.{EnvelopeRecord, InMemoryStore}
use kuatia.Storage.Tables.{get_postings}
use kuatia.Storage.Accounts.{list_accounts}
use kuatia.Storage.Queries.{TransferQuery, query_transfers}
use kuatia.Storage.Projections.{
  BalanceProjection, Projections, append_balance_projection, get_closest_balance_projection,
}
use kuatia.Ledger.Errors.{LedgerError, store_error, from_overflow}
use kuatia.Ledger.Commit.{compute_balance}

-- A delta, and how many postings it is made of.
abbrev pub Delta : Type 0
Delta = Cent × ℕ

module _ (account : AccountId) (asset : AssetId) where
  -- `for np in record.envelope.creates()`
  unfoldable pub add_created : List NewPosting → Delta → Outcome OverflowError Delta
  add_created [] d = ok d
  add_created (np ∷ nps) (delta, count) = elim ((np.owner == account) && (np.asset == asset)) [
    | false ↦ add_created nps (delta, count)
    | true ↦ do delta' ← checked_add delta np.value; add_created nps (delta', count + 1)
  ]

  -- The loop over the records, for the created side.
  unfoldable pub add_records : List EnvelopeRecord → Delta → Outcome OverflowError Delta
  unfolding add_created
  add_records [] d = ok d
  add_records (r ∷ rs) d = do d' ← add_created r.envelope.creates d; add_records rs d'

  -- The loop over the consumed postings.
  unfoldable pub sub_consumed : List Posting → Delta → Outcome OverflowError Delta
  sub_consumed [] d = ok d
  sub_consumed (p ∷ ps) (delta, count) = elim ((p.owner == account) && (p.asset == asset)) [
    | false ↦ sub_consumed ps (delta, count)
    | true ↦ do delta' ← checked_sub delta p.value; sub_consumed ps (delta', count + 1)
  ]

-- The loop that keeps the first occurrence of every consumed id, in order.
unfoldable pub unseen : List PostingId → List PostingId → List PostingId
unseen seen [] = []
unseen seen (id ∷ ids) = if contains id seen then unseen seen ids else id ∷ unseen (id ∷ seen) ids

abbrev pub all_consumes : List EnvelopeRecord → List PostingId
all_consumes [] = []
all_consumes (r ∷ rs) = r.envelope.consumes ++ all_consumes rs

-- `if !consumed_ids.is_empty()`: the consumed postings are looked up and taken off.
unfoldable pub take_off :
    InMemoryStore → AccountId → AssetId → List PostingId → Delta → Outcome LedgerError Delta
unfolding sub_consumed
take_off s account asset [] created = ok created
take_off s account asset (id ∷ ids) created = do
  postings ← map_err store_error (get_postings s.postings (id ∷ ids))
  map_err from_overflow (sub_consumed account asset postings created)

unfoldable pub fold_account_delta :
    InMemoryStore → AccountId → AssetId → List EnvelopeRecord → Outcome LedgerError Delta
unfolding add_records take_off unseen
fold_account_delta s account asset records = do
  created ← map_err from_overflow (add_records account asset records (cent_zero, 0))
  take_off s account asset (unseen [] (all_consumes records)) created

unfoldable pub fold_tail :
    InMemoryStore → AccountId → AssetId → (from_ts to_ts : Option ℤ) → Outcome LedgerError Delta
unfolding fold_account_delta
fold_tail s account asset from_ts to_ts =
    let query : TransferQuery = record {
      account = some account.id;
      sub = some account.sub;
      from_ts = from_ts;
      to_ts = to_ts;
      book = none;
      limit = none;
      offset = none;
    } in
    fold_account_delta s account asset (query_transfers s query).items

abbrev pub i64_low : ℤ
i64_low = negsuc (2 ^ 63 - 1)

abbrev pub i64_high : ℤ
i64_high = pos (2 ^ 63 - 1)

abbrev clamp : ℤ → ℤ
clamp x = if ltb_ℤ x i64_low then i64_low else if ltb_ℤ i64_high x then i64_high else x

abbrev pub saturating_add : ℤ → ℤ → ℤ
saturating_add a b = clamp (a +ℤ b)

abbrev pub saturating_sub : ℤ → ℤ → ℤ
saturating_sub a b = clamp (a -ℤ b)

-- Whether the closest point makes an append needless: one of the two early returns.
abbrev pub is_covered : (new_watermark debounce_ms : ℤ) → Option BalanceProjection → Bool
is_covered new_watermark debounce_ms none = false
is_covered new_watermark debounce_ms (some p) =
    ltb_ℤ (saturating_sub new_watermark p.watermark) debounce_ms || leb_ℤ new_watermark p.watermark

-- The snapshot that the window starts from, and the window's lower bound.
abbrev pub snapshot_of : Option BalanceProjection → Cent × Option ℤ
snapshot_of none = (cent_zero, none)
snapshot_of (some p) = (p.balance, some (saturating_add p.watermark (pos 1)))

-- `id` is the id that the store's generator hands out.
unfoldable pub append_cache_point :
    (now id grace_ms : ℤ)
    → (min_new : ℕ) → (debounce_ms : ℤ) → AccountId
    → AssetId
    → InMemoryStore
    → Projections
    → Outcome LedgerError Projections
unfolding fold_tail get_closest_balance_projection append_balance_projection
append_cache_point now id grace_ms min_new debounce_ms account asset s t =
    let new_watermark = saturating_sub now grace_ms in
    let closest = get_closest_balance_projection account asset new_watermark t in
    let (snapshot, from_ts) = snapshot_of closest in
    elim (is_covered new_watermark debounce_ms closest) [
      | true ↦ ok t
      | false ↦ do
        tail ← fold_tail s account asset from_ts (some (saturating_add new_watermark (pos 1)))
        elim (ltb tail.1 min_new) [
          | true ↦ ok t
          | false ↦ do
            balance ← map_err from_overflow (checked_add snapshot tail.0)
            ok (append_balance_projection id account asset balance new_watermark t)
        ]
    ]

-- The balance, and whether the read spawns an append in the background (one that ends in an overflow may
-- have spawned it too).
unfoldable pub balance :
    (now : ℤ)
    → (snapshot_interval : ℕ) → AccountId
    → AssetId
    → InMemoryStore
    → Projections
    → Outcome LedgerError (Cent × Bool)
unfolding fold_tail get_closest_balance_projection compute_balance
balance now snapshot_interval account asset s t =
    elim (get_closest_balance_projection account asset now t) [
      | some p ↦ do
        tail ← fold_tail s account asset (some (saturating_add p.watermark (pos 1))) none
        value ← map_err from_overflow (checked_add p.balance tail.0)
        ok (value, leb snapshot_interval tail.1)
      | none ↦ do value ← compute_balance s account asset; ok (value, true)
    ]

abbrev pub list_subaccounts : AccountId → InMemoryStore → List AccountId
list_subaccounts account s = sort le_account (
    map (λ a. a.id)
      (filter (λ a. eqb_ℤ a.id.id account.id && not (is_closed a)) (list_accounts s.accounts)))

pub record SubAccountBalance : Type 0 where
  pub account : AccountId
  pub value : Cent

-- `if let Some(s) = sub && subaccount.sub != s { continue }`
abbrev pub is_asked : Option ℤ → AccountId → Bool
is_asked none subaccount = true
is_asked (some s) subaccount = eqb_ℤ subaccount.sub s

-- The clock is read anew for every subaccount: `now n` is what it shows to the n-th.
unfoldable pub balances_loop :
    (now : ℕ → ℤ)
    → (snapshot_interval : ℕ) → AssetId
    → Option ℤ
    → InMemoryStore
    → Projections
    → ℕ
    → List AccountId
    → Outcome LedgerError (List SubAccountBalance)
unfolding balance
balances_loop now snapshot_interval asset sub s t n [] = ok []
balances_loop now snapshot_interval asset sub s t n (account ∷ accounts) =
    elim (is_asked sub account) [
      | false ↦ balances_loop now snapshot_interval asset sub s t (n + 1) accounts
      | true ↦ do
        read ← balance (now n) snapshot_interval account asset s t
        rest ← balances_loop now snapshot_interval asset sub s t (n + 1) accounts
        ok (record { account = account; value = read.0 } ∷ rest)
    ]

unfoldable pub balances :
    (now : ℕ → ℤ)
    → (snapshot_interval : ℕ) → AccountId
    → AssetId
    → Option ℤ
    → InMemoryStore
    → Projections
    → Outcome LedgerError (List SubAccountBalance)
unfolding balances_loop
balances now snapshot_interval account asset sub s t =
    balances_loop now snapshot_interval asset sub s t 0 (list_subaccounts account s)
