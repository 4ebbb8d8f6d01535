-- ===== src/Core/Resolve.antt =====
-- crates/kuatia-core/src/posting_resolution.rs: a transfer's movements become the postings that an
-- envelope consumes and creates. `MovementDraft.debits` are sorted by account and asset, so the order
-- in which the source's `HashMap` lists them does not matter.
pub mod Take
pub mod Debits
pub mod Assets
pub mod Whole
pub mod Size
use kuatia.Prelude.{
  Bool, true, false, not, Option, none, some, List, [], ◌∷◌, ◌++◌, map, filter, ◌==◌, ℤ, leb_ℤ,
  if◌then◌else◌, Outcome, ok, err, ◌>>=◌, map_err,
}
use kuatia.Prelude.Map.{Map, lookup}
use kuatia.Prelude.Sort.{sort}
use kuatia.Money.{
  Cent, cent_zero, OverflowError, checked_add, checked_sub, checked_neg, checked_sum, is_positive,
}
use kuatia.Types.{
  AccountId, AssetId, BalanceKey, Account, Posting, NewPosting, Movement, Transfer, Envelope,
  forbids_overdraft, le_key, account_id_eq, balance_key_eq,
}
use kuatia.Core.Accumulate.{accumulate}

pub record InsufficientFunds : Type 0 where
  pub available : Cent
  pub requested : Cent

pub data ResolveError : Type 0 where
  selection : InsufficientFunds → ResolveError
  resolve_overflow : ResolveError

abbrev pub from_overflow : OverflowError → ResolveError
from_overflow _ = resolve_overflow

pub record Debit : Type 0 where
  pub account : AccountId
  pub asset : AssetId
  pub amount : Cent

pub record MovementDraft : Type 0 where
  pub creates : List NewPosting
  pub debits : List Debit

abbrev pub payer_of : Movement → Option AccountId
payer_of m = if not (m.from == m.to) then some m.from else none

abbrev pub credit : Movement → NewPosting
credit m = record { owner = m.to; asset = m.asset; value = m.amount; payer = payer_of m }

abbrev pub debit_entry : Movement → BalanceKey × Cent
debit_entry m = ((m.from, m.asset), m.amount)

abbrev pub to_debit : BalanceKey × Cent → Debit
to_debit ((account, asset), amount) = record { account = account; asset = asset; amount = amount }

abbrev pub debit_key : Debit → BalanceKey
debit_key d = (d.account, d.asset)

-- The loop of `draft_movements`: the net debit of each account and asset.
unfoldable pub net_debits : List Movement → Outcome OverflowError (Map BalanceKey Cent)
unfolding accumulate
net_debits ms = accumulate checked_add (map debit_entry ms) []

unfoldable pub draft_movements : Transfer → Outcome OverflowError MovementDraft
unfolding net_debits
draft_movements t = do
  nets ← net_debits t.movements
  ok (record {
    creates = map credit t.movements;
    debits =
        sort (λ c d. le_key (debit_key c) (debit_key d))
          (map to_debit (filter (λ e. is_positive e.1) nets));
  })

-- `for posting in candidates { .. }`, from the sum so far: the postings taken, and their sum.
unfoldable pub take_postings :
    Cent → Cent → List Posting → Outcome OverflowError (List Posting × Cent)
take_postings amount sum_so_far [] = ok ([], sum_so_far)
take_postings amount sum_so_far (p ∷ ps) = do
  consumed_sum ← checked_add sum_so_far p.value
  (taken, last) ←
      (if leb_ℤ amount consumed_sum
        then ok ([], consumed_sum)
        else take_postings amount consumed_sum ps)
  ok (p ∷ taken, last)

-- What a debit consumes, and what it creates for its account.
pub record Selection : Type 0 where
  pub consumed : List Posting
  pub created : List NewPosting

abbrev pub own : Debit → Cent → NewPosting
own d c = record { owner = d.account; asset = d.asset; value = c; payer = none }

abbrev pub positives : List Posting → List Posting
positives avail = filter (λ p. is_positive p.value) avail

-- Enough positive postings: the largest first, and change.
unfoldable pub select_postings : Debit → List Posting → Outcome OverflowError Selection
unfolding take_postings
select_postings d avail = do
  (taken, consumed_sum) ←
      take_postings d.amount cent_zero (sort (λ p q. leb_ℤ q.value p.value) (positives avail))
  change ← checked_sub consumed_sum d.amount
  ok (record { consumed = taken; created = if is_positive change then own d change ∷ [] else [] })

-- Too few: every positive posting, and a negative one for the shortfall.
unfoldable pub cover_shortfall : Debit → List Posting → Cent → Outcome OverflowError Selection
cover_shortfall d avail total_positive = do
  shortfall ← checked_sub d.amount total_positive
  offset ← checked_neg shortfall
  ok (record { consumed = positives avail; created = own d offset ∷ [] })

abbrev pub permits_overdraft : Map AccountId Account → AccountId → Bool
permits_overdraft accounts id = elim (lookup id accounts) [
  | none ↦ false
  | some a ↦ not (forbids_overdraft a)
]

-- `available.get(..).unwrap_or(&[])`
abbrev pub available_for : Map BalanceKey (List Posting) → Debit → List Posting
available_for available d = elim (lookup (debit_key d) available) [ none ↦ [] | some ps ↦ ps ]

unfoldable pub resolve_debit :
    Map BalanceKey (List Posting) → Map AccountId Account → Debit → Outcome ResolveError Selection
unfolding select_postings cover_shortfall
resolve_debit available accounts d = do
  let avail = available_for available d
  total_positive ← map_err from_overflow (checked_sum (map (λ p. p.value) (positives avail)))
  if leb_ℤ d.amount total_positive
      then map_err from_overflow (select_postings d avail)
      else if permits_overdraft accounts d.account
      then map_err from_overflow (cover_shortfall d avail total_positive)
      else err (selection (record { available = total_positive; requested = d.amount }))

-- The loop over the debits: all that is consumed, and all that is created after the credits.
unfoldable pub resolve_debits :
    Map BalanceKey (List Posting)
    → Map AccountId Account
    → List Debit
    → Outcome ResolveError Selection
unfolding resolve_debit
resolve_debits available accounts [] = ok (record { consumed = []; created = [] })
resolve_debits available accounts (d ∷ ds) = do
  s ← resolve_debit available accounts d
  rest ← resolve_debits available accounts ds
  ok (record { consumed = s.consumed ++ rest.consumed; created = s.created ++ rest.created })

unfoldable pub resolve_envelope :
    Transfer
    → MovementDraft
    → Map BalanceKey (List Posting)
    → Map AccountId Account
    → Outcome ResolveError Envelope
unfolding resolve_debits
resolve_envelope transfer draft available accounts = do
  s ← resolve_debits available accounts draft.debits
  ok (record {
    consumes = map (λ p. p.id) s.consumed;
    creates = draft.creates ++ s.created;
    account_snapshots = [];
    book = transfer.book;
    metadata = transfer.metadata;
  })
