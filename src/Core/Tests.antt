-- ===== src/Core/Tests.antt =====
-- A small ledger for the tests of the pure core: one account that forbids overdraft pays another.
use kuatia.Prelude.{
  ◌≡◌, refl, none, some, [], ◌∷◌, pos, ok, arith, contains, for_each, nat_eq, ◌+ℤ◌, ◌-ℤ◌, ◌≤ℤ◌, ◌⊎◌,
  ◌≢◌, panic, All, List, map, sum,
}
use kuatia.Prelude.Bytes.{Bytes, be_bytes, to_word}
use kuatia.Types.{
  AccountId, PostingId, Book, Envelope, Posting, main_account, new_account, new_no_overdraft,
  default_book, posting_id_beq, account_id_beq, balance_key_beq, posting_id_eq, balance_key_eq,
  account_id_eq, Transfer, BalanceKey, movement, empty_transfer,
}
use kuatia.Core.Hash.{account_snapshot_id, account_hash, envelope_id}
use kuatia.Core.Required.{PlanInput, posting_keys}
use kuatia.Core.Validate.{
  validate_and_plan, build_plan, index_postings, check_account, check_asset, check_book_accounts,
  check_book_assets, check_conservation, check_duplicates, check_exists, check_floor,
  check_negative, check_overdraft, check_snapshot, consumed_of, number_postings, asset_entries,
}
use kuatia.Core.Accumulate.{accumulate, get_or_zero, amount_of}
use kuatia.Prelude.Map.{Map, lookup, insert}
use kuatia.Prelude.Distinct.{IsDistinct}
use kuatia.Prelude.Sort.{sort, dedup, insert_sorted}
use kuatia.Types.Canonical.{account_bytes, envelope_bytes, concat_bytes}
use kuatia.Money.{checked_add, checked_sub, checked_sum, checked_sum_from, fits}
use kuatia.Types.Select.{postings_at, asset_value, new_asset_value}
use kuatia.Core.Validate.Conservation.{validate-conserves}
use kuatia.Core.Validate.Floor.{validate-floor, validate-offsets, change, MayHold}
use kuatia.Core.Validate.Access.{
  validate-IsOpen, validate-IsCurrent, validate-IsDistinct, validate-book, IsOpen, IsCurrent,
  AllowsAsset, AllowsAccount,
}
use kuatia.Core.Validate.Total.{validate-ne-panic}
use kuatia.Core.Resolve.{
  Debit, MovementDraft, Selection, net_debits, draft_movements, take_postings, select_postings,
  cover_shortfall, resolve_debit, resolve_debits, resolve_envelope,
}
use kuatia.Core.Resolve.Take.{values_of, new_values_of}
use kuatia.Core.Resolve.Debits.{MayOffset, resolve_debit-balances}
use kuatia.Core.Resolve.Whole.{resolve_envelope-conserves}

abbrev digest : Bytes → Bytes
digest b = b

abbrev alice : AccountId
alice = main_account (pos 1)

abbrev bank : AccountId
bank = main_account (pos 2)

abbrev coin : PostingId
coin = record { transfer = 7 ∷ []; index = 0 }

abbrev held : Posting
held = record { id = coin; owner = alice; asset = 1; value = pos 100 }

abbrev payment : Envelope
payment = record {
  consumes = coin ∷ [];
  creates =
      record { owner = bank; asset = 1; value = pos 60; payer = some alice }
      ∷ record { owner = alice; asset = 1; value = pos 40; payer = none }
      ∷ [];
  account_snapshots = account_snapshot_id digest (new_no_overdraft alice) ∷ [];
  book = default_book;
  metadata = [];
}

abbrev book : Book
book = record {
  id = default_book;
  name = [];
  policy = record {
    allowed_assets = 1 ∷ [];
    allowed_flags = 0;
    allowed_accounts = alice ∷ bank ∷ [];
  };
}

abbrev input : PlanInput
input = record {
  envelope = payment;
  consumed_postings = held ∷ [];
  accounts = (alice, new_no_overdraft alice) ∷ (bank, new_account bank) ∷ [];
  balances = ((alice, 1), pos 100) ∷ ((bank, 1), pos 0) ∷ [];
  book = some book;
}

accepted : validate_and_plan digest input ≡ ok (build_plan digest payment)
unfolding validate_and_plan build_plan account_snapshot_id account_hash envelope_id posting_keys
    check_account check_asset check_book_accounts check_book_assets check_conservation
    check_duplicates check_exists check_floor check_negative check_overdraft check_snapshot
    consumed_of index_postings number_postings accumulate get_or_zero contains for_each lookup
    insert dedup sort insert_sorted account_bytes envelope_bytes concat_bytes be_bytes to_word
    checked_add checked_sub fits ◌+ℤ◌ ◌-ℤ◌ posting_id_beq account_id_beq balance_key_beq
accepted = refl

validate-conserves_example :
    amount_of 1 (
      asset_entries (
        postings_at
          (index_postings [] input.consumed_postings)
          (build_plan digest payment).postings_to_deactivate))
    ≡ amount_of 1 (asset_entries (build_plan digest payment).postings_to_create)
validate-conserves_example = validate-conserves digest input 1 accepted

validate-floor_example :
    let by_id = index_postings [] input.consumed_postings in
    let delta =
      change
        (alice, 1)
        (postings_at by_id (build_plan digest payment).postings_to_deactivate)
        payment.creates in
    (pos 0 ≤ℤ get_or_zero (alice, 1) input.balances +ℤ delta) ⊎ (delta ≡ pos 0)
unfolding lookup account_id_beq
validate-floor_example = validate-floor digest input (alice, 1) accepted refl refl

validate-offsets_example : All (MayHold input.accounts) payment.creates
validate-offsets_example = validate-offsets digest input accepted

validate-IsOpen_example :
    All (λ p. IsOpen input.accounts p.owner) payment.creates
    × All (λ p. IsOpen input.accounts p.owner) input.consumed_postings
validate-IsOpen_example = validate-IsOpen digest input accepted

validate-IsCurrent_example : All (IsCurrent digest input.accounts) payment.account_snapshots
validate-IsCurrent_example = validate-IsCurrent digest input accepted

validate-IsDistinct_example :
    ((build_plan digest payment).postings_to_deactivate ≡ payment.consumes)
    × IsDistinct (build_plan digest payment).postings_to_deactivate
    × All
        (λ pid. (p : Posting) × (lookup pid (index_postings [] input.consumed_postings) ≡ some p))
        (build_plan digest payment).postings_to_deactivate
validate-IsDistinct_example = validate-IsDistinct digest input accepted

validate-book_example :
    All (λ p. AllowsAsset book p.asset) payment.creates
    × All (λ p. AllowsAccount book input.accounts p.owner) payment.creates
validate-book_example = validate-book digest input book accepted refl

validate-ne-panic_example : validate_and_plan digest input ≢ panic
validate-ne-panic_example = validate-ne-panic digest input

-- The same payment as an intent, and what it resolves against.
abbrev intent : Transfer
intent = movement alice bank 1 (pos 60) empty_transfer

abbrev available : Map BalanceKey (List Posting)
available = ((alice, 1), held ∷ []) ∷ []

abbrev drafted : MovementDraft
drafted = record {
  creates = record { owner = bank; asset = 1; value = pos 60; payer = some alice } ∷ [];
  debits = record { account = alice; asset = 1; amount = pos 60 } ∷ [];
}

abbrev resolved : Envelope
resolved = record payment { account_snapshots = [] }

intent_nets : net_debits intent.movements ≡ ok (((alice, 1), pos 60) ∷ [])
unfolding net_debits accumulate get_or_zero lookup insert checked_add fits ◌+ℤ◌
intent_nets = refl

intent-drafted : draft_movements intent ≡ ok drafted
unfolding draft_movements net_debits accumulate get_or_zero lookup insert checked_add fits ◌+ℤ◌ sort
    insert_sorted account_id_beq
intent-drafted = refl

intent-resolved : resolve_envelope intent drafted available input.accounts ≡ ok resolved
unfolding resolve_envelope resolve_debits resolve_debit select_postings take_postings
    cover_shortfall sort insert_sorted lookup balance_key_beq account_id_beq checked_add checked_sub
    checked_sum checked_sum_from fits ◌+ℤ◌ ◌-ℤ◌
intent-resolved = refl

resolve_envelope-conserves_example :
    (s : Selection) × (resolve_debits available input.accounts drafted.debits ≡ ok s)
    × (resolved.consumes ≡ map (λ p. p.id) s.consumed)
    × (sum (map (asset_value 1) s.consumed) ≡ sum (map (new_asset_value 1) resolved.creates))
resolve_envelope-conserves_example =
    resolve_envelope-conserves intent available input.accounts 1 ((refl, tt), tt) intent_nets
      (omega arith, tt) intent-drafted intent-resolved

abbrev owed : Debit
owed = record { account = alice; asset = 1; amount = pos 60 }

abbrev picked : Selection
picked = record {
  consumed = held ∷ [];
  created = record { owner = alice; asset = 1; value = pos 40; payer = none } ∷ [];
}

owed_resolved : resolve_debit available input.accounts owed ≡ ok picked
unfolding resolve_debit select_postings take_postings cover_shortfall sort insert_sorted lookup
    balance_key_beq account_id_beq checked_add checked_sub checked_sum checked_sum_from fits ◌+ℤ◌
    ◌-ℤ◌
owed_resolved = refl

resolve_debit-balances_example :
    (values_of picked.consumed ≡ owed.amount +ℤ new_values_of picked.created)
    × All (MayOffset input.accounts owed) picked.created
resolve_debit-balances_example = resolve_debit-balances available input.accounts owed owed_resolved
