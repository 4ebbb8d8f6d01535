-- ===== src/Inflight/Tests.antt =====
-- Runs of crates/kuatia/src/inflight/projection.rs, after the tests at the end of that file.
use kuatia.Prelude.Sort.{dedup, sort, insert_sorted}
use kuatia.Core.Accumulate.{accumulate}
use kuatia.Money.{checked_add, fits}
use kuatia.Prelude.{◌+ℤ◌}
use kuatia.Prelude.Map.{lookup, insert}
use kuatia.Types.{balance_key_beq}
use kuatia.Prelude.{◌≡◌, refl, arith, Option, none, List, [], ◌∷◌, All, pos, ok}
use kuatia.Prelude.Bytes.{Bytes}
use kuatia.Types.{account_id_beq, AccountId, balance_key_eq, main_account, with_sub}
use mathlib.Core.List.{Memᴰ}
use kuatia.Inflight.{InflightLeg, InflightLegStatus, InflightStatus, partially_confirmed}
use kuatia.Inflight.Meta.{InflightMeta, confirm, void, k_inflight, read_meta}
use kuatia.Inflight.Projection.State.{IsState}
use kuatia.Inflight.Projection.Exact.{IsExactLine, derive_status-IsExact}
use kuatia.Storage.{EnvelopeRecord}
use kuatia.Types.{NewPosting, default_book}
use kuatia.Prelude.{ℕ, some, eqb, if◌then◌else◌, nat_eq, list_eq}
use kuatia.Inflight.Funders.{FunderPayout, distribute_to_funders}
use kuatia.Inflight.Funders.Split.{IsSplit, distribute_to_funders-IsSplit}
use kuatia.Inflight.Projection.{StatusInput, derive_status}
use kuatia.Core.Accumulate.{get_or_zero}

abbrev shop : AccountId
shop = main_account (pos 2)

abbrev parked : AccountId
parked = with_sub (pos 2) (pos 7)

-- Two funders of 30 and 20 for one hold.
abbrev two_legs : List InflightLeg
two_legs =
    record {
      destination = shop;
      hold = parked;
      funder = main_account (pos 1);
      asset = 1;
      amount = pos 30;
    }
    ∷ record {
      destination = shop;
      hold = parked;
      funder = main_account (pos 3);
      asset = 1;
      amount = pos 20;
    }
    ∷ []

abbrev first_leg : InflightLeg
first_leg = record {
  destination = shop;
  hold = parked;
  funder = main_account (pos 1);
  asset = 1;
  amount = pos 30;
}

-- 35 is left: the first funder gets 30, the second one 5.
distribute_to_funders-IsSplit_example :
    (ps : List FunderPayout) × (distribute_to_funders two_legs parked 1 (pos 35) ≡ ok ps)
    × IsSplit parked 1 two_legs (pos 35) ps
distribute_to_funders-IsSplit_example =
    distribute_to_funders-IsSplit two_legs parked 1 (pos 35) first_leg (Memᴰ.head refl) (refl, refl)
      (omega arith) (omega arith)

-- A payload of one byte: 1 for a confirm, 2 for a void.
abbrev one_byte : Bytes → Option InflightMeta
one_byte [] = none
one_byte (b ∷ bs) =
    if eqb b 1
    then some (confirm (9 ∷ []) shop)
    else if eqb b 2
    then some (void (9 ∷ []) shop)
    else none

abbrev settling : ℕ → List NewPosting → EnvelopeRecord
settling tag creates = record {
  envelope = record {
    consumes = [];
    creates = creates;
    account_snapshots = [];
    book = default_book;
    metadata = (k_inflight, tag ∷ []) ∷ [];
  };
  receipt = record { transfer_id = tag ∷ [] };
  created_at = pos 20;
}

-- 20 are confirmed, with 30 of change for the hold, and then 10 are voided, with 20 of change.
abbrev confirming : EnvelopeRecord
confirming = settling 1 (
    record { owner = shop; asset = 1; value = pos 20; payer = none }
    ∷ record { owner = parked; asset = 1; value = pos 30; payer = none }
    ∷ [])

abbrev voiding : EnvelopeRecord
voiding = settling 2 (
    record { owner = main_account (pos 1); asset = 1; value = pos 10; payer = none }
    ∷ record { owner = parked; asset = 1; value = pos 20; payer = none }
    ∷ [])

abbrev settled_input : StatusInput
settled_input = record {
  inflight = 9 ∷ [];
  legs = two_legs;
  hold_history = (parked, confirming ∷ voiding ∷ []) ∷ [];
  held_balances = ((parked, 1), pos 20) ∷ [];
}

abbrev part_settled : InflightStatus
part_settled = record {
  inflight = 9 ∷ [];
  legs =
      record {
        destination = shop;
        hold = parked;
        asset = 1;
        authorized = pos 50;
        confirmed_amount = pos 20;
        voided_amount = pos 10;
        held_amount = pos 20;
      }
      ∷ [];
  state = partially_confirmed;
}

part_settled_derived : derive_status one_byte settled_input ≡ ok part_settled
unfolding derive_status dedup sort insert_sorted account_id_beq accumulate checked_add fits ◌+ℤ◌
    get_or_zero lookup insert balance_key_beq read_meta
part_settled_derived = refl

derive_status-IsExact_example :
    All (IsExactLine one_byte settled_input) part_settled.legs
    × ((x : InflightLeg)
        → Memᴰ x two_legs
        → (l : InflightLegStatus) × Memᴰ l part_settled.legs
          × (l.hold ≡ x.hold)
          × (l.asset ≡ x.asset))
    × IsState part_settled.legs partially_confirmed
derive_status-IsExact_example =
    derive_status-IsExact one_byte settled_input part_settled part_settled_derived
