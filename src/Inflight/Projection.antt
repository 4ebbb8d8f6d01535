-- ===== src/Inflight/Projection.antt =====
-- crates/kuatia/src/inflight/projection.rs, lines 79 to 262: the status of an inflight transaction, from its
-- leg table, the transfers that settled it and the balances of its holds. A `BTreeSet` is a sorted list
-- with no repetition.
pub mod Lines
pub mod State
pub mod Holds
pub mod Sums
pub mod Exact
use kuatia.Prelude.{
  Bool, true, false, not, ◌&&◌, ◌||◌, Option, none, some, List, [], ◌∷◌, ◌++◌, map, filter, ◌==◌,
  nat_eq, leb, if◌then◌else◌, Outcome, ok, err, ◌>>=◌, map_err,
}
use kuatia.Prelude.Bytes.{Bytes}
use kuatia.Prelude.Map.{Map, lookup, insert}
use kuatia.Prelude.Sort.{sort, dedup}
use kuatia.Money.{Cent, OverflowError, checked_add, is_positive}
use kuatia.Types.{
  AccountId, AssetId, BalanceKey, EnvelopeId, NewPosting, Metadata, le_account, account_id_eq,
  balance_key_eq,
}
use kuatia.Core.Accumulate.{accumulate, get_or_zero}
use kuatia.Storage.{EnvelopeRecord}
use kuatia.Ledger.{LedgerError, not_inflight_transaction, from_overflow}
use kuatia.Inflight.{
  InflightLeg, InflightState, held, partially_confirmed, confirmed, voided, mixed,
  InflightLegStatus, InflightStatus,
}
use kuatia.Inflight.Meta.{InflightMeta, confirm, void, authorize, read_meta}
use kuatia.Inflight.Meta as Meta

pub record HoldGroup : Type 0 where
  pub hold : AccountId
  pub destination : AccountId
  pub assets : List AssetId

abbrev pub holds_of : List InflightLeg → List AccountId
holds_of legs = dedup (sort le_account (map (λ l. l.hold) legs))

abbrev pub assets_of : List InflightLeg → AccountId → List AssetId
assets_of legs hold = dedup (sort leb (map (λ l. l.asset) (filter (λ l. l.hold == hold) legs)))

unfoldable pub destination_of :
    List InflightLeg → AccountId → EnvelopeId → Outcome LedgerError AccountId
destination_of [] hold inflight = err (not_inflight_transaction inflight)
destination_of (l ∷ legs) hold inflight =
    if l.hold == hold then ok l.destination else destination_of legs hold inflight

-- The `map` and the `collect` of `group_holds`.
unfoldable pub groups_from :
    List InflightLeg → EnvelopeId → List AccountId → Outcome LedgerError (List HoldGroup)
unfolding destination_of
groups_from legs inflight [] = ok []
groups_from legs inflight (hold ∷ holds) = do
  destination ← destination_of legs hold inflight
  rest ← groups_from legs inflight holds
  ok (record { hold = hold; destination = destination; assets = assets_of legs hold } ∷ rest)

unfoldable pub group_holds : List InflightLeg → EnvelopeId → Outcome LedgerError (List HoldGroup)
unfolding groups_from
group_holds legs inflight = groups_from legs inflight (holds_of legs)

-- The history of each hold is a map with its settling transfers.
pub record StatusInput : Type 0 where
  pub inflight : EnvelopeId
  pub legs : List InflightLeg
  pub hold_history : List (AccountId × List EnvelopeRecord)
  pub held_balances : Map BalanceKey Cent

-- The two maps that the settling transfers are summed into.
pub record Settled : Type 0 where
  pub confirmed_sums : Map BalanceKey Cent
  pub voided_sums : Map BalanceKey Cent

abbrev pub leg_entry : InflightLeg → BalanceKey × Cent
leg_entry l = ((l.hold, l.asset), l.amount)

-- Created postings that leave the hold; change that returns to it is skipped.
abbrev pub settled_entries : AccountId → List NewPosting → List (BalanceKey × Cent)
settled_entries hold creates =
    map (λ p. ((hold, p.asset), p.value)) (filter (λ p. not (p.owner == hold)) creates)

abbrev pub add_entries :
    List (BalanceKey × Cent) → Map BalanceKey Cent → Outcome LedgerError (Map BalanceKey Cent)
add_entries xs m = map_err from_overflow (accumulate checked_add xs m)

-- A record goes into the map that its payload names, or into none.
abbrev pub settle_by :
    Option InflightMeta → List (BalanceKey × Cent) → Settled → Outcome LedgerError Settled
settle_by (some (confirm tx d)) xs b =
    add_entries xs b.confirmed_sums >>= λ m. ok (record b { confirmed_sums = m })
settle_by (some (void tx d)) xs b =
    add_entries xs b.voided_sums >>= λ m. ok (record b { voided_sums = m })
settle_by (some (authorize legs)) xs b = ok b
settle_by (some (Meta.hold d)) xs b = ok b
settle_by none xs b = ok b

abbrev pub any_of {ℓ} : {A : Type ℓ} → (A → Bool) → List A → Bool
any_of p [] = false
any_of p (x ∷ xs) = p x || any_of p xs

-- The table of `(any_held, any_confirmed, any_voided)`.
abbrev pub state_of : Bool → Bool → Bool → InflightState
state_of true false false = held
state_of true true b = partially_confirmed
state_of true false true = partially_confirmed
state_of false true true = mixed
state_of false false true = voided
state_of false true false = confirmed
state_of false false false = confirmed

unfoldable pub overall_state : List InflightLegStatus → InflightState
overall_state lines =
    state_of (any_of (λ l. is_positive l.held_amount) lines)
      (any_of (λ l. is_positive l.confirmed_amount) lines)
      (any_of (λ l. is_positive l.voided_amount) lines)

-- `collect` of pairs into a map: a later value for a key replaces an earlier one.
unfoldable pub index_history :
    List (AccountId × List EnvelopeRecord)
    → Map AccountId (List EnvelopeRecord)
    → Map AccountId (List EnvelopeRecord)
index_history [] m = m
index_history ((hold, records) ∷ rest) m = index_history rest (insert hold records m)

abbrev pub records_of : AccountId → Map AccountId (List EnvelopeRecord) → List EnvelopeRecord
records_of hold m = elim (lookup hold m) [ none ↦ [] | some records ↦ records ]

unfoldable pub line_of :
    Map BalanceKey Cent → Settled → Map BalanceKey Cent → HoldGroup → AssetId → InflightLegStatus
line_of authorized settled held_balances g asset =
    let key : BalanceKey = (g.hold, asset) in
    record {
      destination = g.destination;
      hold = g.hold;
      asset = asset;
      authorized = get_or_zero key authorized;
      confirmed_amount = get_or_zero key settled.confirmed_sums;
      voided_amount = get_or_zero key settled.voided_sums;
      held_amount = get_or_zero key held_balances;
    }

unfoldable pub lines_of :
    Map BalanceKey Cent → Settled → Map BalanceKey Cent → List HoldGroup → List InflightLegStatus
unfolding line_of
lines_of authorized settled held_balances [] = []
lines_of authorized settled held_balances (g ∷ gs) =
    map (line_of authorized settled held_balances g) g.assets
    ++ lines_of authorized settled held_balances gs

module _ (from_reader : Bytes → Option InflightMeta) where
  unfoldable pub settle_records :
      AccountId → List EnvelopeRecord → Settled → Outcome LedgerError Settled
  unfolding read_meta
  settle_records hold [] b = ok b
  settle_records hold (r ∷ rs) b = do
    b' ←
        settle_by (read_meta from_reader r.envelope.metadata)
          (settled_entries hold r.envelope.creates) b
    settle_records hold rs b'

  unfoldable pub settle_groups :
      Map AccountId (List EnvelopeRecord) → List HoldGroup → Settled → Outcome LedgerError Settled
  unfolding settle_records
  settle_groups history [] b = ok b
  settle_groups history (g ∷ gs) b = do
    b' ← settle_records g.hold (records_of g.hold history) b
    settle_groups history gs b'

  unfoldable pub derive_status : StatusInput → Outcome LedgerError InflightStatus
  unfolding group_holds settle_groups index_history lines_of overall_state
  derive_status input = do
    groups ← group_holds input.legs input.inflight
    authorized ← add_entries (map leg_entry input.legs) []
    settled ←
        settle_groups (index_history input.hold_history []) groups
          (record { confirmed_sums = []; voided_sums = [] })
    let lines = lines_of authorized settled input.held_balances groups
    ok (record { inflight = input.inflight; legs = lines; state = overall_state lines })
