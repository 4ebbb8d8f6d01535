-- ===== src/Inflight/Projection/Lines.antt =====
-- crates/kuatia/src/inflight/projection.rs: the lines of a status and the maps that they are read
-- from.
use kuatia.Prelude.{
  sym, ap, ◌≡◌, refl, ◌∙◌, Bool, true, false, Option, none, some, List, [], ◌∷◌, ◌++◌, map, nat_eq,
  ℤ, pos, ◌+ℤ◌, int_laws, zero_add, ok, map_err-eq-ok, >>=-eq-ok, ok-injective, All, All-append,
  All-map, All-every, All-imp,
}
use kuatia.Prelude.Bytes.{Bytes}
use kuatia.Prelude.Map.{Map, lookup}
use kuatia.Money.{Cent, checked_add}
use kuatia.Types.{AccountId, BalanceKey, balance_key_eq, account_id_eq}
use kuatia.Core.Accumulate.{accumulate, get_or_zero, amount_of}
use kuatia.Core.Accumulate.Laws.{accumulate_add}
use kuatia.Storage.{EnvelopeRecord}
use kuatia.Ledger.{from_overflow}
use kuatia.Inflight.{InflightLegStatus, InflightStatus}
use kuatia.Inflight.Meta.{InflightMeta, confirm, void, authorize, read_meta}
use kuatia.Inflight.Meta as Meta
use kuatia.Inflight.Projection.{
  HoldGroup, StatusInput, Settled, leg_entry, settled_entries, add_entries, settle_by, group_holds,
  index_history, records_of, line_of, lines_of, settle_records, settle_groups, derive_status,
  overall_state,
}

abbrev pub is_confirm : Option InflightMeta → Bool
is_confirm (some (confirm tx d)) = true
is_confirm (some (void tx d)) = false
is_confirm (some (authorize legs)) = false
is_confirm (some (Meta.hold d)) = false
is_confirm none = false

abbrev pub is_void : Option InflightMeta → Bool
is_void (some (confirm tx d)) = false
is_void (some (void tx d)) = true
is_void (some (authorize legs)) = false
is_void (some (Meta.hold d)) = false
is_void none = false

pub amount_of-append :
    (k : BalanceKey) (xs ys : List (BalanceKey × Cent))
    → amount_of k (xs ++ ys) ≡ amount_of k xs +ℤ amount_of k ys
unfolding amount_of
amount_of-append k [] ys = omega int_laws
amount_of-append k ((j, v) ∷ xs) ys = rw (amount_of-append k xs ys) (omega int_laws)

amount_of_none : (k : BalanceKey) → amount_of k [] ≡ pos 0
unfolding amount_of
amount_of_none k = refl

add_entries-amount :
    (xs : List (BalanceKey × Cent)) (k : BalanceKey) (m m' : Map BalanceKey Cent)
    → add_entries xs m ≡ ok m'
    → get_or_zero k m' ≡ get_or_zero k m +ℤ amount_of k xs
add_entries-amount xs k m m' h =
    accumulate_add xs k m (map_err-eq-ok from_overflow (accumulate checked_add xs m) h)

abbrev pub only_if : Bool → List (BalanceKey × Cent) → List (BalanceKey × Cent)
only_if true xs = xs
only_if false xs = []

-- What both maps gain.
abbrev Gains :
    BalanceKey → Settled → Settled → List (BalanceKey × Cent) → List (BalanceKey × Cent) → Type 0
Gains k b b' cs vs =
    (get_or_zero k b'.confirmed_sums ≡ get_or_zero k b.confirmed_sums +ℤ amount_of k cs)
    × (get_or_zero k b'.voided_sums ≡ get_or_zero k b.voided_sums +ℤ amount_of k vs)

no_gain : (k : BalanceKey) (b : Settled) → Gains k b b [] []
no_gain k b = (unchanged (get_or_zero k b.confirmed_sums), unchanged (get_or_zero k b.voided_sums))
  where
    unchanged : (c : ℤ) → c ≡ c +ℤ amount_of k []
    unchanged c = rw (amount_of_none k) (omega int_laws)

settle_by-Gains :
    (o : Option InflightMeta) (xs : List (BalanceKey × Cent)) (k : BalanceKey) (b b' : Settled)
    → settle_by o xs b ≡ ok b'
    → Gains k b b' (only_if (is_confirm o) xs) (only_if (is_void o) xs)
settle_by-Gains (some (confirm tx d)) xs k b b' h =
    let (m, h1, r1) = >>=-eq-ok (add_entries xs b.confirmed_sums) _ h in
    let whole : ◌≡◌ {A = Settled} (record b { confirmed_sums = m }) b' = ok-injective r1 in
    rw (← whole) (add_entries-amount xs k b.confirmed_sums m h1, (no_gain k b).1)
settle_by-Gains (some (void tx d)) xs k b b' h =
    let (m, h1, r1) = >>=-eq-ok (add_entries xs b.voided_sums) _ h in
    let whole : ◌≡◌ {A = Settled} (record b { voided_sums = m }) b' = ok-injective r1 in
    rw (← whole) ((no_gain k b).0, add_entries-amount xs k b.voided_sums m h1)
settle_by-Gains (some (authorize legs)) xs k b b' h =
    let s : b ≡ b' = ok-injective h in rw (← s) (no_gain k b)
settle_by-Gains (some (Meta.hold d)) xs k b b' h =
    let s : b ≡ b' = ok-injective h in rw (← s) (no_gain k b)
settle_by-Gains none xs k b b' h = let s : b ≡ b' = ok-injective h in rw (← s) (no_gain k b)

Gains-trans :
    (k : BalanceKey) (b b1 b2 : Settled) (cs vs cs' vs' : List (BalanceKey × Cent))
    → Gains k b b1 cs vs
    → Gains k b1 b2 cs' vs'
    → Gains k b b2 (cs ++ cs') (vs ++ vs')
Gains-trans k b b1 b2 cs vs cs' vs' (p, q) (p', q') = (
  rw (amount_of-append k cs cs', p', p) (omega int_laws),
  rw (amount_of-append k vs vs', q', q) (omega int_laws),
)

module _ (from_reader : Bytes → Option InflightMeta) where
  module _ (counts : Option InflightMeta → Bool) where
    -- What leaves a hold in the transfers of its history whose payload counts.
    unfoldable pub record_entries : AccountId → List EnvelopeRecord → List (BalanceKey × Cent)
    record_entries hold [] = []
    record_entries hold (r ∷ rs) =
        only_if (counts (read_meta from_reader r.envelope.metadata))
          (settled_entries hold r.envelope.creates)
        ++ record_entries hold rs

    unfoldable pub group_entries :
        Map AccountId (List EnvelopeRecord) → List HoldGroup → List (BalanceKey × Cent)
    unfolding record_entries
    group_entries history [] = []
    group_entries history (g ∷ gs) =
        record_entries g.hold (records_of g.hold history) ++ group_entries history gs

  settle_records-Gains :
      (hold : AccountId) (rs : List EnvelopeRecord) (k : BalanceKey) (b b' : Settled)
      → settle_records from_reader hold rs b ≡ ok b'
      → Gains k b b' (record_entries is_confirm hold rs) (record_entries is_void hold rs)
  unfolding settle_records record_entries
  settle_records-Gains hold [] k b b' h = let s : b ≡ b' = ok-injective h in rw (← s) (no_gain k b)
  settle_records-Gains hold (r ∷ rs) k b b' h =
      let meta = read_meta from_reader r.envelope.metadata in
      let xs = settled_entries hold r.envelope.creates in
      let (b1, h1, r1) = >>=-eq-ok (settle_by meta xs b) _ h in
      Gains-trans k b b1 b' (only_if (is_confirm meta) xs) (only_if (is_void meta) xs)
        (record_entries is_confirm hold rs) (record_entries is_void hold rs)
        (settle_by-Gains meta xs k b b1 h1) (settle_records-Gains hold rs k b1 b' r1)

  settle_groups-Gains :
      (history : Map AccountId (List EnvelopeRecord)) (gs : List HoldGroup) (k : BalanceKey)
      (b b' : Settled)
      → settle_groups from_reader history gs b ≡ ok b'
      → Gains k b b' (group_entries is_confirm history gs) (group_entries is_void history gs)
  unfolding settle_groups group_entries
  settle_groups-Gains history [] k b b' h =
      let s : b ≡ b' = ok-injective h in rw (← s) (no_gain k b)
  settle_groups-Gains history (g ∷ gs) k b b' h =
      let rs = records_of g.hold history in
      let (b1, h1, r1) = >>=-eq-ok (settle_records from_reader g.hold rs b) _ h in
      Gains-trans k b b1 b' (record_entries is_confirm g.hold rs) (record_entries is_void g.hold rs)
        (group_entries is_confirm history gs) (group_entries is_void history gs)
        (settle_records-Gains g.hold rs k b b1 h1) (settle_groups-Gains history gs k b1 b' r1)

-- The key of a line.
abbrev pub line_key : InflightLegStatus → BalanceKey
line_key l = (l.hold, l.asset)

-- A line whose amounts are read off the three maps and the balances.
abbrev Reads : Map BalanceKey Cent → Settled → Map BalanceKey Cent → InflightLegStatus → Type 0
Reads authorized b balances l =
    (l.authorized ≡ get_or_zero (line_key l) authorized)
    × (l.confirmed_amount ≡ get_or_zero (line_key l) b.confirmed_sums)
    × (l.voided_amount ≡ get_or_zero (line_key l) b.voided_sums)
    × (l.held_amount ≡ get_or_zero (line_key l) balances)

lines_of-Reads :
    (authorized : Map BalanceKey Cent) (b : Settled) (balances : Map BalanceKey Cent)
    (gs : List HoldGroup)
    → All (Reads authorized b balances) (lines_of authorized b balances gs)
unfolding lines_of line_of
lines_of-Reads authorized b balances [] = tt
lines_of-Reads authorized b balances (g ∷ gs) =
    All-append (Reads authorized b balances) (map (line_of authorized b balances g) g.assets)
      (lines_of authorized b balances gs)
      (All-map (Reads authorized b balances) (line_of authorized b balances g) g.assets
        (All-every (λ a. (refl, refl, refl, refl)) g.assets))
      (lines_of-Reads authorized b balances gs)

from_nothing : (k : BalanceKey) (c x : ℤ) → c ≡ get_or_zero k [] +ℤ x → c ≡ x
unfolding get_or_zero lookup
from_nothing k c x h = h ∙ zero_add x

-- What the definitions of a derived status say of its lines.
pub derive_status-lines :
    (from_reader : Bytes → Option InflightMeta) (input : StatusInput) (st : InflightStatus)
    → derive_status from_reader input ≡ ok st
    → (groups : List HoldGroup) × (group_holds input.legs input.inflight ≡ ok groups)
      × ((authorized : Map BalanceKey Cent) × (b : Settled) × (st.legs
            ≡ lines_of authorized b input.held_balances groups))
      × (st.state ≡ overall_state st.legs)
      × All
          (λ l.
            (l.authorized ≡ amount_of (line_key l) (map leg_entry input.legs))
            × (l.confirmed_amount
                ≡ amount_of (line_key l) (
                    group_entries from_reader is_confirm
                      (index_history input.hold_history [])
                      groups))
            × (l.voided_amount
                ≡ amount_of (line_key l) (
                    group_entries from_reader is_void (index_history input.hold_history []) groups))
            × (l.held_amount ≡ get_or_zero (line_key l) input.held_balances))
          st.legs
unfolding derive_status
derive_status-lines from_reader input st h =
    let (groups, h1, r1) = >>=-eq-ok (group_holds input.legs input.inflight) _ h in
    let (authorized, h2, r2) = >>=-eq-ok (add_entries (map leg_entry input.legs) []) _ r1 in
    let history = index_history input.hold_history [] in
    let nothing : Settled = record { confirmed_sums = []; voided_sums = [] } in
    let (b, h3, r3) = >>=-eq-ok (settle_groups from_reader history groups nothing) _ r2 in
    let lines = lines_of authorized b input.held_balances groups in
    let whole : ◌≡◌ {A = InflightStatus}
        (record { inflight = input.inflight; legs = lines; state = overall_state lines }) st =
      ok-injective r3 in
    (
      groups,
      h1,
      (authorized, b, sym (ap (λ (x : InflightStatus). x.legs) whole)),
      rw (← whole) refl,
      rw (← whole) (
          All-imp lines
            (λ l (a, c, v, held). (
              a
                  ∙ from_nothing (line_key l) _ _
                      (add_entries-amount (map leg_entry input.legs) (line_key l) [] authorized h2),
              c
                  ∙ from_nothing (line_key l) _ _
                      (settle_groups-Gains from_reader history groups (line_key l) nothing b h3).0,
              v
                  ∙ from_nothing (line_key l) _ _
                      (settle_groups-Gains from_reader history groups (line_key l) nothing b h3).1,
              held,
            ))
            (lines_of-Reads authorized b input.held_balances groups)),
    )
