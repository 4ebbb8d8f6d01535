-- ===== src/Inflight/Projection/Exact.antt =====
-- crates/kuatia/src/inflight/projection.rs: the status of an inflight against a description of its own.
use kuatia.Prelude.{
  ◌≡◌, sym, ap, ◌∙◌, Bool, true, Option, List, [], ◌∷◌, map, nat_eq, contains, subst, All, ok,
}
use kuatia.Prelude.Bytes.{Bytes}
use kuatia.Prelude.Map.{lookup}
use kuatia.Types.{account_id_eq, balance_key_eq}
use kuatia.Core.Accumulate.{amount_of, get_or_zero}
use kuatia.Prelude.Members.{All-member, Memᴰ-contains}
use kuatia.Inflight.{InflightLeg, InflightLegStatus, InflightStatus}
use kuatia.Inflight.Meta.{InflightMeta}
use kuatia.Inflight.Projection.State.{IsState, overall_state-IsState}
use kuatia.Inflight.Projection.Holds.{
  LeadsTo, group_of, IsLineOf, group_holds-groups, lines_of-IsLineOf, lines_of_complete, asset-leg,
}
use kuatia.Inflight.Projection.{StatusInput, derive_status, assets_of, HoldGroup, index_history}
use kuatia.Inflight.Projection.Lines.{derive_status-lines, is_confirm, is_void, group_entries}
use mathlib.Core.List.{Memᴰ}
use mathlib.Core.List.Memᴰ
use kuatia.Inflight.Projection.Sums.{
  authorized_for, history_of, settled_for, leg_entries-amount, records_of-history, groups_with,
}

All-both {ℓ κ μ ν} :
    {A : Type ℓ} {P : A → Type κ} {Q : A → Type μ} {R : A → Type ν} (xs : List A)
    → ((x : A) → P x → Q x → R x)
    → All P xs
    → All Q xs
    → All R xs
All-both [] f ps qs = tt
All-both (x ∷ xs) f (p, ps) (q, qs) = (f x p q, All-both xs f ps qs)

-- What a line of a status says of its hold and asset: some leg is for them, some leg
-- of the hold has its destination, and each amount is a sum.
abbrev pub IsExactLine : (Bytes → Option InflightMeta) → StatusInput → InflightLegStatus → Type 0
IsExactLine from_reader input l =
    let history = history_of l.hold input.hold_history [] in
    ((x : InflightLeg) × Memᴰ x input.legs × (x.hold ≡ l.hold) × (x.asset ≡ l.asset))
    × LeadsTo input.legs l.hold l.destination
    × (l.authorized ≡ authorized_for l.hold l.asset input.legs)
    × (l.confirmed_amount ≡ settled_for from_reader is_confirm l.hold l.asset history)
    × (l.voided_amount ≡ settled_for from_reader is_void l.hold l.asset history)
    × (l.held_amount ≡ get_or_zero (l.hold, l.asset) input.held_balances)

-- If a status is derived, then each of its lines is for the hold and the asset of some leg, and has the
-- destination of some leg of its hold; its authorized amount is the sum of all legs for the hold and asset;
-- its confirmed and voided amounts are the sums, over the transfers of the history given for the hold whose
-- payload is a confirm or a void, of what they create in the asset for others than the hold; and its held
-- amount is the balance that is given. Every leg has a line for its hold and asset. And the state is held
-- (some held amount is above zero, and no confirmed or voided one), partially confirmed (some held amount is,
-- and some confirmed or voided one), or, with no held amount above zero, confirmed (no voided one is), voided
-- (some voided one is, and no confirmed one), or mixed (some of both are).
pub derive_status-IsExact :
    (from_reader : Bytes → Option InflightMeta) (input : StatusInput) (st : InflightStatus)
    → derive_status from_reader input ≡ ok st
    → All (IsExactLine from_reader input) st.legs
      × ((x : InflightLeg)
          → Memᴰ x input.legs
          → (l : InflightLegStatus) × Memᴰ l st.legs × (l.hold ≡ x.hold) × (l.asset ≡ x.asset))
      × IsState st.legs st.state
unfolding lookup
derive_status-IsExact from_reader input st h =
    let (groups, found, (authorized, b, lines), state, amounts) =
      derive_status-lines from_reader input st h in
    let (named, distinct, facts) = group_holds-groups input.legs input.inflight found in
    let placed : All (IsLineOf authorized b input.held_balances groups) st.legs =
      subst (All (IsLineOf authorized b input.held_balances groups)) (sym lines)
        (lines_of-IsLineOf authorized b input.held_balances groups) in
    let history = index_history input.hold_history [] in
    (
      All-both st.legs
          (λ l (g, among, same, to, of_asset) (a, c, v, balance).
            let known : contains l.hold (map (λ q. q.hold) groups) ≡ true =
              Memᴰ-contains l.hold (map (λ q. q.hold) groups) (
                subst (λ k. Memᴰ k (map (λ q. q.hold) groups)) same
                  (Memᴰ.map (λ (q : HoldGroup). q.hold) among)) in
            let (its_assets, leads) =
              All-member
                (λ q.
                  (q.assets ≡ assets_of input.legs q.hold)
                  × LeadsTo input.legs q.hold q.destination)
                g groups facts among in
            let listed : Memᴰ l.asset (assets_of input.legs l.hold) =
              subst (λ k. Memᴰ l.asset (assets_of input.legs k)) same
                (subst (Memᴰ l.asset) its_assets of_asset) in
            let settled : (counts : Option InflightMeta → Bool)
                → amount_of (l.hold, l.asset) (group_entries from_reader counts history groups)
                  ≡ settled_for from_reader counts l.hold l.asset
                      (history_of l.hold input.hold_history []) =
              λ counts.
                groups_with from_reader counts history l.hold l.asset groups distinct known
                ∙ ap (settled_for from_reader counts l.hold l.asset)
                    (records_of-history l.hold input.hold_history []) in
            (
              (asset-leg input.legs l.hold l.asset).0 listed,
              let (x, there, named_so, leads_so) = leads in
                  (x, there, named_so ∙ same, leads_so ∙ to),
              a ∙ leg_entries-amount l.hold l.asset input.legs,
              c ∙ settled is_confirm,
              v ∙ settled is_void,
              balance,
            ))
          placed amounts,
      λ x m.
          let (g, there, same, of_asset) = group_of input.legs input.inflight x found m in
          let (l, among, held_by, asset_same) =
            lines_of_complete authorized b input.held_balances groups g x.asset there of_asset in
          (l, subst (Memᴰ l) (sym lines) among, held_by ∙ same, asset_same),
      rw state (overall_state-IsState st.legs),
    )
