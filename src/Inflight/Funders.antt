-- ===== src/Inflight/Funders.antt =====
-- crates/kuatia/src/inflight/projection.rs, lines 264 to 307: a voided balance goes back to its funders.
pub mod Caps
pub mod Split
use kuatia.Prelude.{
  ℕ, ◌^◌, ◌-◌, ◌≡◌, ◌≢◌, refl, sym, ap, ◌∙◌, Bool, true, false, not, ◌&&◌, List, [], ◌∷◌, map,
  filter, ◌==◌, nat_eq, ℤ, pos, ltb_ℤ, if◌then◌else◌, Outcome, ok, ◌>>=◌,
}
use kuatia.Money.{Cent, OverflowError, checked_sub, is_positive}
use kuatia.Types.{AccountId, AssetId, account_id_eq}
use kuatia.Inflight.{InflightLeg}

pub record FunderPayout : Type 0 where
  pub funder : AccountId
  pub give : Cent

abbrev pub i64_max : Cent
i64_max = pos (2 ^ 63 - 1)

abbrev pub funder_caps : List InflightLeg → AccountId → AssetId → List (AccountId × Cent)
funder_caps legs hold asset =
    map (λ l. (l.funder, l.amount)) (filter (λ l. l.hold == hold && l.asset == asset) legs)

-- `if let Some(last) = funders.last_mut() { last.1 = i64::MAX }`
unfoldable pub lift_last : List (AccountId × Cent) → List (AccountId × Cent)
lift_last [] = []
lift_last (f ∷ []) = (f.0, i64_max) ∷ []
lift_last (f ∷ g ∷ fs) = f ∷ lift_last (g ∷ fs)

-- The loop over the funders and their caps.
unfoldable pub pay_out : List (AccountId × Cent) → Cent → Outcome OverflowError (List FunderPayout)
pay_out [] remaining = ok []
pay_out ((funder, cap) ∷ fs) remaining = elim (is_positive remaining) [
  | false ↦ ok []
  | true ↦
      let give = if ltb_ℤ cap remaining then cap else remaining in
      elim (is_positive give) [
        | false ↦ pay_out fs remaining
        | true ↦ do
          left ← checked_sub remaining give
          rest ← pay_out fs left
          ok (record { funder = funder; give = give } ∷ rest)
      ]
]

unfoldable pub distribute_to_funders :
    List InflightLeg → AccountId → AssetId → Cent → Outcome OverflowError (List FunderPayout)
unfolding lift_last pay_out
distribute_to_funders legs hold asset remaining =
    pay_out (lift_last (funder_caps legs hold asset)) remaining
