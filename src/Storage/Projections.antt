-- ===== src/Storage/Projections.antt =====
-- crates/kuatia-storage/src/mem_store.rs: the cached balance points. They are a table of their own, beside
-- the other tables of the store; the id of a new point is an argument, since the id generator reads a clock.
pub mod Closest
use kuatia.Prelude.{
  Bool, true, false, ◌||◌, ◌&&◌, not, Option, none, some, List, [], ◌∷◌, ◌++◌, filter, ◌==◌, nat_eq,
  ℤ, eqb_ℤ, ltb_ℤ, leb_ℤ, if◌then◌else◌,
}
use kuatia.Prelude.Map.{Map, lookup, insert}
use kuatia.Money.{Cent}
use kuatia.Types.{AccountId, AssetId, BalanceKey, balance_key_eq}

pub record BalanceProjection : Type 0 where
  pub id : ℤ
  pub account : AccountId
  pub asset : AssetId
  pub balance : Cent
  pub watermark : ℤ

abbrev pub Projections : Type 0
Projections = Map BalanceKey (List BalanceProjection)

-- `entry(key).or_default()`
abbrev pub points_of : Option (List BalanceProjection) → List BalanceProjection
points_of none = []
points_of (some points) = points

unfoldable pub append_balance_projection :
    (id : ℤ) → AccountId → AssetId → Cent → ℤ → Projections → Projections
append_balance_projection id account asset balance watermark t =
    insert (account, asset)
      (points_of (lookup (account, asset) t)
        ++ record {
          id = id;
          account = account;
          asset = asset;
          balance = balance;
          watermark = watermark;
        }
          ∷ [])
      t

-- The order of the keys `(p.watermark, p.id)`.
abbrev pub le_point : BalanceProjection → BalanceProjection → Bool
le_point p q =
    if eqb_ℤ p.watermark q.watermark then leb_ℤ p.id q.id else leb_ℤ p.watermark q.watermark

-- `max_by_key`: the last one among the greatest.
unfoldable pub max_from : BalanceProjection → List BalanceProjection → BalanceProjection
max_from best [] = best
max_from best (p ∷ ps) = max_from (if le_point best p then p else best) ps

abbrev pub max_point : List BalanceProjection → Option BalanceProjection
max_point [] = none
max_point (p ∷ ps) = some (max_from p ps)

unfoldable pub get_closest_balance_projection :
    AccountId → AssetId → ℤ → Projections → Option BalanceProjection
unfolding max_from
get_closest_balance_projection account asset as_of t =
    max_point (filter (λ p. leb_ℤ p.watermark as_of) (points_of (lookup (account, asset) t)))
