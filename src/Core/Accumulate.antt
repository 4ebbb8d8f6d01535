-- ===== src/Core/Accumulate.antt =====
-- The loop that the source writes wherever it adds amounts by key:
-- `let e = map.entry(key).or_insert(Cent::ZERO); *e = e.checked_add(value)?;`
pub mod Laws
use kuatia.Prelude.{
  List, [], ◌∷◌, Option, none, some, Eq, ◌==◌, ℤ, pos, ◌+ℤ◌, ◌-ℤ◌, if◌then◌else◌, Outcome, ok,
  ◌>>=◌,
}
use kuatia.Prelude.Map.{Map, lookup, insert}
use kuatia.Money.{Cent, cent_zero, OverflowError}

module _ {ℓ} {K : Type ℓ} ⦃e : Eq K⦄ where
  -- `map.get(key).copied().unwrap_or(Cent::ZERO)`
  unfoldable pub get_or_zero : K → Map K Cent → Cent
  get_or_zero k m = elim (lookup k m) [ none ↦ cent_zero | some c ↦ c ]

  -- `op` is `checked_add` or `checked_sub`.
  unfoldable pub accumulate :
      (Cent → Cent → Outcome OverflowError Cent)
      → List (K × Cent)
      → Map K Cent
      → Outcome OverflowError (Map K Cent)
  accumulate op [] m = ok m
  accumulate op ((k, v) ∷ xs) m = do c ← op (get_or_zero k m) v; accumulate op xs (insert k c m)

  -- The exact sum of the values under one key.
  unfoldable pub amount_of : K → List (K × Cent) → ℤ
  amount_of k [] = pos 0
  amount_of k ((j, v) ∷ xs) = (if j == k then v else pos 0) +ℤ amount_of k xs
