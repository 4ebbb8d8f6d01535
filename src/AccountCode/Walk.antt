-- ===== src/AccountCode/Walk.antt =====
-- crates/kuatia-types/src/account_code.rs, lines 201 to 227: the permutation of the packable
-- values, by cycle-walking. The loops get fuel.
pub mod Ends
pub mod Inverse
use kuatia.Prelude.{ℕ, zero, suc, ◌^◌, ◌≡◌, refl, Option, none, some, Bool, true, false, leb}
use kuatia.AccountCode.Pack.{pack_mask}
use kuatia.AccountCode.Feistel.{feistel94, feistel94_inv}

-- `loop { v = step(v); if v <= PACK_MASK { return v } }`; `none` when the fuel runs out.
unfoldable pub walk : (ℕ → ℕ) → ℕ → ℕ → Option ℕ
walk step zero v = none
walk step (suc fuel) v = elim (leb (step v) pack_mask) [
  | true ↦ some (step v)
  | false ↦ walk step fuel (step v)
]

-- One round, by its test.
module _ (step : ℕ → ℕ) (fuel v : ℕ) where
  pub walk_in : leb (step v) pack_mask ≡ true → walk step (suc fuel) v ≡ some (step v)
  unfolding walk
  walk_in e = rw (walk, e)

  pub walk_out : leb (step v) pack_mask ≡ false → walk step (suc fuel) v ≡ walk step fuel (step v)
  unfolding walk
  walk_out e = rw (walk, e)

-- One round for each block of 94 bits.
abbrev pub walk_fuel : ℕ
walk_fuel = 2 ^ 94

unfoldable pub obfuscate : ℕ → ℕ → Option ℕ
obfuscate p seed = walk (λ v. feistel94 v seed) walk_fuel p

unfoldable pub deobfuscate : ℕ → ℕ → Option ℕ
deobfuscate y seed = walk (λ v. feistel94_inv v seed) walk_fuel y
