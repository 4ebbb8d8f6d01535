-- ===== src/AccountCode/Feistel.antt =====
-- crates/kuatia-types/src/account_code.rs, lines 140 to 199: the keyed permutation of 94-bit blocks.
pub mod Inverse
use Prim.Native.Nat.{bit_xor, bit_or}
use kuatia.Prelude.{ℕ, ◌+◌, ◌*◌, ◌/◌, ◌%◌, ◌^◌, List, [], ◌∷◌}

-- `DEFAULT_ID_SEED`
abbrev pub default_id_seed : ℕ
default_id_seed = 0x9e3779b97f4a7c15

-- 64-bit words throughout, and `wrapping_mul`.
unfoldable pub mix64 : ℕ → ℕ
mix64 z =
    let a = bit_xor z (z / 2 ^ 30) * 0xbf58476d1ce4e5b9 % 2 ^ 64 in
    let b = bit_xor a (a / 2 ^ 27) * 0x94d049bb133111eb % 2 ^ 64 in bit_xor b (b / 2 ^ 31)

unfoldable pub round_key : ℕ → ℕ → ℕ
round_key seed round = mix64 (bit_xor seed (round * 0x9e3779b97f4a7c15 % 2 ^ 64))

abbrev pub feistel_half_bits : ℕ
feistel_half_bits = 47

-- `0..FEISTEL_ROUNDS`, and the same reversed.
abbrev pub feistel_rounds : List ℕ
feistel_rounds = 0 ∷ 1 ∷ 2 ∷ 3 ∷ []

abbrev pub feistel_rounds_rev : List ℕ
feistel_rounds_rev = 3 ∷ 2 ∷ 1 ∷ 0 ∷ []

-- The word that a round mixes into one half, from the other half.
unfoldable pub round_word : ℕ → ℕ → ℕ → ℕ
round_word seed round half = mix64 (bit_xor half (round_key seed round)) % 2 ^ feistel_half_bits

-- The loop of `feistel94`, on the two halves.
unfoldable pub feistel_loop : ℕ → List ℕ → ℕ → ℕ → ℕ × ℕ
feistel_loop seed [] l r = (l, r)
feistel_loop seed (round ∷ rest) l r =
    feistel_loop seed rest r (bit_xor l (round_word seed round r) % 2 ^ feistel_half_bits)

-- The loop of `feistel94_inv`.
unfoldable pub feistel_inv_loop : ℕ → List ℕ → ℕ → ℕ → ℕ × ℕ
feistel_inv_loop seed [] l r = (l, r)
feistel_inv_loop seed (round ∷ rest) l r =
    feistel_inv_loop seed rest (bit_xor r (round_word seed round l) % 2 ^ feistel_half_bits) l

-- `(l << FEISTEL_HALF_BITS) | r`
unfoldable pub join_halves : ℕ × ℕ → ℕ
join_halves (l, r) = bit_or (l * 2 ^ feistel_half_bits) r

abbrev pub high_half : ℕ → ℕ
high_half block = block / 2 ^ feistel_half_bits % 2 ^ feistel_half_bits

abbrev pub low_half : ℕ → ℕ
low_half block = block % 2 ^ feistel_half_bits

unfoldable pub feistel94 : ℕ → ℕ → ℕ
feistel94 block seed =
    join_halves (feistel_loop seed feistel_rounds (high_half block) (low_half block))

unfoldable pub feistel94_inv : ℕ → ℕ → ℕ
feistel94_inv block seed =
    join_halves (feistel_inv_loop seed feistel_rounds_rev (high_half block) (low_half block))
