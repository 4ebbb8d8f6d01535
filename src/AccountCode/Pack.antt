-- ===== src/AccountCode/Pack.antt =====
-- crates/kuatia-types/src/account_code.rs, lines 30 to 66: two ids in one value of 93 bits.
use Prim.Native.Nat.{bit_or}
use kuatia.Prelude.{
  ℕ, ◌+◌, ◌-◌, ◌*◌, ◌/◌, ◌%◌, ◌^◌, ◌<◌, ◌≡◌, arith, ℤ, pos, negsuc, ltb, if◌then◌else◌,
}
use kuatia.Prelude.Bytes.{to_word}
use kuatia.Prelude.Bits.{bit_or_fields}

abbrev pub id_bits : ℕ
id_bits = 63

abbrev pub sub_bits : ℕ
sub_bits = 30

-- `PACK_MASK`
abbrev pub pack_mask : ℕ
pack_mask = 2 ^ (id_bits + sub_bits) - 1

-- `x as i64`, for an unsigned word.
unfoldable pub as_i64 : ℕ → ℤ
as_i64 x = let w = x % 2 ^ 64 in if ltb w (2 ^ 63) then pos w else negsuc (2 ^ 64 - w - 1)

-- A mask of so many low bits is the remainder by that power of two.
unfoldable pub pack : ℤ → ℤ → ℕ
pack id sub =
    let id_part = to_word 128 id % 2 ^ id_bits in
    let sub_part = to_word 128 sub % 2 ^ sub_bits in bit_or (id_part * 2 ^ sub_bits) sub_part

unfoldable pub unpack : ℕ → ℤ × ℤ
unpack p = (as_i64 (p / 2 ^ sub_bits), as_i64 (p % 2 ^ sub_bits))

pub pack-pos :
    (i s : ℕ) → i < 2 ^ id_bits → s < 2 ^ sub_bits → pack (pos i) (pos s) ≡ i * 2 ^ sub_bits + s
unfolding pack to_word
pack-pos i s p q = omega (arith, bit_or_fields 30 (i % 2 ^ 128 % 2 ^ 63) (s % 2 ^ 128 % 2 ^ 30))

-- Whatever the ids are, the packed value is in the domain of the permutation.
pub pack-bound : (id sub : ℤ) → pack id sub < 2 ^ 93
unfolding pack
pack-bound id sub =
    let high = to_word 128 id % 2 ^ 63 in
    let low = to_word 128 sub % 2 ^ 30 in omega (arith, bit_or_fields 30 high low)

as_i64-small : (n : ℕ) → n < 2 ^ 63 → as_i64 n ≡ pos n
unfolding as_i64
as_i64-small n p = ground arith

-- Ids in range come back from the packed value.
pub unpack-pack :
    (i s : ℕ)
    → i < 2 ^ id_bits
    → s < 2 ^ sub_bits
    → ◌≡◌ {A = ℤ × ℤ} (unpack (pack (pos i) (pos s))) (pos i, pos s)
unfolding unpack
unpack-pack i s p q =
    let both = pack-pos i s p q in
    let high : pack (pos i) (pos s) / 2 ^ sub_bits ≡ i = omega (arith, both) in
    let low : pack (pos i) (pos s) % 2 ^ sub_bits ≡ s = omega (arith, both) in
    rw (high, low, as_i64-small i p, as_i64-small s (omega arith))
