-- ===== src/Prelude/Bits.antt =====
-- Binary digits: the operations `^` and `|` on machine words, at variables.
use Prim.Native.Nat.{
  ℕ, zero, suc, ◌+◌, ◌*◌, ◌/◌, ◌%◌, ◌^◌, ◌≤◌, ◌<◌, max, differ, digits, bitwise, bit_xor, bit_or,
  bit_xor-bitwise, bit_or-bitwise,
}
use mathlib.Core.Path.{◌≡◌, refl, ap}
use native.Mathlib.Omega.{arith}
use native.Mathlib.Nat.{pow-suc}

-- The count of digits to go only has to be large enough.
module _ (z : ℕ → ℕ) (f : ℕ → ℕ → ℕ) where
  digits-any_count : (n m a b : ℕ) → a ≤ n → a ≤ m → digits z f n a b ≡ digits z f m a b
  digits-any_count zero zero a b p q = refl
  digits-any_count zero (suc m) zero b p q = refl
  digits-any_count zero (suc m) (suc a) b p q = absurd (omega arith)
  digits-any_count (suc n) zero zero b p q = refl
  digits-any_count (suc n) zero (suc a) b p q = absurd (omega arith)
  digits-any_count (suc n) (suc m) zero b p q = refl
  digits-any_count (suc n) (suc m) (suc a) b p q =
      rw (digits-any_count n m (suc a / 2) (b / 2) (omega arith) (omega arith))

  bitwise_low :
      (a b : ℕ)
      → bitwise z f (suc a) b ≡ bitwise z f (suc a / 2) (b / 2) * 2 + f (suc a % 2) (b % 2)
  bitwise_low a b =
      rw (digits-any_count a (suc a / 2) (suc a / 2) (b / 2) (omega arith) (omega arith))

bit_xor_low : (a b : ℕ) → bit_xor a b ≡ bit_xor (a / 2) (b / 2) * 2 + differ (a % 2) (b % 2)
bit_xor_low zero b = simp bit_xor-bitwise (omega arith)
bit_xor_low (suc a) b = simp bit_xor-bitwise (bitwise_low (λ y. y) differ a b)

bit_or_low : (a b : ℕ) → bit_or a b ≡ bit_or (a / 2) (b / 2) * 2 + max (a % 2) (b % 2)
bit_or_low zero b = simp bit_or-bitwise (omega arith)
bit_or_low (suc a) b = simp bit_or-bitwise (bitwise_low (λ y. y) max a b)

differ_bit : (x y : ℕ) → x < 2 → y < 2 → (differ x y < 2) × (differ (differ x y) y ≡ x)
differ_bit zero zero p q = (omega arith, refl)
differ_bit zero (suc zero) p q = (omega arith, refl)
differ_bit (suc zero) zero p q = (omega arith, refl)
differ_bit (suc zero) (suc zero) p q = (omega arith, refl)
differ_bit (suc (suc x)) y p q = absurd (omega arith)
differ_bit zero (suc (suc y)) p q = absurd (omega arith)
differ_bit (suc zero) (suc (suc y)) p q = absurd (omega arith)

module _ (a b : ℕ) where
  low_bit : (differ (a % 2) (b % 2) < 2) × (differ (differ (a % 2) (b % 2)) (b % 2) ≡ a % 2)
  low_bit = differ_bit (a % 2) (b % 2) (omega arith) (omega arith)

  bit_xor-div : bit_xor a b / 2 ≡ bit_xor (a / 2) (b / 2)
  bit_xor-div = omega (arith, bit_xor_low a b, low_bit.0)

  bit_xor-mod : bit_xor a b % 2 ≡ differ (a % 2) (b % 2)
  bit_xor-mod = omega (arith, bit_xor_low a b, low_bit.0)

-- Words of `k` bits are closed under `^`.
pub bit_xor-lt : (k a b : ℕ) → a < 2 ^ k → b < 2 ^ k → bit_xor a b < 2 ^ k
bit_xor-lt zero zero zero p q = omega arith
bit_xor-lt zero (suc a) b p q = absurd (omega arith)
bit_xor-lt zero zero (suc b) p q = absurd (omega arith)
bit_xor-lt (suc k) a b p q =
    let double = pow-suc 2 k in
    omega (
      arith,
      double,
      bit_xor_low a b,
      low_bit a b,
      bit_xor-lt k (a / 2) (b / 2) (omega (arith, double)) (omega (arith, double)),
    )

-- The same word twice cancels.
pub bit_xor-bit_xor : (k a b : ℕ) → a < 2 ^ k → b < 2 ^ k → bit_xor (bit_xor a b) b ≡ a
bit_xor-bit_xor zero zero zero p q = refl
bit_xor-bit_xor zero (suc a) b p q = absurd (omega arith)
bit_xor-bit_xor zero zero (suc b) p q = absurd (omega arith)
bit_xor-bit_xor (suc k) a b p q =
    let double = pow-suc 2 k in
    let ih = bit_xor-bit_xor k (a / 2) (b / 2) (omega (arith, double)) (omega (arith, double)) in
    rw (bit_xor_low (bit_xor a b) b, bit_xor-div a b, bit_xor-mod a b, ih)
      (omega (arith, low_bit a b))

max-zero : (a : ℕ) → max a 0 ≡ a
max-zero zero = refl
max-zero (suc a) = omega arith

mul-two-pow : (q k : ℕ) → q * 2 ^ suc k ≡ 2 * (q * 2 ^ k)
mul-two-pow q k = omega (arith, ap (λ (t : ℕ). q * t) (pow-suc 2 k))

or-zero_upto : (n a : ℕ) → a ≤ n → bit_or a 0 ≡ a
or-zero_upto zero zero p = refl
or-zero_upto zero (suc a) p = absurd (omega arith)
or-zero_upto (suc n) a p =
    rw (bit_or_low a 0, or-zero_upto n (a / 2) (omega arith), max-zero (a % 2)) (omega arith)

-- `(q << k) | r` is a sum when `r` fits in the `k` low bits.
pub bit_or_fields : (k q r : ℕ) → r < 2 ^ k → bit_or (q * 2 ^ k) r ≡ q * 2 ^ k + r
bit_or_fields zero q r p =
    let none_left : r ≡ 0 = omega arith in
    rw (none_left, or-zero_upto (q * 1) (q * 1) (omega arith)) (omega arith)
bit_or_fields (suc k) q r p =
    let double = pow-suc 2 k in
    let even = mul-two-pow q k in
    let half : q * 2 ^ suc k / 2 ≡ q * 2 ^ k = omega (arith, even) in
    rw (bit_or_low (q * 2 ^ suc k) r, half, bit_or_fields k q (r / 2) (omega (arith, double)))
      (let even_low : q * 2 ^ suc k % 2 ≡ 0 = omega (arith, even) in
        rw even_low (omega (arith, even)))
