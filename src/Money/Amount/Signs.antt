-- ===== src/Money/Amount/Signs.antt =====
-- crates/kuatia-money/src/lib.rs: texts with two signs.
use kuatia.Prelude.{
  ℕ, ◌*◌, ◌^◌, ◌<◌, ◌≡◌, refl, arith, true, false, some, [], ◌∷◌, ltb, lt→ltb, pos, ◌+ℤ◌, ◌-ℤ◌,
  pos_part, neg_part, All, All-imp, ok, int_laws,
}
use kuatia.Prelude.Text.{
  Text, is_whitespace, trim_start, trim_end_id, decimal, decimal_cons, decimal-IsDigit, digits_loop,
  digits_loop-decimal, byte_len,
}
use kuatia.Money.{fits}
use kuatia.Money.Amount.{
  parse_str, ten_pow, times, in_range, split_dot, part, parse_parts, parse, minus, unsigned,
}
use kuatia.Money.Amount.Digits.{not_blank, split_dot_none}

minus_parts : (n : ℕ) → (pos_part (minus n) ≡ 0) × (neg_part (minus n) ≡ n)
minus_parts n = (ground arith, ground arith)

in_range-minus : (n : ℕ) → n < 2 ^ 63 → in_range (minus n) ≡ some (minus n)
unfolding fits
in_range-minus n h = ground arith

module _ (d n : ℕ) (fit : n * 10 ^ d < 2 ^ 63) (power : 10 ^ d < 2 ^ 63) (small : n < 2 ^ 63) where
  unsigned-decimal : unsigned (decimal n) ≡ some n
  unsigned-decimal =
      let (c, s, p) = decimal_cons n in
      let read : digits_loop 0 (c ∷ s) ≡ some n = rw p at (digits_loop-decimal n) in rw p read

  part-minus : part (b'-' ∷ decimal n) (b'-' ∷ decimal n) ≡ ok (minus n)
  unfolding parse_str
  part-minus = rw (unsigned-decimal, in_range-minus n small)

  multiplied : in_range (times (minus n) (10 ^ d)) ≡ some (minus (n * 10 ^ d))
  multiplied =
      let nothing : 0 * 10 ^ d ≡ 0 = omega arith in
      rw ((minus_parts n).0, (minus_parts n).1, nothing) (in_range-minus (n * 10 ^ d) fit)

  plus_nothing : in_range (minus (n * 10 ^ d) +ℤ pos 0) ≡ some (minus (n * 10 ^ d))
  plus_nothing =
      let same : minus (n * 10 ^ d) +ℤ pos 0 ≡ minus (n * 10 ^ d) = omega int_laws in
      rw same (in_range-minus (n * 10 ^ d) fit)

  negated : in_range (pos 0 -ℤ minus (n * 10 ^ d)) ≡ some (pos (n * 10 ^ d))
  unfolding fits
  negated =
      let parts = minus_parts (n * 10 ^ d) in
      let same : pos 0 -ℤ minus (n * 10 ^ d) ≡ pos (n * 10 ^ d) = omega (int_laws, parts) in
      rw same (ground arith)

  unblank : All (λ x. is_whitespace x ≡ false) (b'-' ∷ b'-' ∷ decimal n)
  unblank = (refl, (refl, All-imp (decimal n) not_blank (decimal-IsDigit n)))

  power_ok : ten_pow d ≡ some (10 ^ d)
  unfolding ten_pow
  power_ok =
      let in_bounds : ltb (10 ^ d) (2 ^ 63) ≡ true = lt→ltb _ _ power in rw (ten_pow, in_bounds)

  no_dot : ◌≡◌ {A = Text × Text} (split_dot (b'-' ∷ decimal n)) (b'-' ∷ decimal n, [])
  unfolding split_dot
  no_dot = rw (split_dot_none (decimal n) (decimal-IsDigit n))

  two_signs : parse d (b'-' ∷ b'-' ∷ decimal n) ≡ ok (pos (n * 10 ^ d))
  unfolding parse parse_parts trim_start byte_len
  two_signs =
      rw (trim_end_id (b'-' ∷ b'-' ∷ decimal n) unblank, no_dot)
        (rw (part-minus, power_ok, multiplied, plus_nothing, negated)
          (let few : ltb d 0 ≡ false = ground arith in rw few))

-- Where the value fits, a text of two minus signs and the digits of n parses, with d decimals, to the
-- positive amount n * 10 ^ d.
pub parse-two_signs :
    (d n : ℕ)
    → n * 10 ^ d < 2 ^ 63
    → 10 ^ d < 2 ^ 63
    → n < 2 ^ 63
    → parse d (b'-' ∷ b'-' ∷ decimal n) ≡ ok (pos (n * 10 ^ d))
parse-two_signs = two_signs
