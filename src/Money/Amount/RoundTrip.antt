-- ===== src/Money/Amount/RoundTrip.antt =====
-- crates/kuatia-money/src/lib.rs: formatting an amount and parsing it.
use native.Mathlib.Nat.{div-add-mod', one-le-pow, mod-lt, div-le_self}
use kuatia.Prelude.{
  ℕ, suc, ◌+◌, ◌*◌, ◌/◌, ◌%◌, ◌^◌, ◌≤◌, ◌<◌, ◌≡◌, refl, ap, subst, ◌∙◌, arith, Bool, true, false,
  some, [], ◌∷◌, ◌++◌, ltb, eqb, if◌then◌else◌, pos, negsuc, ◌+ℤ◌, ◌-ℤ◌, All, All-append, All-imp,
  ok, lt→ltb,
}
use kuatia.Prelude.Text.{
  Text, is_whitespace, byte_len, trim_start, trim_end_id, decimal, decimal_cons, decimal-IsDigit,
  digits_loop, digits_loop-decimal, IsDigit,
}
use kuatia.Money.{Cent, fits, is_negative, div_rem_abs, abs}
use kuatia.Money.Amount.{
  ten_pow, times, in_range, pad_right, pad_left, part, parse_parts, parse, sign_of, format,
}
use kuatia.Money.Amount.Digits.{
  not_blank, digit_ne, split_dot-digits, parse_str-digits, byte_len-digits, all_digits-true,
  pad_right_full, pad_left-IsFraction, IsFraction,
}

-- The signed value.
abbrev pub with_sign : Bool → ℕ → Cent
with_sign true v = pos 0 -ℤ pos v
with_sign false v = pos v

in_range-pos : (n : ℕ) → n < 2 ^ 63 → in_range (pos n) ≡ some (pos n)
unfolding fits
in_range-pos n h = ground arith

in_range-minus : (n : ℕ) → n < 2 ^ 63 → in_range (pos 0 -ℤ pos n) ≡ some (pos 0 -ℤ pos n)
unfolding fits ◌-ℤ◌
in_range-minus n h = ground arith

times_pos : (w m : ℕ) → times (pos w) m ≡ pos (w * m)
times_pos w m = ground arith

plus_pos : (a b : ℕ) → pos a +ℤ pos b ≡ pos (a + b)
unfolding ◌+ℤ◌
plus_pos a b = ground arith

module _ (d w r c e : ℕ) (t g : Text) (printed : All IsDigit (c ∷ t))
    (value : digits_loop 0 (c ∷ t) ≡ some w) (fraction : IsFraction (suc d) r (e ∷ g))
    (power : 10 ^ suc d < 2 ^ 63) (w_small : w < 2 ^ 63) (r_small : r < 2 ^ 63)
    (small : w * 10 ^ suc d + r < 2 ^ 63) where
  whole-part : part (c ∷ t) (c ∷ t) ≡ ok (pos w)
  whole-part = rw (parse_str-digits c t w printed.0 value w_small)

  frac-part : part (pad_right (suc d) (e ∷ g)) (e ∷ g) ≡ ok (pos r)
  frac-part =
      let full = pad_right_full (suc d) (e ∷ g) fraction.length_lem in
      rw (full, parse_str-digits e g r fraction.digits_lem.0 fraction.value_lem r_small)

  multiplied : in_range (times (pos w) (10 ^ suc d)) ≡ some (pos (w * 10 ^ suc d))
  multiplied = rw (times_pos w (10 ^ suc d)) (in_range-pos (w * 10 ^ suc d) (omega (arith, small)))

  summed : in_range (pos (w * 10 ^ suc d) +ℤ pos r) ≡ some (pos (w * 10 ^ suc d + r))
  summed = rw (plus_pos (w * 10 ^ suc d) r) (in_range-pos (w * 10 ^ suc d + r) small)

  no_more : ltb (suc d) (byte_len (e ∷ g)) ≡ false
  no_more =
      let len = byte_len-digits (e ∷ g) fraction.digits_lem in
      let full = fraction.length_lem in rw (len, full) (ground arith)

  power_ok : ten_pow (suc d) ≡ some (10 ^ suc d)
  unfolding ten_pow
  power_ok = let fit : ltb (10 ^ suc d) (2 ^ 63) ≡ true = lt→ltb _ _ power in rw (ten_pow, fit)

  pub parse_parts-digits :
      (negative : Bool)
      → parse_parts (suc d) negative (c ∷ t) (e ∷ g) ≡ ok (with_sign negative (w * 10 ^ suc d + r))
  unfolding parse_parts
  parse_parts-digits false = rw (
    whole-part,
    no_more,
    all_digits-true (e ∷ g) fraction.digits_lem,
    frac-part,
    power_ok,
    multiplied,
    summed,
  )
  parse_parts-digits true =
      rw
        (
          whole-part,
          no_more,
          all_digits-true (e ∷ g) fraction.digits_lem,
          frac-part,
          power_ok,
          multiplied,
          summed,
        )
        (rw (in_range-minus (w * 10 ^ suc d + r) small))

  unblank : All (λ x. is_whitespace x ≡ false) ((c ∷ t) ++ (b'.' ∷ (e ∷ g)))
  unblank =
      All-append (λ x. is_whitespace x ≡ false) (c ∷ t) (b'.' ∷ (e ∷ g))
        (All-imp (c ∷ t) not_blank printed) (refl, All-imp (e ∷ g) not_blank fraction.digits_lem)

  abbrev body : Text
  body = (c ∷ t) ++ (b'.' ∷ (e ∷ g))

  -- A sign, digits, a dot and so many digits parse to the value that they spell.
  pub parse-digits :
      (negative : Bool)
      → parse (suc d) ((if negative then b'-' ∷ [] else []) ++ body)
        ≡ ok (with_sign negative (w * 10 ^ suc d + r))
  unfolding parse trim_start
  parse-digits false =
      let kept = trim_end_id body unblank in
      rw (unblank.0, kept, (digit_ne c printed.0).1, split_dot-digits (c ∷ t) (e ∷ g) printed)
        (parse_parts-digits false)
  parse-digits true =
      let kept = trim_end_id (b'-' ∷ body) (refl, unblank) in
      rw (kept, split_dot-digits (c ∷ t) (e ∷ g) printed) (parse_parts-digits true)

with_sign-abs : (v : Cent) → with_sign (is_negative v) (abs v) ≡ v
unfolding ◌-ℤ◌
with_sign-abs (pos n) = ground arith
with_sign-abs (negsuc n) = ground arith

div_rem_abs-pos :
    (v : Cent) (m : ℕ) → 0 < m → ◌≡◌ {A = ℕ × ℕ} (div_rem_abs v (pos m)) (abs v / m, abs v % m)
unfolding div_rem_abs
div_rem_abs-pos v m h =
    let same : m + 0 ≡ m = omega arith in
    let some_divisor : eqb m 0 ≡ false = ground arith in rw (same, some_divisor)

format-parts :
    (d : ℕ) (v : Cent)
    → 10 ^ suc d < 2 ^ 63
    → 0 < 10 ^ suc d
    → format (suc d) v
      ≡ sign_of v
        ++ (decimal (abs v / 10 ^ suc d)
            ++ (b'.' ∷ pad_left (suc d) (decimal (abs v % 10 ^ suc d))))
unfolding format ten_pow
format-parts d v power positive =
    let fit : ltb (10 ^ suc d) (2 ^ 63) ≡ true = lt→ltb _ _ power in
    let decimals : eqb (suc d) 0 ≡ false = ground arith in
    rw (format, decimals, ten_pow, fit, div_rem_abs-pos v (10 ^ suc d) positive)

fraction_cons : (d r : ℕ) (f : Text) → IsFraction (suc d) r f → (e : ℕ) × (g : Text) × (f ≡ e ∷ g)
fraction_cons d r [] x = absurd (omega (arith, x.length_lem))
fraction_cons d r (e ∷ g) x = (e, g, refl)

module _ (d : ℕ) (v : Cent) (power : 10 ^ suc d < 2 ^ 63) (small : abs v < 2 ^ 63) where
  whole : ℕ
  whole = abs v / 10 ^ suc d

  rest : ℕ
  rest = abs v % 10 ^ suc d

  positive : 0 < 10 ^ suc d
  positive = one-le-pow (suc d) 10 (omega arith)

  exact : whole * 10 ^ suc d + rest ≡ abs v
  unfolding whole rest
  exact = div-add-mod' (abs v) (10 ^ suc d)

  rest-IsFraction : IsFraction (suc d) rest (pad_left (suc d) (decimal rest))
  unfolding rest
  rest-IsFraction = pad_left-IsFraction d rest (mod-lt (abs v) positive)

  whole-le : whole ≤ abs v
  unfolding whole
  whole-le = div-le_self (abs v) (10 ^ suc d)

  parse-parts :
      (c e : ℕ) (t g : Text)
      → decimal whole ≡ c ∷ t
      → pad_left (suc d) (decimal rest) ≡ e ∷ g
      → parse (suc d) (sign_of v ++ (decimal whole ++ (b'.' ∷ pad_left (suc d) (decimal rest))))
        ≡ ok v
  parse-parts c e t g p q =
      let printed : All IsDigit (c ∷ t) = rw p at (decimal-IsDigit whole) in
      let value : digits_loop 0 (c ∷ t) ≡ some whole = rw p at (digits_loop-decimal whole) in
      let fraction : IsFraction (suc d) rest (e ∷ g) =
        subst (IsFraction (suc d) rest) q rest-IsFraction in
      rw (p, q)
        (parse-digits d whole rest c e t g printed value fraction power
            (omega (arith, whole-le, small)) (omega (arith, exact, small))
            (omega (arith, exact, small)) (is_negative v)
          ∙ ap (λ (n : ℕ). ok (with_sign (is_negative v) n)) exact
          ∙ ap (λ (x : Cent). ok x) (with_sign-abs v))

-- An amount printed with d + 1 decimals, where 10 ^ (d + 1) fits an `i64`, parses back with as many
-- decimals, for every amount from -(2^63 - 1) to 2^63 - 1.
pub parse-format :
    (d : ℕ) (v : Cent)
    → 10 ^ suc d < 2 ^ 63
    → abs v < 2 ^ 63
    → parse (suc d) (format (suc d) v) ≡ ok v
unfolding whole rest
parse-format d v power small =
    let (c, t, p) = decimal_cons (whole d v power small) in
    let (e, g, q) = fraction_cons d (rest d v power small) _ (rest-IsFraction d v power small) in
    ap (parse (suc d)) (format-parts d v power (positive d v power small))
    ∙ parse-parts d v power small c e t g p q
