-- ===== src/Money/Amount/Digits.antt =====
-- crates/kuatia-money/src/lib.rs: the texts of digits that an amount is printed with.
use kuatia.Prelude.{
  ℕ, zero, suc, ◌-◌, ◌^◌, ◌<◌, ◌≡◌, refl, ap, ◌∙◌, arith, true, false, some, [], ◌∷◌, ◌++◌, eqb,
  length, length-append, pos, All, All-append,
}
use kuatia.Prelude.Text.{
  Text, is_whitespace, byte_len, decimal, decimal-IsDigit, digits_loop, digits_loop-decimal,
  length-decimal, IsDigit,
}
use kuatia.Money.{fits}
use kuatia.Money.Amount.{parse_str, split_dot, all_digits, zeros, pad_right, pad_left}

pub not_blank : (c : ℕ) → IsDigit c → is_whitespace c ≡ false
not_blank c h = ground arith

pub digit_ne :
    (c : ℕ) → IsDigit c → (eqb c b'.' ≡ false) × (eqb c b'-' ≡ false) × (eqb c b'+' ≡ false)
digit_ne c h = (ground arith, ground arith, ground arith)

pub split_dot-digits :
    (s f : Text) → All IsDigit s → ◌≡◌ {A = Text × Text} (split_dot (s ++ (b'.' ∷ f))) (s, f)
unfolding split_dot
split_dot-digits [] f h = refl
split_dot-digits (c ∷ s) f h = rw ((digit_ne c h.0).0, split_dot-digits s f h.1)

pub split_dot_none : (s : Text) → All IsDigit s → ◌≡◌ {A = Text × Text} (split_dot s) (s, [])
unfolding split_dot
split_dot_none [] h = refl
split_dot_none (c ∷ s) h = rw ((digit_ne c h.0).0, split_dot_none s h.1)

pub parse_str-digits :
    (c : ℕ) (s : Text) (n : ℕ)
    → IsDigit c
    → digits_loop 0 (c ∷ s) ≡ some n
    → n < 2 ^ 63
    → parse_str (c ∷ s) ≡ some (pos n)
unfolding parse_str
parse_str-digits c s n h k small =
    let fit : fits (pos n) ≡ true = unfold fits in ground arith in
    rw ((digit_ne c h).1, (digit_ne c h).2, k, fit)

pub byte_len-digits : (s : Text) → All IsDigit s → byte_len s ≡ length s
unfolding byte_len
byte_len-digits [] h = refl
byte_len-digits (c ∷ s) h = ground (arith, byte_len-digits s h.1)

pub all_digits-true : (s : Text) → All IsDigit s → all_digits s ≡ true
all_digits-true [] h = refl
all_digits-true (c ∷ s) h = rw (h.0, all_digits-true s h.1)

zeros_digits : (k : ℕ) → (All IsDigit (zeros k)) × (length (zeros k) ≡ k)
unfolding zeros
zeros_digits zero = (tt, refl)
zeros_digits (suc k) = ((refl, (zeros_digits k).0), omega (arith, (zeros_digits k).1))

digits_loop-zeros : (k : ℕ) (s : Text) → digits_loop 0 (zeros k ++ s) ≡ digits_loop 0 s
unfolding digits_loop zeros
digits_loop-zeros zero s = refl
digits_loop-zeros (suc k) s = digits_loop-zeros k s

append-nil : (s : Text) → s ++ [] ≡ s
append-nil [] = refl
append-nil (c ∷ s) = ap (λ t. c ∷ t) (append-nil s)

pub pad_right_full : (d : ℕ) (s : Text) → length s ≡ d → pad_right d s ≡ s
unfolding zeros
pad_right_full d s h =
    let none_left : d - length s ≡ 0 = omega (arith, h) in rw none_left (append-nil s)

-- The fraction as it is printed: so many digits, and the same value.
pub record IsFraction (d r : ℕ) (f : Text) : Type 0 where
  pub digits_lem : All IsDigit f
  pub length_lem : length f ≡ d
  pub value_lem : digits_loop 0 f ≡ some r

pub pad_left-IsFraction :
    (d r : ℕ) → r < 10 ^ suc d → IsFraction (suc d) r (pad_left (suc d) (decimal r))
pad_left-IsFraction d r h =
    let s = decimal r in
    let k = suc d - length s in
    record {
      digits_lem = All-append IsDigit (zeros k) s (zeros_digits k).0 (decimal-IsDigit r);
      length_lem =
          omega (arith, length-append (zeros k) s, (zeros_digits k).1, length-decimal d r h);
      value_lem = digits_loop-zeros k s ∙ digits_loop-decimal r;
    }
