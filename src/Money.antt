-- ===== src/Money.antt =====
-- crates/kuatia-money: amounts with checked arithmetic. A `Cent` is an integer; its backing is the
-- default one, `i64`, whose range each operation tests.
pub mod Sums
pub mod Amount
use kuatia.Prelude.{
  ℕ, ◌^◌, ◌-◌, ◌+◌, ◌/◌, ◌%◌, Bool, Option, none, some, List, [], ◌∷◌, ℤ, pos, negsuc, ◌+ℤ◌, ◌-ℤ◌,
  pos_part, neg_part, ltb, eqb, ltb_ℤ, leb_ℤ, if◌then◌else◌, Outcome, ok, err, ◌>>=◌, ok_or,
}

abbrev pub Cent : Type 0
Cent = ℤ

pub data OverflowError : Type 0 where
  overflow_error : OverflowError

-- Does the number fit the backing, -2^63 .. 2^63 - 1?
unfoldable pub fits : ℤ → Bool
fits (pos n) = ltb n (2 ^ 63)
fits (negsuc n) = ltb n (2 ^ 63)

abbrev pub cent_zero : Cent
cent_zero = pos 0

abbrev pub is_positive : Cent → Bool
is_positive c = ltb_ℤ (pos 0) c

abbrev pub is_negative : Cent → Bool
is_negative c = ltb_ℤ c (pos 0)

abbrev pub is_zero : Cent → Bool
is_zero (pos n) = eqb n 0
is_zero (negsuc n) = Bool.false

-- The backing's own checked operations: nothing where the exact result does not fit.
abbrev checked : ℤ → Option ℤ
checked r = if fits r then some r else none

unfoldable pub checked_add : Cent → Cent → Outcome OverflowError Cent
checked_add a b = ok_or (checked (a +ℤ b)) overflow_error

unfoldable pub checked_sub : Cent → Cent → Outcome OverflowError Cent
checked_sub a b = ok_or (checked (a -ℤ b)) overflow_error

unfoldable pub checked_neg : Cent → Outcome OverflowError Cent
checked_neg a = ok_or (checked (pos 0 -ℤ a)) overflow_error

-- The loop of `checked_sum`, from the sum so far.
unfoldable pub checked_sum_from : Cent → List Cent → Outcome OverflowError Cent
checked_sum_from acc [] = ok acc
checked_sum_from acc (x ∷ xs) = do acc' ← checked_add acc x; checked_sum_from acc' xs

unfoldable pub checked_sum : List Cent → Outcome OverflowError Cent
unfolding checked_sum_from
checked_sum xs = checked_sum_from cent_zero xs

-- `div_rem_abs`: the quotient and remainder of the absolute values, (0, 0) for a zero divisor.
abbrev pub abs : ℤ → ℕ
abs a = pos_part a + neg_part a

unfoldable pub div_rem_abs : ℤ → ℤ → ℕ × ℕ
div_rem_abs a d = if eqb (abs d) 0 then (0, 0) else (abs a / abs d, abs a % abs d)
