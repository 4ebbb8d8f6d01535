-- ===== src/Money/Amount.antt =====
-- crates/kuatia-money/src/lib.rs, lines 69 to 96 and 295 to 418: amounts as decimal texts. The text that an
-- error carries is left out.
pub mod Digits
pub mod RoundTrip
pub mod Signs
mod Tests
use kuatia.Prelude.{
  ℕ, zero, suc, ◌+◌, ◌-◌, ◌*◌, ◌^◌, Bool, true, false, not, ◌&&◌, Option, none, some, List, [], ◌∷◌,
  ◌++◌, ltb, eqb, is_empty, length, if◌then◌else◌, ℤ, pos, negsuc, ◌+ℤ◌, ◌-ℤ◌, sub_ℕ, pos_part,
  neg_part, Outcome, ok, err, ◌>>=◌, ◌>>◌, reject_if, ok_or,
}
use kuatia.Prelude.Text.{Text, is_ascii_digit, byte_len, trim_start, trim_end, decimal, digits_loop}
use kuatia.Money.{Cent, fits, is_negative, div_rem_abs}

-- The digits of an unsigned number: at least one.
abbrev pub unsigned : Text → Option ℕ
unsigned [] = none
unsigned (c ∷ s) = digits_loop 0 (c ∷ s)

abbrev pub in_range : ℤ → Option ℤ
in_range v = if fits v then some v else none

abbrev pub signed : (ℕ → ℤ) → Option ℕ → Option ℤ
signed sign none = none
signed sign (some n) = in_range (sign n)

abbrev pub minus : ℕ → ℤ
minus n = sub_ℕ 0 n

-- `s.parse::<i64>().ok()`: a sign is allowed, and the value has to fit.
unfoldable pub parse_str : Text → Option Cent
parse_str [] = none
parse_str (c ∷ s) =
    if eqb c b'-'
    then signed minus (unsigned s)
    else if eqb c b'+'
    then signed pos (unsigned s)
    else signed pos (unsigned (c ∷ s))

-- `10i64.checked_pow(n)`
unfoldable pub ten_pow : ℕ → Option ℕ
ten_pow n = if ltb (10 ^ n) (2 ^ 63) then some (10 ^ n) else none

-- The exact product, which `checked_mul` answers where it fits.
abbrev pub times : ℤ → ℕ → ℤ
times v m = sub_ℕ (pos_part v * m) (neg_part v * m)

pub data ParseAmountError : Type 0 where
  invalid_format : ParseAmountError
  too_many_decimals : (max found : ℕ) → ParseAmountError

abbrev pub or_invalid {ℓ} : {A : Type ℓ} → Option A → Outcome ParseAmountError A
or_invalid o = ok_or o invalid_format

-- `strip_prefix('-')`, with whether it was there.
abbrev pub strip_minus : Text → Bool × Text
strip_minus [] = (false, [])
strip_minus (c ∷ s) = if eqb c b'-' then (true, s) else (false, c ∷ s)

-- `split_once('.')`, with an empty second part where there is no dot.
unfoldable pub split_dot : Text → Text × Text
split_dot [] = ([], [])
split_dot (c ∷ s) = let rest = split_dot s in if eqb c b'.' then ([], s) else (c ∷ rest.0, rest.1)

abbrev pub all_digits : Text → Bool
all_digits [] = true
all_digits (c ∷ s) = is_ascii_digit c && all_digits s

unfoldable pub zeros : ℕ → Text
zeros zero = []
zeros (suc n) = b'0' ∷ zeros n

-- `{:0<width$}` and `{:0>width$}`
abbrev pub pad_right : ℕ → Text → Text
pad_right width s = s ++ zeros (width - length s)

abbrev pub pad_left : ℕ → Text → Text
pad_left width s = zeros (width - length s) ++ s

abbrev pub part : Text → Text → Outcome ParseAmountError Cent
part text [] = ok (pos 0)
part text (c ∷ s) = or_invalid (parse_str text)

-- `parse`, from the parts before and after the dot.
unfoldable pub parse_parts : ℕ → Bool → Text → Text → Outcome ParseAmountError Cent
parse_parts decimals negative whole_str frac_str = do
  reject_if (is_empty whole_str && is_empty frac_str) invalid_format
  whole ← part whole_str whole_str
  reject_if (ltb decimals (byte_len frac_str)) (too_many_decimals decimals (byte_len frac_str))
  reject_if (not (is_empty frac_str) && not (all_digits frac_str)) invalid_format
  frac ← part (pad_right decimals frac_str) frac_str
  multiplier ← or_invalid (ten_pow decimals)
  product ← or_invalid (in_range (times whole multiplier))
  value ← or_invalid (in_range (product +ℤ frac))
  if negative then or_invalid (in_range (pos 0 -ℤ value)) else ok value

-- `Amount::parse`
unfoldable pub parse : ℕ → Text → Outcome ParseAmountError Cent
parse decimals text =
    let (negative, s) = strip_minus (trim_end (trim_start text)) in
    let (whole_str, frac_str) = split_dot s in parse_parts decimals negative whole_str frac_str

-- `Cent::to_string`
abbrev pub to_string : Cent → Text
to_string (pos n) = decimal n
to_string (negsuc n) = b'-' ∷ decimal (suc n)

abbrev pub sign_of : Cent → Text
sign_of cent = if is_negative cent then b'-' ∷ [] else []

-- `Amount::format`
unfoldable pub format : ℕ → Cent → Text
unfolding div_rem_abs
format decimals cent = if eqb decimals 0 then to_string cent else elim (ten_pow decimals) [
  | none ↦ to_string cent
  | some multiplier ↦
      let (whole, frac) = div_rem_abs cent (pos multiplier) in
      sign_of cent ++ (decimal whole ++ (b'.' ∷ pad_left decimals (decimal frac)))
]
