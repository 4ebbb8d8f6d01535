-- ===== src/AccountCode/Base36.antt =====
-- crates/kuatia-types/src/account_code.rs, lines 68 to 119: the body in base 36 and its check digits.
-- A text is a list of code points; those of a code are its bytes.
pub mod Decode
pub mod Checksum
use kuatia.Prelude.{
  ℕ, zero, suc, ◌+◌, ◌-◌, ◌*◌, ◌/◌, ◌%◌, ◌^◌, List, [], ◌∷◌, ◌++◌, leb, eqb, if◌then◌else◌, Bool,
  true, false, ◌&&◌, Option, none, some, ltb,
}
use kuatia.Prelude.Bytes.{Bytes}
use kuatia.Prelude.Text.{is_ascii_digit}

abbrev pub body_len : ℕ
body_len = 18

-- `D[d]`, the digit of a value below 36.
unfoldable pub digit36 : ℕ → ℕ
digit36 d = if leb d 9 then b'0' + d else b'A' + (d - 10)

abbrev pub zeros : ℕ → Bytes
zeros zero = []
zeros (suc n) = b'0' ∷ zeros n

-- The loop, over the places not yet written; they hold `0`, and `out` is what stands after them.
unfoldable pub body_loop : ℕ → ℕ → Bytes → Bytes
body_loop zero v out = out
body_loop (suc i) v out =
    if eqb v 0 then zeros (suc i) ++ out else body_loop i (v / 36) (digit36 (v % 36) ∷ out)

unfoldable pub base36_body : ℕ → Bytes
base36_body v = body_loop body_len v []

abbrev pub is_ascii_uppercase : ℕ → Bool
is_ascii_uppercase c = leb b'A' c && leb c b'Z'

-- `u32::to_string`, for a number of at most two digits.
abbrev pub decimal2 : ℕ → Bytes
decimal2 v = if leb v 9 then (b'0' + v) ∷ [] else (b'0' + v / 10) ∷ (b'0' + v % 10) ∷ []

-- Both callers pass digits and upper-case letters only, so that no subtraction wraps.
unfoldable pub iban_expand : Bytes → Bytes
iban_expand [] = []
iban_expand (c ∷ s) =
    let rest = iban_expand s in
    if is_ascii_digit c then c ∷ rest else decimal2 (c - b'A' + 10) ++ rest

-- The two characters of `{:02}`, for a number below 100.
abbrev pub two_digits : ℕ → Bytes
two_digits n = (b'0' + n / 10 % 10) ∷ (b'0' + n % 10) ∷ []

-- The loop of `mod97`, from the remainder so far.
unfoldable pub mod97_loop : ℕ → Bytes → ℕ
mod97_loop rem [] = rem
mod97_loop rem (b ∷ digits) = mod97_loop ((rem * 10 + (b - b'0')) % 97) digits

unfoldable pub mod97 : Bytes → ℕ
mod97 digits = mod97_loop 0 digits

unfoldable pub check_digits : Bytes → ℕ
check_digits body = 98 - mod97 (iban_expand (body ++ (b'0' ∷ b'0' ∷ [])))

-- `char::to_digit(36)`
unfoldable pub value36 : ℕ → Option ℕ
value36 c =
    if is_ascii_digit c
    then some (c - b'0')
    else if is_ascii_uppercase c
    then some (c - b'A' + 10)
    else if leb b'a' c && leb c b'z'
    then some (c - b'a' + 10)
    else none

-- `u128::from_str_radix(body, 36)`, from the value so far; `none` on a bad digit and on overflow. A
-- body is not empty and has no sign.
unfoldable pub radix_loop : ℕ → Bytes → Option ℕ
radix_loop acc [] = some acc
radix_loop acc (c ∷ s) = elim (value36 c) [
  | none ↦ none
  | some d ↦ elim (ltb (acc * 36 + d) (2 ^ 128)) [
    | true ↦ radix_loop (acc * 36 + d) s
    | false ↦ none
  ]
]

unfoldable pub from_radix36 : Bytes → Option ℕ
from_radix36 body = radix_loop 0 body
