-- ===== src/AccountCode/Base36/Decode.antt =====
-- crates/kuatia-types/src/account_code.rs: reading the digits of a body.
use native.Mathlib.Nat.{pow-suc}
use kuatia.Prelude.{
  ℕ, zero, suc, ◌+◌, ◌*◌, ◌/◌, ◌%◌, ◌^◌, ◌<◌, ◌≡◌, refl, ap, ◌∙◌, arith, true, ◌||◌, some, [], ◌∷◌,
  ◌++◌, eqb, eqb_iff, lt→ltb, Bool-cases, inl, inr, All, length,
}
use kuatia.Prelude.Bytes.{Bytes}
use kuatia.Prelude.Text.{is_ascii_digit}
use kuatia.AccountCode.Base36.{
  body_len, digit36, zeros, body_loop, base36_body, is_ascii_uppercase, value36, radix_loop,
  from_radix36,
}

abbrev pub IsBase36 : ℕ → Type 0
IsBase36 c = (is_ascii_digit c || is_ascii_uppercase c) ≡ true

digit36-IsBase36 : (d : ℕ) → d < 36 → IsBase36 (digit36 d)
unfolding digit36
digit36-IsBase36 d h = ground arith

value36-digit36 : (d : ℕ) → d < 36 → value36 (digit36 d) ≡ some d
unfolding value36 digit36
value36-digit36 d h = ground arith

-- One more digit of a value that fits.
radix_digit :
    (v : ℕ) (out : Bytes)
    → v < 2 ^ 128
    → radix_loop (v / 36) (digit36 (v % 36) ∷ out) ≡ radix_loop v out
unfolding radix_loop
radix_digit v out h =
    let whole : v / 36 * 36 + v % 36 ≡ v = omega arith in
    let fits = lt→ltb (v / 36 * 36 + v % 36) (2 ^ 128) (omega arith) in
    rw (radix_loop, value36-digit36 (v % 36) (omega arith), fits) (ap (λ n. radix_loop n out) whole)

radix_zeros : (n : ℕ) (out : Bytes) → radix_loop 0 (zeros n ++ out) ≡ radix_loop 0 out
unfolding digit36
radix_zeros zero out = refl
radix_zeros (suc n) out = radix_digit 0 (zeros n ++ out) (omega arith) ∙ radix_zeros n out

radix-body_loop :
    (i v : ℕ) (out : Bytes)
    → v < 36 ^ i
    → v < 2 ^ 128
    → radix_loop 0 (body_loop i v out) ≡ radix_loop v out
unfolding body_loop
radix-body_loop zero v out h k = let empty : v ≡ 0 = omega arith in rw empty
radix-body_loop (suc i) v out h k = elim (Bool-cases (eqb v 0)) [
  | inl e ↦ let empty : v ≡ 0 = (eqb_iff v 0).0 e in rw (empty) (radix_zeros (suc i) out)
  | inr e ↦ rw (e) (
      radix-body_loop i (v / 36) (digit36 (v % 36) ∷ out) (omega (arith, pow-suc 36 i))
        (omega arith)
      ∙ radix_digit v out k)
]

zeros-IsBase36 : (n : ℕ) (out : Bytes) → All IsBase36 out → All IsBase36 (zeros n ++ out)
zeros-IsBase36 zero out h = h
zeros-IsBase36 (suc n) out h = (refl, zeros-IsBase36 n out h)

length-zeros : (n : ℕ) (out : Bytes) → length (zeros n ++ out) ≡ n + length out
length-zeros zero out = omega arith
length-zeros (suc n) out = omega (arith, length-zeros n out)

body_loop-IsBase36 : (i v : ℕ) (out : Bytes) → All IsBase36 out → All IsBase36 (body_loop i v out)
unfolding body_loop
body_loop-IsBase36 zero v out h = h
body_loop-IsBase36 (suc i) v out h = elim (Bool-cases (eqb v 0)) [
  | inl e ↦ rw (e) (zeros-IsBase36 (suc i) out h)
  | inr e ↦
      let next = digit36-IsBase36 (v % 36) (omega arith) in
      rw (e) (body_loop-IsBase36 i (v / 36) (digit36 (v % 36) ∷ out) (next, h))
]

length-body_loop : (i v : ℕ) (out : Bytes) → length (body_loop i v out) ≡ i + length out
unfolding body_loop
length-body_loop zero v out = (omega arith)
length-body_loop (suc i) v out = elim (Bool-cases (eqb v 0)) [
  | inl e ↦ rw (e) (length-zeros (suc i) out)
  | inr e ↦ rw (e) (omega (arith, length-body_loop i (v / 36) (digit36 (v % 36) ∷ out)))
]

-- A value below 36 ^ 18 reads back from its body.
pub from_radix36-base36_body : (v : ℕ) → v < 36 ^ 18 → from_radix36 (base36_body v) ≡ some v
unfolding from_radix36 base36_body radix_loop
from_radix36-base36_body v h = radix-body_loop body_len v [] h (omega arith)

pub base36_body-IsBase36 : (v : ℕ) → All IsBase36 (base36_body v)
unfolding base36_body
base36_body-IsBase36 v = body_loop-IsBase36 body_len v [] tt

pub length-base36_body : (v : ℕ) → length (base36_body v) ≡ body_len
unfolding base36_body
length-base36_body v = length-body_loop body_len v []
