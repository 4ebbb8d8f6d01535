-- ===== src/AccountCode/Base36/Checksum.antt =====
-- crates/kuatia-types/src/account_code.rs: the checksum of a body with its check digits.
use kuatia.Prelude.{
  ℕ, ◌+◌, ◌-◌, ◌*◌, ◌%◌, ◌≤◌, ◌<◌, ◌≡◌, refl, sym, ap, ◌∙◌, arith, [], ◌∷◌, ◌++◌, Bool-cases, inl,
  inr,
}
use kuatia.Prelude.Bytes.{Bytes}
use kuatia.Prelude.Text.{is_ascii_digit}
use kuatia.AccountCode.Base36.{decimal2, iban_expand, mod97_loop, mod97, check_digits, two_digits}

append_assoc : (a b c : Bytes) → (a ++ b) ++ c ≡ a ++ (b ++ c)
append_assoc [] b c = refl
append_assoc (x ∷ a) b c = ap (λ t. x ∷ t) (append_assoc a b c)

iban_expand-append : (a b : Bytes) → iban_expand (a ++ b) ≡ iban_expand a ++ iban_expand b
unfolding iban_expand
iban_expand-append [] b = refl
iban_expand-append (c ∷ a) b = elim (Bool-cases (is_ascii_digit c)) [
  | inl e ↦ rw (e, iban_expand-append a b)
  | inr e ↦
      rw (e, iban_expand-append a b)
        (sym (append_assoc (decimal2 _) (iban_expand a) (iban_expand b)))
]

mod97_loop-append :
    (rem : ℕ) (a b : Bytes) → mod97_loop rem (a ++ b) ≡ mod97_loop (mod97_loop rem a) b
unfolding mod97_loop
mod97_loop-append rem [] b = refl
mod97_loop-append rem (c ∷ a) b = mod97_loop-append ((rem * 10 + (c - b'0')) % 97) a b

mod97_loop-lt : (rem : ℕ) (a : Bytes) → rem < 97 → mod97_loop rem a < 97
unfolding mod97_loop
mod97_loop-lt rem [] h = h
mod97_loop-lt rem (c ∷ a) h = mod97_loop-lt ((rem * 10 + (c - b'0')) % 97) a (omega arith)

two_digits-expand : (n : ℕ) → iban_expand (two_digits n) ≡ two_digits n
unfolding iban_expand
two_digits-expand n = ground arith

mod97-two_digits :
    (body : Bytes) (n : ℕ)
    → n < 100
    → mod97 (iban_expand (body ++ two_digits n)) ≡ (mod97 (iban_expand body) * 100 + n) % 97
unfolding mod97 mod97_loop
mod97-two_digits body n h =
    rw
      (
        iban_expand-append body (two_digits n),
        two_digits-expand n,
        mod97_loop-append 0 (iban_expand body) (two_digits n),
      )
      (omega (arith, mod97_loop-lt 0 (iban_expand body) (omega arith)))

check_digits-mod97 : (body : Bytes) → check_digits body ≡ 98 - mod97 (iban_expand body) * 100 % 97
unfolding check_digits
check_digits-mod97 body = rw (mod97-two_digits body 0 (omega arith)) (omega arith)

pub check_digits-bounds : (body : Bytes) → (2 ≤ check_digits body) × (check_digits body ≤ 98)
check_digits-bounds body = omega (arith, check_digits-mod97 body)

pub checksum_valid :
    (body : Bytes) → mod97 (iban_expand (body ++ two_digits (check_digits body))) ≡ 1
checksum_valid body =
    let bounds = check_digits-bounds body in
    mod97-two_digits body (check_digits body) (omega arith) ∙ omega (arith, check_digits-mod97 body)
