-- ===== src/AccountCode/Code/RoundTrip.antt =====
-- crates/kuatia-types/src/account_code.rs: printing a code and parsing it.
use kuatia.Prelude.{
  ℕ, suc, ◌-◌, ◌%◌, ◌^◌, ◌≤◌, ◌<◌, ◌≡◌, refl, ap, subst, ◌∙◌, arith, [], ◌∷◌, ◌++◌, true, false,
  ◌&&◌, some, Outcome, ok, ltb, eqb, All, All-append, All-imp, length, length-append, Bool-cases,
  inl, inr, pos,
}
use kuatia.Prelude.Text.{is_ascii_digit, Text, len_utf8, byte_len}
use kuatia.AccountCode.Pack.{pack, pack_mask, pack-bound, unpack-pack}
use kuatia.AccountCode.Walk.{deobfuscate}
use kuatia.AccountCode.Walk.Inverse.{deobfuscate-obfuscate}
use kuatia.AccountCode.Base36.{body_len, base36_body, check_digits, two_digits}
use kuatia.AccountCode.Base36.Decode.{
  IsBase36, from_radix36-base36_body, base36_body-IsBase36, length-base36_body,
}
use kuatia.AccountCode.Base36.Checksum.{checksum_valid}
use kuatia.AccountCode.Code.{
  print_body, account_code, group_loop, to_grouped, to_ascii_uppercase, is_kept, clean, slice_at,
  all, is_base36, parse_body, parse_code, unmask, from_str, ParseAccountIdError,
}

-- What cleaning leaves alone.
abbrev pub IsStable : ℕ → Type 0
IsStable c = (is_kept c ≡ true) × (to_ascii_uppercase c ≡ c)

pub IsStable-IsBase36 : (c : ℕ) → IsBase36 c → IsStable c
unfolding is_kept to_ascii_uppercase
IsStable-IsBase36 c h = (ground arith, ground arith)

pub clean_stable : (s : Text) → All IsStable s → clean s ≡ s
unfolding clean
clean_stable [] h = refl
clean_stable (c ∷ s) h = rw h.0.0 (rw (h.0.1, clean_stable s h.1))

-- Cleaning leaves a code as it is, also when it is grouped.
clean_code : (s : Text) → All IsBase36 s → clean s ≡ s
clean_code s h = clean_stable s (All-imp s IsStable-IsBase36 h)

-- One character at a time.
clean_more : (c : ℕ) (s t : Text) → clean s ≡ clean t → clean (c ∷ s) ≡ clean (c ∷ t)
unfolding clean
clean_more c s t h = elim (Bool-cases (is_kept c)) [
  | inl e ↦ rw e (ap (λ r. to_ascii_uppercase c ∷ r) h)
  | inr e ↦ rw e h
]

clean_space : (s : Text) → clean (b' ' ∷ s) ≡ clean s
unfolding clean is_kept
clean_space s = refl

pub clean-group_loop : (i : ℕ) (s : Text) → clean (group_loop i s) ≡ clean s
unfolding group_loop
clean-group_loop i [] = refl
clean-group_loop i (c ∷ s) =
    let same = clean_more c (group_loop (suc i) s) s (clean-group_loop (suc i) s) in
    elim (Bool-cases (ltb 0 i && eqb (i % 4) 0)) [
      | inl e ↦ rw e (clean_space (c ∷ group_loop (suc i) s) ∙ same)
      | inr e ↦ rw e same
    ]

pub len_utf8-IsBase36 : (c : ℕ) → IsBase36 c → len_utf8 c ≡ 1
len_utf8-IsBase36 c h = ground arith

pub byte_len_code : (s : Text) → All IsBase36 s → byte_len s ≡ length s
unfolding byte_len
byte_len_code [] h = refl
byte_len_code (c ∷ s) h = ground (arith, byte_len_code s h.1)

-- A text splits between whole characters.
pub slice_at_code :
    (a b : Text)
    → All IsBase36 a
    → ◌≡◌ {A = Outcome ParseAccountIdError (Text × Text)} (slice_at (length a) (a ++ b)) (ok (a, b))
unfolding slice_at
slice_at_code [] [] h = refl
slice_at_code [] (c ∷ b) h = refl
slice_at_code (c ∷ a) b h =
    let one = len_utf8-IsBase36 c h.0 in
    let less : suc (length a) - 1 ≡ length a = omega arith in
    rw one (rw (less, slice_at_code a b h.1) (ground arith))

pub all_code : (s : Text) → All IsBase36 s → all is_base36 s ≡ true
all_code [] h = refl
all_code (c ∷ s) h = ground (arith, all_code s h.1)

two_digits-IsBase36 : (n : ℕ) → All IsBase36 (two_digits n)
two_digits-IsBase36 n = (ground arith, (ground arith, tt))

two_digits-all : (n : ℕ) → all is_ascii_digit (two_digits n) ≡ true
two_digits-all n = ground arith

print_body-IsBase36 : (obf : ℕ) → All IsBase36 (print_body obf)
unfolding print_body
print_body-IsBase36 obf =
    let body = base36_body obf in
    All-append IsBase36 body (two_digits (check_digits body)) (base36_body-IsBase36 obf)
      (two_digits-IsBase36 (check_digits body))

length-print_body : (obf : ℕ) → length (print_body obf) ≡ 20
unfolding print_body
length-print_body obf =
    let body = base36_body obf in
    omega (arith, length-append body (two_digits (check_digits body)), length-base36_body obf)

parse_body-base36 :
    (obf : ℕ)
    → obf ≤ pack_mask
    → parse_body (base36_body obf) (two_digits (check_digits (base36_body obf))) ≡ ok obf
unfolding parse_body
parse_body-base36 obf low =
    let body = base36_body obf in
    rw
      (
        two_digits-all (check_digits body),
        all_code body (base36_body-IsBase36 obf),
        checksum_valid body,
        from_radix36-base36_body obf (omega arith),
      )
      (let inside : ltb pack_mask obf ≡ false = ground arith in rw inside)

slice_at-print_body :
    (obf : ℕ)
    → ◌≡◌ {A = Outcome ParseAccountIdError (Text × Text)}
        (slice_at body_len (print_body obf))
        (ok (base36_body obf, two_digits (check_digits (base36_body obf))))
unfolding print_body
slice_at-print_body obf =
    let body = base36_body obf in
    let check = two_digits (check_digits body) in
    let Splits : ℕ → Type 0 = λ n.
      ◌≡◌ {A = Outcome ParseAccountIdError (Text × Text)} (slice_at n (body ++ check))
        (ok (body, check)) in
    subst Splits (length-base36_body obf) (slice_at_code body check (base36_body-IsBase36 obf))

-- A text that cleans to a printed body carries its value.
parse_code-print_body :
    (s : Text) (obf : ℕ) → obf ≤ pack_mask → clean s ≡ print_body obf → parse_code s ≡ ok obf
unfolding parse_code
parse_code-print_body s obf low same =
    rw (same, byte_len_code (print_body obf) (print_body-IsBase36 obf), length-print_body obf)
      (rw (slice_at-print_body obf) (parse_body-base36 obf low))

from_str_at :
    (seed i s obf : ℕ)
    → i < 2 ^ 63
    → s < 2 ^ 30
    → deobfuscate obf seed ≡ some (pack (pos i) (pos s))
    → (text : Text) → parse_code text ≡ ok obf
    → from_str seed text ≡ some (ok record { id = pos i; sub = pos s })
unfolding from_str unmask
from_str_at seed i s obf p q home text h = rw (h, unmask, home, unpack-pack i s p q)

-- Under every seed, an account whose id is below 2^63 and whose subaccount is below 2^30 (both not
-- negative) has a code, for which cycle-walking ends; the code has 20 characters, and it parses under the
-- same seed to the account, as printed and also when it is grouped.
pub from_str-account_code :
    (seed i s : ℕ)
    → i < 2 ^ 63
    → s < 2 ^ 30
    → (code : Text) × (account_code seed record { id = pos i; sub = pos s } ≡ some code)
      × (length code ≡ 20)
      × (from_str seed code ≡ some (ok record { id = pos i; sub = pos s }))
      × (from_str seed (to_grouped code) ≡ some (ok record { id = pos i; sub = pos s }))
unfolding account_code
from_str-account_code seed i s p q =
    let packed = pack (pos i) (pos s) in
    let (obf, low, there, home) =
      deobfuscate-obfuscate packed seed (omega (arith, pack-bound (pos i) (pos s))) in
    let both = clean_code (print_body obf) (print_body-IsBase36 obf) in
    (
      print_body obf,
      rw (account_code, there),
      length-print_body obf,
      from_str_at seed i s obf p q home (print_body obf)
          (parse_code-print_body (print_body obf) obf low both),
      from_str_at seed i s obf p q home (to_grouped (print_body obf)) (
          parse_code-print_body (to_grouped (print_body obf)) obf low
            (unfold to_grouped in clean-group_loop 0 (print_body obf) ∙ both)),
    )
