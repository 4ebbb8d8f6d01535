-- ===== src/Prelude/Text.antt =====
-- Texts, as lists of code points, with what Rust's `str` and `char` do, and the decimal digits of a number.
use native.Mathlib.Nat.{pow-suc}
use kuatia.Prelude.{
  ℕ, zero, suc, ◌+◌, ◌-◌, ◌*◌, ◌/◌, ◌%◌, ◌^◌, ◌≤◌, ◌<◌, ◌≡◌, refl, ◌∙◌, arith, Bool, true, false,
  ◌&&◌, ◌||◌, Option, none, some, List, [], ◌∷◌, ◌++◌, leb, ltb, eqb, if◌then◌else◌, length,
  length-append, All, All-append, Bool-cases, inl, inr, ltb→lt,
}

abbrev pub Text : Type 0
Text = List ℕ

-- `char::is_whitespace`
abbrev pub is_whitespace : ℕ → Bool
is_whitespace c =
    (leb 9 c && leb c 13)
    || eqb c 0x20
    || eqb c 0x85
    || eqb c 0xa0
    || eqb c 0x1680
    || (leb 0x2000 c && leb c 0x200a)
    || eqb c 0x2028
    || eqb c 0x2029
    || eqb c 0x202f
    || eqb c 0x205f
    || eqb c 0x3000

-- `char::len_utf8` and `str::len`
abbrev pub len_utf8 : ℕ → ℕ
len_utf8 c = if ltb c 0x80 then 1 else if ltb c 0x800 then 2 else if ltb c 0x10000 then 3 else 4

unfoldable pub byte_len : Text → ℕ
byte_len [] = 0
byte_len (c ∷ s) = len_utf8 c + byte_len s

abbrev pub is_ascii_digit : ℕ → Bool
is_ascii_digit c = leb b'0' c && leb c b'9'

-- `str::trim`
unfoldable pub trim_start : Text → Text
trim_start [] = []
trim_start (c ∷ s) = if is_whitespace c then trim_start s else c ∷ s

abbrev unless_blank : ℕ → Text → Text
unless_blank c [] = if is_whitespace c then [] else c ∷ []
unless_blank c (d ∷ s) = c ∷ d ∷ s

unfoldable pub trim_end : Text → Text
trim_end [] = []
trim_end (c ∷ s) = unless_blank c (trim_end s)

-- `to_string` of a natural number, with fuel; a number is below the tenth power of itself.
unfoldable pub decimal_loop : ℕ → ℕ → Text
decimal_loop zero n = []
decimal_loop (suc fuel) n = elim (ltb n 10) [
  | true ↦ (b'0' + n) ∷ []
  | false ↦ decimal_loop fuel (n / 10) ++ ((b'0' + n % 10) ∷ [])
]

unfoldable pub decimal : ℕ → Text
decimal n = decimal_loop (suc n) n

-- The value of decimal digits, after those already read.
unfoldable pub digits_loop : ℕ → Text → Option ℕ
digits_loop acc [] = some acc
digits_loop acc (c ∷ s) = if is_ascii_digit c then digits_loop (acc * 10 + (c - b'0')) s else none

abbrev pub IsDigit : ℕ → Type 0
IsDigit c = is_ascii_digit c ≡ true

pub digits_loop-append :
    (acc n : ℕ) (s t : Text)
    → digits_loop acc s ≡ some n
    → digits_loop acc (s ++ t) ≡ digits_loop n t
unfolding digits_loop
digits_loop-append acc n [] t h = let same : acc ≡ n = cc in rw same
digits_loop-append acc n (c ∷ s) t h = elim (Bool-cases (is_ascii_digit c)) [
  | inl e ↦ rw e (digits_loop-append (acc * 10 + (c - b'0')) n s t (rw e at h))
  | inr e ↦ absurd (let bad : none ≡ some n = rw e at h in cc)
]

last_digit : (n : ℕ) → digits_loop (n / 10) ((b'0' + n % 10) ∷ []) ≡ some n
unfolding digits_loop
last_digit n =
    let digit : is_ascii_digit (b'0' + n % 10) ≡ true = ground arith in
    let whole : n / 10 * 10 + (b'0' + n % 10 - b'0') ≡ n = omega arith in rw (digit, whole)

decimal_loop-digits : (fuel n : ℕ) → n < fuel → digits_loop 0 (decimal_loop fuel n) ≡ some n
unfolding decimal_loop
decimal_loop-digits zero n h = absurd (omega arith)
decimal_loop-digits (suc fuel) n h = elim (Bool-cases (ltb n 10)) [
  | inl e ↦ rw (decimal_loop, e) (one_digit n (ltb→lt n 10 e))
  | inr e ↦
      let big : 10 ≤ n = ground arith in
      rw (decimal_loop, e)
        (digits_loop-append 0 (n / 10) (decimal_loop fuel (n / 10)) ((b'0' + n % 10) ∷ [])
            (decimal_loop-digits fuel (n / 10) (omega arith))
          ∙ last_digit n)
]
  where
    one_digit : (n : ℕ) → n < 10 → digits_loop 0 ((b'0' + n) ∷ []) ≡ some n
    one_digit n h =
        let none_before : n / 10 ≡ 0 = omega arith in
        let all : n % 10 ≡ n = omega arith in rw (none_before, all) at (last_digit n)

decimal_loop-IsDigit : (fuel n : ℕ) → All IsDigit (decimal_loop fuel n)
unfolding decimal_loop
decimal_loop-IsDigit zero n = tt
decimal_loop-IsDigit (suc fuel) n = elim (Bool-cases (ltb n 10)) [
  | inl e ↦ rw (decimal_loop, e) (ground arith, tt)
  | inr e ↦
      rw (decimal_loop, e)
        (All-append IsDigit (decimal_loop fuel (n / 10)) ((b'0' + n % 10) ∷ [])
          (decimal_loop-IsDigit fuel (n / 10)) (ground arith, tt))
]

-- A number below 10 ^ d has at most d digits, if d is not 0.
length-decimal_loop : (d fuel n : ℕ) → n < 10 ^ suc d → length (decimal_loop fuel n) ≤ suc d
unfolding decimal_loop
length-decimal_loop d zero n h = omega arith
length-decimal_loop zero (suc fuel) n h =
    let small : ltb n 10 ≡ true = ground arith in rw (decimal_loop, small) (omega arith)
length-decimal_loop (suc d) (suc fuel) n h = elim (Bool-cases (ltb n 10)) [
  | inl e ↦ rw (decimal_loop, e) (omega arith)
  | inr e ↦
      let ih = length-decimal_loop d fuel (n / 10) (omega (arith, pow-suc 10 (suc d))) in
      rw (decimal_loop, e)
        (omega (arith, ih, length-append (decimal_loop fuel (n / 10)) ((b'0' + n % 10) ∷ [])))
]

pub decimal-IsDigit : (n : ℕ) → All IsDigit (decimal n)
unfolding decimal
decimal-IsDigit n = decimal_loop-IsDigit (suc n) n

pub digits_loop-decimal : (n : ℕ) → digits_loop 0 (decimal n) ≡ some n
unfolding decimal
digits_loop-decimal n = decimal_loop-digits (suc n) n (omega arith)

pub length-decimal : (d n : ℕ) → n < 10 ^ suc d → length (decimal n) ≤ suc d
unfolding decimal
length-decimal d n h = length-decimal_loop d (suc n) n h

append_cons : (s : Text) (d : ℕ) → (c : ℕ) × (t : Text) × (s ++ (d ∷ []) ≡ c ∷ t)
append_cons [] d = (d, [], refl)
append_cons (c ∷ s) d = (c, s ++ (d ∷ []), refl)

-- There is at least one digit.
pub decimal_cons : (n : ℕ) → (c : ℕ) × (s : Text) × (decimal n ≡ c ∷ s)
unfolding decimal decimal_loop
decimal_cons n = elim (Bool-cases (ltb n 10)) [
  | inl e ↦ (b'0' + n, [], rw (decimal, decimal_loop, e))
  | inr e ↦
      let (c, t, h) = append_cons (decimal_loop n (n / 10)) (b'0' + n % 10) in
      (c, t, rw (decimal, decimal_loop, e) h)
]

pub trim_start_id : (s : Text) (c : ℕ) → is_whitespace c ≡ false → trim_start (c ∷ s) ≡ c ∷ s
unfolding trim_start
trim_start_id s c h = rw h

pub trim_end_id : (s : Text) → All (λ c. is_whitespace c ≡ false) s → trim_end s ≡ s
unfolding trim_end
trim_end_id [] h = refl
trim_end_id (c ∷ []) h = rw h.0
trim_end_id (c ∷ d ∷ s) h = rw (trim_end_id (d ∷ s) h.1)
