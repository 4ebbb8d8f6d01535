-- ===== src/AccountCode/Code.antt =====
-- crates/kuatia-types/src/account_code.rs, lines 229 to 308: printing and parsing a code. The
-- process-wide seed is an argument. A text is the list of its code points.
pub mod RoundTrip
pub mod Rejects
use kuatia.Prelude.{
  ℕ, zero, suc, ◌+◌, ◌-◌, ◌%◌, List, [], ◌∷◌, ◌++◌, map, filter, Bool, true, false, not, ◌&&◌, ◌||◌,
  Option, none, some, Outcome, ok, err, panic, ◌>>=◌, ◌>>◌, reject_if, ok_or, leb, ltb, eqb,
  if◌then◌else◌,
}
use kuatia.Prelude.Text.{Text, is_whitespace, len_utf8, byte_len, is_ascii_digit}
use kuatia.Types.{AccountId}
use kuatia.AccountCode.Pack.{pack, unpack, pack_mask}
use kuatia.AccountCode.Walk.{obfuscate, deobfuscate}
use kuatia.AccountCode.Base36.{
  body_len, base36_body, check_digits, two_digits, is_ascii_uppercase, iban_expand, mod97,
  from_radix36,
}

unfoldable pub print_body : ℕ → Text
print_body obf = let body = base36_body obf in body ++ two_digits (check_digits body)

-- `Display`; `none` only if cycle-walking ran out of fuel.
unfoldable pub account_code : ℕ → AccountId → Option Text
account_code seed a = elim (obfuscate (pack a.id a.sub) seed) [
  | none ↦ none
  | some obf ↦ some (print_body obf)
]

-- The loop of `to_grouped`, from the index of the first character.
unfoldable pub group_loop : ℕ → Text → Text
group_loop i [] = []
group_loop i (c ∷ s) =
    let rest = c ∷ group_loop (suc i) s in if ltb 0 i && eqb (i % 4) 0 then b' ' ∷ rest else rest

unfoldable pub to_grouped : Text → Text
to_grouped machine = group_loop 0 machine

unfoldable pub to_ascii_uppercase : ℕ → ℕ
to_ascii_uppercase c = if leb b'a' c && leb c b'z' then c - 32 else c

unfoldable pub is_kept : ℕ → Bool
is_kept c = not (is_whitespace c) && not (eqb c b'-')

unfoldable pub clean : Text → Text
clean s = map to_ascii_uppercase (filter is_kept s)

pub data ParseAccountIdError : Type 0 where
  parse_account_id_error : ParseAccountIdError

-- `(&s[0..n], &s[n..])`, which panics where byte n is outside or inside a character.
unfoldable pub slice_at : ℕ → Text → Outcome ParseAccountIdError (Text × Text)
slice_at n [] = if eqb n 0 then ok ([], []) else panic
slice_at n (c ∷ s) =
    let rest = slice_at (n - len_utf8 c) s in
    if eqb n 0
    then ok ([], c ∷ s)
    else if leb (len_utf8 c) n
    then rest >>= (λ p. ok (c ∷ p.0, p.1))
    else panic

abbrev pub all : (ℕ → Bool) → Text → Bool
all p [] = true
all p (c ∷ s) = p c && all p s

abbrev pub is_base36 : ℕ → Bool
is_base36 c = is_ascii_digit c || is_ascii_uppercase c

-- `from_str`, up to the value that the body carries. A byte of a character beyond ASCII is no digit
-- and no letter, as its code point is none.
unfoldable pub parse_body : Text → Text → Outcome ParseAccountIdError ℕ
parse_body body check = do
  reject_if (not (all is_ascii_digit check) || not (all is_base36 body)) parse_account_id_error
  reject_if (not (eqb (mod97 (iban_expand (body ++ check))) 1)) parse_account_id_error
  obf ← ok_or (from_radix36 body) parse_account_id_error
  reject_if (ltb pack_mask obf) parse_account_id_error
  ok obf

unfoldable pub parse_code : Text → Outcome ParseAccountIdError ℕ
parse_code s =
    let cleaned = clean s in
    do
      reject_if (not (eqb (byte_len cleaned) (body_len + 2))) parse_account_id_error
      (body, check) ← slice_at body_len cleaned
      parse_body body check

-- The rest of `from_str`: the way back through the permutation.
unfoldable pub unmask :
    ℕ → Outcome ParseAccountIdError ℕ → Option (Outcome ParseAccountIdError AccountId)
unmask seed (ok obf) = elim (deobfuscate obf seed) [
  | none ↦ none
  | some p ↦ some (ok record { id = (unpack p).0; sub = (unpack p).1 })
]
unmask seed (err e) = some (err e)
unmask seed panic = some panic

-- `none` only if cycle-walking ran out of fuel.
unfoldable pub from_str : ℕ → Text → Option (Outcome ParseAccountIdError AccountId)
from_str seed s = unmask seed (parse_code s)
