-- ===== src/AccountCode/Code/Rejects.antt =====
-- crates/kuatia-types/src/account_code.rs: what parsing does with texts that were not printed.
use kuatia.Prelude.{
  ℕ, suc, ◌+◌, ◌-◌, ◌≤◌, ◌<◌, ◌≡◌, ◌≢◌, refl, arith, [], ◌∷◌, ◌++◌, false, not, ◌||◌, Option, none,
  some, Outcome, ok, err, panic, reject_if, ok_or, leb, ltb, eqb, All, All-append, All-imp, length,
  subst, >>=-eq-ok, >>-eq-ok, reject_if-eq-ok, ok_or-eq-ok, ok-injective,
}
use kuatia.Types.{AccountId}
use kuatia.Prelude.Text.{is_ascii_digit, Text, len_utf8, byte_len}
use kuatia.AccountCode.Pack.{pack_mask, unpack}
use kuatia.AccountCode.Walk.Inverse.{obfuscate-deobfuscate}
use kuatia.AccountCode.Base36.{body_len, mod97, iban_expand, from_radix36}
use kuatia.AccountCode.Base36.Decode.{IsBase36}
use kuatia.AccountCode.Code.{
  is_kept, to_ascii_uppercase, clean, slice_at, all, is_base36, parse_body, parse_code, unmask,
  from_str, ParseAccountIdError, parse_account_id_error,
}
use kuatia.AccountCode.Code.RoundTrip.{
  IsStable, IsStable-IsBase36, clean_stable, byte_len_code, len_utf8-IsBase36,
}

-- What an accepted pair of body and check digits satisfies.
pub record IsAccepted (body check : Text) (obf : ℕ) : Type 0 where
  pub digits_lem : (not (all is_ascii_digit check) || not (all is_base36 body)) ≡ false
  pub checksum_lem : not (eqb (mod97 (iban_expand (body ++ check))) 1) ≡ false
  pub value_lem : from_radix36 body ≡ some obf
  pub bound_lem : ltb pack_mask obf ≡ false

parse_body-IsAccepted :
    (body check : Text) (obf : ℕ) → parse_body body check ≡ ok obf → IsAccepted body check obf
unfolding parse_body
parse_body-IsAccepted body check obf h =
    let bad = parse_account_id_error in
    let (digits, h1) =
      >>-eq-ok (reject_if (not (all is_ascii_digit check) || not (all is_base36 body)) bad) _ h in
    let (sum, h2) =
      >>-eq-ok (reject_if (not (eqb (mod97 (iban_expand (body ++ check))) 1)) bad) _ h1 in
    let (v, value, h3) = >>=-eq-ok (ok_or (from_radix36 body) bad) _ h2 in
    let (low, h4) = >>-eq-ok (reject_if (ltb pack_mask v) bad) (ok v) h3 in
    let same : v ≡ obf = ok-injective h4 in
    record {
      digits_lem = reject_if-eq-ok _ bad digits;
      checksum_lem = reject_if-eq-ok _ bad sum;
      value_lem = rw same at (ok_or-eq-ok (from_radix36 body) bad value);
      bound_lem = rw same at (reject_if-eq-ok (ltb pack_mask v) bad low);
    }

pub parse_code-IsAccepted :
    (s : Text) (obf : ℕ)
    → parse_code s ≡ ok obf
    → (body : Text) × (check : Text) × (slice_at body_len (clean s) ≡ ok (body, check))
      × IsAccepted body check obf
unfolding parse_code
parse_code-IsAccepted s obf h =
    let long = reject_if (not (eqb (byte_len (clean s)) 20)) parse_account_id_error in
    let (_, h1) = >>-eq-ok long _ h in
    let (parts, cut, h2) = >>=-eq-ok (slice_at body_len (clean s)) _ h1 in
    (parts.0, parts.1, cut, parse_body-IsAccepted parts.0 parts.1 obf h2)

unmask-ne-none :
    (seed : ℕ) (r : Outcome ParseAccountIdError ℕ)
    → ((obf : ℕ) → r ≡ ok obf → obf ≤ pack_mask)
    → unmask seed r ≢ none
unfolding unmask
unmask-ne-none seed (ok obf) low h =
    let (p, fits, there, back) = obfuscate-deobfuscate obf seed (low obf refl) in
    let found : ◌≡◌ {A = Option (Outcome ParseAccountIdError AccountId)}
        (some (ok record { id = (unpack p).0; sub = (unpack p).1 })) none =
      rw (unmask, there) at h in
    cc
unmask-ne-none seed (err e) low h = cc
unmask-ne-none seed panic low h = cc

-- Parsing a text never runs out of fuel: under every seed it answers an account or an error, or it panics.
pub from_str-ne-none : (seed : ℕ) (s : Text) → from_str seed s ≢ none
unfolding from_str
from_str-ne-none seed s = unmask-ne-none seed (parse_code s) (λ obf h.
    let (_, _, _, good) = parse_code-IsAccepted s obf h in
    let inside = good.bound_lem in ground arith)

-- A cut one byte into the character `c`.
slice_at_inside :
    (a : Text) (c : ℕ) (b : Text)
    → All IsBase36 a
    → 1 < len_utf8 c
    → slice_at (suc (length a)) (a ++ (c ∷ b)) ≡ panic
unfolding slice_at
slice_at_inside [] c b h k = let wide : leb (len_utf8 c) 1 ≡ false = ground arith in rw wide
slice_at_inside (x ∷ a) c b h k =
    let one = len_utf8-IsBase36 x h.0 in
    let less : suc (suc (length a)) - 1 ≡ suc (length a) = omega arith in
    rw one (rw (less, slice_at_inside a c b h.1 k) (ground arith))

-- A character beyond ASCII that is no space and takes two bytes.
abbrev pub IsWide : ℕ → Type 0
IsWide c = (0xa0 < c) × (c < 0x800)

IsStable-IsWide : (c : ℕ) → IsWide c → IsStable c
unfolding is_kept to_ascii_uppercase
IsStable-IsWide c h = (ground arith, ground arith)

byte_len-append : (a b : Text) → byte_len (a ++ b) ≡ byte_len a + byte_len b
unfolding byte_len
byte_len-append [] b = omega arith
byte_len-append (c ∷ a) b = omega (arith, byte_len-append a b)

-- Seventeen base-36 characters, a two-byte character above U+00A0 and one more base-36 character make
-- parsing panic, under every seed: the cut after eighteen bytes is inside the two-byte character.
pub from_str-panics :
    (seed : ℕ) (a : Text) (c d : ℕ)
    → length a ≡ 17
    → All IsBase36 a
    → IsWide c
    → IsBase36 d
    → from_str seed (a ++ (c ∷ d ∷ [])) ≡ some panic
unfolding from_str parse_code byte_len
from_str-panics seed a c d n h k l =
    let text = a ++ (c ∷ d ∷ []) in
    let stable =
      All-append IsStable a (c ∷ d ∷ []) (All-imp a IsStable-IsBase36 h)
        (IsStable-IsWide c k, (IsStable-IsBase36 d l, tt)) in
    let two : len_utf8 c ≡ 2 = ground arith in
    let bytes : byte_len text ≡ 20 =
      omega
        (arith, byte_len-append a (c ∷ d ∷ []), byte_len_code a h, two, len_utf8-IsBase36 d l) in
    let cut =
      subst (λ (m : ℕ). slice_at (suc m) text ≡ panic) n
        (slice_at_inside a c (d ∷ []) h (omega (arith, two))) in
    rw (clean_stable text stable, bytes) (rw cut (unfold unmask in refl))
