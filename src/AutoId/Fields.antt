-- ===== src/AutoId/Fields.antt =====
-- crates/kuatia-types/src/autoid.rs: the fields of an identifier, and which identifiers differ.
use kuatia.Prelude.{
  ℕ, zero, suc, ◌+◌, ◌%◌, ◌^◌, ◌<◌, ◌≡◌, ◌≢◌, sym, ap, ◌∙◌, arith, pos, ◌≤ℤ◌, ◌<ℤ◌,
}
use kuatia.Prelude.Bytes.{to_word}
use kuatia.Prelude.Bits.{bit_or_fields}
use kuatia.AutoId.{pack, timestamp, tail, now_ms, next}

abbrev tail_size : ℕ
tail_size = 2 ^ 23

-- An identifier packed from a time and a tail below 2^23 is an `i64` that is not negative, its time is the
-- packed one modulo 2^40, and its tail is the packed one.
pub pack_fields :
    (ms t : ℕ)
    → t < tail_size
    → (pos 0 ≤ℤ pack ms t)
      × (pack ms t <ℤ pos (2 ^ 63))
      × (timestamp (pack ms t) ≡ ms % 2 ^ 40)
      × (tail (pack ms t) ≡ t)
unfolding pack timestamp tail to_word
pack_fields ms t h =
    let fields = bit_or_fields 23 (ms % 2 ^ 40) t h in
    (omega (arith, fields), omega (arith, fields), omega (arith, fields), omega (arith, fields))

-- The counter after so many calls.
abbrev pub counter_after : ℕ → ℕ → ℕ
counter_after zero c = c
counter_after (suc k) c = counter_after k (next 0 c).1

counter_after_lem : (k c : ℕ) → c < 2 ^ 32 → counter_after k c ≡ (c + k) % 2 ^ 32
unfolding next
counter_after_lem zero c h = omega arith
counter_after_lem (suc k) c h = omega (arith, counter_after_lem k ((c + 1) % 2 ^ 32) (omega arith))

-- Two identifiers that one generator hands out fewer than 2^23 calls apart differ, whatever the clock says
-- at either call and also where the 32-bit counter wraps in between.
pub next-ne-next :
    (c k now later : ℕ)
    → c < 2 ^ 32
    → 0 < k
    → k < tail_size
    → (next now c).0 ≢ (next later (counter_after k c)).0
unfolding next
next-ne-next c k now later h lo hi same =
    let there = counter_after k c in
    let first = (pack_fields (now_ms now) (c % tail_size) (omega arith)).3 in
    let second = (pack_fields (now_ms later) (there % tail_size) (omega arith)).3 in
    let tails : c % tail_size ≡ there % tail_size = sym first ∙ ap tail same ∙ second in
    omega (arith, counter_after_lem k c h, tails)
