-- ===== src/AutoId/Tests.antt =====
-- Runs of crates/kuatia-types/src/autoid.rs, after the tests at the end of that file.
use kuatia.Prelude.{◌^◌, ◌%◌, ◌≡◌, ◌≢◌, refl, arith, [], ◌∷◌, ◌≤ℤ◌, ◌<ℤ◌, pos}
use kuatia.Prelude.Bytes.{Bytes}
use kuatia.AutoId.{crc32, crc32_loop, crc32_entry, crc_steps, crc_step, pack, timestamp, tail, next}
use kuatia.AutoId.Fields.{pack_fields, next-ne-next, counter_after}

abbrev one_to_nine : Bytes
one_to_nine = 0x31 ∷ 0x32 ∷ 0x33 ∷ 0x34 ∷ 0x35 ∷ 0x36 ∷ 0x37 ∷ 0x38 ∷ 0x39 ∷ []

crc32_known : crc32 one_to_nine ≡ 0xcbf43926
unfolding crc32 crc32_loop crc32_entry crc_steps crc_step
crc32_known = refl

pack_fields_example :
    (pos 0 ≤ℤ pack 12345 77)
    × (pack 12345 77 <ℤ pos (2 ^ 63))
    × (timestamp (pack 12345 77) ≡ 12345 % 2 ^ 40)
    × (tail (pack 12345 77) ≡ 77)
pack_fields_example = pack_fields 12345 77 (omega arith)

-- The counter wraps at 32 bits in between.
next-ne-next_example :
    (next 1767225600001 4294967295).0 ≢ (next 1767225600001 (counter_after 3 4294967295)).0
next-ne-next_example =
    next-ne-next 4294967295 3 1767225600001 1767225600001 (omega arith) (omega arith) (omega arith)
