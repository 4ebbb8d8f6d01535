-- ===== src/AutoId.antt =====
-- crates/kuatia-types/src/autoid.rs: identifiers made of a time and a tail. The clock is an argument,
-- in milliseconds since the Unix epoch; the counter of a generator is a 32-bit word.
pub mod Fields
mod Tests
use Prim.Native.Nat.{bit_xor, bit_or}
use kuatia.Prelude.{
  ℕ, zero, suc, ◌+◌, ◌-◌, ◌*◌, ◌/◌, ◌%◌, ◌^◌, List, [], ◌∷◌, ℤ, pos, eqb, if◌then◌else◌,
}
use kuatia.Prelude.Bytes.{Bytes, to_word}

abbrev pub timestamp_bits : ℕ
timestamp_bits = 40

abbrev pub tail_bits : ℕ
tail_bits = 23

abbrev pub kuatia_epoch_ms : ℕ
kuatia_epoch_ms = 1767225600000

-- `AutoId::pack`, of words of 64 and 32 bits.
unfoldable pub pack : ℕ → ℕ → ℤ
pack ms tail = pos (bit_or (ms % 2 ^ timestamp_bits * 2 ^ tail_bits) tail)

-- `AutoId::timestamp`
unfoldable pub timestamp : ℤ → ℕ
timestamp id = to_word 64 id / 2 ^ tail_bits % 2 ^ timestamp_bits

-- `AutoId::tail`
unfoldable pub tail : ℤ → ℕ
tail id = to_word 64 id % 2 ^ 32 % 2 ^ tail_bits

-- `AutoId::now_ms`, where `-` stops at 0 as `saturating_sub` does.
unfoldable pub now_ms : ℕ → ℕ
now_ms unix_ms = unix_ms - kuatia_epoch_ms

-- One step of the loop that fills an entry of the table.
unfoldable pub crc_step : ℕ → ℕ
crc_step crc = if eqb (crc % 2) 0 then crc / 2 else bit_xor (crc / 2) 0xedb88320

unfoldable pub crc_steps : ℕ → ℕ → ℕ
crc_steps zero crc = crc
crc_steps (suc j) crc = crc_steps j (crc_step crc)

-- `CRC32_TABLE[i]`
unfoldable pub crc32_entry : ℕ → ℕ
crc32_entry i = crc_steps 8 i

unfoldable pub crc32_loop : ℕ → Bytes → ℕ
crc32_loop crc [] = crc
crc32_loop crc (byte ∷ rest) =
    crc32_loop (bit_xor (crc / 2 ^ 8) (crc32_entry (bit_xor crc byte % 2 ^ 8))) rest

unfoldable pub crc32 : Bytes → ℕ
crc32 bytes = bit_xor (crc32_loop 0xffffffff bytes) 0xffffffff

unfoldable pub next_with_data : ℕ → Bytes → ℤ
next_with_data unix_ms bytes = pack (now_ms unix_ms) (crc32 bytes % 2 ^ tail_bits)

-- `fetch_add` gives the old counter, and the sum wraps at 32 bits.
unfoldable pub next : ℕ → ℕ → ℤ × ℕ
next unix_ms counter = (pack (now_ms unix_ms) (counter % 2 ^ tail_bits), (counter + 1) % 2 ^ 32)
