-- ===== src/Leb128.antt =====
-- libnetq/Leb128.h and libnetq/Leb128.c: integers of 8 to 64 bits in the LEB128 form, seven bits a
-- byte, lowest first, the top bit set on every byte but the last.
-- The source spells each length out by macros; here a macro of a length is a recursion on it, and a
-- ladder of tests on the length is a recursion on the rungs that are left.
pub mod Encode
pub mod Decode
pub mod Unsigned
pub mod UnsignedRoundTrip
pub mod Length
pub mod Negative
pub mod Ladder
pub mod Signed
pub mod SignedRead
pub mod SignedWidths
pub mod SignedRoundTrip
pub mod PastEnd
pub mod Incremental
mod Tests
use libnetq.Prelude.{ℕ, zero, suc, ◌+◌, ◌-◌, ◌*◌, ◌/◌, ◌%◌, ◌^◌}
use libnetq.Prelude.Int.{ℤ, pos, negsuc}

-- CHUNK_BITS * index
abbrev pub bits_of_index : ℕ → ℕ
bits_of_index index = 7 * index

-- LEB128_U1_MAX to LEB128_U10_MAX, and LEB128_S1_MAX to LEB128_S10_MAX.
abbrev pub unsigned_max : ℕ → ℕ
unsigned_max length = 2 ^ bits_of_index length - 1

abbrev pub signed_max : ℕ → ℕ
signed_max length = unsigned_max length / 2

-- The low byte of `value >> bitsOfIndex(index)`; the shift of a negative number rounds down.
abbrev pub byte_at : ℕ → ℕ → ℕ
byte_at value index = value / 2 ^ bits_of_index index % 256

abbrev pub signed_byte_at : ℤ → ℕ → ℕ
signed_byte_at (pos n) index = byte_at n index
signed_byte_at (negsuc n) index = 255 - byte_at n index
