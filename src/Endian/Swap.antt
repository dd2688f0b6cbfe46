-- ===== src/Endian/Swap.antt =====
-- The byte swaps as arithmetic.
use libnetq.Prelude.{ℕ, ◌+◌, ◌*◌, ◌/◌, ◌%◌, ◌^◌, ◌≡◌, arith}
use libnetq.Prelude.Bits.{bit_and_low, bit_and_field, bit_or_add}
use libnetq.Endian.{byte_swap16, byte_swap32, byte_swap64}

pub byte_swap16_lem : (x : ℕ) → byte_swap16 x ≡ x % 256 * 2 ^ 8 + x / 2 ^ 8 % 256
unfolding byte_swap16
byte_swap16_lem x = ground (
  arith,
  bit_and_low 8 x,
  bit_and_field 8 8 x,
  bit_or_add 8 (x % 256 * 2 ^ 8) (x / 2 ^ 8 % 256) (omega arith) (omega arith),
)

pub byte_swap32_lem :
    (x : ℕ)
    → byte_swap32 x
      ≡ x % 256 * 2 ^ 24 + x / 2 ^ 8 % 256 * 2 ^ 16 + x / 2 ^ 16 % 256 * 2 ^ 8 + x / 2 ^ 24 % 256
unfolding byte_swap32
byte_swap32_lem x = ground (
  arith,
  bit_and_low 8 x,
  bit_and_field 8 8 x,
  bit_and_field 16 8 x,
  bit_and_field 24 8 x,
  bit_or_add 24 (x % 256 * 2 ^ 24) (x / 2 ^ 8 % 256 * 2 ^ 16) (omega arith) (omega arith),
  bit_or_add 16 (x % 256 * 2 ^ 24 + x / 2 ^ 8 % 256 * 2 ^ 16) (x / 2 ^ 16 % 256 * 2 ^ 8)
      (omega arith) (omega arith),
  bit_or_add 8 (x % 256 * 2 ^ 24 + x / 2 ^ 8 % 256 * 2 ^ 16 + x / 2 ^ 16 % 256 * 2 ^ 8)
      (x / 2 ^ 24 % 256) (omega arith) (omega arith),
)

pub byte_swap64_lem :
    (x : ℕ)
    → byte_swap64 x
      ≡ x % 256 * 2 ^ 56
        + x / 2 ^ 8 % 256 * 2 ^ 48
        + x / 2 ^ 16 % 256 * 2 ^ 40
        + x / 2 ^ 24 % 256 * 2 ^ 32
        + x / 2 ^ 32 % 256 * 2 ^ 24
        + x / 2 ^ 40 % 256 * 2 ^ 16
        + x / 2 ^ 48 % 256 * 2 ^ 8
        + x / 2 ^ 56 % 256
unfolding byte_swap64
byte_swap64_lem x = ground (
  arith,
  bit_and_low 8 x,
  bit_and_field 8 8 x,
  bit_and_field 16 8 x,
  bit_and_field 24 8 x,
  bit_and_field 32 8 x,
  bit_and_field 40 8 x,
  bit_and_field 48 8 x,
  bit_and_field 56 8 x,
  bit_or_add 56 (x % 256 * 2 ^ 56) (x / 2 ^ 8 % 256 * 2 ^ 48) (omega arith) (omega arith),
  bit_or_add 48 (x % 256 * 2 ^ 56 + x / 2 ^ 8 % 256 * 2 ^ 48) (x / 2 ^ 16 % 256 * 2 ^ 40)
      (omega arith) (omega arith),
  bit_or_add 40 (x % 256 * 2 ^ 56 + x / 2 ^ 8 % 256 * 2 ^ 48 + x / 2 ^ 16 % 256 * 2 ^ 40)
      (x / 2 ^ 24 % 256 * 2 ^ 32) (omega arith) (omega arith),
  bit_or_add 32
      (x % 256 * 2 ^ 56
        + x / 2 ^ 8 % 256 * 2 ^ 48
        + x / 2 ^ 16 % 256 * 2 ^ 40
        + x / 2 ^ 24 % 256 * 2 ^ 32)
      (x / 2 ^ 32 % 256 * 2 ^ 24) (omega arith) (omega arith),
  bit_or_add 24
      (x % 256 * 2 ^ 56
        + x / 2 ^ 8 % 256 * 2 ^ 48
        + x / 2 ^ 16 % 256 * 2 ^ 40
        + x / 2 ^ 24 % 256 * 2 ^ 32
        + x / 2 ^ 32 % 256 * 2 ^ 24)
      (x / 2 ^ 40 % 256 * 2 ^ 16) (omega arith) (omega arith),
  bit_or_add 16
      (x % 256 * 2 ^ 56
        + x / 2 ^ 8 % 256 * 2 ^ 48
        + x / 2 ^ 16 % 256 * 2 ^ 40
        + x / 2 ^ 24 % 256 * 2 ^ 32
        + x / 2 ^ 32 % 256 * 2 ^ 24
        + x / 2 ^ 40 % 256 * 2 ^ 16)
      (x / 2 ^ 48 % 256 * 2 ^ 8) (omega arith) (omega arith),
  bit_or_add 8
      (x % 256 * 2 ^ 56
        + x / 2 ^ 8 % 256 * 2 ^ 48
        + x / 2 ^ 16 % 256 * 2 ^ 40
        + x / 2 ^ 24 % 256 * 2 ^ 32
        + x / 2 ^ 32 % 256 * 2 ^ 24
        + x / 2 ^ 40 % 256 * 2 ^ 16
        + x / 2 ^ 48 % 256 * 2 ^ 8)
      (x / 2 ^ 56 % 256) (omega arith) (omega arith),
)
