-- ===== src/Endian.antt =====
-- libnetq/ByteOrder.h and libnetq/Endian.h: the byte swaps, the conversions between the host's
-- byte order and a fixed one, and the bytes of a word in the memory of a host.
-- A host is little or big endian; `NQ_CPU_MIDDLE_ENDIAN`, whose conversions the source marks as to
-- do, is left out. A word of n bytes is a number below 256 ^ n.
pub mod Swap
pub mod Memory
pub mod Travel
use libnetq.Prelude.{ℕ, zero, suc, ◌+◌, ◌*◌, ◌/◌, ◌%◌, ◌^◌, List, [], ◌∷◌, bit_and, bit_or}
use mathlib.Core.List.{reverse}

pub data ByteOrder : Type 0 where
  little big : ByteOrder

unfoldable pub byte_swap16 : ℕ → ℕ
byte_swap16 x = bit_or (bit_and x 0x00FF * 2 ^ 8) (bit_and x 0xFF00 / 2 ^ 8)

-- `<<` in a 32-bit word; the bytes that the masks leave do not reach past it.
unfoldable pub byte_swap32 : ℕ → ℕ
byte_swap32 x =
    bit_or
      (bit_or (bit_or (bit_and x 0x000000FF * 2 ^ 24) (bit_and x 0x0000FF00 * 2 ^ 8))
        (bit_and x 0x00FF0000 / 2 ^ 8))
      (bit_and x 0xFF000000 / 2 ^ 24)

unfoldable pub byte_swap64 : ℕ → ℕ
byte_swap64 x =
    bit_or
      (bit_or
        (bit_or
          (bit_or
            (bit_or
              (bit_or
                (bit_or (bit_and x 0x00000000000000FF * 2 ^ 56)
                  (bit_and x 0x000000000000FF00 * 2 ^ 40))
                (bit_and x 0x0000000000FF0000 * 2 ^ 24))
              (bit_and x 0x00000000FF000000 * 2 ^ 8))
            (bit_and x 0x000000FF00000000 / 2 ^ 8))
          (bit_and x 0x0000FF0000000000 / 2 ^ 24))
        (bit_and x 0x00FF000000000000 / 2 ^ 40))
      (bit_and x 0xFF00000000000000 / 2 ^ 56)

-- `NQHostToLE16` and `NQHostToBE16`, which are also `NQLEToHost16` and `NQBEToHost16`.
unfoldable pub host_to_le16 : ByteOrder → ℕ → ℕ
host_to_le16 little x = x
host_to_le16 big x = byte_swap16 x

unfoldable pub host_to_be16 : ByteOrder → ℕ → ℕ
host_to_be16 little x = byte_swap16 x
host_to_be16 big x = x

unfoldable pub host_to_le32 : ByteOrder → ℕ → ℕ
host_to_le32 little x = x
host_to_le32 big x = byte_swap32 x

unfoldable pub host_to_be32 : ByteOrder → ℕ → ℕ
host_to_be32 little x = byte_swap32 x
host_to_be32 big x = x

unfoldable pub host_to_le64 : ByteOrder → ℕ → ℕ
host_to_le64 little x = x
host_to_le64 big x = byte_swap64 x

unfoldable pub host_to_be64 : ByteOrder → ℕ → ℕ
host_to_be64 little x = byte_swap64 x
host_to_be64 big x = x

-- The n bytes of a word, lowest first, and the word that bytes stand for.
unfoldable pub le_bytes : ℕ → ℕ → List ℕ
le_bytes zero w = []
le_bytes (suc n) w = w % 256 ∷ le_bytes n (w / 256)

unfoldable pub le_word : List ℕ → ℕ
le_word [] = 0
le_word (b ∷ bs) = b + 256 * le_word bs

-- What a host keeps in memory for a word of n bytes, and what it reads back.
unfoldable pub store : ByteOrder → ℕ → ℕ → List ℕ
store little n w = le_bytes n w
store big n w = reverse (le_bytes n w)

unfoldable pub load : ByteOrder → List ℕ → ℕ
load little bs = le_word bs
load big bs = le_word (reverse bs)
