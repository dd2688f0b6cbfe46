-- ===== src/BufferBuilder/Get.antt =====
-- The reads: `NQGetInt16` to `NQGetUint64BE`.
use libnetq.Prelude.{ℕ, List, Option, bit_and, bit_or, ◌==◌, if◌then◌else◌}
use libnetq.Prelude.Int.{ℤ, of_word}
use libnetq.Endian.{
  ByteOrder, load, host_to_le16, host_to_be16, host_to_le32, host_to_be32, host_to_le64,
  host_to_be64,
}
use libnetq.BufferBuilder.{read, into_front, into_back, into_low24}

-- `if (*value & 0x00800000) *value |= 0xFF000000;`
unfoldable pub sign_extend24 : ℕ → ℕ
sign_extend24 w = if bit_and w 0x00800000 == 0 then w else bit_or w 0xFF000000

unfoldable pub get_bytes : ℕ → List ℕ → Option (ℕ × List ℕ)
get_bytes size = read size (λ bytes. bytes)

unfoldable pub get_int8 : List ℕ → Option (ℕ × ℤ)
get_int8 = read 1 (λ bytes. of_word 7 (load ByteOrder.little bytes))

unfoldable pub get_uint8 : List ℕ → Option (ℕ × ℕ)
get_uint8 = read 1 (load ByteOrder.little)

unfoldable pub get_int16 : ByteOrder → List ℕ → Option (ℕ × ℤ)
get_int16 h = read 2 (λ bytes. of_word 15 (load h bytes))

unfoldable pub get_int16_le : ByteOrder → List ℕ → Option (ℕ × ℤ)
get_int16_le h = read 2 (λ bytes. of_word 15 (host_to_le16 h (load h bytes)))

unfoldable pub get_int16_be : ByteOrder → List ℕ → Option (ℕ × ℤ)
get_int16_be h = read 2 (λ bytes. of_word 15 (host_to_be16 h (load h bytes)))

unfoldable pub get_uint16 : ByteOrder → List ℕ → Option (ℕ × ℕ)
get_uint16 h = read 2 (λ bytes. load h bytes)

unfoldable pub get_uint16_le : ByteOrder → List ℕ → Option (ℕ × ℕ)
get_uint16_le h = read 2 (λ bytes. host_to_le16 h (load h bytes))

unfoldable pub get_uint16_be : ByteOrder → List ℕ → Option (ℕ × ℕ)
get_uint16_be h = read 2 (λ bytes. host_to_be16 h (load h bytes))

unfoldable pub get_int24 : ByteOrder → ℕ → List ℕ → Option (ℕ × ℤ)
get_int24 h old = read 3 (λ bytes. of_word 31 (sign_extend24 (into_low24 h old bytes)))

unfoldable pub get_int24_le : ByteOrder → ℕ → List ℕ → Option (ℕ × ℤ)
get_int24_le h old =
    read 3 (λ bytes. of_word 31 (sign_extend24 (host_to_le32 h (into_front h old bytes))))

unfoldable pub get_int24_be : ByteOrder → ℕ → List ℕ → Option (ℕ × ℤ)
get_int24_be h old =
    read 3 (λ bytes. of_word 31 (sign_extend24 (host_to_be32 h (into_back h old bytes))))

unfoldable pub get_uint24 : ByteOrder → ℕ → List ℕ → Option (ℕ × ℕ)
get_uint24 h old = read 3 (λ bytes. into_low24 h old bytes)

unfoldable pub get_uint24_le : ByteOrder → ℕ → List ℕ → Option (ℕ × ℕ)
get_uint24_le h old = read 3 (λ bytes. host_to_le32 h (into_front h old bytes))

unfoldable pub get_uint24_be : ByteOrder → ℕ → List ℕ → Option (ℕ × ℕ)
get_uint24_be h old = read 3 (λ bytes. host_to_be32 h (into_back h old bytes))

unfoldable pub get_int32 : ByteOrder → List ℕ → Option (ℕ × ℤ)
get_int32 h = read 4 (λ bytes. of_word 31 (load h bytes))

unfoldable pub get_int32_le : ByteOrder → List ℕ → Option (ℕ × ℤ)
get_int32_le h = read 4 (λ bytes. of_word 31 (host_to_le32 h (load h bytes)))

unfoldable pub get_int32_be : ByteOrder → List ℕ → Option (ℕ × ℤ)
get_int32_be h = read 4 (λ bytes. of_word 31 (host_to_be32 h (load h bytes)))

unfoldable pub get_uint32 : ByteOrder → List ℕ → Option (ℕ × ℕ)
get_uint32 h = read 4 (λ bytes. load h bytes)

unfoldable pub get_uint32_le : ByteOrder → List ℕ → Option (ℕ × ℕ)
get_uint32_le h = read 4 (λ bytes. host_to_le32 h (load h bytes))

unfoldable pub get_uint32_be : ByteOrder → List ℕ → Option (ℕ × ℕ)
get_uint32_be h = read 4 (λ bytes. host_to_be32 h (load h bytes))

unfoldable pub get_int64 : ByteOrder → List ℕ → Option (ℕ × ℤ)
get_int64 h = read 8 (λ bytes. of_word 63 (load h bytes))

unfoldable pub get_int64_le : ByteOrder → List ℕ → Option (ℕ × ℤ)
get_int64_le h = read 8 (λ bytes. of_word 63 (host_to_le64 h (load h bytes)))

unfoldable pub get_int64_be : ByteOrder → List ℕ → Option (ℕ × ℤ)
get_int64_be h = read 8 (λ bytes. of_word 63 (host_to_be64 h (load h bytes)))

unfoldable pub get_uint64 : ByteOrder → List ℕ → Option (ℕ × ℕ)
get_uint64 h = read 8 (λ bytes. load h bytes)

unfoldable pub get_uint64_le : ByteOrder → List ℕ → Option (ℕ × ℕ)
get_uint64_le h = read 8 (λ bytes. host_to_le64 h (load h bytes))

unfoldable pub get_uint64_be : ByteOrder → List ℕ → Option (ℕ × ℕ)
get_uint64_be h = read 8 (λ bytes. host_to_be64 h (load h bytes))
