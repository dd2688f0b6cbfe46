-- ===== src/Leb128/Encode.antt =====
-- `NQLeb128EncodeUint8` to `NQLeb128EncodeInt64`.
-- The buffer is `none` for a null pointer, or the bytes that may be written; `size` is passed beside
-- it. The result is the number of bytes that the value takes, also where they do not fit and nothing
-- is written.
use libnetq.Prelude.{
  ℕ, zero, suc, ◌+◌, List, [], ◌∷◌, Option, none, some, bit_and, bit_or, leb, if◌then◌else◌,
}
use libnetq.Prelude.Int.{ℤ, pos, negsuc}
use libnetq.BufferBuilder.{overwrite}
use libnetq.Leb128.{unsigned_max, signed_max, byte_at, signed_byte_at}

-- writePositiveSafe: the chunks from `index` on, `length` of them.
unfoldable pub positive_chunks : ℕ → ℕ → ℕ → List ℕ
positive_chunks value index zero = []
positive_chunks value index (suc zero) = byte_at value index ∷ []
positive_chunks value index (suc (suc length)) =
    bit_or (byte_at value index) 0x80 ∷ positive_chunks value (index + 1) (suc length)

-- writeNegativeSafe.
unfoldable pub negative_chunks : ℤ → ℕ → ℕ → List ℕ
negative_chunks value index zero = []
negative_chunks value index (suc zero) = bit_and (signed_byte_at value index) 0x7f ∷ []
negative_chunks value index (suc (suc length)) =
    bit_or (signed_byte_at value index) 0x80 ∷ negative_chunks value (index + 1) (suc length)

-- `if (size >= length) write; return length;`, the write being guarded by `if (buffer)`.
unfoldable pub emit : Option (List ℕ) → ℕ → ℕ → List ℕ → ℕ × Option (List ℕ)
emit none size length chunks = (length, none)
emit (some buffer) size length chunks =
    (length, some (if leb length size then overwrite chunks buffer else buffer))

-- The first length, from `length` on, whose maximum the value does not pass; after `rungs` tests
-- the next length is taken untested.
unfoldable pub unsigned_length : ℕ → ℕ → ℕ → ℕ
unsigned_length zero length value = length
unsigned_length (suc rungs) length value =
    if leb value (unsigned_max length) then length else unsigned_length rungs (length + 1) value

-- The same for `value <= LEB128_Sn_MAX`, and for `LEB128_Sn_MIN <= value` at the number -(n + 1).
unfoldable pub signed_length : ℕ → ℕ → ℕ → ℕ
signed_length zero length n = length
signed_length (suc rungs) length n =
    if leb n (signed_max length) then length else signed_length rungs (length + 1) n

unfoldable pub encode_unsigned : ℕ → Option (List ℕ) → ℕ → ℕ → ℕ × Option (List ℕ)
encode_unsigned rungs buffer size value =
    let length = unsigned_length rungs 1 value in
    emit buffer size length (positive_chunks value 0 length)

unfoldable pub encode_signed : ℕ → Option (List ℕ) → ℕ → ℤ → ℕ × Option (List ℕ)
encode_signed rungs buffer size (pos n) =
    let length = signed_length rungs 1 n in emit buffer size length (positive_chunks n 0 length)
encode_signed rungs buffer size (negsuc n) =
    let length = signed_length rungs 1 n in
    emit buffer size length (negative_chunks (negsuc n) 0 length)

unfoldable pub encode_uint8 : Option (List ℕ) → ℕ → ℕ → ℕ × Option (List ℕ)
encode_uint8 = encode_unsigned 1

unfoldable pub encode_uint16 : Option (List ℕ) → ℕ → ℕ → ℕ × Option (List ℕ)
encode_uint16 = encode_unsigned 2

unfoldable pub encode_uint32 : Option (List ℕ) → ℕ → ℕ → ℕ × Option (List ℕ)
encode_uint32 = encode_unsigned 4

unfoldable pub encode_uint64 : Option (List ℕ) → ℕ → ℕ → ℕ × Option (List ℕ)
encode_uint64 = encode_unsigned 9

unfoldable pub encode_int8 : Option (List ℕ) → ℕ → ℤ → ℕ × Option (List ℕ)
encode_int8 = encode_signed 1

unfoldable pub encode_int16 : Option (List ℕ) → ℕ → ℤ → ℕ × Option (List ℕ)
encode_int16 = encode_signed 2

unfoldable pub encode_int32 : Option (List ℕ) → ℕ → ℤ → ℕ × Option (List ℕ)
encode_int32 = encode_signed 4

unfoldable pub encode_int64 : Option (List ℕ) → ℕ → ℤ → ℕ × Option (List ℕ)
encode_int64 = encode_signed 9
