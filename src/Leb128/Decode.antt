-- ===== src/Leb128/Decode.antt =====
-- `NQLeb128DecodeUint8` to `NQLeb128DecodeInt64`.
-- The data and its size are the list of the bytes that may be read.
use libnetq.Prelude.{
  ℕ, zero, suc, ◌+◌, ◌-◌, ◌*◌, ◌%◌, ◌^◌, min, List, [], ◌∷◌, Option, none, some, bit_and, bit_or,
  ◌==◌, if◌then◌else◌, get_or,
}
use libnetq.Prelude.Int.{ℤ, of_word}
use libnetq.Leb128.{bits_of_index}

-- `done n v`: the result n, and v in `*result` (which is skipped for a null pointer); `refused`: the
-- result 0; `past_end`: a byte behind the data is read.
pub data Decoded (A : Type 0) : Type 0 where
  done : ℕ → A → Decoded A
  refused : Decoded A
  past_end : Decoded A

abbrev pub map_done : {A B : Type 0} → (A → B) → Decoded A → Decoded B
map_done f (done n v) = done n (f v)
map_done f refused = refused
map_done f past_end = past_end

-- readPositiveChunk at the last byte, then readSequenceChunk downwards, in words of `width` bits.
unfoldable pub read_positive : ℕ → ℕ → ℕ → List ℕ → ℕ
read_positive width index length [] = 0
read_positive width index zero (b ∷ rest) = 0
read_positive width index (suc zero) (b ∷ rest) = b * 2 ^ bits_of_index index % 2 ^ width
read_positive width index (suc (suc length)) (b ∷ rest) =
    bit_or (read_positive width (index + 1) (suc length) rest)
      (bit_and b 0x7f * 2 ^ bits_of_index index % 2 ^ width)

-- negativeValueExtend: `~0 << (min(7 * length, width) - 1)` in a word of `width` bits.
unfoldable pub negative_value_extend : ℕ → ℕ → ℕ
negative_value_extend width length = 2 ^ width - 2 ^ (min (bits_of_index length) width - 1)

-- readNegativeChunk at the last byte, then readSequenceChunk downwards.
unfoldable pub read_negative : ℕ → ℕ → ℕ → List ℕ → ℕ
read_negative width index length [] = 0
read_negative width index zero (b ∷ rest) = 0
read_negative width index (suc zero) (b ∷ rest) =
    bit_or (b * 2 ^ bits_of_index index % 2 ^ width) (negative_value_extend width (index + 1))
read_negative width index (suc (suc length)) (b ∷ rest) =
    bit_or (read_negative width (index + 1) (suc length) rest)
      (bit_and b 0x7f * 2 ^ bits_of_index index % 2 ^ width)

-- The length of the number: `rungs` times, a missing byte refuses, and a byte without the top bit is
-- the last; the byte behind is the last if it has no bit of the mask.
unfoldable pub unsigned_end : ℕ → ℕ → List ℕ → Option ℕ
unsigned_end rungs mask [] = none
unsigned_end zero mask (b ∷ rest) = if bit_and b mask == 0 then some 1 else none
unsigned_end (suc rungs) mask (b ∷ rest) =
    if bit_and b 0x80 == 0
    then some 1
    else elim (unsigned_end rungs mask rest) [ none ↦ none | some n ↦ some (n + 1) ]

unfoldable pub decode_unsigned : ℕ → ℕ → ℕ → List ℕ → Decoded ℕ
decode_unsigned width rungs mask bytes = elim (unsigned_end rungs mask bytes) [
  | none ↦ refused
  | some n ↦ done n (read_positive width 0 n bytes)
]

unfoldable pub decode_uint8 : List ℕ → Decoded ℕ
decode_uint8 = decode_unsigned 8 1 0xfe

unfoldable pub decode_uint16 : List ℕ → Decoded ℕ
decode_uint16 = decode_unsigned 16 2 0xfc

unfoldable pub decode_uint32 : List ℕ → Decoded ℕ
decode_uint32 = decode_unsigned 32 4 0xf0

unfoldable pub decode_uint64 : List ℕ → Decoded ℕ
decode_uint64 = decode_unsigned 64 9 0xfe

-- readSignedSafe: the sign is bit 6 of the last byte.
unfoldable pub read_signed : ℕ → ℕ → List ℕ → ℕ
read_signed width length bytes =
    if bit_and (get_or bytes (length - 1) 0) 0x40 == 0
    then read_positive width 0 length bytes
    else read_negative width 0 length bytes

-- The last of the lengths: its byte, masked, is the sign.
unfoldable pub decode_last : ℕ → ℕ → ℕ → ℕ → List ℕ → Decoded ℕ
decode_last width length mask negative bytes =
    if bit_and (get_or bytes (length - 1) 0) mask == negative
    then done length (read_negative width 0 length bytes)
    else if bit_and (get_or bytes (length - 1) 0) mask == 0
    then done length (read_positive width 0 length bytes)
    else refused

-- The ladder at `length`, over the bytes from there on; `bytes` are all of them.
unfoldable pub decode_ladder : ℕ → ℕ → ℕ → ℕ → ℕ → List ℕ → List ℕ → Decoded ℕ
decode_ladder width mask negative rungs length bytes [] = refused
decode_ladder width mask negative zero length bytes (b ∷ rest) =
    decode_last width length mask negative bytes
decode_ladder width mask negative (suc rungs) length bytes (b ∷ rest) =
    if bit_and b 0x80 == 0
    then done length (read_signed width length bytes)
    else decode_ladder width mask negative rungs (length + 1) bytes rest

-- The second byte is read with no test of the size.
unfoldable pub decode_int8 : List ℕ → Decoded ℤ
decode_int8 [] = refused
decode_int8 (b ∷ []) =
    if bit_and b 0x80 == 0 then done 1 (of_word 7 (read_signed 8 1 (b ∷ []))) else past_end
decode_int8 (b ∷ c ∷ rest) =
    if bit_and b 0x80 == 0
    then done 1 (of_word 7 (read_signed 8 1 (b ∷ c ∷ rest)))
    else map_done (of_word 7) (decode_last 8 2 0xff 0x7f (b ∷ c ∷ rest))

unfoldable pub decode_int16 : List ℕ → Decoded ℤ
decode_int16 bytes = map_done (of_word 15) (decode_ladder 16 0xfe 0x7e 2 1 bytes bytes)

unfoldable pub decode_int32 : List ℕ → Decoded ℤ
decode_int32 bytes = map_done (of_word 31) (decode_ladder 32 0xf8 0x78 4 1 bytes bytes)

unfoldable pub decode_int64 : List ℕ → Decoded ℤ
decode_int64 bytes = map_done (of_word 63) (decode_ladder 64 0xff 0x7f 9 1 bytes bytes)
