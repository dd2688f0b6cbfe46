-- ===== src/Leb128/Tests.antt =====
-- `NQLeb128Encode*` and `NQLeb128Decode*` on concrete numbers and bytes.
use libnetq.Prelude.{ℕ, ◌≡◌, refl, List, [], ◌∷◌, some, arith, replicate}
use libnetq.Prelude.Int.{negsuc, of_word}
use libnetq.Leb128.Encode.{
  encode_uint64, encode_int16, encode_int32, emit, encode_unsigned, encode_signed, unsigned_length,
  signed_length, positive_chunks, negative_chunks,
}
use libnetq.Leb128.Decode.{
  done, decode_ladder, decode_last, read_signed, read_positive, read_negative,
  negative_value_extend, decode_int16,
}
use libnetq.Leb128.UnsignedRoundTrip.{
  width16, width64, encode_uint, decode_uint, needed, Holds, encode_uint-decode_uint,
}
use libnetq.Leb128.SignedRoundTrip.{encode_int, decode_int, int_needed, encode_int-decode_int}

-- 300 is 0xac, 0x02.
encode_300 : encode_uint64 (some (replicate 4 7)) 4 300 ≡ (2, some (0xac ∷ 0x02 ∷ 7 ∷ 7 ∷ []))
unfolding encode_uint64 encode_unsigned emit unsigned_length positive_chunks
encode_300 = refl

-- -2 is 0x7e, and -300 is 0xd4, 0x7d.
encode_negative : encode_int32 (some (replicate 3 7)) 3 (negsuc 1) ≡ (1, some (0x7e ∷ 7 ∷ 7 ∷ []))
unfolding encode_int32 encode_signed emit signed_length negative_chunks
encode_negative = refl

encode_negative_300 :
    encode_int16 (some (replicate 3 7)) 3 (negsuc 299) ≡ (2, some (0xd4 ∷ 0x7d ∷ 7 ∷ []))
unfolding encode_int16 encode_signed emit signed_length negative_chunks
encode_negative_300 = refl

decode_negative_300 : decode_int16 (0xd4 ∷ 0x7d ∷ 7 ∷ []) ≡ done 2 (negsuc 299)
unfolding decode_int16 decode_ladder decode_last read_signed read_positive read_negative
    negative_value_extend of_word
decode_negative_300 = refl

encode_uint-decode_uint_example :
    (mem' : List ℕ) × (encode_uint width64 (some (replicate 4 7)) 3 300
      ≡ (needed width64 300, some mem'))
    × Holds (decode_uint width64) (needed width64 300) 300 (replicate 4 7) mem'
unfolding encode_uint64 encode_unsigned emit unsigned_length
encode_uint-decode_uint_example =
    encode_uint-decode_uint width64 300 3 (replicate 4 7) (omega arith) (omega arith) (omega arith)

encode_int-decode_int_example :
    (mem' : List ℕ) × (encode_int width16 (some (replicate 4 7)) 2 (negsuc 299)
      ≡ (int_needed width16 (negsuc 299), some mem'))
    × Holds (decode_int width16) (int_needed width16 (negsuc 299)) (negsuc 299) (replicate 4 7) mem'
unfolding encode_int16 encode_signed emit signed_length
encode_int-decode_int_example =
    encode_int-decode_int width16 (negsuc 299) 2 (replicate 4 7) (omega arith) (omega arith)
      (omega arith)
