-- ===== src/Base64/Tests.antt =====
-- Runs of the encoder and the decoder.
use libnetq.Prelude.{
  ℕ, ◌+◌, ◌*◌, ◌/◌, ◌≡◌, refl, List, [], ◌∷◌, ◌++◌, some, none, length, take, arith, if◌then◌else◌,
}
use libnetq.Base64.{
  count, is_nonpad, enc_digit, encode_ex, decode_ex, encode, decode, url_encode, url_decode,
  decode_groups, encode_groups,
}
use libnetq.Base64.Encode.{text_of, encode_ex_lem}
use libnetq.Base64.RoundTrip.{encode_ex-decode_ex}
use libnetq.Base64.PastTable.{decode_ex-past_table}

-- "Man!"
abbrev four_bytes : List ℕ
four_bytes = 0x4D ∷ 0x61 ∷ 0x6E ∷ 0x21 ∷ []

-- "TWFuIQ=="
four_bytes_encoded :
    encode (some four_bytes) 100
    ≡ (count 8, 0x54 ∷ 0x57 ∷ 0x46 ∷ 0x75 ∷ 0x49 ∷ 0x51 ∷ 0x3D ∷ 0x3D ∷ 0 ∷ [])
unfolding encode_ex encode_groups
four_bytes_encoded = refl

url_decoded : url_decode (some (0x2D ∷ 0x5F ∷ 0x3D ∷ 0x3D ∷ [])) 4 ≡ some (count 1, 0xFB ∷ 0 ∷ [])
unfolding decode_ex decode_groups
url_decoded = refl

url_encoded : url_encode (some (0xFF ∷ [])) 4 ≡ (count 4, 0x5F ∷ 0x77 ∷ 0x3D ∷ 0x3D ∷ [])
unfolding encode_ex encode_groups
url_encoded = refl

decoded_short : decode (some (0x54 ∷ 0x57 ∷ 0x46 ∷ 0x75 ∷ [])) 2 ≡ some (count 3, 0x4D ∷ 0x61 ∷ [])
unfolding decode_ex decode_groups
decoded_short = refl

encode_ex_lem_example :
    (encode_ex (some four_bytes) 5 0 ≡ (
      count (length (text_of (enc_digit 0) (is_nonpad 0) four_bytes)),
      take 5 (text_of (enc_digit 0) (is_nonpad 0) four_bytes ++ 0 ∷ []),
    ))
    × (length (text_of (enc_digit 0) (is_nonpad 0) four_bytes) ≡ (
        if is_nonpad 0 then (length four_bytes * 4 + 2) / 3 else (length four_bytes + 2) / 3 * 4))
encode_ex_lem_example = encode_ex_lem four_bytes 5 0 (omega arith)

encode_ex-decode_ex_example :
    (encode_ex (some four_bytes) 7 12 ≡ (
      count (length (text_of (enc_digit 12) (is_nonpad 12) four_bytes)),
      text_of (enc_digit 12) (is_nonpad 12) four_bytes ++ 0 ∷ [],
    ))
    × (decode_ex (some (text_of (enc_digit 12) (is_nonpad 12) four_bytes)) 4 12
        ≡ some (count (length four_bytes), take 4 (four_bytes ++ 0 ∷ [])))
unfolding text_of
encode_ex-decode_ex_example =
    encode_ex-decode_ex four_bytes 7 4 12
      (omega arith, (omega arith, (omega arith, (omega arith, tt)))) (omega arith) (omega arith)

decode_ex-past_table_example : decode_ex (some (0xC3 ∷ 0xA9 ∷ [])) 10 0 ≡ none
decode_ex-past_table_example = decode_ex-past_table 0xC3 (0xA9 ∷ []) 10 0 (omega arith)
