-- ===== src/Base16/Tests.antt =====
-- Runs of the encoder and the decoder.
use libnetq.Prelude.{ℕ, ◌≡◌, refl, List, [], ◌∷◌, ◌++◌, some, length, take, arith}
use libnetq.Prelude.Int.{pos, of_word}
use libnetq.Base16.{size, einval, hex_digits, encode, decode, encode_loop, decode_loop}
use libnetq.Base16.Encode.{text_of}
use libnetq.Base16.RoundTrip.{encode-decode}

abbrev two_bytes : List ℕ
two_bytes = 0xA5 ∷ 0x0F ∷ []

-- "a50f" without its end, for which there is no room
two_bytes_lower :
    encode (some two_bytes) (some 4) 1 ≡ (size (pos 4), 0x61 ∷ 0x35 ∷ 0x30 ∷ 0x66 ∷ [])
unfolding encode encode_loop of_word
two_bytes_lower = refl

stopped_in_the_middle :
    decode (some (0x41 ∷ 0x35 ∷ 0x30 ∷ 0x47 ∷ [])) (some 4) ≡ (einval, 0xA5 ∷ [])
unfolding decode decode_loop
stopped_in_the_middle = refl

encode-decode_example :
    (encode (some two_bytes) (some 3) 0 ≡ (
      size (pos (length (text_of (hex_digits 0) two_bytes))),
      take 3 (text_of (hex_digits 0) two_bytes ++ 0 ∷ []),
    ))
    × (decode (some (text_of (hex_digits 0) two_bytes)) (some 2)
        ≡ (size (pos (length two_bytes)), take 2 two_bytes))
encode-decode_example = encode-decode two_bytes 3 2 0 (omega arith, (omega arith, tt)) (omega arith)
