-- ===== src/Base64.antt =====
-- libnetq/Base64.c: encoding and decoding.
-- The result -NQ_EINVAL is `einval`. What is written is a list, at most as long as the output; an
-- output of NULL has size 0. A decoder that reads its table behind the end is `none`; its result is
-- not cut to 31 bits, as inputs are shorter than that.
pub mod Alphabet
pub mod Encode
pub mod Digits
pub mod Decode
pub mod RoundTrip
pub mod PastTable
mod Tests
use libnetq.Prelude.{
  ℕ, suc, ◌+◌, ◌-◌, ◌*◌, ◌/◌, ◌%◌, ◌^◌, List, [], ◌∷◌, ◌++◌, Option, none, some, Bool, true, false,
  not, bit_and, bit_or, ltb, leb, ◌==◌, ◌||◌, ◌&&◌, if◌then◌else◌, length, get_or, get_elem?,
}
use Alphabet.{enc_map, dec_map, url_enc_map, url_dec_map}

pub data Reply : Type 0 where
  einval : Reply
  count : ℕ → Reply

-- flags & NQ_BASE64_NONPAD, flags & NQ_BASE64_URL
abbrev pub is_nonpad : ℕ → Bool
is_nonpad flags = not (bit_and flags 4 == 0)

abbrev pub is_url : ℕ → Bool
is_url flags = not (bit_and flags 8 == 0)

-- A character is written, and then the loop ends if the output is full.
abbrev pub put : ℕ → ℕ → (ℕ → List ℕ) → List ℕ
put c room next = c ∷ (if room == 1 then [] else next (room - 1))

module _ (digit : ℕ → ℕ) (nonpad : Bool) where
  abbrev pub first_digit : ℕ → ℕ
  first_digit a = digit (bit_and (a / 2 ^ 2) 0x3F)

  abbrev pub one_left : ℕ → ℕ → List ℕ
  one_left a room = put (first_digit a) room (λ room.
      put (digit (bit_and (a * 2 ^ 4) 0x3F)) room
        (λ room. if nonpad then 0 ∷ [] else put 0x3D room (λ room. put 0x3D room (λ room. 0 ∷ []))))

  abbrev pub second_digit : ℕ → ℕ → ℕ
  second_digit a b = digit (bit_or (bit_and (a * 2 ^ 4) 0x3F) (bit_and (b / 2 ^ 4) 0x0F))

  abbrev pub two_left : ℕ → ℕ → ℕ → List ℕ
  two_left a b room = put (first_digit a) room (λ room. put (second_digit a b) room (λ room.
      put (digit (bit_and (b * 2 ^ 2) 0x3F)) room
        (λ room. if nonpad then 0 ∷ [] else put 0x3D room (λ room. 0 ∷ []))))

  -- Three bytes; `next` is the next round.
  abbrev pub three : ℕ → ℕ → ℕ → (ℕ → List ℕ) → ℕ → List ℕ
  three a b c next room = put (first_digit a) room (λ room. put (second_digit a b) room (λ room.
      put (digit (bit_or (bit_and (b * 2 ^ 2) 0x3F) (bit_and (c / 2 ^ 6) 0x03))) room
        (λ room. put (digit (bit_and c 0x3F)) room next)))

  -- The loop; with no byte left it ends, `*outStart` being still in the output.
  unfoldable pub encode_groups : List ℕ → ℕ → List ℕ
  encode_groups [] room = 0 ∷ []
  encode_groups (a ∷ []) room = one_left a room
  encode_groups (a ∷ b ∷ []) room = two_left a b room
  encode_groups (a ∷ b ∷ c ∷ rest) room = three a b c (encode_groups rest) room

-- ((inSize + 2) / 3) * 4 in `size_t`
abbrev pub padded_size : ℕ → ℕ
padded_size n = ((n + 2) % 2 ^ 64 / 3 * 4) % 2 ^ 64

abbrev pub encoded_size : Bool → ℕ → ℕ
encoded_size nonpad n =
    if nonpad && not (n % 3 == 0) then padded_size n - (3 - n % 3) else padded_size n

abbrev pub enc_digit : ℕ → ℕ → ℕ
enc_digit flags v = if is_url flags then get_or url_enc_map v 0 else get_or enc_map v 0

abbrev pub encode_sized : ℕ → List ℕ → ℕ → ℕ → Reply × List ℕ
encode_sized result input out_size flags =
    if out_size == 0
    then (count result, [])
    else if result == 0
    then (count 0, 0 ∷ [])
    else (count result, encode_groups (enc_digit flags) (is_nonpad flags) input out_size)

unfoldable pub encode_ex : Option (List ℕ) → ℕ → ℕ → Reply × List ℕ
encode_ex none out_size flags = (einval, [])
encode_ex (some input) out_size flags =
    let n = length input in
    if ltb (padded_size n) n || ltb (2 ^ 31 - 1) (padded_size n)
    then (einval, [])
    else encode_sized (encoded_size (is_nonpad flags) n) input out_size flags

-- What a decoder returns with what it wrote, or nothing where it reads behind its table.
abbrev pub Decoded : Type 0
Decoded = Option (Reply × List ℕ)

-- The three bytes of four digits.
abbrev pub byte1 : ℕ → ℕ → ℕ
byte1 b1 b2 = bit_or (b1 * 2 ^ 2) (b2 / 2 ^ 4) % 256

abbrev pub byte2 : ℕ → ℕ → ℕ
byte2 b2 b3 = bit_or (bit_and (b2 * 2 ^ 4) 0xF0) (b3 / 2 ^ 2) % 256

abbrev pub byte3 : ℕ → ℕ → ℕ
byte3 b3 b4 = bit_or (b3 * 2 ^ 6) b4 % 256

-- The end of `NQBase64DecodeEx`, in every case.
abbrev pub done : ℕ → Reply → List ℕ → Decoded
done room result out = some (result, if ltb (length out) room then out ++ 0 ∷ [] else out)

abbrev pub write : ℕ → List ℕ → ℕ → List ℕ
write room out v = if ltb (length out) room then out ++ v ∷ [] else out

-- The digit of a character; `unknown` is done where the table has none.
abbrev pub looked : Decoded → (ℕ → Decoded) → Option ℕ → Decoded
looked unknown next none = none
looked unknown next (some v) = if v == 0xFF then unknown else next v

abbrev pub look : List ℕ → ℕ → Decoded → (ℕ → Decoded) → Decoded
look dec c unknown next = looked unknown next (get_elem? dec c)

module _ (dec : List ℕ) (nonpad : Bool) (room : ℕ) where
  -- The input ended: the bits that are left are to be 0, and no padding is to be missed.
  abbrev pub ended : ℕ → ℕ → List ℕ → Decoded
  ended pad n out = if nonpad && pad == 0 then done room (count n) out else done room einval out

  -- The third character, and with it the fourth, is padding.
  abbrev pub third_unknown : ℕ → ℕ → List ℕ → ℕ → List ℕ → Decoded
  third_unknown c3 c4 rest n out =
      if not nonpad && c3 == 0x3D && c4 == 0x3D && length rest == 0
      then done room (count n) out
      else done room einval out

  abbrev pub fourth_unknown : ℕ → List ℕ → ℕ → List ℕ → Decoded
  fourth_unknown c4 rest n out =
      if not nonpad && c4 == 0x3D && length rest == 0
      then done room (count n) out
      else done room einval out

  -- The loop, with the number of bytes decoded and what is written so far.
  unfoldable pub decode_groups : List ℕ → ℕ → List ℕ → Decoded
  decode_groups [] n out = done room (count n) out
  decode_groups (c1 ∷ []) n out =
      look dec c1 (done room einval out) (λ b1. ended (b1 * 2 ^ 2 % 256) n out)
  decode_groups (c1 ∷ c2 ∷ []) n out = look dec c1 (done room einval out) (λ b1.
      look dec c2 (done room einval out)
        (λ b2. ended (bit_and (b2 * 2 ^ 4) 0xF0) (n + 1) (write room out (byte1 b1 b2))))
  decode_groups (c1 ∷ c2 ∷ c3 ∷ []) n out = look dec c1 (done room einval out) (λ b1.
      look dec c2 (done room einval out) (λ b2.
        let out1 = write room out (byte1 b1 b2) in
        look dec c3 (done room einval out1)
          (λ b3. ended (b3 * 2 ^ 6 % 256) (n + 2) (write room out1 (byte2 b2 b3)))))
  decode_groups (c1 ∷ c2 ∷ c3 ∷ c4 ∷ rest) n out = look dec c1 (done room einval out) (λ b1.
      look dec c2 (done room einval out) (λ b2.
        let out1 = write room out (byte1 b1 b2) in
        look dec c3 (third_unknown c3 c4 rest (n + 1) out1) (λ b3.
          let out2 = write room out1 (byte2 b2 b3) in
          look dec c4 (fourth_unknown c4 rest (n + 2) out2)
            (λ b4. decode_groups rest (n + 3) (write room out2 (byte3 b3 b4))))))

abbrev pub dec_table : ℕ → List ℕ
dec_table flags = if is_url flags then url_dec_map else dec_map

unfoldable pub decode_ex : Option (List ℕ) → ℕ → ℕ → Decoded
decode_ex none out_size flags = some (einval, [])
decode_ex (some []) out_size flags = some (count 0, if out_size == 0 then [] else 0 ∷ [])
decode_ex (some (c ∷ input)) out_size flags =
    decode_groups (dec_table flags) (is_nonpad flags) out_size (c ∷ input) 0 []

-- NQBase64Encode, NQBase64Decode, NQBase64URLEncode and NQBase64URLDecode
abbrev pub encode : Option (List ℕ) → ℕ → Reply × List ℕ
encode input out_size = encode_ex input out_size 0

abbrev pub decode : Option (List ℕ) → ℕ → Decoded
decode input out_size = decode_ex input out_size 0

abbrev pub url_encode : Option (List ℕ) → ℕ → Reply × List ℕ
url_encode input out_size = encode_ex input out_size 8

abbrev pub url_decode : Option (List ℕ) → ℕ → Decoded
url_decode input out_size = decode_ex input out_size 8
