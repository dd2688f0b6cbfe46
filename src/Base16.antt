-- ===== src/Base16.antt =====
-- libnetq/Base16.c, and of libnetq/CType.h the hexadecimal digits.
-- The result -NQ_EINVAL is `einval`. An input comes with its end; an output of NULL is `none`, and
-- otherwise the room from `outStart` to `outEnd`. A size is cut to the 32 bits of an `int`.
pub mod Encode
pub mod Decode
pub mod RoundTrip
mod Tests
use libnetq.Prelude.{
  ℕ, suc, ◌+◌, ◌-◌, ◌*◌, ◌/◌, ◌%◌, ◌^◌, List, [], ◌∷◌, ◌++◌, Option, none, some, Bool, true, false,
  not, bit_and, bit_or, ltb, leb, ◌==◌, ◌||◌, ◌&&◌, if◌then◌else◌, length, get_or,
}
use libnetq.Prelude.Int.{ℤ, pos, negsuc, of_word}

pub data Reply : Type 0 where
  einval : Reply
  size : ℤ → Reply

-- The conversion of a difference of pointers to `int`.
abbrev pub to_int : ℕ → ℤ
to_int n = of_word 31 (n % 2 ^ 32)

-- `/ 2` of an even `int`.
abbrev pub half : ℤ → ℤ
half (pos n) = pos (n / 2)
half (negsuc n) = negsuc (n / 2)

-- lowerDigits and upperDigits
abbrev pub lower_digits : List ℕ
lower_digits =
    0x30 ∷ 0x31 ∷ 0x32 ∷ 0x33 ∷ 0x34 ∷ 0x35 ∷ 0x36 ∷ 0x37 ∷ 0x38 ∷ 0x39 ∷ 0x61 ∷ 0x62 ∷ 0x63 ∷ 0x64
    ∷ 0x65 ∷ 0x66 ∷ []

abbrev pub upper_digits : List ℕ
upper_digits =
    0x30 ∷ 0x31 ∷ 0x32 ∷ 0x33 ∷ 0x34 ∷ 0x35 ∷ 0x36 ∷ 0x37 ∷ 0x38 ∷ 0x39 ∷ 0x41 ∷ 0x42 ∷ 0x43 ∷ 0x44
    ∷ 0x45 ∷ 0x46 ∷ []

-- flags & NQ_BASE16_LOWER
abbrev pub hex_digits : ℕ → List ℕ
hex_digits flags = if not (bit_and flags 1 == 0) then lower_digits else upper_digits

abbrev pub high_digit : List ℕ → ℕ → ℕ
high_digit digits b = get_or digits (bit_and (b / 2 ^ 4) 0x0F) 0

abbrev pub low_digit : List ℕ → ℕ → ℕ
low_digit digits b = get_or digits (bit_and b 0x0F) 0

unfoldable pub encode_loop : List ℕ → List ℕ → ℕ → List ℕ
encode_loop digits [] room = if ltb 0 room then 0 ∷ [] else []
encode_loop digits (b ∷ input) room =
    if leb room 0
    then []
    else high_digit digits b
      ∷ (if leb (room - 1) 0 then [] else low_digit digits b ∷ encode_loop digits input (room - 2))

unfoldable pub encode : Option (List ℕ) → Option ℕ → ℕ → Reply × List ℕ
encode none room flags = (einval, [])
encode (some input) none flags = (size (to_int (length input * 2)), [])
encode (some input) (some room) flags =
    (size (to_int (length input * 2)), encode_loop (hex_digits flags) input room)

-- NQIsHexDigit
abbrev pub is_hex_digit : ℕ → Bool
is_hex_digit c = leb 0x30 c && leb c 0x39 || leb 0x61 c && leb c 0x66 || leb 0x41 c && leb c 0x46

-- NQToHexValue, of a hexadecimal digit
abbrev pub to_hex_value : ℕ → ℕ
to_hex_value c = if ltb c 0x41 then c - 0x30 else bit_and (c - 0x41 + 10) 0xF

abbrev pub joined : ℕ → ℕ → ℕ
joined upper lower = bit_or (to_hex_value upper * 2 ^ 4) (to_hex_value lower)

abbrev pub write : ℕ → List ℕ → ℕ → List ℕ
write room out v = if ltb (length out) room then out ++ v ∷ [] else out

-- The loop, of an input of even length: whether it reached the end, and what is written.
unfoldable pub decode_loop : ℕ → List ℕ → List ℕ → Bool × List ℕ
decode_loop room [] out = (true, out)
decode_loop room (upper ∷ []) out = (false, out)
decode_loop room (upper ∷ lower ∷ input) out =
    if not (is_hex_digit upper)
    then (false, out)
    else if not (is_hex_digit lower)
    then (false, out)
    else decode_loop room input (write room out (joined upper lower))

abbrev pub finished : ℤ → Bool × List ℕ → Reply × List ℕ
finished n (ok, out) = if ok then (size n, out) else (einval, out)

-- `result & 1`
abbrev pub is_odd : ℕ → Bool
is_odd n = n % 2 ^ 32 % 2 == 1

unfoldable pub decode : Option (List ℕ) → Option ℕ → Reply × List ℕ
decode none room = (einval, [])
decode (some input) none =
    if is_odd (length input) then (einval, []) else (size (half (to_int (length input))), [])
decode (some input) (some room) =
    if is_odd (length input)
    then (einval, [])
    else finished (half (to_int (length input))) (decode_loop room input [])
