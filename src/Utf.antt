-- ===== src/Utf.antt =====
-- libnetq/UTF.c: characters of UTF-8 and UTF-16.
-- What stands between `start` and `end` is the list of what may be read; the result NQNonUChar is
-- `none`, and a character that is read comes with what is behind it. A push gives what it writes,
-- nothing where it returns 0; the room is the distance from `start` to `end`, and `none` where `end`
-- is NULL.
pub mod Tail
pub mod Utf8
pub mod Utf16
pub mod Convert
pub mod Text
pub mod Ascii
pub mod Bmp
pub mod Agree
pub mod Fuel
mod Tests
use libnetq.Prelude.{
  ℕ, zero, suc, ◌+◌, ◌-◌, ◌*◌, ◌/◌, ◌%◌, ◌^◌, List, [], ◌∷◌, Option, none, some, Bool, true, false,
  not, bit_and, bit_or, ltb, leb, ◌==◌, ◌||◌, if◌then◌else◌, length,
}
use libnetq.Prelude.Int.{ℤ, pos, negsuc}

-- npf_uchar8_size
unfoldable pub lead_size : ℕ → ℕ
lead_size b1 =
    if ltb b1 0x80
    then 1
    else if ltb b1 0xC0
    then 0
    else if ltb b1 0xE0
    then 2
    else if ltb b1 0xF0
    then 3
    else if ltb b1 0xF8
    then 4
    else if ltb b1 0xFC
    then 5
    else if ltb b1 0xFE
    then 6
    else 0

-- mask1
abbrev pub lead_mask : ℕ → ℕ
lead_mask size =
    if size == 2
    then 0x1F
    else if size == 3
    then 0x0F
    else if size == 4
    then 0x07
    else if size == 5
    then 0x03
    else if size == 6
    then 0x01
    else 0

-- The loop over the bytes behind the first, of which so many are left.
unfoldable pub next8_tail : ℕ → ℕ → List ℕ → Option (ℕ × List ℕ)
next8_tail zero value bytes = some (value, bytes)
next8_tail (suc left) value [] = none
next8_tail (suc left) value (b ∷ rest) =
    if ltb b 0x80 || leb 0xC0 b
    then none
    else next8_tail left (bit_or (value * 2 ^ 6) (bit_and b 0x3F)) rest

abbrev pub next8_sized : ℕ → ℕ → List ℕ → Option (ℕ × List ℕ)
next8_sized size b rest =
    if size == 0
    then none
    else if size == 1
    then some (b, rest)
    else if ltb (length rest) (size - 1)
    then none
    else next8_tail (size - 1) (bit_and b (lead_mask size)) rest

unfoldable pub uchar_next8 : List ℕ → Option (ℕ × List ℕ)
uchar_next8 [] = none
uchar_next8 (b ∷ rest) = next8_sized (lead_size b) b rest

-- ((character >> shift) & 0x3F) | 0x80
abbrev pub tail_byte : ℕ → ℕ → ℕ
tail_byte c shift = bit_or (bit_and (c / 2 ^ shift) 0x3F) 0x80

-- The bytes of a character and the number of bytes.
unfoldable pub push8_bytes : ℕ → List ℕ
push8_bytes c =
    if ltb c 0x80
    then c ∷ []
    else if ltb c 0x800
    then bit_or (c / 2 ^ 6) 0xC0 ∷ tail_byte c 0 ∷ []
    else if ltb c 0x10000
    then bit_or (c / 2 ^ 12) 0xE0 ∷ tail_byte c 6 ∷ tail_byte c 0 ∷ []
    else if ltb c 0x200000
    then bit_or (c / 2 ^ 18) 0xF0 ∷ tail_byte c 12 ∷ tail_byte c 6 ∷ tail_byte c 0 ∷ []
    else if ltb c 0x4000000
    then (bit_or (c / 2 ^ 24) 0xF8
        ∷ tail_byte c 18
        ∷ tail_byte c 12
        ∷ tail_byte c 6
        ∷ tail_byte c 0
        ∷ [])
    else (bit_or (c / 2 ^ 30) 0xFC
        ∷ tail_byte c 24
        ∷ tail_byte c 18
        ∷ tail_byte c 12
        ∷ tail_byte c 6
        ∷ tail_byte c 0
        ∷ [])

-- `end = start + 6` where it is NULL; a character that does not fit is not written at all.
abbrev pub room8 : Option ℕ → ℕ
room8 none = 6
room8 (some n) = n

unfoldable pub uchar_push8 : Option ℕ → ℤ → List ℕ
uchar_push8 room (negsuc c) = []
uchar_push8 room (pos c) = if leb (length (push8_bytes c)) (room8 room) then push8_bytes c else []

unfoldable pub uchar_size8 : ℤ → ℕ
uchar_size8 (negsuc c) = 1
uchar_size8 (pos c) =
    if leb c 0x7F
    then 1
    else if leb c 0x7FF
    then 2
    else if leb c 0xFFFF
    then 3
    else if leb c 0x1FFFFF
    then 4
    else if leb c 0x3FFFFFF
    then 5
    else if leb c 0x7FFFFFFF
    then 6
    else 0

abbrev pub is_high_surrogates16 : ℕ → Bool
is_high_surrogates16 c = bit_and c 0xFC00 == 0xD800

abbrev pub is_low_surrogates16 : ℕ → Bool
is_low_surrogates16 c = bit_and c 0xFC00 == 0xDC00

-- The second half of a pair.
abbrev pub next16_low : ℕ → List ℕ → Option (ℕ × List ℕ)
next16_low high [] = none
next16_low high (low ∷ rest) =
    if not (is_low_surrogates16 low)
    then none
    else some (bit_or (bit_and high 0xFC00 * 2 ^ 10) (bit_and low 0xFC00), rest)

unfoldable pub uchar_next16 : List ℕ → Option (ℕ × List ℕ)
uchar_next16 [] = none
uchar_next16 (high ∷ rest) =
    if is_high_surrogates16 high
    then next16_low high rest
    else if is_low_surrogates16 high
    then none
    else some (high, rest)

unfoldable pub uchar_size16 : ℤ → ℕ
uchar_size16 (negsuc c) = 0
uchar_size16 (pos c) = if ltb c 0x10000 then 1 else if ltb c 0x110000 then 2 else 0

-- With no `end`, two units have room.
abbrev pub room16 : Option ℕ → ℕ
room16 none = 2
room16 (some n) = n

unfoldable pub uchar_push16 : Option ℕ → ℤ → List ℕ
uchar_push16 room (negsuc c) = []
uchar_push16 room (pos c) =
    if room16 room == 0
    then []
    else if ltb c 0x10000
    then c ∷ []
    else if ltb c 0x110000
    then (if leb (room16 room) 1 then [] else bit_and (c / 2 ^ 10) 0x3FF ∷ bit_and c 0x3FF ∷ [])
    else []
