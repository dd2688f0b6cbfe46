-- ===== src/Leb128/Incremental.antt =====
-- `NQLeb128Dec`, the decoder that is fed one byte after the other.
-- A shift by 64 or more, which C leaves undefined, gives 0 here.
use libnetq.Prelude.{
  ℕ, ◌+◌, ◌-◌, ◌*◌, ◌/◌, ◌%◌, ◌^◌, max, Bool, true, false, bit_and, bit_or, leb, ◌==◌,
  if◌then◌else◌,
}
use libnetq.Timer.{clz_loop}

pub record Leb128Dec : Type 0 where
  pub value : ℕ
  pub bit_width : ℕ
  pub is_signed : Bool

abbrev pub init : Bool → Leb128Dec
init is_signed = record { value = 0; bit_width = 0; is_signed = is_signed }

-- NQGetClz32
unfoldable pub get_clz32 : ℕ → ℕ
get_clz32 = clz_loop 32

abbrev pub high_mask : ℕ → ℕ
high_mask width = if leb 64 width then 0 else (2 ^ 64 - 1) * 2 ^ width % 2 ^ 64

-- `value &= ~highMask`
abbrev pub cleared : ℕ → ℕ → ℕ
cleared value width = bit_and value (2 ^ 64 - 1 - high_mask width)

-- Behind the last byte.
abbrev pub finish : ℕ → Leb128Dec → Leb128Dec
finish byte d =
    if d.is_signed
    then (if bit_and byte 0x40 == 0
        then record d {
          value = cleared d.value d.bit_width;
          bit_width = max (d.bit_width - (get_clz32 byte - 26)) 2;
        }
        else record d {
          value = bit_or d.value (high_mask d.bit_width);
          bit_width = max (d.bit_width - (get_clz32 (255 - bit_or byte 0x80) - 26)) 2;
        })
    else record d {
      value = cleared d.value d.bit_width;
      bit_width = max (d.bit_width - (get_clz32 byte - 25)) 1;
    }

abbrev pub joined_with : ℕ → Leb128Dec → Leb128Dec
joined_with byte d = record d {
  value = bit_or d.value (bit_and byte 0x7f * 2 ^ d.bit_width % 2 ^ 64);
  bit_width = d.bit_width + 7;
}

-- Whether the byte was the last.
unfoldable pub update : ℕ → Leb128Dec → Bool × Leb128Dec
update byte d =
    if bit_and byte 0x80 == 0
    then (true, finish byte (joined_with byte d))
    else (false, joined_with byte d)

-- The bytes that the value takes.
abbrev pub size : Leb128Dec → ℕ
size d = (d.bit_width + 7) / 8

abbrev pub value_uint32 : Leb128Dec → ℕ
value_uint32 d = d.value % 2 ^ 32
