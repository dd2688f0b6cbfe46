-- ===== src/Leb128/SignedWidths.antt =====
-- The signed decoders of the four widths on the chunks of a number.
use libnetq.Prelude.{
  ℕ, ◌+◌, ◌-◌, ◌*◌, ◌/◌, ◌^◌, ◌<◌, ◌≡◌, refl, sym, ◌∙◌, List, ◌++◌, arith, bit_and, all_below,
  table,
}
use mathlib.Core.Path.{subst}
use libnetq.Prelude.Int.{ℤ, FitsBits}
use libnetq.Leb128.{bits_of_index}
use libnetq.Leb128.Encode.{signed_length}
use libnetq.Leb128.Decode.{done, decode_int8, decode_int16, decode_int32, decode_int64}
use libnetq.Leb128.Unsigned.{unmarked}
use libnetq.Leb128.Negative.{Last}
use libnetq.Leb128.Ladder.{decode_int8_ladder}
use libnetq.Leb128.SignedRead.{signed_chunks, magnitude, read_lem}

positive_ff : (q : ℕ) → q < 1 → bit_and q 0xff ≡ 0
unfolding all_below
positive_ff = table 1 (λ q. bit_and q 0xff) (λ q. 0) refl

negative_ff : (q : ℕ) → q < 1 → bit_and (127 - q) 0xff ≡ 0x7f
unfolding all_below
negative_ff = table 1 (λ q. bit_and (127 - q) 0xff) (λ q. 0x7f) refl

positive_fe : (q : ℕ) → q < 2 → bit_and q 0xfe ≡ 0
unfolding all_below
positive_fe = table 2 (λ q. bit_and q 0xfe) (λ q. 0) refl

negative_fe : (q : ℕ) → q < 2 → bit_and (127 - q) 0xfe ≡ 0x7e
unfolding all_below
negative_fe = table 2 (λ q. bit_and (127 - q) 0xfe) (λ q. 0x7e) refl

positive_f8 : (q : ℕ) → q < 8 → bit_and q 0xf8 ≡ 0
unfolding all_below
positive_f8 = table 8 (λ q. bit_and q 0xf8) (λ q. 0) refl

negative_f8 : (q : ℕ) → q < 8 → bit_and (127 - q) 0xf8 ≡ 0x78
unfolding all_below
negative_f8 = table 8 (λ q. bit_and (127 - q) 0xf8) (λ q. 0x78) refl

int8-Last : (n : ℕ) → n < 2 ^ 7 → Last 8 1 n
int8-Last n h = record {
  x = 2 ^ 7 - (n / 2 ^ bits_of_index 1 + 1) * 2 ^ bits_of_index 1;
  below = omega arith;
  shifted = omega arith;
  narrow = omega arith;
}

pub decode_int8-signed_chunks :
    (v : ℤ) (rest : List ℕ)
    → FitsBits 7 v
    → decode_int8 (signed_chunks v (signed_length 1 1 (magnitude v)) ++ rest)
      ≡ done (signed_length 1 1 (magnitude v)) v
decode_int8-signed_chunks v rest h =
    let d =
      read_lem 7 1 0xff 0x7f 0 (omega arith) (omega arith) (omega arith) positive_ff negative_ff
        (λ n h'. omega arith) int8-Last v rest h in
    subst (λ (t : ℕ). decode_int8 (signed_chunks v t ++ rest) ≡ done t v) (sym d.length_lem)
      (decode_int8_ladder d.chain d.more_le (unmarked d.b d.unmarked) ∙ d.decoded)

int16-Last : (n : ℕ) → n < 2 ^ 15 → Last 16 2 n
int16-Last n h = record {
  x = 2 ^ 15 - (n / 2 ^ bits_of_index 2 + 1) * 2 ^ bits_of_index 2;
  below = omega arith;
  shifted = omega arith;
  narrow = omega arith;
}

pub decode_int16-signed_chunks :
    (v : ℤ) (rest : List ℕ)
    → FitsBits 15 v
    → decode_int16 (signed_chunks v (signed_length 2 1 (magnitude v)) ++ rest)
      ≡ done (signed_length 2 1 (magnitude v)) v
unfolding decode_int16
decode_int16-signed_chunks v rest h =
    let d =
      read_lem 15 2 0xfe 0x7e 1 (omega arith) (omega arith) (omega arith) positive_fe negative_fe
        (λ n h'. omega arith) int16-Last v rest h in
    subst (λ (t : ℕ). decode_int16 (signed_chunks v t ++ rest) ≡ done t v) (sym d.length_lem)
      d.decoded

int32-Last : (n : ℕ) → n < 2 ^ 31 → Last 32 4 n
int32-Last n h = record {
  x = 2 ^ 31 - (n / 2 ^ bits_of_index 4 + 1) * 2 ^ bits_of_index 4;
  below = omega arith;
  shifted = omega arith;
  narrow = omega arith;
}

pub decode_int32-signed_chunks :
    (v : ℤ) (rest : List ℕ)
    → FitsBits 31 v
    → decode_int32 (signed_chunks v (signed_length 4 1 (magnitude v)) ++ rest)
      ≡ done (signed_length 4 1 (magnitude v)) v
unfolding decode_int32
decode_int32-signed_chunks v rest h =
    let d =
      read_lem 31 4 0xf8 0x78 3 (omega arith) (omega arith) (omega arith) positive_f8 negative_f8
        (λ n h'. omega arith) int32-Last v rest h in
    subst (λ (t : ℕ). decode_int32 (signed_chunks v t ++ rest) ≡ done t v) (sym d.length_lem)
      d.decoded

int64-Last : (n : ℕ) → n < 2 ^ 63 → Last 64 9 n
int64-Last n h = record {
  x = 2 ^ 63 - (n / 2 ^ bits_of_index 9 + 1) * 2 ^ bits_of_index 9;
  below = omega arith;
  shifted = omega arith;
  narrow = omega arith;
}

pub decode_int64-signed_chunks :
    (v : ℤ) (rest : List ℕ)
    → FitsBits 63 v
    → decode_int64 (signed_chunks v (signed_length 9 1 (magnitude v)) ++ rest)
      ≡ done (signed_length 9 1 (magnitude v)) v
unfolding decode_int64
decode_int64-signed_chunks v rest h =
    let d =
      read_lem 63 9 0xff 0x7f 0 (omega arith) (omega arith) (omega arith) positive_ff negative_ff
        (λ n h'. omega arith) int64-Last v rest h in
    subst (λ (t : ℕ). decode_int64 (signed_chunks v t ++ rest) ≡ done t v) (sym d.length_lem)
      d.decoded
