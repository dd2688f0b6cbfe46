-- ===== src/Leb128/SignedRoundTrip.antt =====
-- The four widths of signed integers: encode, then decode.
use libnetq.Prelude.{
  ℕ, zero, suc, ◌+◌, ◌-◌, ◌≤◌, ◌≡◌, refl, sym, ap, ◌∙◌, List, ◌++◌, arith, length, Option, none,
  some, drop,
}
use mathlib.Core.Path.{subst}
use libnetq.Prelude.Int.{ℤ, pos, negsuc, FitsBits}
use libnetq.Leb128.Encode.{
  negative_chunks, signed_length, emit, encode_signed, encode_int8, encode_int16, encode_int32,
  encode_int64,
}
use libnetq.Leb128.Decode.{Decoded, done, decode_int8, decode_int16, decode_int32, decode_int64}
use libnetq.Leb128.UnsignedRoundTrip.{
  Width, width8, width16, width32, width64, bits, Holds, emit-Holds, length-positive_chunks,
}
use libnetq.Leb128.SignedRead.{signed_chunks, magnitude}
use libnetq.Leb128.SignedWidths.{
  decode_int8-signed_chunks, decode_int16-signed_chunks, decode_int32-signed_chunks,
  decode_int64-signed_chunks,
}

abbrev pub encode_int : Width → Option (List ℕ) → ℕ → ℤ → ℕ × Option (List ℕ)
encode_int width8 = encode_int8
encode_int width16 = encode_int16
encode_int width32 = encode_int32
encode_int width64 = encode_int64

abbrev pub decode_int : Width → List ℕ → Decoded ℤ
decode_int width8 = decode_int8
decode_int width16 = decode_int16
decode_int width32 = decode_int32
decode_int width64 = decode_int64

-- The result for a null buffer.
abbrev pub int_needed : Width → ℤ → ℕ
int_needed w v = (encode_int w none 0 v).0

encode_signed-signed_chunks :
    (rungs size : ℕ) (buffer : Option (List ℕ)) (v : ℤ)
    → encode_signed rungs buffer size v
      ≡ emit buffer size
          (signed_length rungs 1 (magnitude v))
          (signed_chunks v (signed_length rungs 1 (magnitude v)))
unfolding encode_signed signed_chunks
encode_signed-signed_chunks rungs size buffer (pos n) = refl
encode_signed-signed_chunks rungs size buffer (negsuc n) = refl

length-negative_chunks : (v : ℤ) (index n : ℕ) → length (negative_chunks v index n) ≡ n
unfolding negative_chunks
length-negative_chunks v index zero = refl
length-negative_chunks v index (suc zero) = refl
length-negative_chunks v index (suc (suc n)) = ap suc (length-negative_chunks v (index + 1) (suc n))

length-signed_chunks : (v : ℤ) (n : ℕ) → length (signed_chunks v n) ≡ n
unfolding signed_chunks
length-signed_chunks (pos m) n = length-positive_chunks m 0 n
length-signed_chunks (negsuc m) n = length-negative_chunks (negsuc m) 0 n

encode_signed-Holds :
    (rungs size : ℕ) (v : ℤ) (mem : List ℕ) (decode : List ℕ → Decoded ℤ)
    → (encode_signed rungs none 0 v).0 ≤ size
    → size ≤ length mem
    → ((rest : List ℕ)
        → decode (signed_chunks v (signed_length rungs 1 (magnitude v)) ++ rest)
          ≡ done (signed_length rungs 1 (magnitude v)) v)
    → (mem' : List ℕ) × (encode_signed rungs (some mem) size v
        ≡ ((encode_signed rungs none 0 v).0, some mem'))
      × Holds decode (encode_signed rungs none 0 v).0 v mem mem'
unfolding emit
encode_signed-Holds rungs size v mem decode fits room e =
    let n = signed_length rungs 1 (magnitude v) in
    let null : (encode_signed rungs none 0 v).0 ≡ n =
      ap (λ r. r.0) (encode_signed-signed_chunks rungs 0 none v) in
    let (mem', f, g) =
      emit-Holds decode v n size (signed_chunks v n) mem (length-signed_chunks v n)
        (omega (arith, null, fits)) room (e (drop n mem)) in
    (
      mem',
      encode_signed-signed_chunks rungs size (some mem) v
          ∙ f
          ∙ ap (λ (t : ℕ). (t, some mem')) (sym null),
      subst (λ (t : ℕ). Holds decode t v mem mem') (sym null) g,
    )

-- A signed value encoded to a buffer that has room for it is decoded again from that buffer: for
-- every width, every value of the width, negative ones included, and every size that is at least the
-- number of bytes that the encoder reports for a null buffer and at most the length of the buffer.
-- Encoder and decoder return that number, and the bytes behind the number are unchanged.
pub encode_int-decode_int :
    (w : Width) (v : ℤ) (size : ℕ) (mem : List ℕ)
    → FitsBits (bits w - 1) v
    → int_needed w v ≤ size
    → size ≤ length mem
    → (mem' : List ℕ) × (encode_int w (some mem) size v ≡ (int_needed w v, some mem'))
      × Holds (decode_int w) (int_needed w v) v mem mem'
unfolding encode_int8 encode_int16 encode_int32 encode_int64
encode_int-decode_int width8 v size mem p fits room =
    encode_signed-Holds 1 size v mem decode_int8 fits room
      (λ rest. decode_int8-signed_chunks v rest p)
encode_int-decode_int width16 v size mem p fits room =
    encode_signed-Holds 2 size v mem decode_int16 fits room
      (λ rest. decode_int16-signed_chunks v rest p)
encode_int-decode_int width32 v size mem p fits room =
    encode_signed-Holds 4 size v mem decode_int32 fits room
      (λ rest. decode_int32-signed_chunks v rest p)
encode_int-decode_int width64 v size mem p fits room =
    encode_signed-Holds 9 size v mem decode_int64 fits room
      (λ rest. decode_int64-signed_chunks v rest p)
