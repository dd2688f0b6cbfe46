-- ===== src/Leb128/UnsignedRoundTrip.antt =====
-- The four widths of unsigned integers: encode, then decode.
use libnetq.Prelude.{
  ℕ, zero, suc, ◌+◌, ◌/◌, ◌^◌, ◌≤◌, ◌<◌, ◌≡◌, refl, ap, ◌∙◌, List, [], ◌∷◌, ◌++◌, Option, none,
  some, arith, length, drop, bit_and, all_below, table,
}
use mathlib.Core.Path.{subst}
use libnetq.BufferBuilder.{overwrite}
use libnetq.Leb128.{bits_of_index, byte_at}
use libnetq.Leb128.Encode.{
  positive_chunks, emit, unsigned_length, encode_unsigned, encode_uint8, encode_uint16,
  encode_uint32, encode_uint64,
}
use libnetq.Leb128.Decode.{
  Decoded, done, decode_unsigned, decode_uint8, decode_uint16, decode_uint32, decode_uint64,
}
use libnetq.Leb128.Unsigned.{decode_unsigned-chunks}

pub data Width : Type 0 where
  width8 width16 width32 width64 : Width

abbrev pub bits : Width → ℕ
bits width8 = 8
bits width16 = 16
bits width32 = 32
bits width64 = 64

abbrev pub encode_uint : Width → Option (List ℕ) → ℕ → ℕ → ℕ × Option (List ℕ)
encode_uint width8 = encode_uint8
encode_uint width16 = encode_uint16
encode_uint width32 = encode_uint32
encode_uint width64 = encode_uint64

abbrev pub decode_uint : Width → List ℕ → Decoded ℕ
decode_uint width8 = decode_uint8
decode_uint width16 = decode_uint16
decode_uint width32 = decode_uint32
decode_uint width64 = decode_uint64

-- The result for a null buffer.
abbrev pub needed : Width → ℕ → ℕ
needed w v = (encode_uint w none 0 v).0

overwrite-drop :
    (bs mem : List ℕ) → length bs ≤ length mem → overwrite bs mem ≡ bs ++ drop (length bs) mem
overwrite-drop [] mem h = refl
overwrite-drop (b ∷ bs) [] h = absurd (omega arith)
overwrite-drop (b ∷ bs) (x ∷ mem) h = ap (λ r. b ∷ r) (overwrite-drop bs mem (omega arith))

pub length-positive_chunks : (v index n : ℕ) → length (positive_chunks v index n) ≡ n
unfolding positive_chunks
length-positive_chunks v index zero = refl
length-positive_chunks v index (suc zero) = refl
length-positive_chunks v index (suc (suc n)) = ap suc (length-positive_chunks v (index + 1) (suc n))

drop-append : (bs rest : List ℕ) → drop (length bs) (bs ++ rest) ≡ rest
drop-append [] rest = refl
drop-append (b ∷ bs) rest = drop-append bs rest

-- A buffer after an encode: the bytes behind the number are as they were, and a decode finds it.
pub record Holds {A : Type 0} (decode : List ℕ → Decoded A) (n : ℕ) (v : A) (mem mem' : List ℕ)
    : Type 0 where
  pub decoded : decode mem' ≡ done n v
  pub behind : drop n mem' ≡ drop n mem

-- Chunks that a decoder reads as `v`, whatever follows, are left in the buffer.
pub emit-Holds :
    {A : Type 0} (decode : List ℕ → Decoded A) (v : A) (n size : ℕ) (chunks mem : List ℕ)
    → length chunks ≡ n
    → n ≤ size
    → size ≤ length mem
    → decode (chunks ++ drop n mem) ≡ done n v
    → (mem' : List ℕ) × (emit (some mem) size n chunks ≡ (n, some mem')) × Holds decode n v mem mem'
unfolding emit
emit-Holds decode v n size chunks mem len fits room e =
    let split : overwrite chunks mem ≡ chunks ++ drop n mem =
      overwrite-drop chunks mem (omega (arith, len, fits, room))
      ∙ ap (λ (k : ℕ). chunks ++ drop k mem) len in
    let kept : drop n (chunks ++ drop n mem) ≡ drop n mem =
      subst (λ (k : ℕ). drop k (chunks ++ drop n mem) ≡ drop n mem) len
        (drop-append chunks (drop n mem)) in
    (
      chunks ++ drop n mem,
      ap (λ (o : Option (List ℕ)). (n, o)) (ground (arith, fits, split)),
      record { decoded = e; behind = kept },
    )

module _ (width rungs mask v size : ℕ) (mem : List ℕ) where
  encode_unsigned-Holds :
      v < 2 ^ width
      → v / 2 ^ bits_of_index rungs < 128
      → bit_and (byte_at v rungs) mask ≡ 0
      → (encode_unsigned rungs none 0 v).0 ≤ size
      → size ≤ length mem
      → (mem' : List ℕ) × (encode_unsigned rungs (some mem) size v
          ≡ ((encode_unsigned rungs none 0 v).0, some mem'))
        × Holds (decode_unsigned width rungs mask) (encode_unsigned rungs none 0 v).0 v mem mem'
  unfolding encode_unsigned emit
  encode_unsigned-Holds p q m fits room =
      let n = unsigned_length rungs 1 v in
      emit-Holds (decode_unsigned width rungs mask) v n size (positive_chunks v 0 n) mem
        (length-positive_chunks v 0 n) fits room
        (decode_unsigned-chunks width rungs mask v (drop n mem) p q m)

below_2 : (b : ℕ) → b < 2 → bit_and b 0xfe ≡ 0
unfolding all_below
below_2 = table 2 (λ b. bit_and b 0xfe) (λ b. 0) refl

below_4 : (b : ℕ) → b < 4 → bit_and b 0xfc ≡ 0
unfolding all_below
below_4 = table 4 (λ b. bit_and b 0xfc) (λ b. 0) refl

below_16 : (b : ℕ) → b < 16 → bit_and b 0xf0 ≡ 0
unfolding all_below
below_16 = table 16 (λ b. bit_and b 0xf0) (λ b. 0) refl

-- An unsigned value encoded to a buffer that has room for it is decoded again from that buffer: for
-- every width, every value of the width, and every size that is at least the number of bytes that
-- the encoder reports for a null buffer and at most the length of the buffer. Encoder and decoder
-- return that number, and the bytes behind the number are unchanged.
pub encode_uint-decode_uint :
    (w : Width) (v size : ℕ) (mem : List ℕ)
    → v < 2 ^ bits w
    → needed w v ≤ size
    → size ≤ length mem
    → (mem' : List ℕ) × (encode_uint w (some mem) size v ≡ (needed w v, some mem'))
      × Holds (decode_uint w) (needed w v) v mem mem'
unfolding encode_uint8 encode_uint16 encode_uint32 encode_uint64 decode_uint8 decode_uint16
    decode_uint32 decode_uint64
encode_uint-decode_uint width8 v size mem p =
    encode_unsigned-Holds 8 1 0xfe v size mem p (omega arith) (below_2 (byte_at v 1) (omega arith))
encode_uint-decode_uint width16 v size mem p =
    encode_unsigned-Holds 16 2 0xfc v size mem p (omega arith) (below_4 (byte_at v 2) (omega arith))
encode_uint-decode_uint width32 v size mem p =
    encode_unsigned-Holds 32 4 0xf0 v size mem p (omega arith)
      (below_16 (byte_at v 4) (omega arith))
encode_uint-decode_uint width64 v size mem p =
    encode_unsigned-Holds 64 9 0xfe v size mem p (omega arith) (below_2 (byte_at v 9) (omega arith))
