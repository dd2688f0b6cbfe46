-- ===== src/Leb128/PastEnd.antt =====
-- Where `NQLeb128DecodeInt8` leaves its data.
use libnetq.Prelude.{
  ℕ, ◌<◌, ◌≤◌, ◌≡◌, refl, List, [], ◌∷◌, arith, All, IsByte, bit_and, get_or, ap, length, ◌*◌, ◌/◌,
  all_below, table,
}
use libnetq.Prelude.Int.{of_word}
use mathlib.Core.Logic.{◌↔◌}
use libnetq.Leb128.Decode.{Decoded, done, refused, past_end, map_done, decode_last, decode_int8}

top_bit : (b : ℕ) → b < 256 → bit_and b 0x80 ≡ b / 128 * 128
unfolding all_below
top_bit = table 256 (λ b. bit_and b 0x80) (λ b. b / 128 * 128) refl

-- 1 for a read behind the data.
leaves : {A : Type 0} → Decoded A → ℕ
leaves (done n v) = 0
leaves refused = 0
leaves past_end = 1

map_done-leaves : {A B : Type 0} (f : A → B) (d : Decoded A) → leaves (map_done f d) ≡ leaves d
unfolding leaves
map_done-leaves f (done n v) = refl
map_done-leaves f refused = refl
map_done-leaves f past_end = refl

decode_last-leaves :
    (width n mask negative : ℕ) (bytes : List ℕ)
    → leaves (decode_last width n mask negative bytes) ≡ 0
unfolding decode_last leaves
decode_last-leaves width n mask negative bytes = ground arith

one_byte-leaves : (b : ℕ) → b < 256 → leaves (decode_int8 (b ∷ [])) ≡ b / 128
unfolding decode_int8 leaves
one_byte-leaves b h = ground (arith, top_bit b h)

more_bytes-leaves : (b c : ℕ) (rest : List ℕ) → leaves (decode_int8 (b ∷ c ∷ rest)) ≡ 0
unfolding decode_int8 leaves
more_bytes-leaves b c rest =
    let last = decode_last 8 2 0xff 0x7f (b ∷ c ∷ rest) in
    ground
      (arith, map_done-leaves (of_word 7) last, decode_last-leaves 8 2 0xff 0x7f (b ∷ c ∷ rest))

-- On bytes, the decoder of 8-bit integers reads behind its data in one case and no other: the data is
-- one byte, and the byte's top bit is set.
decode_int8-past_end :
    (bytes : List ℕ)
    → All IsByte bytes
    → (decode_int8 bytes ≡ past_end) ↔ ((b : ℕ) × (bytes ≡ b ∷ []) × (128 ≤ b))
unfolding decode_int8 leaves
decode_int8-past_end [] p =
    (λ e. absurd (omega (arith, ap leaves e)), λ (b, e, h). absurd (omega (arith, ap length e)))
decode_int8-past_end (b ∷ []) p = (
  λ e. (b, refl, omega (arith, one_byte-leaves b p.0, ap leaves e)),
  λ (c, e, h).
      let same : b ≡ c = ap (λ (l : List ℕ). get_or l 0 0) e in ground (arith, top_bit b p.0, same),
)
decode_int8-past_end (b ∷ c ∷ rest) p = (
  λ e. absurd (omega (arith, more_bytes-leaves b c rest, ap leaves e)),
  λ (d, e, h). absurd (omega (arith, ap length e)),
)
