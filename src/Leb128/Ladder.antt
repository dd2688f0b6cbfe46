-- ===== src/Leb128/Ladder.antt =====
-- The ladders of the signed decoders, on bytes of which all but the last have the top bit set.
use libnetq.Prelude.{
  ℕ, zero, suc, ◌+◌, ◌≤◌, ◌<◌, ◌≡◌, refl, ap, ◌∙◌, List, [], ◌∷◌, ◌++◌, arith, bit_and, bit_or,
  get_or,
}
use mathlib.Core.Path.{subst}
use libnetq.Prelude.Int.{negsuc, of_word}
use libnetq.Leb128.{byte_at, signed_byte_at}
use libnetq.Leb128.Encode.{positive_chunks, negative_chunks}
use libnetq.Leb128.Decode.{done, map_done, read_signed, decode_last, decode_ladder, decode_int8}
use libnetq.Leb128.Unsigned.{marked}

-- `more` bytes with the top bit, then `b`.
pub data Chain (b : ℕ) : ℕ → List ℕ → Type 0 where
  end_here : (rest : List ℕ) → Chain b 0 (b ∷ rest)
  go_on :
      (c more : ℕ) (rest : List ℕ)
      → bit_and c 0x80 ≡ 128
      → Chain b more rest
      → Chain b (suc more) (c ∷ rest)

pub get_or-Chain : {b more : ℕ} {bytes : List ℕ} → Chain b more bytes → get_or bytes more 0 ≡ b
get_or-Chain (end_here rest) = refl
get_or-Chain (go_on c more rest e chain) = get_or-Chain chain

pub positive_chunks-Chain :
    (v index more : ℕ) (rest : List ℕ)
    → Chain (byte_at v (index + more)) more (positive_chunks v index (suc more) ++ rest)
unfolding positive_chunks
positive_chunks-Chain v index zero rest =
    let e : index ≡ index + 0 = omega arith in
    subst (λ (t : ℕ). Chain (byte_at v t) 0 (byte_at v index ∷ rest)) e (end_here rest)
positive_chunks-Chain v index (suc more) rest =
    let e : index + 1 + more ≡ index + suc more = omega arith in
    go_on (bit_or (byte_at v index) 0x80) more (positive_chunks v (index + 1) (suc more) ++ rest)
      (marked (byte_at v index) (omega arith))
      (subst
        (λ (t : ℕ). Chain (byte_at v t) more (positive_chunks v (index + 1) (suc more) ++ rest)) e
        (positive_chunks-Chain v (index + 1) more rest))

pub negative_chunks-Chain :
    (m index more : ℕ) (rest : List ℕ)
    → Chain
        (bit_and (signed_byte_at (negsuc m) (index + more)) 0x7f)
        more
        (negative_chunks (negsuc m) index (suc more) ++ rest)
unfolding negative_chunks
negative_chunks-Chain m index zero rest =
    let e : index ≡ index + 0 = omega arith in
    subst
      (λ (t : ℕ).
        Chain (bit_and (signed_byte_at (negsuc m) t) 0x7f) 0
          (bit_and (signed_byte_at (negsuc m) index) 0x7f ∷ rest))
      e (end_here rest)
negative_chunks-Chain m index (suc more) rest =
    let e : index + 1 + more ≡ index + suc more = omega arith in
    let tail = negative_chunks (negsuc m) (index + 1) (suc more) ++ rest in
    go_on (bit_or (signed_byte_at (negsuc m) index) 0x80) more tail
      (marked (signed_byte_at (negsuc m) index) (omega arith))
      (subst (λ (t : ℕ). Chain (bit_and (signed_byte_at (negsuc m) t) 0x7f) more tail) e
        (negative_chunks-Chain m (index + 1) more rest))

module _ (width mask negative b : ℕ) (all : List ℕ) where
  -- A number that ends on a rung.
  pub decode_ladder-Chain :
      (rungs n : ℕ) {more : ℕ} {bytes : List ℕ}
      → Chain b more bytes
      → more < rungs
      → bit_and b 0x80 ≡ 0
      → decode_ladder width mask negative rungs n all bytes
        ≡ done (n + more) (read_signed width (n + more) all)
  unfolding decode_ladder
  decode_ladder-Chain zero n chain h e = absurd (omega arith)
  decode_ladder-Chain (suc rungs) n (end_here rest) h e =
      let same : n ≡ n + 0 = omega arith in
      rw e (ap (λ (t : ℕ). done t (read_signed width t all)) same)
  decode_ladder-Chain (suc rungs) n (go_on c more rest top chain) h e =
      let same : n + 1 + more ≡ n + suc more = omega arith in
      rw top (
        decode_ladder-Chain rungs (n + 1) chain (omega (arith, h)) e
        ∙ ap (λ (t : ℕ). done t (read_signed width t all)) same)

  -- A number of the greatest length.
  pub decode_ladder_last :
      (rungs n : ℕ) {bytes : List ℕ}
      → Chain b rungs bytes
      → decode_ladder width mask negative rungs n all bytes
        ≡ decode_last width (n + rungs) mask negative all
  unfolding decode_ladder
  decode_ladder_last zero n (end_here rest) =
      let same : n ≡ n + 0 = omega arith in
      ap (λ (t : ℕ). decode_last width t mask negative all) same
  decode_ladder_last (suc rungs) n (go_on c more rest top chain) =
      let same : n + 1 + rungs ≡ n + suc rungs = omega arith in
      rw top (
        decode_ladder_last rungs (n + 1) chain
        ∙ ap (λ (t : ℕ). decode_last width t mask negative all) same)

-- The decoder of 8-bit integers is the ladder of one rung where the number does not run out of bytes.
pub decode_int8_ladder :
    {b more : ℕ} {bytes : List ℕ}
    → Chain b more bytes
    → more ≤ 1
    → bit_and b 0x80 ≡ 0
    → decode_int8 bytes ≡ map_done (of_word 7) (decode_ladder 8 0xff 0x7f 1 1 bytes bytes)
unfolding decode_int8 decode_ladder
decode_int8_ladder {b = b} (end_here []) h e = rw e refl
decode_int8_ladder {b = b} (end_here (c ∷ rest)) h e = rw e refl
decode_int8_ladder (go_on c zero (d ∷ rest) top chain) h e = rw top refl
decode_int8_ladder (go_on c zero [] top chain) h e = elim chain [ ]
decode_int8_ladder (go_on c (suc more) rest top chain) h e = absurd (omega (arith, h))
