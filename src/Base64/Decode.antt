-- ===== src/Base64/Decode.antt =====
-- Decoding what was encoded.
use libnetq.Prelude.{
  ℕ, ◌+◌, ◌<◌, ◌≡◌, refl, ap, ◌∙◌, List, [], ◌∷◌, some, Bool, true, false, ◌==◌, length, arith,
  if_cases, All, IsByte, get_elem?,
}
use libnetq.Base64.{
  count, Decoded, looked, look, ended, done, write, byte1, byte2, byte3, decode_groups,
}
use libnetq.Base64.Encode.{text_of}
use libnetq.Base64.Digits.{
  d1, e1, d2, e2, d3, d4, d1_lem, e1_lem, d2_lem, e2_lem, d3_lem, d4_lem, byte1_lem, byte2_lem,
  byte3_lem, pad2, pad3,
}

-- The bytes that are written, while there is room.
abbrev pub write_all : ℕ → List ℕ → List ℕ → List ℕ
write_all room out [] = out
write_all room out (v ∷ vs) = write_all room (write room out v) vs

-- The table maps the digits back, and the padding to no digit.
module _ (digit : ℕ → ℕ) (dec : List ℕ) (room : ℕ)
    (inverse : (v : ℕ) → v < 64 → get_elem? dec (digit v) ≡ some v)
    (pad_unknown : get_elem? dec 0x3D ≡ some 0xFF) where
  look_digit :
      (v : ℕ) (unknown : Decoded) (next : ℕ → Decoded)
      → v < 64
      → look dec (digit v) unknown next ≡ next v
  look_digit v unknown next h =
      ap (looked unknown next) (inverse v h)
      ∙ if_cases (λ d. d ≡ next v) (v == 0xFF) _ _ (λ z. absurd (ground arith)) (λ z. refl)

  look_pad : (unknown : Decoded) (next : ℕ → Decoded) → look dec 0x3D unknown next ≡ unknown
  look_pad unknown next = ap (looked unknown next) pad_unknown

  decode_one :
      (nonpad : Bool) (a n : ℕ) (out : List ℕ)
      → a < 256
      → decode_groups dec nonpad room (text_of digit nonpad (a ∷ [])) n out
        ≡ done room (count (n + 1)) (write room out a)
  unfolding decode_groups text_of
  decode_one nonpad a n out h = by_flag nonpad
    where
      byte : byte1 (d1 a) (e1 a) ≡ a
      byte = byte1_lem a (d1 a) (e1 a) h (d1_lem a) (omega (arith, e1_lem a))

      by_flag :
          (b : Bool)
          → decode_groups dec b room (text_of digit b (a ∷ [])) n out
            ≡ done room (count (n + 1)) (write room out a)
      by_flag true =
          look_digit (d1 a) _ _ (omega (arith, d1_lem a))
          ∙ look_digit (e1 a) _ _ (omega (arith, e1_lem a))
          ∙ ap (λ p. ended dec true room p (n + 1) (write room out (byte1 (d1 a) (e1 a)))) (pad2 a)
          ∙ ap (λ v. done room (count (n + 1)) (write room out v)) byte
      by_flag false =
          look_digit (d1 a) _ _ (omega (arith, d1_lem a))
          ∙ look_digit (e1 a) _ _ (omega (arith, e1_lem a))
          ∙ look_pad _ _
          ∙ ap (λ v. done room (count (n + 1)) (write room out v)) byte

  d1_bound : (a : ℕ) → d1 a < 64
  d1_bound a = omega (arith, d1_lem a)

  d2_bound : (a b : ℕ) → d2 a b < 64
  d2_bound a b = omega (arith, d2_lem a b)

  -- The first byte, of two or more.
  byte_a : (a b : ℕ) → a < 256 → b < 256 → byte1 (d1 a) (d2 a b) ≡ a
  byte_a a b h k = byte1_lem a (d1 a) (d2 a b) h (d1_lem a) (omega (arith, d2_lem a b))

  decode_two :
      (nonpad : Bool) (a b n : ℕ) (out : List ℕ)
      → a < 256
      → b < 256
      → decode_groups dec nonpad room (text_of digit nonpad (a ∷ b ∷ [])) n out
        ≡ done room (count (n + 2)) (write room (write room out a) b)
  unfolding decode_groups text_of
  decode_two nonpad a b n out h k = by_flag nonpad
    where
      written :
          write room (write room out (byte1 (d1 a) (d2 a b))) (byte2 (d2 a b) (e2 b))
          ≡ write room (write room out a) b
      written =
          ap (λ v. write room (write room out v) (byte2 (d2 a b) (e2 b))) (byte_a a b h k)
          ∙ ap (write room (write room out a))
              (byte2_lem b (d2 a b) (e2 b) k (omega (arith, d2_lem a b)) (omega (arith, e2_lem b)))

      by_flag :
          (f : Bool)
          → decode_groups dec f room (text_of digit f (a ∷ b ∷ [])) n out
            ≡ done room (count (n + 2)) (write room (write room out a) b)
      by_flag true =
          look_digit (d1 a) _ _ (d1_bound a)
          ∙ look_digit (d2 a b) _ _ (d2_bound a b)
          ∙ look_digit (e2 b) _ _ (omega (arith, e2_lem b))
          ∙ ap
              (λ p.
                ended dec true room p (n + 2)
                  (write room (write room out (byte1 (d1 a) (d2 a b))) (byte2 (d2 a b) (e2 b))))
              (pad3 b)
          ∙ ap (done room (count (n + 2))) written
      by_flag false =
          look_digit (d1 a) _ _ (d1_bound a)
          ∙ look_digit (d2 a b) _ _ (d2_bound a b)
          ∙ look_digit (e2 b) _ _ (omega (arith, e2_lem b))
          ∙ look_pad _ _
          ∙ ap (done room (count (n + 2))) written

  decode_three :
      (nonpad : Bool) (a b c n : ℕ) (rest out : List ℕ)
      → a < 256
      → b < 256
      → c < 256
      → decode_groups dec nonpad room (text_of digit nonpad (a ∷ b ∷ c ∷ rest)) n out
        ≡ decode_groups dec nonpad room
            (text_of digit nonpad rest)
            (n + 3)
            (write room (write room (write room out a) b) c)
  unfolding decode_groups text_of
  decode_three nonpad a b c n rest out h k l =
      let next : List ℕ → Decoded =
        decode_groups dec nonpad room (text_of digit nonpad rest) (n + 3) in
      let x = byte1 (d1 a) (d2 a b) in
      let y = byte2 (d2 a b) (d3 b c) in
      let z = byte3 (d3 b c) (d4 c) in
      look_digit (d1 a) _ _ (d1_bound a)
      ∙ look_digit (d2 a b) _ _ (d2_bound a b)
      ∙ look_digit (d3 b c) _ _ (omega (arith, d3_lem b c))
      ∙ look_digit (d4 c) _ _ (omega (arith, d4_lem c))
      ∙ ap (λ v. next (write room (write room (write room out v) y) z)) (byte_a a b h k)
      ∙ ap (λ v. next (write room (write room (write room out a) v) z))
          (byte2_lem b (d2 a b) (d3 b c) k (omega (arith, d2_lem a b)) (omega (arith, d3_lem b c)))
      ∙ ap (λ v. next (write room (write room (write room out a) b) v))
          (byte3_lem c (d3 b c) (d4 c) l (omega (arith, d3_lem b c)) (d4_lem c))

  pub decode_groups-text_of :
      (nonpad : Bool) (input : List ℕ) (n : ℕ) (out : List ℕ)
      → All IsByte input
      → decode_groups dec nonpad room (text_of digit nonpad input) n out
        ≡ done room (count (n + length input)) (write_all room out input)
  unfolding decode_groups text_of
  decode_groups-text_of nonpad [] n out g = ap (λ m. done room (count m) out) (omega arith)
  decode_groups-text_of nonpad (a ∷ []) n out (h, g) = decode_one nonpad a n out h
  decode_groups-text_of nonpad (a ∷ b ∷ []) n out (h, (k, g)) = decode_two nonpad a b n out h k
  decode_groups-text_of nonpad (a ∷ b ∷ c ∷ rest) n out (h, (k, (l, g))) =
      let out3 = write room (write room (write room out a) b) c in
      decode_three nonpad a b c n rest out h k l
      ∙ decode_groups-text_of nonpad rest (n + 3) out3 g
      ∙ ap (λ m. done room (count m) (write_all room out3 rest)) (omega arith)
