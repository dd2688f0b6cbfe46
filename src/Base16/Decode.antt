-- ===== src/Base16/Decode.antt =====
-- Which texts are decoded.
use libnetq.Prelude.{
  ℕ, ◌%◌, ◌≡◌, refl, sym, ap, ◌∙◌, List, [], ◌∷◌, none, some, Bool, true, false, not, ◌&&◌, ◌==◌,
  if◌then◌else◌, length, arith, if_cases,
}
use libnetq.Prelude.Int.{ℤ}
use libnetq.Base16.{
  to_int, half, is_odd, Reply, einval, size, is_hex_digit, joined, write, decode_loop, finished,
  decode,
}

abbrev pub all_hex : List ℕ → Bool
all_hex [] = true
all_hex (c ∷ text) = is_hex_digit c && all_hex text

guards :
    (b e w : Bool) (out : List ℕ) (more : Bool × List ℕ)
    → more.0 ≡ w
    → (if not b then (false, out) else if not e then (false, out) else more).0 ≡ (b && (e && w))
guards true true w out more p = p
guards true false w out more p = refl
guards false e w out more p = refl

decode_loop-all_hex :
    (room : ℕ) (text out : List ℕ)
    → length text % 2 ≡ 0
    → (decode_loop room text out).0 ≡ all_hex text
unfolding decode_loop
decode_loop-all_hex room [] out h = refl
decode_loop-all_hex room (c ∷ []) out h = absurd (omega arith)
decode_loop-all_hex room (c ∷ d ∷ text) out h =
    guards (is_hex_digit c) (is_hex_digit d) (all_hex text) out _
      (decode_loop-all_hex room text (write room out (joined c d)) (omega arith))

replied :
    (n : ℤ) (r : Bool × List ℕ) (w : Bool)
    → r.0 ≡ w
    → (finished n r).0 ≡ (if w then size n else einval)
replied n (true, out) w p = ap (λ (b : Bool). if b then size n else einval) p
replied n (false, out) w p = ap (λ (b : Bool). if b then size n else einval) p

-- The decoder refuses exactly the texts of odd length and those with a character that is no
-- hexadecimal digit, whatever the room of the output; otherwise it returns half the length of the
-- text, cut to an `int`. Without an output it looks at the length only.
decode_lem :
    (text : List ℕ) (room : ℕ)
    → ((decode (some text) (some room)).0 ≡ (
        if length text % 2 == 0 && all_hex text
        then size (half (to_int (length text)))
        else einval))
      × (decode (some text) none ≡ (
          if length text % 2 == 0 then (size (half (to_int (length text))), []) else (einval, [])))
unfolding decode
decode_lem text room =
    let n = half (to_int (length text)) in
    (
      if_cases
          (λ (r : Reply × List ℕ).
            r.0 ≡ (if length text % 2 == 0 && all_hex text then size n else einval))
          (is_odd (length text)) _ _
          (λ z.
            let odd : (length text % 2 == 0) ≡ false = ground arith in
            ap (λ t. if t && all_hex text then size n else einval) (sym odd))
          (λ z.
            let even : length text % 2 ≡ 0 = ground arith in
            let test : (length text % 2 == 0) ≡ true = ground arith in
            replied n (decode_loop room text []) (all_hex text)
              (decode_loop-all_hex room text [] even)
            ∙ ap (λ t. if t && all_hex text then size n else einval) (sym test)),
      if_cases
          (λ (r : Reply × List ℕ).
            r ≡ (if length text % 2 == 0 then (size n, []) else (einval, [])))
          (is_odd (length text)) _ _
          (λ z.
            let odd : (length text % 2 == 0) ≡ false = ground arith in
            ap (λ t. if t then (size n, []) else (einval, [])) (sym odd))
          (λ z.
            let test : (length text % 2 == 0) ≡ true = ground arith in
            ap (λ t. if t then (size n, []) else (einval, [])) (sym test)),
    )
