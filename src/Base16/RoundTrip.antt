-- ===== src/Base16/RoundTrip.antt =====
-- Decoding what was encoded.
use libnetq.Prelude.{
  ℕ, zero, suc, ◌-◌, ◌*◌, ◌≤◌, ◌^◌, ◌<◌, ◌≡◌, refl, sym, ap, ◌∙◌, List, [], ◌∷◌, ◌++◌, append_assoc,
  append-nil, some, Bool, true, false, not, ◌&&◌, ltb, ◌==◌, bit_and, if◌then◌else◌, length,
  length-append, arith, take, All, IsByte, all_below, all_below_sound, ==_iff, if_cases, inl, inr,
  Bool-cases,
}
use libnetq.Prelude.Int.{pos, of_word}
use libnetq.Base16.{
  to_int, half, is_odd, Reply, size, hex_digits, lower_digits, upper_digits, high_digit, low_digit,
  encode, encode_loop, is_hex_digit, joined, write, decode_loop, finished, decode,
}
use libnetq.Base16.Encode.{text_of, length-text_of, encode_loop-take}

-- The two digits of a byte are hexadecimal, and are joined to the byte.
is_read : List ℕ → ℕ → Bool
is_read digits b =
    is_hex_digit (high_digit digits b)
    && (is_hex_digit (low_digit digits b)
        && (joined (high_digit digits b) (low_digit digits b) == b))

all_read : (flags b : ℕ) → b < 256 → is_read (hex_digits flags) b ≡ true
unfolding all_below is_read
all_read flags b h = elim (Bool-cases (bit_and flags 1 == 0)) [
  | inl e ↦ rw e (all_below_sound 256 (is_read upper_digits) b refl h)
  | inr e ↦ rw e (all_below_sound 256 (is_read lower_digits) b refl h)
]

read_on :
    (p q : Bool) (v b : ℕ) (stop : Bool × List ℕ) (next : ℕ → Bool × List ℕ)
    → (p && (q && (v == b))) ≡ true
    → (if not p then stop else if not q then stop else next v) ≡ next b
read_on true true v b stop next h = ap next ((==_iff v b).0 h)
read_on true false v b stop next h = absurd (cc)
read_on false q v b stop next h = absurd (cc)

written :
    (room b : ℕ) (out input : List ℕ)
    → length out ≤ room
    → (length (write room out b) ≤ room)
      × (write room out b ++ take (room - length (write room out b)) input
          ≡ out ++ take (room - length out) (b ∷ input))
written room b out input h =
    if_cases
      (λ t.
        (length t ≤ room)
        × (t ++ take (room - length t) input ≡ out ++ take (room - length out) (b ∷ input)))
      (ltb (length out) room) _ _
      (λ z.
        let longer = length-append out (b ∷ []) in
        let one : suc (room - length (out ++ b ∷ [])) ≡ room - length out =
          ground (arith, longer) in
        (
          ground (arith, longer),
          append_assoc out (b ∷ []) _ ∙ ap (λ n. out ++ take n (b ∷ input)) one,
        ))
      (λ z.
        let full : room - length out ≡ 0 = ground arith in
        (h, ap (λ n. out ++ take n input) full ∙ ap (λ n. out ++ take n (b ∷ input)) (sym full)))

take_none : (n : ℕ) (out : List ℕ) → out ≡ out ++ take n []
take_none zero out = sym (append-nil out)
take_none (suc n) out = sym (append-nil out)

decode_loop-text_of :
    (flags room : ℕ) (input out : List ℕ)
    → All IsByte input
    → length out ≤ room
    → decode_loop room (text_of (hex_digits flags) input) out
      ≡ (true, out ++ take (room - length out) input)
unfolding decode_loop is_read
decode_loop-text_of flags room [] out g h = ap (λ (t : List ℕ). (true, t)) (take_none _ out)
decode_loop-text_of flags room (b ∷ input) out (k, g) h =
    let (fits, same) = written room b out input h in
    read_on _ _ _ b (false, out)
      (λ v. decode_loop room (text_of (hex_digits flags) input) (write room out v))
      (all_read flags b k)
    ∙ decode_loop-text_of flags room input (write room out b) g fits
    ∙ ap (λ (t : List ℕ). (true, t)) same

to_int_small : (n : ℕ) → n < 2 ^ 31 → to_int n ≡ pos n
unfolding of_word
to_int_small n h = ground (arith, h)

-- The encoder writes two digits for a byte and a 0, cut to its output; the decoder turns the digits,
-- of either case, back into the input, cut to its output. Both return the size that an output
-- without limit would have, without the 0. The input is shorter than 2^30 bytes, so that an `int`
-- holds the length of its text.
pub encode-decode :
    (input : List ℕ) (out_size room flags : ℕ)
    → All IsByte input
    → length input < 2 ^ 30
    → let text = text_of (hex_digits flags) input in
      (encode (some input) (some out_size) flags
        ≡ (size (pos (length text)), take out_size (text ++ 0 ∷ [])))
      × (decode (some text) (some room) ≡ (size (pos (length input)), take room input))
unfolding encode decode
encode-decode input out_size room flags g short =
    let text = text_of (hex_digits flags) input in
    let long : length text ≡ length input * 2 = length-text_of (hex_digits flags) input in
    let doubled : to_int (length input * 2) ≡ pos (length text) =
      to_int_small (length input * 2) (omega (arith, short)) ∙ ap pos (sym long) in
    let halved : half (to_int (length text)) ≡ pos (length input) =
      ap half (to_int_small (length text) (omega (arith, long, short)))
      ∙ ap pos (omega (arith, long)) in
    let whole : room - 0 ≡ room = omega arith in
    (
      ap (λ n. (size n, encode_loop (hex_digits flags) input out_size)) doubled
          ∙ ap (λ (t : List ℕ). (size (pos (length text)), t))
              (encode_loop-take (hex_digits flags) input out_size),
      if_cases (λ (r : Reply × List ℕ). r ≡ (size (pos (length input)), take room input))
          (is_odd (length text)) _ _ (λ z. absurd (ground (arith, long)))
          (λ z.
            ap (finished (half (to_int (length text))))
              (decode_loop-text_of flags room input [] g (omega arith))
            ∙ ap (λ n. (size n, take (room - 0) input)) halved
            ∙ ap (λ n. (size (pos (length input)), take n input)) whole),
    )
