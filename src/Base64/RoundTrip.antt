-- ===== src/Base64/RoundTrip.antt =====
-- Decoding what was encoded, with the tables of the two alphabets.
use libnetq.Prelude.{
  ℕ, suc, ◌+◌, ◌-◌, ◌*◌, ◌/◌, ◌^◌, ◌≤◌, ◌<◌, ◌≡◌, refl, sym, ap, ◌∙◌, List, [], ◌∷◌, ◌++◌,
  append_assoc, append-nil, Option, none, some, Bool, true, false, ltb, ◌==◌, if◌then◌else◌, length,
  length-append, arith, take, take_all, if_cases, All, IsByte, get_elem?, get_or, all_below,
  all_below_sound, ==_iff, inl, inr, Bool-cases, length-append,
}
use libnetq.Base64.{
  count, is_nonpad, is_url, enc_digit, dec_table, decode_groups, decode_ex, encode_ex,
}
use libnetq.Base64.Alphabet.{enc_map, dec_map, url_enc_map, url_dec_map}
use libnetq.Base64.Encode.{text_of, encode_ex_lem}
use libnetq.Base64.Decode.{write_all, decode_groups-text_of}

is_digit : Option ℕ → ℕ → Bool
is_digit none v = false
is_digit (some w) v = w == v

is_digit_lem : (o : Option ℕ) (v : ℕ) → is_digit o v ≡ true → o ≡ some v
unfolding is_digit
is_digit_lem none v h = absurd (cc)
is_digit_lem (some w) v h = ap some ((==_iff w v).0 h)

inverse : (flags v : ℕ) → v < 64 → get_elem? (dec_table flags) (enc_digit flags v) ≡ some v
unfolding all_below is_digit
inverse flags v h = is_digit_lem _ v (elim (Bool-cases (is_url flags)) [
  | inl e ↦ rw e (
      all_below_sound 64 (λ v. is_digit (get_elem? url_dec_map (get_or url_enc_map v 0)) v) v refl
        h)
  | inr e ↦
      rw e (all_below_sound 64 (λ v. is_digit (get_elem? dec_map (get_or enc_map v 0)) v) v refl h)
])

pad_unknown : (flags : ℕ) → get_elem? (dec_table flags) 0x3D ≡ some 0xFF
pad_unknown flags = elim (Bool-cases (is_url flags)) [ inl e ↦ rw e refl | inr e ↦ rw e refl ]

-- The end of the decoder writes a 0 behind what was written, if it fits.
write_all_lem :
    (room : ℕ) (vs out : List ℕ)
    → length out ≤ room
    → (let all = write_all room out vs in if ltb (length all) room then all ++ 0 ∷ [] else all)
      ≡ out ++ take (room - length out) (vs ++ 0 ∷ [])
write_all_lem room [] out h =
    if_cases (λ t. t ≡ out ++ take (room - length out) (0 ∷ [])) (ltb (length out) room) _ _
      (λ z.
        ap (λ (t : List ℕ). out ++ t) (sym (take_all (room - length out) (0 ∷ []) (ground arith))))
      (λ z.
        let full : 0 ≡ room - length out = ground arith in
        sym (append-nil out) ∙ ap (λ n. out ++ take n (0 ∷ [])) full)
write_all_lem room (v ∷ vs) out h =
    if_cases
      (λ t.
        (let all = write_all room t vs in if ltb (length all) room then all ++ 0 ∷ [] else all)
        ≡ out ++ take (room - length out) (v ∷ (vs ++ 0 ∷ [])))
      (ltb (length out) room) _ _
      (λ z.
        let longer = length-append out (v ∷ []) in
        let one : suc (room - length (out ++ v ∷ [])) ≡ room - length out =
          ground (arith, longer) in
        write_all_lem room vs (out ++ v ∷ []) (ground (arith, longer))
        ∙ append_assoc out (v ∷ []) _
        ∙ ap (λ n. out ++ take n (v ∷ (vs ++ 0 ∷ []))) one)
      (λ z.
        let full : room - length out ≡ 0 = ground arith in
        write_all_lem room vs out h
        ∙ ap (λ n. out ++ take n (vs ++ 0 ∷ [])) full
        ∙ ap (λ n. out ++ take n (v ∷ (vs ++ 0 ∷ []))) (sym full))

decode_ex_lem :
    (text : List ℕ) (room flags : ℕ)
    → decode_ex (some text) room flags
      ≡ decode_groups (dec_table flags) (is_nonpad flags) room text 0 []
unfolding decode_ex decode_groups
decode_ex_lem [] room flags = ground arith
decode_ex_lem (c ∷ text) room flags = refl

-- What is encoded is a text and a 0, where there is room for both, and the decoder turns the text
-- back into the input: it returns the size of the input, and writes of the input and a 0 as much as
-- there is room for. With either alphabet, and with padding or without.
pub encode_ex-decode_ex :
    (input : List ℕ) (out_size room flags : ℕ)
    → All IsByte input
    → (length input + 2) / 3 * 4 < 2 ^ 31
    → length (text_of (enc_digit flags) (is_nonpad flags) input) < out_size
    → let text = text_of (enc_digit flags) (is_nonpad flags) input in
      (encode_ex (some input) out_size flags ≡ (count (length text), text ++ 0 ∷ []))
      × (decode_ex (some text) room flags
          ≡ some (count (length input), take room (input ++ 0 ∷ [])))
encode_ex-decode_ex input out_size room flags g h k =
    let text = text_of (enc_digit flags) (is_nonpad flags) input in
    let zero_more : 0 + length input ≡ length input = omega arith in
    let whole : room - 0 ≡ room = omega arith in
    (
      (encode_ex_lem input out_size flags h).0
          ∙ ap (λ (t : List ℕ). (count (length text), t))
              (take_all out_size (text ++ 0 ∷ []) (omega (arith, length-append text (0 ∷ [])))),
      decode_ex_lem text room flags
          ∙ decode_groups-text_of (enc_digit flags) (dec_table flags) room (inverse flags)
              (pad_unknown flags) (is_nonpad flags) input 0 [] g
          ∙ ap (λ (t : List ℕ). some (count (0 + length input), t))
              (write_all_lem room input [] (omega arith))
          ∙ ap (λ n. some (count n, take (room - 0) (input ++ 0 ∷ []))) zero_more
          ∙ ap (λ n. some (count (length input), take n (input ++ 0 ∷ []))) whole,
    )
