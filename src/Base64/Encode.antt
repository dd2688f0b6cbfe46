-- ===== src/Base64/Encode.antt =====
-- What the encoder writes, and how much.
use libnetq.Prelude.{
  ℕ, zero, suc, ◌+◌, ◌-◌, ◌*◌, ◌/◌, ◌^◌, ◌≤◌, ◌<◌, ◌≡◌, refl, sym, ap, ◌∙◌, List, [], ◌∷◌, ◌++◌,
  some, Bool, true, false, bit_and, bit_or, ltb, ◌==◌, ◌||◌, if◌then◌else◌, length, arith, take,
  take-nil, if_cases,
}
use libnetq.Base64.{
  Reply, count, is_nonpad, put, first_digit, second_digit, encode_groups, padded_size, encoded_size,
  enc_digit, encode_sized, encode_ex,
}

-- The text without its end, for an output that is large enough.
module _ (digit : ℕ → ℕ) (nonpad : Bool) where
  unfoldable pub text_of : List ℕ → List ℕ
  text_of [] = []
  text_of (a ∷ []) =
      first_digit digit nonpad a
      ∷ digit (bit_and (a * 2 ^ 4) 0x3F)
      ∷ (if nonpad then [] else 0x3D ∷ 0x3D ∷ [])
  text_of (a ∷ b ∷ []) =
      first_digit digit nonpad a
      ∷ second_digit digit nonpad a b
      ∷ digit (bit_and (b * 2 ^ 2) 0x3F)
      ∷ (if nonpad then [] else 0x3D ∷ [])
  text_of (a ∷ b ∷ c ∷ rest) =
      first_digit digit nonpad a
      ∷ second_digit digit nonpad a b
      ∷ digit (bit_or (bit_and (b * 2 ^ 2) 0x3F) (bit_and (c / 2 ^ 6) 0x03))
      ∷ digit (bit_and c 0x3F)
      ∷ text_of rest

put_lem :
    (c room : ℕ) (next : ℕ → List ℕ) (text : List ℕ)
    → 1 ≤ room
    → ((left : ℕ) → 1 ≤ left → next left ≡ take left text)
    → put c room next ≡ take room (c ∷ text)
put_lem c zero next text h e = absurd (omega arith)
put_lem c (suc room) next text h e =
    if_cases (λ t. c ∷ t ≡ c ∷ take room text) (suc room == 1) _ _
      (λ z. let empty : 0 ≡ room = ground arith in ap (λ (r : ℕ). c ∷ take r text) empty)
      (λ z. ap (λ (t : List ℕ). c ∷ t) (ap next (omega arith) ∙ e room (ground arith)))

end_lem : (left : ℕ) → 1 ≤ left → take {A = ℕ} left (0 ∷ []) ≡ 0 ∷ []
end_lem zero h = absurd (omega arith)
end_lem (suc left) h = ap (λ (t : List ℕ). 0 ∷ t) (take-nil left)

one_pad :
    (b : Bool) (room : ℕ)
    → 1 ≤ room
    → (if b then 0 ∷ [] else put 0x3D room (λ room. 0 ∷ []))
      ≡ take room ((if b then [] else 0x3D ∷ []) ++ 0 ∷ [])
one_pad true room h = sym (end_lem room h)
one_pad false room h = put_lem 0x3D room _ (0 ∷ []) h (λ n p. sym (end_lem n p))

two_pads :
    (b : Bool) (room : ℕ)
    → 1 ≤ room
    → (if b then 0 ∷ [] else put 0x3D room (λ room. put 0x3D room (λ room. 0 ∷ [])))
      ≡ take room ((if b then [] else 0x3D ∷ 0x3D ∷ []) ++ 0 ∷ [])
two_pads true room h = sym (end_lem room h)
two_pads false room h = put_lem 0x3D room _ (0x3D ∷ 0 ∷ []) h (λ n p. one_pad false n p)

-- What fits of the text and a 0 is written.
module _ (digit : ℕ → ℕ) (nonpad : Bool) where
  pub encode_groups-take :
      (input : List ℕ) (room : ℕ)
      → 1 ≤ room
      → encode_groups digit nonpad input room ≡ take room (text_of digit nonpad input ++ 0 ∷ [])
  unfolding encode_groups text_of
  encode_groups-take [] room h = sym (end_lem room h)
  encode_groups-take (a ∷ []) room h =
      put_lem _ room _ _ h (λ n p. put_lem _ n _ _ p (two_pads nonpad))
  encode_groups-take (a ∷ b ∷ []) room h =
      put_lem _ room _ _ h (λ n p. put_lem _ n _ _ p (λ n p. put_lem _ n _ _ p (one_pad nonpad)))
  encode_groups-take (a ∷ b ∷ c ∷ rest) room h = put_lem _ room _ _ h (λ n p.
      put_lem _ n _ _ p
        (λ n p. put_lem _ n _ _ p (λ n p. put_lem _ n _ _ p (encode_groups-take rest))))

  length-text_of :
      (input : List ℕ)
      → length (text_of digit nonpad input)
        ≡ (if nonpad then (length input * 4 + 2) / 3 else (length input + 2) / 3 * 4)
  unfolding text_of
  length-text_of [] = ground arith
  length-text_of (a ∷ []) = ground arith
  length-text_of (a ∷ b ∷ []) = ground arith
  length-text_of (a ∷ b ∷ c ∷ rest) = ground (arith, length-text_of rest)

  encoded_size_lem :
      (input : List ℕ)
      → (length input + 2) / 3 * 4 < 2 ^ 31
      → (padded_size (length input) ≡ (length input + 2) / 3 * 4)
        × (encoded_size nonpad (length input) ≡ length (text_of digit nonpad input))
  encoded_size_lem input h = (omega arith, ground (arith, length-text_of input))

empty_text :
    (text : List ℕ) (room : ℕ)
    → 1 ≤ room
    → length text ≡ 0
    → ◌≡◌ {A = Reply × List ℕ} (count 0, 0 ∷ []) (count (length text), take room (text ++ 0 ∷ []))
empty_text [] room h e = ap (λ (t : List ℕ). (count 0, t)) (sym (end_lem room h))
empty_text (c ∷ text) room h e = absurd (omega arith)

encode_sized_lem :
    (input : List ℕ) (out_size flags : ℕ)
    → let text = text_of (enc_digit flags) (is_nonpad flags) input in
      encode_sized (length text) input out_size flags
      ≡ (count (length text), take out_size (text ++ 0 ∷ []))
encode_sized_lem input zero flags = refl
encode_sized_lem input (suc n) flags =
    let digit = enc_digit flags in
    let text = text_of digit (is_nonpad flags) input in
    let Written : Reply × List ℕ → Type 0 =
      λ r. r ≡ (count (length text), take (suc n) (text ++ 0 ∷ [])) in
    if_cases Written (suc n == 0) _ _ (λ z. absurd (ground arith))
      (λ z.
        if_cases Written (length text == 0) _ _
          (λ z. empty_text text (suc n) (omega arith) (ground arith))
          (λ z.
            ap (λ (t : List ℕ). (count (length text), t))
              (encode_groups-take digit (is_nonpad flags) input (suc n) (omega arith))))

-- The encoder returns the length of the whole text, for any output, and writes of the text and a 0
-- as much as there is room for; the text has four characters for three bytes, with or without the
-- padding.
pub encode_ex_lem :
    (input : List ℕ) (out_size flags : ℕ)
    → (length input + 2) / 3 * 4 < 2 ^ 31
    → let text = text_of (enc_digit flags) (is_nonpad flags) input in
      (encode_ex (some input) out_size flags
        ≡ (count (length text), take out_size (text ++ 0 ∷ [])))
      × (length text
          ≡ (if is_nonpad flags then (length input * 4 + 2) / 3 else (length input + 2) / 3 * 4))
unfolding encode_ex
encode_ex_lem input out_size flags h =
    let text = text_of (enc_digit flags) (is_nonpad flags) input in
    let (padded, sized) = encoded_size_lem (enc_digit flags) (is_nonpad flags) input h in
    (
      if_cases (λ r. r ≡ (count (length text), take out_size (text ++ 0 ∷ [])))
          (ltb (padded_size (length input)) (length input)
            || ltb (2 ^ 31 - 1) (padded_size (length input)))
          _ _ (λ z. absurd (ground (arith, padded)))
          (λ z.
            ap (λ n. encode_sized n input out_size flags) sized
            ∙ encode_sized_lem input out_size flags),
      length-text_of (enc_digit flags) (is_nonpad flags) input,
    )
