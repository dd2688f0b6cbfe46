-- ===== src/Base16/Encode.antt =====
-- What the encoder writes.
use libnetq.Prelude.{
  ℕ, zero, suc, ◌*◌, ◌≡◌, refl, ap, List, [], ◌∷◌, ◌++◌, length, arith, take, take-nil,
}
use libnetq.Base16.{high_digit, low_digit, encode_loop}

-- Two digits for every byte.
abbrev pub text_of : List ℕ → List ℕ → List ℕ
text_of digits [] = []
text_of digits (b ∷ input) = high_digit digits b ∷ low_digit digits b ∷ text_of digits input

pub length-text_of : (digits input : List ℕ) → length (text_of digits input) ≡ length input * 2
length-text_of digits [] = refl
length-text_of digits (b ∷ input) = omega (arith, length-text_of digits input)

-- Of the text and a 0, what there is room for.
pub encode_loop-take :
    (digits input : List ℕ) (room : ℕ)
    → encode_loop digits input room ≡ take room (text_of digits input ++ 0 ∷ [])
unfolding encode_loop
encode_loop-take digits [] zero = refl
encode_loop-take digits [] (suc room) =
    ground (arith, ap (λ (t : List ℕ). 0 ∷ t) (take-nil {A = ℕ} room))
encode_loop-take digits (b ∷ input) zero = refl
encode_loop-take digits (b ∷ input) (suc zero) = refl
encode_loop-take digits (b ∷ input) (suc (suc room)) = ground (
  arith,
  ap (λ t. high_digit digits b ∷ low_digit digits b ∷ t) (encode_loop-take digits input room),
)
