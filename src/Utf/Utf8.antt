-- ===== src/Utf/Utf8.antt =====
-- Writing and reading one character of UTF-8.
use libnetq.Prelude.{
  ℕ, suc, ◌+◌, ◌-◌, ◌*◌, ◌/◌, ◌^◌, ◌≤◌, ◌<◌, ◌≡◌, refl, ap, ◌∙◌, List, [], ◌∷◌, ◌++◌, Option, some,
  bit_and, bit_or, arith, ltb, leb, if◌then◌else◌, length, if_cases,
}
use libnetq.Prelude.Int.{pos}
use libnetq.Prelude.Bits.{bit_and_low, bit_or_above}
use libnetq.Utf.{
  next8_tail, next8_sized, tail_byte, lead_size, lead_mask, uchar_next8, push8_bytes, uchar_push8,
  uchar_size8, room8,
}
use libnetq.Utf.Tail.{next8_tail_step}
use native.Mathlib.Nat.{add-mul-mod_self_right, mod-eq_of_lt}

next8_sized_lem :
    (size b : ℕ) (rest : List ℕ)
    → 2 ≤ size
    → size ≤ suc (length rest)
    → next8_sized size b rest ≡ next8_tail (size - 1) (bit_and b (lead_mask size)) rest
next8_sized_lem size b rest p q = ground arith

lead_two : (r : ℕ) → r < 32 → lead_size (r + 192) ≡ 2
unfolding lead_size
lead_two r h = ground arith

lead_three : (r : ℕ) → r < 16 → lead_size (r + 224) ≡ 3
unfolding lead_size
lead_three r h = ground arith

lead_four : (r : ℕ) → r < 8 → lead_size (r + 240) ≡ 4
unfolding lead_size
lead_four r h = ground arith

lead_five : (r : ℕ) → r < 4 → lead_size (r + 248) ≡ 5
unfolding lead_size
lead_five r h = ground arith

lead_six : (r : ℕ) → r < 2 → lead_size (r + 252) ≡ 6
unfolding lead_size
lead_six r h = ground arith

-- A first byte whose lowest bits are free for the highest digits.
next8_lead :
    (width mark size r : ℕ) (rest : List ℕ)
    → r < 2 ^ width
    → lead_size (r + mark * 2 ^ width) ≡ size
    → lead_mask size ≡ 2 ^ width - 1
    → 2 ≤ size
    → size ≤ suc (length rest)
    → uchar_next8 (bit_or r (mark * 2 ^ width) ∷ rest) ≡ next8_tail (size - 1) r rest
unfolding uchar_next8
next8_lead width mark size r rest h e m p q =
    let b = r + mark * 2 ^ width in
    let low : bit_and b (lead_mask size) ≡ r =
      ap (bit_and b) m
      ∙ bit_and_low width b
      ∙ add-mul-mod_self_right r mark (2 ^ width)
      ∙ mod-eq_of_lt h in
    ap (λ (t : ℕ). next8_sized (lead_size t) t rest) (bit_or_above width r mark h)
    ∙ ap (λ (t : ℕ). next8_sized t b rest) e
    ∙ next8_sized_lem size b rest p q
    ∙ ap (λ (t : ℕ). next8_tail (size - 1) t rest) low

read_two :
    (c : ℕ) (rest : List ℕ)
    → c < 0x800
    → uchar_next8 (bit_or (c / 2 ^ 6) 0xC0 ∷ tail_byte c 0 ∷ rest) ≡ some (c, rest)
unfolding next8_tail
read_two c rest h =
    let r = c / 2 ^ 6 in
    let lead : lead_size (r + 6 * 2 ^ 5) ≡ 2 = lead_two r (omega arith) in
    next8_lead 5 6 2 r (tail_byte c 0 ∷ rest) (omega arith) lead refl (omega arith) (omega arith)
    ∙ next8_tail_step 0 c 0 rest
    ∙ ap (λ (v : ℕ). some (v, rest)) (omega arith)

read_three :
    (c : ℕ) (rest : List ℕ)
    → c < 0x10000
    → uchar_next8 (bit_or (c / 2 ^ 12) 0xE0 ∷ tail_byte c 6 ∷ tail_byte c 0 ∷ rest) ≡ some (c, rest)
unfolding next8_tail
read_three c rest h =
    let r = c / 2 ^ 12 in
    let lead : lead_size (r + 14 * 2 ^ 4) ≡ 3 = lead_three r (omega arith) in
    next8_lead 4 14 3 r (tail_byte c 6 ∷ tail_byte c 0 ∷ rest) (omega arith) lead refl (omega arith)
      (omega arith)
    ∙ next8_tail_step 1 c 6 (tail_byte c 0 ∷ rest)
    ∙ next8_tail_step 0 c 0 rest
    ∙ ap (λ (v : ℕ). some (v, rest)) (omega arith)

read_four :
    (c : ℕ) (rest : List ℕ)
    → c < 0x200000
    → uchar_next8 (bit_or (c / 2 ^ 18) 0xF0 ∷ tail_byte c 12 ∷ tail_byte c 6 ∷ tail_byte c 0 ∷ rest)
      ≡ some (c, rest)
unfolding next8_tail
read_four c rest h =
    let r = c / 2 ^ 18 in
    let lead : lead_size (r + 30 * 2 ^ 3) ≡ 4 = lead_four r (omega arith) in
    next8_lead 3 30 4 r (tail_byte c 12 ∷ tail_byte c 6 ∷ tail_byte c 0 ∷ rest) (omega arith) lead
      refl (omega arith) (omega arith)
    ∙ next8_tail_step 2 c 12 (tail_byte c 6 ∷ tail_byte c 0 ∷ rest)
    ∙ next8_tail_step 1 c 6 (tail_byte c 0 ∷ rest)
    ∙ next8_tail_step 0 c 0 rest
    ∙ ap (λ (v : ℕ). some (v, rest)) (omega arith)

read_five :
    (c : ℕ) (rest : List ℕ)
    → c < 0x4000000
    → uchar_next8 (
        bit_or (c / 2 ^ 24) 0xF8
        ∷ tail_byte c 18
        ∷ tail_byte c 12
        ∷ tail_byte c 6
        ∷ tail_byte c 0
        ∷ rest)
      ≡ some (c, rest)
unfolding next8_tail
read_five c rest h =
    let r = c / 2 ^ 24 in
    let lead : lead_size (r + 62 * 2 ^ 2) ≡ 5 = lead_five r (omega arith) in
    next8_lead 2 62 5 r (tail_byte c 18 ∷ tail_byte c 12 ∷ tail_byte c 6 ∷ tail_byte c 0 ∷ rest)
      (omega arith) lead refl (omega arith) (omega arith)
    ∙ next8_tail_step 3 c 18 (tail_byte c 12 ∷ tail_byte c 6 ∷ tail_byte c 0 ∷ rest)
    ∙ next8_tail_step 2 c 12 (tail_byte c 6 ∷ tail_byte c 0 ∷ rest)
    ∙ next8_tail_step 1 c 6 (tail_byte c 0 ∷ rest)
    ∙ next8_tail_step 0 c 0 rest
    ∙ ap (λ (v : ℕ). some (v, rest)) (omega arith)

read_six :
    (c : ℕ) (rest : List ℕ)
    → c < 2 ^ 31
    → uchar_next8 (
        bit_or (c / 2 ^ 30) 0xFC
        ∷ tail_byte c 24
        ∷ tail_byte c 18
        ∷ tail_byte c 12
        ∷ tail_byte c 6
        ∷ tail_byte c 0
        ∷ rest)
      ≡ some (c, rest)
unfolding next8_tail
read_six c rest h =
    let r = c / 2 ^ 30 in
    let lead : lead_size (r + 126 * 2 ^ 1) ≡ 6 = lead_six r (omega arith) in
    next8_lead 1 126 6 r
      (tail_byte c 24 ∷ tail_byte c 18 ∷ tail_byte c 12 ∷ tail_byte c 6 ∷ tail_byte c 0 ∷ rest)
      (omega arith) lead refl (omega arith) (omega arith)
    ∙ next8_tail_step 4 c 24
        (tail_byte c 18 ∷ tail_byte c 12 ∷ tail_byte c 6 ∷ tail_byte c 0 ∷ rest)
    ∙ next8_tail_step 3 c 18 (tail_byte c 12 ∷ tail_byte c 6 ∷ tail_byte c 0 ∷ rest)
    ∙ next8_tail_step 2 c 12 (tail_byte c 6 ∷ tail_byte c 0 ∷ rest)
    ∙ next8_tail_step 1 c 6 (tail_byte c 0 ∷ rest)
    ∙ next8_tail_step 0 c 0 rest
    ∙ ap (λ (v : ℕ). some (v, rest)) (omega arith)

-- The bytes of a character are read as the character, and what is behind them is left.
pub next8-push8_bytes :
    (c : ℕ) (rest : List ℕ) → c < 2 ^ 31 → uchar_next8 (push8_bytes c ++ rest) ≡ some (c, rest)
unfolding push8_bytes uchar_next8 lead_size
next8-push8_bytes c rest h =
    let Read : List ℕ → Type 0 = λ bytes. uchar_next8 (bytes ++ rest) ≡ some (c, rest) in
    if_cases Read (ltb c 0x80) _ _ (λ e. ground arith)
      (λ e1.
        if_cases Read (ltb c 0x800) _ _ (λ e. read_two c rest (ground arith))
          (λ e2.
            if_cases Read (ltb c 0x10000) _ _ (λ e. read_three c rest (ground arith))
              (λ e3.
                if_cases Read (ltb c 0x200000) _ _ (λ e. read_four c rest (ground arith))
                  (λ e4.
                    if_cases Read (ltb c 0x4000000) _ _ (λ e. read_five c rest (ground arith))
                      (λ e5. read_six c rest h)))))

pub length-push8_bytes : (c : ℕ) → c < 2 ^ 31 → length (push8_bytes c) ≡ uchar_size8 (pos c)
unfolding push8_bytes uchar_size8
length-push8_bytes c h = ground arith

pub size8_positive : (c : ℕ) → c < 2 ^ 31 → 1 ≤ uchar_size8 (pos c)
unfolding uchar_size8
size8_positive c h = ground arith

-- A character that fits is written whole.
pub uchar_push8-fits :
    (room : Option ℕ) (c : ℕ)
    → length (push8_bytes c) ≤ room8 room
    → uchar_push8 room (pos c) ≡ push8_bytes c
unfolding uchar_push8
uchar_push8-fits room c h = ground arith

-- A character below 2^31 is written where it has room for as many bytes as its size says, and
-- otherwise not at all; reading what is written gives the character back and stops behind it.
pub uchar_next8-uchar_push8 :
    (room : Option ℕ) (c : ℕ) (rest : List ℕ)
    → c < 2 ^ 31
    → (uchar_push8 room (pos c)
        ≡ (if leb (uchar_size8 (pos c)) (room8 room) then push8_bytes c else []))
      × (length (push8_bytes c) ≡ uchar_size8 (pos c))
      × (uchar_next8 (push8_bytes c ++ rest) ≡ some (c, rest))
unfolding uchar_push8
uchar_next8-uchar_push8 room c rest h =
    let e = length-push8_bytes c h in
    (ap (λ n. if leb n (room8 room) then push8_bytes c else []) e, e, next8-push8_bytes c rest h)
