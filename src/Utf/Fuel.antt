-- ===== src/Utf/Fuel.antt =====
-- The fuel of the loops over texts.
use libnetq.Prelude.{
  ℕ, zero, suc, ◌-◌, ◌≤◌, ◌≡◌, refl, ap, List, [], ◌∷◌, Option, none, some, Bool, true, false, not,
  ◌||◌, ltb, leb, ◌==◌, bit_and, if◌then◌else◌, if_cases, length, arith,
}
use libnetq.Prelude.Int.{ℤ, pos}
use libnetq.Utf.{next8_tail, lead_size, lead_mask, uchar_next8, next16_low, uchar_next16}
use libnetq.Utf.{uchar_push8, uchar_push16, uchar_size8, uchar_size16}
use libnetq.Utf.Convert.{
  Scan, scan, calculate_loop, calculate_step, convert_loop, convert_step, scan_utf8, scan_utf16,
  scan_utf8_to_utf16, scan_utf16_to_utf8,
}

-- What is left behind a character is no longer than the units behind its first.
abbrev Shorter : Option (ℕ × List ℕ) → ℕ → Type 0
Shorter none n = Unit
Shorter (some (c, rest)) n = length rest ≤ n

next8_tail-Shorter :
    (left value : ℕ) (bytes : List ℕ) → Shorter (next8_tail left value bytes) (length bytes)
unfolding next8_tail
next8_tail-Shorter zero value bytes = omega arith
next8_tail-Shorter (suc left) value [] = tt
next8_tail-Shorter (suc left) value (b ∷ rest) =
    if_cases (λ o. Shorter o (suc (length rest))) (ltb b 0x80 || leb 0xC0 b) _ _ (λ e. tt)
      (λ e. longer _ (length rest) (next8_tail-Shorter left _ rest))
  where
    longer : (o : Option (ℕ × List ℕ)) (n : ℕ) → Shorter o n → Shorter o (suc n)
    longer none n h = tt
    longer (some (c, rest)) n h = omega arith

pub uchar_next8-Shorter : (b : ℕ) (rest : List ℕ) → Shorter (uchar_next8 (b ∷ rest)) (length rest)
unfolding uchar_next8
uchar_next8-Shorter b rest =
    let size = lead_size b in
    let Short : Option (ℕ × List ℕ) → Type 0 = λ o. Shorter o (length rest) in
    if_cases Short (size == 0) _ _ (λ e. tt)
      (λ e.
        if_cases Short (size == 1) _ _ (λ e. omega arith)
          (λ e.
            if_cases Short (ltb (length rest) (size - 1)) _ _ (λ e. tt)
              (λ e. next8_tail-Shorter (size - 1) (bit_and b (lead_mask size)) rest)))

next16_low-Shorter : (high : ℕ) (rest : List ℕ) → Shorter (next16_low high rest) (length rest)
next16_low-Shorter high [] = tt
next16_low-Shorter high (low ∷ rest) =
    if_cases (λ o. Shorter o (suc (length rest))) (not (bit_and low 0xFC00 == 0xDC00)) _ _ (λ e. tt)
      (λ e. omega arith)

pub uchar_next16-Shorter : (u : ℕ) (rest : List ℕ) → Shorter (uchar_next16 (u ∷ rest)) (length rest)
unfolding uchar_next16
uchar_next16-Shorter u rest =
    let Short : Option (ℕ × List ℕ) → Type 0 = λ o. Shorter o (length rest) in
    if_cases Short (bit_and u 0xFC00 == 0xD800) _ _ (λ e. next16_low-Shorter u rest)
      (λ e. if_cases Short (bit_and u 0xFC00 == 0xDC00) _ _ (λ e. tt) (λ e. omega arith))

module _ (next : List ℕ → Option (ℕ × List ℕ))
    (shorter : (u : ℕ) (text : List ℕ) → Shorter (next (u ∷ text)) (length text)) where
  calculate_step_fuel :
      (size : ℤ → ℕ) (loop more : List ℕ → ℕ → ℕ → ℕ → Scan ℕ) (bound : ℕ)
      → ((rest : List ℕ) (n count all : ℕ)
          → length rest ≤ bound
          → loop rest n count all ≡ more rest n count all)
      → (o : Option (ℕ × List ℕ)) (text : List ℕ) (n count all : ℕ) → Shorter o bound
      → calculate_step next size loop o text n count all
        ≡ calculate_step next size more o text n count all
  calculate_step_fuel size loop more bound e none text n count all h = refl
  calculate_step_fuel size loop more bound e (some (c, rest)) text n count all h =
      ap (λ r. if size (pos c) == 0 then scan rest n count all false else r) (e rest _ _ _ h)

  pub calculate_loop_fuel :
      (size : ℤ → ℕ) (fuel more : ℕ) (text : List ℕ) (n count all : ℕ)
      → length text ≤ fuel
      → length text ≤ more
      → calculate_loop next size fuel text n count all
        ≡ calculate_loop next size more text n count all
  unfolding calculate_loop
  calculate_loop_fuel size fuel more [] n count all p q = refl
  calculate_loop_fuel size zero more (u ∷ text) n count all p q = absurd (omega arith)
  calculate_loop_fuel size (suc fuel) zero (u ∷ text) n count all p q = absurd (omega arith)
  calculate_loop_fuel size (suc fuel) (suc more) (u ∷ text) n count all p q =
      calculate_step_fuel size (calculate_loop next size fuel) (calculate_loop next size more)
        (length text)
        (λ rest n count all h.
          calculate_loop_fuel size fuel more rest n count all (omega arith) (omega arith))
        (next (u ∷ text)) (u ∷ text) n count all (shorter u text)

  convert_step_fuel :
      (push : Option ℕ → ℤ → List ℕ) (room : Option ℕ)
      (loop more : List ℕ → List ℕ → ℕ → ℕ → Bool → Scan (List ℕ)) (bound : ℕ)
      → ((rest output : List ℕ) (count all : ℕ) (result : Bool)
          → length rest ≤ bound
          → loop rest output count all result ≡ more rest output count all result)
      → (o : Option (ℕ × List ℕ)) (text output : List ℕ) (count all : ℕ) (result : Bool)
      → Shorter o bound
      → convert_step next push room loop o text output count all result
        ≡ convert_step next push room more o text output count all result
  convert_step_fuel push room loop more bound e none text output count all result h = refl
  convert_step_fuel push room loop more bound e (some (c, rest)) text output count all result h =
      e rest _ _ _ _ h

  pub convert_loop_fuel :
      (push : Option ℕ → ℤ → List ℕ) (room : Option ℕ) (fuel more : ℕ) (text output : List ℕ)
      (count all : ℕ) (result : Bool)
      → length text ≤ fuel
      → length text ≤ more
      → convert_loop next push room fuel text output count all result
        ≡ convert_loop next push room more text output count all result
  unfolding convert_loop
  convert_loop_fuel push room fuel more [] output count all result p q = refl
  convert_loop_fuel push room zero more (u ∷ text) output count all result p q =
      absurd (omega arith)
  convert_loop_fuel push room (suc fuel) zero (u ∷ text) output count all result p q =
      absurd (omega arith)
  convert_loop_fuel push room (suc fuel) (suc more) (u ∷ text) output count all result p q =
      convert_step_fuel push room (convert_loop next push room fuel)
        (convert_loop next push room more) (length text)
        (λ rest output count all result h.
          convert_loop_fuel push room fuel more rest output count all result (omega arith)
            (omega arith))
        (next (u ∷ text)) (u ∷ text) output count all result (shorter u text)

-- The four loops over texts end within as many rounds as the text has units, well formed or not:
-- with more rounds at hand they do the same.
pub scan_fuel :
    (text : List ℕ) (room : Option ℕ) (more : ℕ)
    → length text ≤ more
    → (scan_utf8 text ≡ calculate_loop uchar_next8 uchar_size16 more text 0 0 0)
      × (scan_utf16 text ≡ calculate_loop uchar_next16 uchar_size8 more text 0 0 0)
      × (scan_utf8_to_utf16 room text
          ≡ convert_loop uchar_next8 uchar_push16 room more text [] 0 0 true)
      × (scan_utf16_to_utf8 room text
          ≡ convert_loop uchar_next16 uchar_push8 room more text [] 0 0 true)
scan_fuel text room more h =
    let enough : length text ≤ length text = omega arith in
    let n = length text in
    (
      calculate_loop_fuel uchar_next8 uchar_next8-Shorter uchar_size16 n more text 0 0 0 enough h,
      calculate_loop_fuel uchar_next16 uchar_next16-Shorter uchar_size8 n more text 0 0 0 enough h,
      convert_loop_fuel uchar_next8 uchar_next8-Shorter uchar_push16 room n more text [] 0 0 true
          enough h,
      convert_loop_fuel uchar_next16 uchar_next16-Shorter uchar_push8 room n more text [] 0 0 true
          enough h,
    )
