-- ===== src/Utf/Agree.antt =====
-- The measure of a text in UTF-8 and its conversion to UTF-16 without a limit.
use libnetq.Prelude.{
  ℕ, zero, suc, ◌+◌, ◌≡◌, refl, sym, ap, ◌∙◌, List, [], ◌∷◌, ◌++◌, Option, none, some, Bool, true,
  false, not, bit_or, arith, length, length-append, ◌==◌, ◌⊎◌, inl, inr, Bool-cases, if_cases,
}
use libnetq.Prelude.Int.{ℤ, pos}
use libnetq.Utf.{uchar_next8, uchar_push16, uchar_size16}
use libnetq.Utf.Utf16.{length-push16}
use libnetq.Utf.Convert.{
  UnicodeInfo, Scan, calculate_loop, calculate_step, convert_loop, convert_step, scan_utf8,
  scan_utf8_to_utf16, calculate_utf8_info, convert_utf8_to_utf16, info8,
}
use mathlib.Core.Path.{subst}

-- A conversion that ends as a measure does.
Agree : Scan ℕ → Scan (List ℕ) → Type 0
Agree s t =
    (s.result ≡ t.result)
    × (s.result ≡ true
        → (t.rest ≡ s.rest)
          × (length t.output ≡ s.output)
          × (t.count ≡ s.count)
          × (t.or_all_chars ≡ s.or_all_chars))

module _ (next : List ℕ → Option (ℕ × List ℕ)) (push : Option ℕ → ℤ → List ℕ) where
  failed_step :
      (loop : List ℕ → List ℕ → ℕ → ℕ → Bool → Scan (List ℕ))
      → ((rest output : List ℕ) (count all : ℕ) → (loop rest output count all false).result ≡ false)
      → (o : Option (ℕ × List ℕ)) (text output : List ℕ) (count all : ℕ)
      → (convert_step next push none loop o text output count all false).result ≡ false
  failed_step loop failed none text output count all = refl
  failed_step loop failed (some (c, rest)) text output count all =
      failed rest (output ++ []) (suc count) (bit_or all c)

  -- What failed once has failed.
  convert_failed :
      (fuel : ℕ) (text output : List ℕ) (count all : ℕ)
      → (convert_loop next push none fuel text output count all false).result ≡ false
  unfolding convert_loop
  convert_failed fuel [] output count all = refl
  convert_failed zero (u ∷ text) output count all = refl
  convert_failed (suc fuel) (u ∷ text) output count all =
      failed_step (convert_loop next push none fuel) (convert_failed fuel) (next (u ∷ text))
        (u ∷ text) output count all

  module _ (size : ℤ → ℕ) (size-push : (c : ℕ) → size (pos c) ≡ length (push none (pos c))) where
    calculate_step-Agree :
        (fuel : ℕ)
        → ((text : List ℕ) (n : ℕ) (output : List ℕ) (count all : ℕ)
            → length output ≡ n
            → Agree
                (calculate_loop next size fuel text n count all)
                (convert_loop next push none fuel text output count all true))
        → (o : Option (ℕ × List ℕ)) (text : List ℕ) (n : ℕ) (output : List ℕ) (count all : ℕ)
        → length output ≡ n
        → Agree (calculate_step next size (calculate_loop next size fuel) o text n count all) (
            convert_step next push none
              (convert_loop next push none fuel)
              o
              text
              output
              count
              all
              true)
    unfolding Agree
    calculate_step-Agree fuel ih none text n output count all e = (refl, λ r. absurd (cc))
    calculate_step-Agree fuel ih (some (c, rest)) text n output count all e =
        let units = push none (pos c) in
        let written = output ++ units in
        let or_all = bit_or all c in
        let loop = convert_loop next push none fuel rest written (suc count) or_all in
        let more = calculate_loop next size fuel rest (n + size (pos c)) (suc count) or_all in
        if_cases (λ (s : Scan ℕ). Agree s (loop (not (length units == 0)))) (size (pos c) == 0) _ _
          (λ z.
            let flag : not (length units == 0) ≡ false = ground (arith, size-push c) in
            (
              sym (
                  ap (λ b. (loop b).result) flag
                  ∙ convert_failed fuel rest written (suc count) or_all),
              λ r. absurd (cc),
            ))
          (λ z.
            let flag : not (length units == 0) ≡ true = ground (arith, size-push c) in
            let sum : length written ≡ n + size (pos c) =
              omega (arith, size-push c, length-append output units) in
            subst (λ b. Agree more (loop b)) (sym flag) (ih rest _ written (suc count) or_all sum))

    calculate_loop-Agree :
        (fuel : ℕ) (text : List ℕ) (n : ℕ) (output : List ℕ) (count all : ℕ)
        → length output ≡ n
        → Agree
            (calculate_loop next size fuel text n count all)
            (convert_loop next push none fuel text output count all true)
    unfolding convert_loop calculate_loop Agree
    calculate_loop-Agree fuel [] n output count all e = (refl, λ r. (refl, e, refl, refl))
    calculate_loop-Agree zero (u ∷ text) n output count all e = (refl, λ r. absurd (cc))
    calculate_loop-Agree (suc fuel) (u ∷ text) n output count all e =
        calculate_step-Agree fuel (calculate_loop-Agree fuel) (next (u ∷ text)) (u ∷ text) n output
          count all e

infos :
    (text : List ℕ) {r r' : List ℕ} {n n' count count' all all' : ℕ}
    → r ≡ r'
    → n ≡ n'
    → count ≡ count'
    → all ≡ all'
    → some (info8 text r n count all) ≡ some (info8 text r' n' count' all')
infos text {r' = r'} {n = n} {n' = n'} {count = count} {count' = count'} {all = all} p q e f =
    ap (λ r. some (info8 text r n count all)) p
    ∙ ap (λ n. some (info8 text r' n count all)) q
    ∙ ap (λ count. some (info8 text r' n' count all)) e
    ∙ ap (λ all. some (info8 text r' n' count' all)) f

-- On every text in UTF-8, a malformed one included, measuring and the conversion to UTF-16 without
-- a limit both fail, or both succeed: then they report the same sizes, and the conversion writes as
-- many units as the measure says and a 0.
pub calculate_utf8_info-convert_utf8_to_utf16 :
    (text : List ℕ)
    → let measure = calculate_utf8_info (some text) in
      let conversion = convert_utf8_to_utf16 (some text) (some none) in
      ((measure.0 ≡ false) × (conversion.result ≡ false))
      ⊎ ((measure.0 ≡ true)
          × (conversion.result ≡ true)
          × (info : UnicodeInfo) × (measure.1 ≡ some info)
          × (conversion.info ≡ some info)
          × (length conversion.output ≡ suc info.utf16_size))
unfolding calculate_utf8_info convert_utf8_to_utf16 Agree
calculate_utf8_info-convert_utf8_to_utf16 text =
    let s = scan_utf8 text in
    let t = scan_utf8_to_utf16 none text in
    let (same, agree) =
      calculate_loop-Agree uchar_next8 uchar_push16 uchar_size16 (λ c. sym (length-push16 c))
        (length text) text 0 [] 0 0 refl in
    elim (Bool-cases s.result) [
      | inl e ↦
          let (rest, output, count, all) = agree e in
          inr (
            e,
            sym same ∙ e,
            info8 text s.rest s.output s.count s.or_all_chars,
            refl,
            infos text rest output count all,
            omega (arith, output, length-append t.output (0 ∷ [])),
          )
      | inr e ↦ inl (e, sym same ∙ e)
    ]
