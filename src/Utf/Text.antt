-- ===== src/Utf/Text.antt =====
-- The loops over texts of which every character is read and written as it should be.
use libnetq.Prelude.{
  ℕ, zero, suc, ◌+◌, ◌-◌, ◌≤◌, ◌≡◌, refl, sym, ap, ◌∙◌, List, [], ◌∷◌, ◌++◌, Option, none, some,
  Bool, true, not, bit_or, arith, ◌==◌, length, length-append, append_assoc, append-nil, All,
}
use libnetq.Prelude.Int.{ℤ, pos}
use libnetq.Utf.Convert.{
  Scan, scan, calculate_step, calculate_loop, pushed, convert_step, convert_loop,
}
use mathlib.Core.Option
use mathlib.Core.Path.{subst}

-- The characters one after the other.
abbrev pub encoded : (ℕ → List ℕ) → List ℕ → List ℕ
encoded f [] = []
encoded f (c ∷ cs) = f c ++ encoded f cs

abbrev pub or_all : ℕ → List ℕ → ℕ
or_all all [] = all
or_all all (c ∷ cs) = or_all (bit_or all c) cs

-- So much is no more than the room, if that has an end.
abbrev pub Fits : Option ℕ → ℕ → Type 0
Fits none n = Unit
Fits (some room) n = n ≤ room

Fits-left :
    (room : Option ℕ) (used n m : ℕ)
    → Fits room (used + (n + m))
    → Fits (Option.map (λ r. r - used) room) n
Fits-left none used n m h = tt
Fits-left (some room) used n m h = omega (arith, h)

module _ (next : List ℕ → Option (ℕ × List ℕ)) where
  calculate_round :
      (size : ℤ → ℕ) (fuel : ℕ) (text : List ℕ) (n count all : ℕ)
      → 1 ≤ length text
      → calculate_loop next size (suc fuel) text n count all
        ≡ calculate_step next size (calculate_loop next size fuel) (next text) text n count all
  unfolding calculate_loop
  calculate_round size fuel [] n count all h = absurd (omega arith)
  calculate_round size fuel (u ∷ text) n count all h = refl

  convert_round :
      (push : Option ℕ → ℤ → List ℕ) (room : Option ℕ) (fuel : ℕ) (text output : List ℕ)
      (count all : ℕ) (result : Bool)
      → 1 ≤ length text
      → convert_loop next push room (suc fuel) text output count all result
        ≡ convert_step next push room
            (convert_loop next push room fuel)
            (next text)
            text
            output
            count
            all
            result
  unfolding convert_loop
  convert_round push room fuel [] output count all result h = absurd (omega arith)
  convert_round push room fuel (u ∷ text) output count all result h = refl

pub scans :
    {A : Type 0} {m n : A} {k l : ℕ} (all : ℕ) (result : Bool)
    → m ≡ n
    → k ≡ l
    → scan [] m k all result ≡ scan [] n l all result
scans {n = n} {k = k} all result p q =
    ap (λ m. scan [] m k all result) p ∙ ap (λ j. scan [] n j all result) q

module _ (next : List ℕ → Option (ℕ × List ℕ)) (size : ℤ → ℕ) where
  go_on :
      (loop : List ℕ → ℕ → ℕ → ℕ → Scan ℕ) (c : ℕ) (rest text : List ℕ) (n count all : ℕ)
      → 1 ≤ size (pos c)
      → calculate_step next size loop (some (c, rest)) text n count all
        ≡ loop rest (n + size (pos c)) (suc count) (bit_or all c)
  go_on loop c rest text n count all h = ground arith

-- A text of characters that are written as `source` and read again, the same in `target`.
module _ (next : List ℕ → Option (ℕ × List ℕ)) (source target : ℕ → List ℕ) (IsGood : ℕ → Type 0)
    (reads : (c : ℕ) (rest : List ℕ) → IsGood c → next (source c ++ rest) ≡ some (c, rest))
    (source_filled : (c : ℕ) → IsGood c → 1 ≤ length (source c))
    (target_filled : (c : ℕ) → IsGood c → 1 ≤ length (target c)) where
  pub calculate_loop_text :
      (size : ℤ → ℕ)
      → ((c : ℕ) → IsGood c → size (pos c) ≡ length (target c))
      → (cs : List ℕ) (fuel n count all : ℕ) → All IsGood cs
      → length (encoded source cs) ≤ fuel
      → calculate_loop next size fuel (encoded source cs) n count all
        ≡ scan [] (n + length (encoded target cs)) (count + length cs) (or_all all cs) true
  unfolding calculate_loop
  calculate_loop_text size e [] fuel n count all g h = scans all true (omega arith) (omega arith)
  calculate_loop_text size e (c ∷ cs) zero n count all (g, gs) h =
      absurd (omega (arith, source_filled c g, length-append (source c) (encoded source cs)))
  calculate_loop_text size e (c ∷ cs) (suc fuel) n count all (g, gs) h =
      let text = source c ++ encoded source cs in
      let loop = calculate_loop next size fuel in
      let long = length-append (source c) (encoded source cs) in
      let filled : 1 ≤ size (pos c) = omega (arith, e c g, target_filled c g) in
      calculate_round next size fuel text n count all (omega (arith, long, source_filled c g))
      ∙ ap (λ o. calculate_step next size loop o text n count all) (reads c (encoded source cs) g)
      ∙ go_on next size loop c (encoded source cs) text n count all filled
      ∙ calculate_loop_text size e cs fuel (n + size (pos c)) (suc count) (bit_or all c) gs
          (omega (arith, long, source_filled c g))
      ∙ scans (or_all (bit_or all c) cs) true
          (omega (arith, e c g, length-append (target c) (encoded target cs))) (omega arith)

  pub convert_loop_text :
      (push : Option ℕ → ℤ → List ℕ) (room : Option ℕ)
      → ((left : Option ℕ) (c : ℕ)
          → IsGood c
          → Fits left (length (target c))
          → push left (pos c) ≡ target c)
      → (cs : List ℕ) (fuel : ℕ) (output : List ℕ) (count all : ℕ) → All IsGood cs
      → length (encoded source cs) ≤ fuel
      → Fits room (length output + length (encoded target cs))
      → convert_loop next push room fuel (encoded source cs) output count all true
        ≡ scan [] (output ++ encoded target cs) (count + length cs) (or_all all cs) true
  unfolding convert_loop
  convert_loop_text push room e [] fuel output count all g h f =
      scans all true (sym (append-nil output)) (omega arith)
  convert_loop_text push room e (c ∷ cs) zero output count all (g, gs) h f =
      absurd (omega (arith, source_filled c g, length-append (source c) (encoded source cs)))
  convert_loop_text push room e (c ∷ cs) (suc fuel) output count all (g, gs) h f =
      let text = source c ++ encoded source cs in
      let loop = convert_loop next push room fuel in
      let long = length-append (source c) (encoded source cs) in
      let sum = length-append (target c) (encoded target cs) in
      let fits = subst (λ m. Fits room (length output + m)) sum f in
      let wrote : pushed next push room true output c ≡ target c =
        e _ c g (Fits-left room (length output) (length (target c)) _ fits) in
      convert_round next push room fuel text output count all true
        (omega (arith, long, source_filled c g))
      ∙ ap (λ o. convert_step next push room loop o text output count all true)
          (reads c (encoded source cs) g)
      ∙ ap
          (λ units.
            loop (encoded source cs) (output ++ units) (suc count) (bit_or all c)
              (not (length units == 0)))
          wrote
      ∙ ap (loop (encoded source cs) (output ++ target c) (suc count) (bit_or all c))
          (ground (arith, target_filled c g))
      ∙ convert_loop_text push room e cs fuel (output ++ target c) (suc count) (bit_or all c) gs
          (omega (arith, long, source_filled c g))
          (subst (Fits room) (omega (arith, length-append output (target c))) fits)
      ∙ scans (or_all (bit_or all c) cs) true (append_assoc output (target c) (encoded target cs))
          (omega arith)
