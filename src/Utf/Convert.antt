-- ===== src/Utf/Convert.antt =====
-- libnetq/UTF.c, the four functions on texts. The two that measure a text are one loop with other
-- functions for its characters, and so are the two that convert one; an input of NULL is `none`.
-- A text whose end is NULL ends where `strlen` or `NQCStrLen16` says; here it is given with its end.
use libnetq.Prelude.{
  ℕ, zero, suc, ◌+◌, ◌-◌, List, [], ◌∷◌, ◌++◌, Option, none, some, Bool, true, false, not, ◌&&◌,
  bit_or, ltb, ◌==◌, if◌then◌else◌, length,
}
use libnetq.Prelude.Int.{ℤ, pos}
use libnetq.Utf.{uchar_next8, uchar_push8, uchar_size8, uchar_next16, uchar_push16, uchar_size16}
use mathlib.Core.Option

pub record UnicodeInfo : Type 0 where
  pub utf8_size : ℕ
  pub utf16_size : ℕ
  pub utf32_size : ℕ
  pub is_all_ascii : Bool

-- Where a loop ends: what it did not read, the size of the result or the result itself, the number
-- of characters, `orAllChars`, and `result`.
pub record Scan (A : Type 0) : Type 0 where
  pub rest : List ℕ
  pub output : A
  pub count : ℕ
  pub or_all_chars : ℕ
  pub result : Bool

abbrev pub scan : {A : Type 0} → List ℕ → A → ℕ → ℕ → Bool → Scan A
scan rest output count all result = record {
  rest = rest;
  output = output;
  count = count;
  or_all_chars = all;
  result = result;
}

module _ (next : List ℕ → Option (ℕ × List ℕ)) where
  module _ (size : ℤ → ℕ) where
    -- A round of the loop; `loop` is the rest of it.
    abbrev pub calculate_step :
        (List ℕ → ℕ → ℕ → ℕ → Scan ℕ) → Option (ℕ × List ℕ) → List ℕ → ℕ → ℕ → ℕ → Scan ℕ
    calculate_step loop none text n count all = scan text n count all false
    calculate_step loop (some (c, rest)) text n count all =
        if size (pos c) == 0
        then scan rest n count all false
        else loop rest (n + size (pos c)) (suc count) (bit_or all c)

    unfoldable pub calculate_loop : ℕ → List ℕ → ℕ → ℕ → ℕ → Scan ℕ
    calculate_loop fuel [] n count all = scan [] n count all true
    calculate_loop zero (u ∷ text) n count all = scan (u ∷ text) n count all false
    calculate_loop (suc fuel) (u ∷ text) n count all =
        calculate_step (calculate_loop fuel) (next (u ∷ text)) (u ∷ text) n count all

  module _ (push : Option ℕ → ℤ → List ℕ) (room : Option ℕ) where
    -- What is written for a character while nothing has failed.
    abbrev pub pushed : Bool → List ℕ → ℕ → List ℕ
    pushed result output c =
        if result then push (Option.map (λ n. n - length output) room) (pos c) else []

    abbrev pub convert_step :
        (List ℕ → List ℕ → ℕ → ℕ → Bool → Scan (List ℕ))
        → Option (ℕ × List ℕ)
        → List ℕ
        → List ℕ
        → ℕ
        → ℕ
        → Bool
        → Scan (List ℕ)
    convert_step loop none text output count all result = scan text output count all false
    convert_step loop (some (c, rest)) text output count all result =
        let units = pushed result output c in
        loop rest (output ++ units) (suc count) (bit_or all c) (result && not (length units == 0))

    unfoldable pub convert_loop : ℕ → List ℕ → List ℕ → ℕ → ℕ → Bool → Scan (List ℕ)
    convert_loop fuel [] output count all result = scan [] output count all result
    convert_loop zero (u ∷ text) output count all result = scan (u ∷ text) output count all false
    convert_loop (suc fuel) (u ∷ text) output count all result =
        convert_step (convert_loop fuel) (next (u ∷ text)) (u ∷ text) output count all result

-- The loops, with as many rounds as the text has units.
abbrev pub scan_utf8 : List ℕ → Scan ℕ
scan_utf8 text = calculate_loop uchar_next8 uchar_size16 (length text) text 0 0 0

abbrev pub scan_utf16 : List ℕ → Scan ℕ
scan_utf16 text = calculate_loop uchar_next16 uchar_size8 (length text) text 0 0 0

abbrev pub scan_utf8_to_utf16 : Option ℕ → List ℕ → Scan (List ℕ)
scan_utf8_to_utf16 room text =
    convert_loop uchar_next8 uchar_push16 room (length text) text [] 0 0 true

abbrev pub scan_utf16_to_utf8 : Option ℕ → List ℕ → Scan (List ℕ)
scan_utf16_to_utf8 room text =
    convert_loop uchar_next16 uchar_push8 room (length text) text [] 0 0 true

-- The info of a text in UTF-8 and of one in UTF-16, with the size of the other encoding.
abbrev pub info8 : List ℕ → List ℕ → ℕ → ℕ → ℕ → UnicodeInfo
info8 text rest n count all = record {
  utf8_size = length text - length rest;
  utf16_size = n;
  utf32_size = count;
  is_all_ascii = ltb all 0x80;
}

abbrev pub info16 : List ℕ → List ℕ → ℕ → ℕ → ℕ → UnicodeInfo
info16 text rest n count all = record {
  utf8_size = n;
  utf16_size = length text - length rest;
  utf32_size = count;
  is_all_ascii = ltb all 0x80;
}

unfoldable pub calculate_utf8_info : Option (List ℕ) → Bool × Option UnicodeInfo
calculate_utf8_info none = (false, none)
calculate_utf8_info (some text) =
    let s = scan_utf8 text in (s.result, some (info8 text s.rest s.output s.count s.or_all_chars))

unfoldable pub calculate_utf16_info : Option (List ℕ) → Bool × Option UnicodeInfo
calculate_utf16_info none = (false, none)
calculate_utf16_info (some text) =
    let s = scan_utf16 text in (s.result, some (info16 text s.rest s.output s.count s.or_all_chars))

-- The 0 behind the result, where there is room.
abbrev pub terminated : Option ℕ → List ℕ → List ℕ
terminated none output = output ++ 0 ∷ []
terminated (some n) output = if ltb (length output) n then output ++ 0 ∷ [] else output

pub record Converted : Type 0 where
  pub result : Bool
  pub output : List ℕ
  pub info : Option UnicodeInfo

abbrev pub converted : Bool → List ℕ → Option UnicodeInfo → Converted
converted result output info = record { result = result; output = output; info = info }

-- The destination is `none` where its start is NULL.
abbrev pub measured : Bool × Option UnicodeInfo → Converted
measured (result, info) = converted result [] info

unfoldable pub convert_utf8_to_utf16 : Option (List ℕ) → Option (Option ℕ) → Converted
convert_utf8_to_utf16 none target = converted false [] none
convert_utf8_to_utf16 (some text) none = measured (calculate_utf8_info (some text))
convert_utf8_to_utf16 (some text) (some room) =
    let s = scan_utf8_to_utf16 room text in
    converted s.result (terminated room s.output)
      (some (info8 text s.rest (length s.output) s.count s.or_all_chars))

unfoldable pub convert_utf16_to_utf8 : Option (List ℕ) → Option (Option ℕ) → Converted
convert_utf16_to_utf8 none target = converted false [] none
convert_utf16_to_utf8 (some text) none = measured (calculate_utf16_info (some text))
convert_utf16_to_utf8 (some text) (some room) =
    let s = scan_utf16_to_utf8 room text in
    converted s.result (terminated room s.output)
      (some (info16 text s.rest (length s.output) s.count s.or_all_chars))
