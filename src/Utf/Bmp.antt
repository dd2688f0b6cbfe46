-- ===== src/Utf/Bmp.antt =====
-- Texts of characters below 0x10000 without surrogates, to UTF-16 and back.
use libnetq.Prelude.{
  ℕ, ◌≤◌, ◌≡◌, refl, sym, ap, ◌∙◌, List, [], ◌∷◌, Option, none, some, Bool, true, ltb, arith,
  length, All,
}
use libnetq.Prelude.Int.{pos}
use libnetq.Utf.{
  uchar_next8, uchar_push8, uchar_size8, uchar_next16, uchar_push16, uchar_size16, push8_bytes,
}
use libnetq.Utf.Utf8.{next8-push8_bytes, length-push8_bytes, size8_positive, uchar_push8-fits}
use libnetq.Utf.Utf16.{IsBmp, next16_bmp, push16_bmp}
use libnetq.Utf.Convert.{
  UnicodeInfo, converted, Scan, scan, scan_utf8, scan_utf16, scan_utf8_to_utf16, scan_utf16_to_utf8,
  calculate_utf8_info, calculate_utf16_info, convert_utf8_to_utf16, convert_utf16_to_utf8,
  terminated, info8, info16,
}
use libnetq.Utf.Text.{encoded, or_all, Fits, scans, calculate_loop_text, convert_loop_text}
use libnetq.Utf.Ascii.{all_ascii, or_all-all_ascii}
use mathlib.Core.Path.{subst}

abbrev pub utf8_of : List ℕ → List ℕ
utf8_of cs = encoded push8_bytes cs

unit : ℕ → List ℕ
unit c = c ∷ []

-- The sizes of a text in the three encodings.
abbrev pub info_of : List ℕ → UnicodeInfo
info_of cs = record {
  utf8_size = length (utf8_of cs);
  utf16_size = length cs;
  utf32_size = length cs;
  is_all_ascii = all_ascii cs;
}

encoded-unit : (cs : List ℕ) → encoded unit cs ≡ cs
unfolding unit
encoded-unit [] = refl
encoded-unit (c ∷ cs) = ap (λ (t : List ℕ). c ∷ t) (encoded-unit cs)

bmp_filled8 : (c : ℕ) → IsBmp c → 1 ≤ length (push8_bytes c)
bmp_filled8 c (p, q) =
    omega (arith, length-push8_bytes c (omega arith), size8_positive c (omega arith))

fits8 :
    (left : Option ℕ) (c : ℕ)
    → IsBmp c
    → Fits left (length (push8_bytes c))
    → uchar_push8 left (pos c) ≡ push8_bytes c
unfolding push8_bytes
fits8 none c (p, q) h = uchar_push8-fits none c (ground arith)
fits8 (some n) c g h = uchar_push8-fits (some n) c h

fits16 : (left : Option ℕ) (c : ℕ) → IsBmp c → Fits left 1 → uchar_push16 left (pos c) ≡ c ∷ []
fits16 none c (p, q) h = push16_bmp none c p (omega arith)
fits16 (some n) c (p, q) h = push16_bmp (some n) c p h

scan8 :
    (cs : List ℕ)
    → All IsBmp cs
    → scan_utf8 (utf8_of cs) ≡ scan [] (length cs) (length cs) (or_all 0 cs) true
unfolding unit uchar_size16
scan8 cs g =
    calculate_loop_text uchar_next8 push8_bytes unit IsBmp
      (λ c rest h. next8-push8_bytes c rest (omega (arith, h.0))) bmp_filled8 (λ c h. omega arith)
      uchar_size16 (λ c h. ground (arith, h.0)) cs (length (utf8_of cs)) 0 0 0 g (omega arith)
    ∙ scans (or_all 0 cs) true (omega (arith, ap length (encoded-unit cs))) (omega arith)

scan16 :
    (cs : List ℕ)
    → All IsBmp cs
    → scan_utf16 cs ≡ scan [] (length (utf8_of cs)) (length cs) (or_all 0 cs) true
unfolding unit
scan16 cs g =
    ap scan_utf16 (sym (encoded-unit cs))
    ∙ calculate_loop_text uchar_next16 unit push8_bytes IsBmp next16_bmp (λ c h. omega arith)
        bmp_filled8 uchar_size8 (λ c h. sym (length-push8_bytes c (omega (arith, h.0)))) cs
        (length (encoded unit cs)) 0 0 0 g (omega arith)
    ∙ scans (or_all 0 cs) true (omega arith) (omega arith)

scan8_to_16 :
    (room : Option ℕ) (cs : List ℕ)
    → All IsBmp cs
    → Fits room (length cs)
    → scan_utf8_to_utf16 room (utf8_of cs) ≡ scan [] cs (length cs) (or_all 0 cs) true
unfolding unit
scan8_to_16 room cs g f =
    convert_loop_text uchar_next8 push8_bytes unit IsBmp
      (λ c rest h. next8-push8_bytes c rest (omega (arith, h.0))) bmp_filled8 (λ c h. omega arith)
      uchar_push16 room fits16 cs (length (utf8_of cs)) [] 0 0 g (omega arith)
      (subst (Fits room) (omega (arith, ap length (encoded-unit cs))) f)
    ∙ scans (or_all 0 cs) true (encoded-unit cs) (omega arith)

scan16_to_8 :
    (room : Option ℕ) (cs : List ℕ)
    → All IsBmp cs
    → Fits room (length (utf8_of cs))
    → scan_utf16_to_utf8 room cs ≡ scan [] (utf8_of cs) (length cs) (or_all 0 cs) true
unfolding unit
scan16_to_8 room cs g f =
    ap (scan_utf16_to_utf8 room) (sym (encoded-unit cs))
    ∙ convert_loop_text uchar_next16 unit push8_bytes IsBmp next16_bmp (λ c h. omega arith)
        bmp_filled8 uchar_push8 room fits8 cs (length (encoded unit cs)) [] 0 0 g (omega arith)
        (subst (Fits room) (omega arith) f)
    ∙ scans (or_all 0 cs) true refl (omega arith)

info_lem :
    (cs : List ℕ)
    → (info8 (utf8_of cs) [] (length cs) (length cs) (or_all 0 cs) ≡ info_of cs)
      × (info16 cs [] (length (utf8_of cs)) (length cs) (or_all 0 cs) ≡ info_of cs)
info_lem cs =
    let info_with : ℕ → ℕ → Bool → UnicodeInfo =
      λ n m b. record { utf8_size = n; utf16_size = m; utf32_size = length cs; is_all_ascii = b } in
    let ascii = ap (info_with (length (utf8_of cs)) (length cs)) (or_all-all_ascii cs) in
    (
      ap (λ n. info_with n (length cs) (ltb (or_all 0 cs) 0x80)) (omega arith) ∙ ascii,
      ap (λ n. info_with (length (utf8_of cs)) n (ltb (or_all 0 cs) 0x80)) (omega arith) ∙ ascii,
    )

-- A text of characters below 0x10000 without surrogates is measured alike in both encodings, and
-- converted from each to the other wherever the result has room: the conversions undo each other.
pub convert_utf8_to_utf16-convert_utf16_to_utf8 :
    (cs : List ℕ) (bytes units : Option ℕ)
    → All IsBmp cs
    → Fits bytes (length (utf8_of cs))
    → Fits units (length cs)
    → (calculate_utf8_info (some (utf8_of cs)) ≡ (true, some (info_of cs)))
      × (calculate_utf16_info (some cs) ≡ (true, some (info_of cs)))
      × (convert_utf8_to_utf16 (some (utf8_of cs)) (some units)
          ≡ converted true (terminated units cs) (some (info_of cs)))
      × (convert_utf16_to_utf8 (some cs) (some bytes)
          ≡ converted true (terminated bytes (utf8_of cs)) (some (info_of cs)))
unfolding calculate_utf8_info calculate_utf16_info convert_utf8_to_utf16 convert_utf16_to_utf8
convert_utf8_to_utf16-convert_utf16_to_utf8 cs bytes units g p q =
    let (in8, in16) = info_lem cs in
    (
      ap
            (λ (s : Scan ℕ).
              (s.result, some (info8 (utf8_of cs) s.rest s.output s.count s.or_all_chars)))
            (scan8 cs g)
          ∙ ap (λ i. (true, some i)) in8,
      ap (λ (s : Scan ℕ). (s.result, some (info16 cs s.rest s.output s.count s.or_all_chars)))
            (scan16 cs g)
          ∙ ap (λ i. (true, some i)) in16,
      ap
            (λ (s : Scan (List ℕ)).
              converted s.result (terminated units s.output)
                (some (info8 (utf8_of cs) s.rest (length s.output) s.count s.or_all_chars)))
            (scan8_to_16 units cs g q)
          ∙ ap (λ i. converted true (terminated units cs) (some i)) in8,
      ap
            (λ (s : Scan (List ℕ)).
              converted s.result (terminated bytes s.output)
                (some (info16 cs s.rest (length s.output) s.count s.or_all_chars)))
            (scan16_to_8 bytes cs g p)
          ∙ ap (λ i. converted true (terminated bytes (utf8_of cs)) (some i)) in16,
    )
