-- ===== src/Utf/Tests.antt =====
-- Runs of the encodings on small texts.
use libnetq.Prelude.{
  ℕ, ◌≡◌, ◌⊎◌, refl, List, [], ◌∷◌, ◌++◌, some, none, true, false, length, arith, if◌then◌else◌,
  leb, suc,
}
use libnetq.Prelude.Int.{pos}
use libnetq.Utf.{
  uchar_next8, uchar_push8, uchar_size8, uchar_next16, uchar_push16, push8_bytes, room8, lead_size,
  next8_tail,
}
use libnetq.Utf.{uchar_size16}
use libnetq.Utf.Convert.{
  calculate_loop, convert_loop, scan_utf8, scan_utf16, scan_utf8_to_utf16, scan_utf16_to_utf8,
}
use libnetq.Utf.Fuel.{scan_fuel}
use libnetq.Utf.Utf8.{uchar_next8-uchar_push8}
use libnetq.Utf.Convert.{
  UnicodeInfo, converted, calculate_utf8_info, calculate_utf16_info, convert_utf8_to_utf16,
  convert_utf16_to_utf8, terminated,
}
use libnetq.Utf.Bmp.{utf8_of, info_of, convert_utf8_to_utf16-convert_utf16_to_utf8}
use libnetq.Utf.Agree.{calculate_utf8_info-convert_utf8_to_utf16}

-- An `A`, an e with an accent and the sign of the euro.
abbrev euro_text : List ℕ
euro_text = 0x41 ∷ 0xE9 ∷ 0x20AC ∷ []

euro_bytes : utf8_of euro_text ≡ 0x41 ∷ 0xC3 ∷ 0xA9 ∷ 0xE2 ∷ 0x82 ∷ 0xAC ∷ []
unfolding push8_bytes
euro_bytes = refl

overlong_accepted : uchar_next8 (0xC0 ∷ 0x80 ∷ []) ≡ some (0, [])
unfolding uchar_next8 lead_size next8_tail
overlong_accepted = refl

uchar_next8-uchar_push8_example :
    (uchar_push8 (some 3) (pos 0x20AC)
      ≡ (if leb (uchar_size8 (pos 0x20AC)) (room8 (some 3)) then push8_bytes 0x20AC else []))
    × (length (push8_bytes 0x20AC) ≡ uchar_size8 (pos 0x20AC))
    × (uchar_next8 (push8_bytes 0x20AC ++ 0x41 ∷ []) ≡ some (0x20AC, 0x41 ∷ []))
uchar_next8-uchar_push8_example = uchar_next8-uchar_push8 (some 3) 0x20AC (0x41 ∷ []) (omega arith)

pair_read : uchar_next16 (0xD83D ∷ 0xDE00 ∷ []) ≡ some (0x360DC00, [])
unfolding uchar_next16
pair_read = refl

convert_utf8_to_utf16-convert_utf16_to_utf8_example :
    (calculate_utf8_info (some (utf8_of euro_text)) ≡ (true, some (info_of euro_text)))
    × (calculate_utf16_info (some euro_text) ≡ (true, some (info_of euro_text)))
    × (convert_utf8_to_utf16 (some (utf8_of euro_text)) (some (some 3))
        ≡ converted true (terminated (some 3) euro_text) (some (info_of euro_text)))
    × (convert_utf16_to_utf8 (some euro_text) (some none)
        ≡ converted true (terminated none (utf8_of euro_text)) (some (info_of euro_text)))
convert_utf8_to_utf16-convert_utf16_to_utf8_example =
    convert_utf8_to_utf16-convert_utf16_to_utf8 euro_text none (some 3)
      (
        (omega arith, ground arith),
        ((omega arith, ground arith), ((omega arith, ground arith), tt)),
      )
      tt (omega arith)

abbrev truncated : List ℕ
truncated = 0x41 ∷ 0xE2 ∷ 0x82 ∷ []

calculate_utf8_info-convert_utf8_to_utf16_example :
    ((calculate_utf8_info (some truncated)).0 ≡ false
      × (convert_utf8_to_utf16 (some truncated) (some none)).result ≡ false)
    ⊎ ((calculate_utf8_info (some truncated)).0 ≡ true
        × ((convert_utf8_to_utf16 (some truncated) (some none)).result ≡ true)
        × (info : UnicodeInfo) × ((calculate_utf8_info (some truncated)).1 ≡ some info)
        × ((convert_utf8_to_utf16 (some truncated) (some none)).info ≡ some info)
        × (length (convert_utf8_to_utf16 (some truncated) (some none)).output
            ≡ suc info.utf16_size))
calculate_utf8_info-convert_utf8_to_utf16_example =
    calculate_utf8_info-convert_utf8_to_utf16 truncated

scan_fuel_example :
    (scan_utf8 truncated ≡ calculate_loop uchar_next8 uchar_size16 100 truncated 0 0 0)
    × (scan_utf16 truncated ≡ calculate_loop uchar_next16 uchar_size8 100 truncated 0 0 0)
    × (scan_utf8_to_utf16 (some 2) truncated
        ≡ convert_loop uchar_next8 uchar_push16 (some 2) 100 truncated [] 0 0 true)
    × (scan_utf16_to_utf8 (some 2) truncated
        ≡ convert_loop uchar_next16 uchar_push8 (some 2) 100 truncated [] 0 0 true)
scan_fuel_example = scan_fuel truncated (some 2) 100 (omega arith)
