-- ===== src/Wasm/Sections.antt =====
-- The text of a section and of a module, and how they are read.
use libnetq.Prelude.{
  ℕ, zero, suc, ◌^◌, ◌≤◌, ◌<◌, ◌≡◌, refl, sym, ap, ◌∙◌, List, [], ◌∷◌, ◌++◌, append-nil,
  append_assoc, Option, none, some, false, ltb, ◌==◌, if◌then◌else◌, arith, length, take, drop, All,
  length-append,
}
use libnetq.Endian.{ByteOrder, little, big, load, host_to_le32, byte_swap32, le_word}
use libnetq.Wasm.{Read, ◌>>=◌, then_read, read_data, read_leb128_uint32}
use libnetq.Wasm.Import.{
  ImportItem, ImportSection, Section, import_section, unknown_section, section_id, guarded,
  read_items, at_end, import_section_from_memory, section_from_memory, as_import,
}
use libnetq.Wasm.Module.{
  Module, wasm_magic, wasm_version, read_uint32_le, read_section, read_sections, with_section,
  module_of, to_end, from_memory,
}
use libnetq.Wasm.Text.{
  uint32_text, string_text, items_text, content_text, section_text, sections_text, module_text,
  IsContent, IsSection, IsModule,
}
use libnetq.Wasm.Numbers.{Reads, uint32_text-Reads}
use libnetq.Wasm.Reading.{items_text-Reads, read_data-Reads}

import_text-section :
    (s : ImportSection)
    → IsContent (import_section s)
    → import_section_from_memory (content_text (import_section s)) ≡ some s
unfolding ◌>>=◌ import_section_from_memory
import_text-section s (is, count, small) =
    let text = items_text s.items in
    let all : read_items s.item_count text ≡ (some s.items, []) =
      ap (λ n. read_items n text) count
      ∙ ap (read_items (length s.items)) (sym (append-nil text))
      ∙ (items_text-Reads s.items is).run [] in
    let last : List ImportItem → Read ImportSection =
      λ items. at_end (record { items = items; item_count = s.item_count }) in
    ap
      (λ r.
        (then_read r (λ count.
          read_items count >>= λ items. at_end (record { items = items; item_count = count }))).0)
      ((uint32_text-Reads s.item_count small).run text)
    ∙ ap (λ r. (then_read r last).0) all

content_text-section :
    (s : Section) → IsContent s → section_from_memory (section_id s) (content_text s) ≡ some s
unfolding section_from_memory
content_text-section (import_section s) h = ap as_import (import_text-section s h)
content_text-section (unknown_section id bytes) h =
    ap
      (λ t.
        if t then as_import (import_section_from_memory bytes) else some (unknown_section id bytes))
      h

-- A section of any content, whatever is behind it.
pub string_section :
    (id : ℕ) (content rest : List ℕ)
    → length content < 2 ^ 32
    → read_section (id ∷ string_text content ++ rest) ≡ (section_from_memory id content, rest)
unfolding ◌>>=◌ read_section
string_section id content rest small =
    let k : ℕ → List ℕ → Option Section × List ℕ = λ size bytes.
      then_read (read_data size bytes) (λ content bytes. (section_from_memory id content, bytes)) in
    ap (λ bytes. then_read (read_leb128_uint32 bytes) k)
      (append_assoc (uint32_text (length content)) content rest)
    ∙ ap (λ r. then_read r k) ((uint32_text-Reads (length content) small).run (content ++ rest))
    ∙ ap (λ r. then_read r (λ content bytes. (section_from_memory id content, bytes)))
        ((read_data-Reads content).run rest)

section_text-Reads : (s : Section) → IsSection s → Reads read_section (section_text s) s
section_text-Reads s (h, small) = record {
  run = λ rest.
      string_section (section_id s) (content_text s) rest small
      ∙ ap (λ o. (o, rest)) (content_text-section s h);
}

-- What the loop takes off without a section.
abbrev pub IsEnd : List ℕ → Type 0
IsEnd tail = (fuel : ℕ) → length tail ≤ fuel → read_sections fuel tail ≡ ([], [])

sections_text-read_sections :
    (ss : List Section) (tail : List ℕ) (fuel : ℕ)
    → All IsSection ss
    → IsEnd tail
    → length (sections_text ss ++ tail) ≤ fuel
    → read_sections fuel (sections_text ss ++ tail) ≡ (ss, [])
unfolding read_sections
sections_text-read_sections [] tail fuel h e enough = e fuel enough
sections_text-read_sections (s ∷ ss) tail zero h e enough = absurd (omega arith)
sections_text-read_sections (s ∷ ss) tail (suc fuel) (h, hs) e enough =
    let rest = sections_text ss ++ tail in
    let split : section_text s ++ sections_text ss ++ tail ≡ section_text s ++ rest =
      append_assoc (section_text s) (sections_text ss) tail in
    let fits : length rest ≤ fuel =
      omega (arith, enough, ap length split, length-append (section_text s) rest) in
    ap (λ bytes. with_section (λ rest. read_sections fuel rest) (read_section bytes)) split
    ∙ ap (with_section (λ rest. read_sections fuel rest)) ((section_text-Reads s h).run rest)
    ∙ ap (λ r. (s ∷ r.0, r.1)) (sections_text-read_sections ss tail fuel hs e fits)

word-Reads :
    (h : ByteOrder) (b₀ b₁ b₂ b₃ : ℕ)
    → Reads
        (read_uint32_le h)
        (b₀ ∷ b₁ ∷ b₂ ∷ b₃ ∷ [])
        (host_to_le32 h (load h (b₀ ∷ b₁ ∷ b₂ ∷ b₃ ∷ [])))
unfolding read_uint32_le
word-Reads h b₀ b₁ b₂ b₃ = record {
  run = λ rest.
      let text : List ℕ = b₀ ∷ b₁ ∷ b₂ ∷ b₃ ∷ rest in
      let enough : ltb (length text) 4 ≡ false = ground arith in
      ap
        (λ t.
          if t then (none, text) else (some (host_to_le32 h (load h (take 4 text))), drop 4 text))
        enough;
}

magic_word : (h : ByteOrder) → host_to_le32 h (load h (0x00 ∷ 0x61 ∷ 0x73 ∷ 0x6d ∷ [])) ≡ wasm_magic
unfolding host_to_le32 load byte_swap32 le_word
magic_word little = refl
magic_word big = refl

version_word :
    (h : ByteOrder) → host_to_le32 h (load h (0x01 ∷ 0x00 ∷ 0x00 ∷ 0x00 ∷ [])) ≡ wasm_version
unfolding host_to_le32 load byte_swap32 le_word
version_word little = refl
version_word big = refl

-- A module's text, and behind it what the loop takes off without a section.
pub module_text-from_memory :
    (h : ByteOrder) (m : Module) (tail : List ℕ)
    → IsModule m
    → IsEnd tail
    → from_memory h (module_text m ++ tail) ≡ some m
unfolding ◌>>=◌ from_memory
module_text-from_memory h m tail (magic, version, ss) e =
    let text = sections_text m.sections ++ tail in
    let behind : ℕ → Read Module = λ magic.
      guarded (magic == wasm_magic) (
        read_uint32_le h >>= λ version. guarded (version == wasm_version) (to_end magic version)) in
    let last : ℕ → Read Module =
      λ version. guarded (version == wasm_version) (to_end wasm_magic version) in
    ap (λ r. (then_read r behind).0)
      ((word-Reads h 0x00 0x61 0x73 0x6d).run (0x01 ∷ 0x00 ∷ 0x00 ∷ 0x00 ∷ text))
    ∙ ap (λ v. (behind v (0x01 ∷ 0x00 ∷ 0x00 ∷ 0x00 ∷ text)).0) (magic_word h)
    ∙ ap (λ r. (then_read r last).0) ((word-Reads h 0x01 0x00 0x00 0x00).run text)
    ∙ ap (λ v. (last v text).0) (version_word h)
    ∙ ap (λ r. (module_of wasm_magic wasm_version r).0)
        (sections_text-read_sections m.sections tail (length text) ss e (omega arith))
    ∙ ap (λ v. some (record { magic = v; version = wasm_version; sections = m.sections }))
        (sym magic)
    ∙ ap (λ v. some (record { magic = m.magic; version = v; sections = m.sections })) (sym version)
