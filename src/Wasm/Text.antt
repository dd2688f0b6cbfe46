-- ===== src/Wasm/Text.antt =====
-- The text of a module, and which modules have one.
use libnetq.Prelude.{
  ℕ, ◌^◌, ◌<◌, ◌≡◌, List, [], ◌∷◌, ◌++◌, true, false, bit_and, ◌==◌, if◌then◌else◌, length, All,
}
use libnetq.Json.{c_string}
use libnetq.Leb128.Encode.{positive_chunks, unsigned_length}
use libnetq.Wasm.Import.{
  ImportDesc, function, table, memory, global, ImportItem, Section, import_section, unknown_section,
  section_id, is_elem_type, is_mem_type, is_val_type,
}
use libnetq.Wasm.Module.{Module, wasm_magic, wasm_version}
use libnetq.Wasm.Write.{import_id}

abbrev pub uint32_text : ℕ → List ℕ
uint32_text v = positive_chunks v 0 (unsigned_length 4 1 v)

abbrev pub uint64_text : ℕ → List ℕ
uint64_text v = positive_chunks v 0 (unsigned_length 9 1 v)

abbrev pub string_text : List ℕ → List ℕ
string_text s = uint32_text (length s) ++ s

abbrev pub desc_text : ImportDesc → List ℕ
desc_text (function typeidx) = uint32_text typeidx
desc_text (table elemtype min_value max_value) =
    elemtype ∷ uint32_text min_value ++ uint32_text max_value
desc_text (memory memtype min_value max_value) =
    memtype ∷ uint64_text min_value
    ++ (if bit_and memtype 1 == 0 then [] else uint64_text max_value)
desc_text (global valtype mut) = valtype ∷ mut ∷ []

abbrev pub item_text : ImportItem → List ℕ
item_text item =
    string_text item.module_name
    ++ (string_text item.item_name ++ (import_id item.desc ∷ desc_text item.desc))

abbrev pub items_text : List ImportItem → List ℕ
items_text [] = []
items_text (item ∷ items) = item_text item ++ items_text items

abbrev pub content_text : Section → List ℕ
content_text (import_section section) = uint32_text section.item_count ++ items_text section.items
content_text (unknown_section id bytes) = bytes

abbrev pub section_text : Section → List ℕ
section_text section = section_id section ∷ string_text (content_text section)

abbrev pub sections_text : List Section → List ℕ
sections_text [] = []
sections_text (section ∷ sections) = section_text section ++ sections_text sections

-- "\0asm", and the version 1.
abbrev pub header_text : List ℕ
header_text = 0x00 ∷ 0x61 ∷ 0x73 ∷ 0x6d ∷ 0x01 ∷ 0x00 ∷ 0x00 ∷ 0x00 ∷ []

abbrev pub module_text : Module → List ℕ
module_text m = header_text ++ sections_text m.sections

-- Names without a character 0, values of their widths, element, memory and value types that the format
-- has, and the maximum 0 for a memory without NQ_WASM_MEMTYPE_MAXVAL.
abbrev pub IsName : List ℕ → Type 0
IsName s = (c_string s ≡ s) × (length s < 2 ^ 32)

abbrev pub IsDesc : ImportDesc → Type 0
IsDesc (function typeidx) = typeidx < 2 ^ 32
IsDesc (table elemtype min_value max_value) =
    (is_elem_type elemtype ≡ true) × (min_value < 2 ^ 32) × (max_value < 2 ^ 32)
IsDesc (memory memtype min_value max_value) =
    (is_mem_type memtype ≡ true)
    × (min_value < 2 ^ 64)
    × (max_value < 2 ^ 64)
    × ((bit_and memtype 1 == 0) ≡ true → max_value ≡ 0)
IsDesc (global valtype mut) = is_val_type valtype ≡ true

abbrev pub IsItem : ImportItem → Type 0
IsItem item = IsName item.module_name × IsName item.item_name × IsDesc item.desc

-- As many items as the section counts; an unknown section does not have the id of the imports'.
abbrev pub IsContent : Section → Type 0
IsContent (import_section section) =
    All IsItem section.items
    × (section.item_count ≡ length section.items)
    × (section.item_count < 2 ^ 32)
IsContent (unknown_section id bytes) = (id == 2) ≡ false

abbrev pub IsSection : Section → Type 0
IsSection section = IsContent section × (length (content_text section) < 2 ^ 32)

-- A well formed module.
abbrev pub IsModule : Module → Type 0
IsModule m = (m.magic ≡ wasm_magic) × (m.version ≡ wasm_version) × All IsSection m.sections
