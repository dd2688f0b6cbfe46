-- ===== src/Wasm/Import.antt =====
-- libnetq/wasm/Module.c, the imports and the sections: their data, and how they are read.
use libnetq.Prelude.{
  ℕ, ◌+◌, ◌%◌, ◌^◌, ◌++◌, zero, suc, List, [], ◌∷◌, Option, none, some, Bool, bit_and, ◌==◌, ◌||◌,
  if◌then◌else◌,
}
use libnetq.Json.{c_string}
use libnetq.Wasm.{
  Read, ◌>>=◌, give, refuse, read_uint8, read_leb128_uint32, read_leb128_uint64, read_string,
}

-- The union of NQWasmImportItem, by its importId.
pub data ImportDesc : Type 0 where
  function : ℕ → ImportDesc
  table memory : ℕ → ℕ → ℕ → ImportDesc
  global : ℕ → ℕ → ImportDesc

pub record ImportItem : Type 0 where
  pub module_name : List ℕ
  pub item_name : List ℕ
  pub desc : ImportDesc

pub record ImportSection : Type 0 where
  pub items : List ImportItem
  pub item_count : ℕ

-- An unknown section has the id of any section but the imports'.
pub data Section : Type 0 where
  import_section : ImportSection → Section
  unknown_section : ℕ → List ℕ → Section

abbrev pub section_id : Section → ℕ
section_id (import_section s) = 2
section_id (unknown_section id bytes) = id

abbrev pub is_elem_type : ℕ → Bool
is_elem_type elemtype = elemtype == 0x70

-- No bit but those of NQ_WASM_MEMTYPE_MAXVAL, SHARED and WASM64.
abbrev pub is_mem_type : ℕ → Bool
is_mem_type memtype = bit_and memtype 0xf8 == 0

abbrev pub is_val_type : ℕ → Bool
is_val_type valtype =
    valtype == 0x7f
    || valtype == 0x7e
    || valtype == 0x7d
    || valtype == 0x7c
    || valtype == 0x7b
    || valtype == 0x63
    || valtype == 0x64

abbrev pub guarded : {A : Type 0} → Bool → Read A → Read A
guarded b m = if b then m else refuse

abbrev pub read_import_function : Read ImportDesc
read_import_function = read_leb128_uint32 >>= λ typeidx. give (function typeidx)

abbrev pub read_import_table : Read ImportDesc
read_import_table = read_uint8 >>= λ elemtype. guarded (is_elem_type elemtype) (
    read_leb128_uint32 >>= λ min_value.
    read_leb128_uint32 >>= λ max_value. give (table elemtype min_value max_value))

abbrev pub read_import_memory : Read ImportDesc
read_import_memory = read_uint8 >>= λ memtype. guarded (is_mem_type memtype) (
    read_leb128_uint64 >>= λ min_value.
    (if bit_and memtype 1 == 0 then give 0 else read_leb128_uint64) >>= λ max_value.
    give (memory memtype min_value max_value))

abbrev pub read_import_global : Read ImportDesc
read_import_global = read_uint8 >>= λ valtype.
    guarded (is_val_type valtype) (read_uint8 >>= λ mut. give (global valtype mut))

abbrev pub read_desc : ℕ → Read ImportDesc
read_desc import_id =
    if import_id == 0
    then read_import_function
    else if import_id == 1
    then read_import_table
    else if import_id == 2
    then read_import_memory
    else if import_id == 3
    then read_import_global
    else refuse

unfoldable pub read_import_item : Read ImportItem
read_import_item = read_string >>= λ module_name. read_string >>= λ item_name.
    read_uint8 >>= λ import_id. read_desc import_id >>= λ desc.
    give (record { module_name = module_name; item_name = item_name; desc = desc })

unfoldable pub read_items : ℕ → Read (List ImportItem)
read_items zero = give []
read_items (suc count) =
    read_import_item >>= λ item. read_items count >>= λ items. give (item ∷ items)

abbrev pub at_end : {A : Type 0} → A → Read A
at_end a [] = (some a, [])
at_end a (b ∷ bytes) = (none, b ∷ bytes)

unfoldable pub import_section_from_memory : List ℕ → Option ImportSection
import_section_from_memory bytes =
    ((read_leb128_uint32 >>= λ count.
    read_items count >>= λ items. at_end (record { items = items; item_count = count }))
      bytes).0

-- The names are given with a 0 at their end.
unfoldable pub add_memory : List ℕ → List ℕ → ℕ → ℕ → ℕ → ImportSection → ImportSection
add_memory module_name item_name memtype min_value max_value section =
    let item : ImportItem = record {
      module_name = c_string module_name;
      item_name = c_string item_name;
      desc = memory memtype min_value max_value;
    } in
    record section {
      items = section.items ++ item ∷ [];
      item_count = (section.item_count + 1) % 2 ^ 32;
    }

abbrev pub as_import : Option ImportSection → Option Section
as_import none = none
as_import (some s) = some (import_section s)

unfoldable pub section_from_memory : ℕ → List ℕ → Option Section
section_from_memory id bytes =
    if id == 2
    then as_import (import_section_from_memory bytes)
    else some (unknown_section id bytes)
