-- ===== src/Wasm/Module.antt =====
-- libnetq/wasm/Module.c, `NQWasmModule_fromMemory` and `NQWasmModule_findSection`.
use libnetq.Prelude.{
  ℕ, zero, suc, List, [], ◌∷◌, Option, none, some, ltb, ◌==◌, if◌then◌else◌, length, take, drop,
}
use libnetq.Endian.{ByteOrder, load, host_to_le32}
use libnetq.Wasm.{Read, ◌>>=◌, read_uint8, read_data, read_leb128_uint32}
use libnetq.Wasm.Import.{Section, section_id, section_from_memory, guarded}

pub record Module : Type 0 where
  pub magic : ℕ
  pub version : ℕ
  pub sections : List Section

-- NQ_WASM_MAGIC and NQ_WASM_VERSION.
abbrev pub wasm_magic : ℕ
wasm_magic = 0x6d736100

abbrev pub wasm_version : ℕ
wasm_version = 1

-- `NQWasmModule_init`
abbrev pub init : Module
init = record { magic = wasm_magic; version = wasm_version; sections = [] }

unfoldable pub find_section : List Section → ℕ → Option Section
find_section [] id = none
find_section (section ∷ sections) id =
    if section_id section == id then some section else find_section sections id

unfoldable pub read_uint32_le : ByteOrder → Read ℕ
read_uint32_le h bytes =
    if ltb (length bytes) 4
    then (none, bytes)
    else (some (host_to_le32 h (load h (take 4 bytes))), drop 4 bytes)

-- One round of the loop.
unfoldable pub read_section : Read Section
read_section = read_uint8 >>= λ id. read_leb128_uint32 >>= λ size.
    read_data size >>= λ content. (λ bytes. (section_from_memory id content, bytes))

abbrev pub with_section :
    (List ℕ → List Section × List ℕ) → Option Section × List ℕ → List Section × List ℕ
with_section next (none, rest) = ([], rest)
with_section next (some section, rest) =
    let (sections, rest') = next rest in (section ∷ sections, rest')

-- The loop, for as many rounds as the fuel. A round that goes on takes at least one byte.
unfoldable pub read_sections : ℕ → List ℕ → List Section × List ℕ
read_sections fuel [] = ([], [])
read_sections zero (b ∷ bytes) = ([], b ∷ bytes)
read_sections (suc fuel) (b ∷ bytes) =
    with_section (λ rest. read_sections fuel rest) (read_section (b ∷ bytes))

abbrev pub module_of : ℕ → ℕ → List Section × List ℕ → Option Module × List ℕ
module_of magic version (sections, []) =
    (some (record { magic = magic; version = version; sections = sections }), [])
module_of magic version (sections, b ∷ bytes) = (none, b ∷ bytes)

abbrev pub to_end : ℕ → ℕ → Read Module
to_end magic version bytes = module_of magic version (read_sections (length bytes) bytes)

unfoldable pub from_memory : ByteOrder → List ℕ → Option Module
from_memory h bytes =
    ((read_uint32_le h >>= λ magic.
    guarded (magic == wasm_magic)
      (read_uint32_le h >>= λ version. guarded (version == wasm_version) (to_end magic version)))
      bytes).0
