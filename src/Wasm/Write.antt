-- ===== src/Wasm/Write.antt =====
-- libnetq/io/WriteWrapper.c and libnetq/wasm/Module.c, the writes.
-- A write callback is a function on a state; the writer's counter of bytes is left out, as no
-- caller of this file reads it. The temporary buffer of an import section is its bytes.
use libnetq.Prelude.{
  ℕ, zero, suc, ◌-◌, ◌%◌, ◌^◌, List, [], ◌∷◌, ◌++◌, Option, none, some, Bool, true, false, bit_and,
  ◌==◌, if◌then◌else◌, length, take, drop, min,
}
use libnetq.Prelude.Int.{ℤ, pos, negsuc}
use libnetq.Endian.{ByteOrder, store, host_to_le32}
use libnetq.Json.{c_string}
use libnetq.Leb128.Encode.{encode_uint32, encode_uint64}
use libnetq.Wasm.Import.{
  ImportDesc, function, table, memory, global, ImportItem, ImportSection, Section, import_section,
  unknown_section,
}
use libnetq.Wasm.Module.{Module}

-- NQLeb128Buffer
abbrev pub leb128_buffer : Option (List ℕ)
leb128_buffer = some (0 ∷ 0 ∷ 0 ∷ 0 ∷ 0 ∷ 0 ∷ 0 ∷ 0 ∷ 0 ∷ 0 ∷ [])

-- The bytes that an encoder left in its buffer, as many as it says.
abbrev pub encoded : ℕ × Option (List ℕ) → List ℕ
encoded (size, none) = []
encoded (size, some buffer) = take size buffer

abbrev pub import_id : ImportDesc → ℕ
import_id (function typeidx) = 0
import_id (table elemtype min_value max_value) = 1
import_id (memory memtype min_value max_value) = 2
import_id (global valtype mut) = 3

-- `writeByteBuffer`
abbrev pub write_byte_buffer : List ℕ → List ℕ → ℤ × List ℕ
write_byte_buffer bytes buffer =
    let n = min (2 ^ 31 - 1) (length bytes) in (pos n, buffer ++ take n bytes)

module _ {S : Type 0} where
  infixr 5 ◌>>◌
  abbrev pub then_write : Bool × S → (S → Bool × S) → Bool × S
  then_write (true, s) k = k s
  then_write (false, s) k = (false, s)

  unfoldable pub ◌>>◌ : (S → Bool × S) → (S → Bool × S) → S → Bool × S
  (m >> k) s = then_write (m s) k

  abbrev pub skip : S → Bool × S
  skip s = (true, s)

  abbrev pub wrote : (ℕ → S → Bool × S) → ℤ × S → Bool × S
  wrote next (pos zero, s) = (false, s)
  wrote next (pos (suc n), s) = next (suc n) s
  wrote next (negsuc n, s) = (false, s)

module _ {S : Type 0} (write : List ℕ → S → ℤ × S) where
  -- The loop of `NQWriteWrapper_writeAll`: a round takes at least one byte, so that the number of
  -- bytes is fuel enough.
  unfoldable pub write_rounds : ℕ → List ℕ → S → Bool × S
  write_rounds fuel [] s = (true, s)
  write_rounds zero (b ∷ bytes) s = (false, s)
  write_rounds (suc fuel) (b ∷ bytes) s =
      wrote (λ n s. write_rounds fuel (drop n (b ∷ bytes)) s) (write (b ∷ bytes) s)

  abbrev pub write_all : List ℕ → S → Bool × S
  write_all bytes = write_rounds (length bytes) bytes

  abbrev pub write_uint8 : ℕ → S → Bool × S
  write_uint8 b = write_all (b ∷ [])

  abbrev pub write_uint32_le : ByteOrder → ℕ → S → Bool × S
  write_uint32_le h v = write_all (store h 4 (host_to_le32 h v))

  abbrev pub write_leb128_uint32 : ℕ → S → Bool × S
  write_leb128_uint32 v = write_all (encoded (encode_uint32 leb128_buffer 10 v))

  abbrev pub write_leb128_uint64 : ℕ → S → Bool × S
  write_leb128_uint64 v = write_all (encoded (encode_uint64 leb128_buffer 10 v))

  -- `strlen` and a cast of it to 32 bits.
  abbrev pub write_string : List ℕ → S → Bool × S
  write_string value =
      let size = length (c_string value) % 2 ^ 32 in
      write_leb128_uint32 size >> write_all (take size (c_string value))

  abbrev pub write_wasm_section : ℕ → List ℕ → S → Bool × S
  write_wasm_section id bytes =
      write_uint8 id
      >> write_leb128_uint32 (length bytes % 2 ^ 32)
      >> write_all (take (length bytes % 2 ^ 32) bytes)

  abbrev pub write_desc : ImportDesc → S → Bool × S
  write_desc (function typeidx) = write_leb128_uint32 typeidx
  write_desc (table elemtype min_value max_value) =
      write_uint8 elemtype >> write_leb128_uint32 min_value >> write_leb128_uint32 max_value
  write_desc (memory memtype min_value max_value) =
      write_uint8 memtype
      >> write_leb128_uint64 min_value
      >> (if bit_and memtype 1 == 0 then skip else write_leb128_uint64 max_value)
  write_desc (global valtype mut) = write_uint8 valtype >> write_uint8 mut

  abbrev pub write_item : ImportItem → S → Bool × S
  write_item item =
      write_string item.module_name
      >> write_string item.item_name
      >> write_uint8 (import_id item.desc)
      >> write_desc item.desc

  abbrev pub write_items : List ImportItem → S → Bool × S
  write_items [] = skip
  write_items (item ∷ items) = write_item item >> write_items items

  abbrev pub write_import_section_content : ImportSection → S → Bool × S
  write_import_section_content section =
      write_leb128_uint32 section.item_count >> write_items section.items

module _ {S : Type 0} (write : List ℕ → S → ℤ × S) where
  abbrev pub from_buffer : Bool × List ℕ → S → Bool × S
  from_buffer (true, buffer) s = write_wasm_section write 2 buffer s
  from_buffer (false, buffer) s = (false, s)

  unfoldable pub import_section_write_to : ImportSection → S → Bool × S
  import_section_write_to section =
      from_buffer (write_import_section_content write_byte_buffer section [])

  unfoldable pub section_write_to : Section → S → Bool × S
  section_write_to (import_section section) = import_section_write_to section
  section_write_to (unknown_section id bytes) = write_wasm_section write id bytes

  unfoldable pub write_sections : List Section → S → Bool × S
  write_sections [] = skip
  write_sections (section ∷ sections) = section_write_to section >> write_sections sections

  unfoldable pub module_write_to : ByteOrder → Module → S → Bool × S
  module_write_to h m =
      write_uint32_le write h m.magic
      >> write_uint32_le write h m.version
      >> write_sections m.sections
