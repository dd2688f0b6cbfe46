-- ===== src/Wasm/Writing.antt =====
-- What the writes leave with a callback that takes some of the bytes at every call.
use libnetq.Prelude.{
  ℕ, ◌%◌, ◌^◌, ◌<◌, ◌≡◌, sym, List, [], ◌∷◌, Bool, true, false, bit_and, ◌==◌, arith, length, take,
  All, Bool-cases, inl, inr, take_all,
}
use libnetq.Prelude.Int.{ℤ}
use libnetq.Endian.{ByteOrder, store, host_to_le32}
use native.Mathlib.Nat.{mod-eq_of_lt}
use mathlib.Core.Path.{subst}
use libnetq.Leb128.Encode.{encode_uint32, encode_uint64}
use libnetq.Wasm.Import.{
  ImportDesc, function, table, memory, global, ImportItem, ImportSection, Section, import_section,
  unknown_section,
}
use libnetq.Wasm.Module.{Module, wasm_magic}
use libnetq.Wasm.Write.{
  write_wasm_section, write_byte_buffer, import_id, ◌>>◌, write_all, write_leb128_uint32,
  write_leb128_uint64, write_string, write_desc, write_item, write_items,
  write_import_section_content, from_buffer, import_section_write_to, section_write_to,
  write_sections, module_write_to,
}
use libnetq.Wasm.Text.{
  uint32_text, uint64_text, string_text, desc_text, item_text, items_text, content_text,
  section_text, sections_text, module_text, IsName, IsItem, IsSection, IsModule,
}
use libnetq.Wasm.Sink.{
  Sink, Prints, Prints-then, Prints-nothing, IsWritten, magic_bytes, version_bytes, encoded_lem,
  write_byte_buffer-Sink, write_all_lem,
}

module _ {S : Type 0} {fails : Type 0} {write : List ℕ → S → ℤ × S} {kept : S → List ℕ}
    (sink : Sink fails write kept) where
  uint32-Prints : (v : ℕ) → Prints fails kept (write_leb128_uint32 write v) (uint32_text v)
  unfolding encode_uint32
  uint32-Prints v =
      subst (λ t. Prints fails kept (write_all write t) (uint32_text v))
        (sym (encoded_lem 4 v (omega arith))) (write_all_lem sink (uint32_text v))

  uint64-Prints : (v : ℕ) → Prints fails kept (write_leb128_uint64 write v) (uint64_text v)
  unfolding encode_uint64
  uint64-Prints v =
      subst (λ t. Prints fails kept (write_all write t) (uint64_text v))
        (sym (encoded_lem 9 v (omega arith))) (write_all_lem sink (uint64_text v))

  sized-Prints :
      (bytes : List ℕ)
      → length bytes < 2 ^ 32
      → Prints fails kept
          (write_leb128_uint32 write (length bytes % 2 ^ 32)
            >> write_all write (take (length bytes % 2 ^ 32) bytes))
          (string_text bytes)
  sized-Prints bytes h =
      let e : length bytes % 2 ^ 32 ≡ length bytes = mod-eq_of_lt h in
      subst
        (λ n.
          Prints fails kept (write_leb128_uint32 write n >> write_all write (take n bytes))
            (string_text bytes))
        (sym e)
        (subst
          (λ t.
            Prints fails kept (write_leb128_uint32 write (length bytes) >> write_all write t)
              (string_text bytes))
          (sym (take_all (length bytes) bytes (omega arith)))
          (Prints-then (uint32-Prints (length bytes)) (write_all_lem sink bytes)))

  string-Prints : (s : List ℕ) → IsName s → Prints fails kept (write_string write s) (string_text s)
  string-Prints s (e, h) =
      subst
        (λ t.
          Prints fails kept
            (write_leb128_uint32 write (length t % 2 ^ 32)
              >> write_all write (take (length t % 2 ^ 32) t))
            (string_text s))
        (sym e) (sized-Prints s h)

  desc-Prints : (d : ImportDesc) → Prints fails kept (write_desc write d) (desc_text d)
  desc-Prints (function typeidx) = uint32-Prints typeidx
  desc-Prints (table elemtype min_value max_value) =
      Prints-then (write_all_lem sink (elemtype ∷ []))
        (Prints-then (uint32-Prints min_value) (uint32-Prints max_value))
  desc-Prints (memory memtype min_value max_value) =
      Prints-then (write_all_lem sink (memtype ∷ [])) (
        Prints-then (uint64-Prints min_value) (elim (Bool-cases (bit_and memtype 1 == 0)) [
          | inl none_given ↦ rw none_given Prints-nothing
          | inr given ↦ rw given (uint64-Prints max_value)
        ]))
  desc-Prints (global valtype mut) =
      Prints-then (write_all_lem sink (valtype ∷ [])) (write_all_lem sink (mut ∷ []))

  item-Prints : (i : ImportItem) → IsItem i → Prints fails kept (write_item write i) (item_text i)
  item-Prints i (m, n, d) = Prints-then (string-Prints i.module_name m) (
      Prints-then (string-Prints i.item_name n)
        (Prints-then (write_all_lem sink (import_id i.desc ∷ [])) (desc-Prints i.desc)))

  items-Prints :
      (is : List ImportItem)
      → All IsItem is
      → Prints fails kept (write_items write is) (items_text is)
  items-Prints [] h = Prints-nothing
  items-Prints (i ∷ is) (h, hs) = Prints-then (item-Prints i h) (items-Prints is hs)

  content-Prints :
      (s : ImportSection)
      → All IsItem s.items
      → Prints fails kept (write_import_section_content write s) (content_text (import_section s))
  content-Prints s h = Prints-then (uint32-Prints s.item_count) (items-Prints s.items h)

module _ {S : Type 0} {fails : Type 0} {write : List ℕ → S → ℤ × S} {kept : S → List ℕ}
    (sink : Sink fails write kept) where
  from_buffer-Prints :
      (content : List ℕ) {text : List ℕ}
      → Prints fails kept (write_wasm_section write 2 content) text
      → (r : Bool × List ℕ) → IsWritten ⊥ (λ buffer. buffer) [] content r
      → Prints fails kept (from_buffer write r) text
  from_buffer-Prints content {text = text} p (true, buffer) f =
      subst (λ b. Prints fails kept (from_buffer write (true, b)) text) (sym f) p
  from_buffer-Prints content p (false, buffer) (x, part, rest, g, f) = absurd x

  section-Prints :
      (s : Section) → IsSection s → Prints fails kept (section_write_to write s) (section_text s)
  unfolding section_write_to import_section_write_to
  section-Prints (import_section s) (h, small) =
      let written =
        Prints-then (write_all_lem sink (2 ∷ []))
          (sized-Prints sink (content_text (import_section s)) small) in
      from_buffer-Prints (content_text (import_section s)) written
        (write_import_section_content write_byte_buffer s [])
        ((content-Prints write_byte_buffer-Sink s h.0).run [])
  section-Prints (unknown_section id bytes) (h, small) =
      Prints-then (write_all_lem sink (id ∷ [])) (sized-Prints sink bytes small)

  sections-Prints :
      (ss : List Section)
      → All IsSection ss
      → Prints fails kept (write_sections write ss) (sections_text ss)
  unfolding write_sections
  sections-Prints [] h = Prints-nothing
  sections-Prints (s ∷ ss) (h, hs) = Prints-then (section-Prints s h) (sections-Prints ss hs)

  word-Prints :
      {bytes text : List ℕ} → bytes ≡ text → Prints fails kept (write_all write bytes) text
  word-Prints {bytes = bytes} e =
      subst (Prints fails kept (write_all write bytes)) e (write_all_lem sink bytes)

  pub module-Prints :
      (h : ByteOrder) (m : Module)
      → IsModule m
      → Prints fails kept (module_write_to write h m) (module_text m)
  unfolding module_write_to
  module-Prints h m (magic, version, ss) =
      let word : ℕ → S → Bool × S = λ v. write_all write (store h 4 (host_to_le32 h v)) in
      subst
        (λ v.
          Prints fails kept (word v >> word m.version >> write_sections write m.sections)
            (module_text m))
        (sym magic)
        (subst
          (λ v.
            Prints fails kept (word wasm_magic >> word v >> write_sections write m.sections)
              (module_text m))
          (sym version)
          (Prints-then (word-Prints (magic_bytes h))
            (Prints-then (word-Prints (version_bytes h)) (sections-Prints m.sections ss))))
