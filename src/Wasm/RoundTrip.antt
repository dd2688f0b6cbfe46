-- ===== src/Wasm/RoundTrip.antt =====
-- Modules that are written and read again, and what the reader takes for the end of a module.
use libnetq.Prelude.{
  ℕ, ◌≤◌, Option, ltb, take, drop, if◌then◌else◌, zero, suc, ◌^◌, ◌<◌, ◌≡◌, refl, sym, ap, ◌∙◌,
  List, [], ◌∷◌, ◌++◌, append-nil, none, some, Bool, true, false, arith, length,
}
use libnetq.Prelude.Int.{ℤ}
use libnetq.Endian.{ByteOrder}
use libnetq.Wasm.Numbers.{uint32_text-Reads}
use libnetq.Wasm.{then_read, read_data, ◌>>=◌, read_leb128, read_leb128_uint32}
use libnetq.Wasm.Import.{Section, import_section_from_memory, section_from_memory, as_import}
use libnetq.Wasm.Module.{Module, read_section, read_sections, with_section, from_memory}
use libnetq.Wasm.Write.{module_write_to}
use libnetq.Wasm.Text.{uint32_text, string_text, module_text, IsModule}
use libnetq.Wasm.Sections.{IsEnd, module_text-from_memory, string_section}
use libnetq.Wasm.Sink.{Sink, IsWritten}
use libnetq.Wasm.Writing.{module-Prints}

pub IsEnd-nothing : IsEnd []
unfolding read_sections
IsEnd-nothing fuel h = refl

delivered :
    {S : Type 0} (kept : S → List ℕ) (s : S) (text : List ℕ) (r : Bool × S)
    → IsWritten ⊥ kept s text r
    → (s' : S) × (r ≡ (true, s')) × (kept s' ≡ kept s ++ text)
delivered kept s text (true, s') f = (s', refl, f)
delivered kept s text (false, s') (x, part, rest, g, f) = absurd x

-- A well formed module is written by a callback that at each call takes at least one and at most all
-- of the bytes and keeps them in order, or fails and takes none: where the answer is true, the text of
-- the module has been kept behind what was there, and where it is false, a beginning of that text.
-- Well formed is: the module has the magic number and the version of the format;
-- its import names hold no character 0, its numbers are of their widths, its element, memory and value
-- types are those of the format, a memory whose type has no bit for a maximum has the maximum 0; each
-- import section counts the items that it has, no other section has its id, and the content of each
-- section and each name is shorter than 2^32 bytes.
pub module_write_to-IsWritten :
    {S : Type 0} (write : List ℕ → S → ℤ × S) (kept : S → List ℕ) (sink : Sink Unit write kept)
    (h : ByteOrder) (m : Module) (s : S)
    → IsModule m
    → IsWritten Unit kept s (module_text m) (module_write_to write h m s)
module_write_to-IsWritten write kept sink h m s is = (module-Prints sink h m is).run s

-- A well formed module that is written by a callback that takes at least one and at most all of the
-- bytes at each call, and keeps them in order, is read from the bytes kept as the same module, whatever
-- the byte orders of the two hosts. Well formed is: the module has the magic number and the version of the format;
-- its import names hold no character 0, its numbers are of their widths, its element, memory and value
-- types are those of the format, a memory whose type has no bit for a maximum has the maximum 0; each
-- import section counts the items that it has, no other section has its id, and the content of each
-- section and each name is shorter than 2^32 bytes.
pub module_write_to-from_memory :
    {S : Type 0} (write : List ℕ → S → ℤ × S) (kept : S → List ℕ) (sink : Sink ⊥ write kept)
    (h h' : ByteOrder) (m : Module) (s : S)
    → IsModule m
    → kept s ≡ []
    → (s' : S) × (module_write_to write h m s ≡ (true, s')) × (from_memory h' (kept s') ≡ some m)
module_write_to-from_memory write kept sink h h' m s is empty =
    let (s', e, f) =
      delivered kept s (module_text m) (module_write_to write h m s)
        ((module-Prints sink h m is).run s) in
    (
      s',
      e,
      ap (from_memory h')
            (f ∙ ap (λ t. t ++ module_text m) empty ∙ sym (append-nil (module_text m)))
          ∙ module_text-from_memory h' m [] is IsEnd-nothing,
    )

refused-IsEnd : (tail : List ℕ) → read_section tail ≡ (none, []) → IsEnd tail
unfolding read_sections
refused-IsEnd [] e fuel h = refl
refused-IsEnd (b ∷ tail) e zero h = absurd (omega arith)
refused-IsEnd (b ∷ tail) e (suc fuel) h = ap (with_section (λ rest. read_sections fuel rest)) e

bad_imports :
    (content : List ℕ)
    → length content < 2 ^ 32
    → import_section_from_memory content ≡ none
    → read_section (2 ∷ string_text content) ≡ (none, [])
unfolding section_from_memory
bad_imports content small bad =
    ap read_section (sym (append-nil (2 ∷ string_text content)))
    ∙ string_section 2 content [] small
    ∙ ap (λ o. (as_import o, [])) bad

no_content :
    (id size : ℕ) → 1 ≤ size → size < 2 ^ 32 → read_section (id ∷ uint32_text size) ≡ (none, [])
unfolding ◌>>=◌ read_section read_data
no_content id size some_byte small =
    let last : List ℕ → List ℕ → Option Section × List ℕ =
      λ content bytes. (section_from_memory id content, bytes) in
    let missing : ltb 0 size ≡ true = ground (arith, some_byte) in
    ap
      (λ bytes.
        then_read (read_leb128_uint32 bytes) (λ size bytes. then_read (read_data size bytes) last))
      (sym (append-nil (uint32_text size)))
    ∙ ap (λ r. then_read r (λ size bytes. then_read (read_data size bytes) last))
        ((uint32_text-Reads size small).run [])
    ∙ ap (λ t. then_read (if t then (none, []) else (some (take size []), drop size [])) last)
        missing

-- Behind the text of a well formed module, a last section of which there is only the id, one of which there is only
-- the id and a size that is not 0, and a last section of imports whose content cannot be read, are
-- dropped, and the module without them is returned.
pub from_memory_truncated :
    (h : ByteOrder) (m : Module) (id size : ℕ) (content : List ℕ)
    → IsModule m
    → 1 ≤ size
    → size < 2 ^ 32
    → length content < 2 ^ 32
    → import_section_from_memory content ≡ none
    → (from_memory h (module_text m ++ id ∷ []) ≡ some m)
      × (from_memory h (module_text m ++ id ∷ uint32_text size) ≡ some m)
      × (from_memory h (module_text m ++ 2 ∷ string_text content) ≡ some m)
unfolding ◌>>=◌ read_section read_leb128_uint32 read_leb128
from_memory_truncated h m id size content is some_byte small short bad = (
  module_text-from_memory h m (id ∷ []) is (refused-IsEnd (id ∷ []) refl),
  module_text-from_memory h m (id ∷ uint32_text size) is
      (refused-IsEnd (id ∷ uint32_text size) (no_content id size some_byte small)),
  module_text-from_memory h m (2 ∷ string_text content) is
      (refused-IsEnd (2 ∷ string_text content) (bad_imports content short bad)),
)
