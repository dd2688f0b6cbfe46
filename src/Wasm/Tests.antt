-- ===== src/Wasm/Tests.antt =====
-- Tests of libnetq/wasm/Module.c on modules of an import and a section of code.
use libnetq.Prelude.{
  ℕ, ltb, ◌&&◌, and_true, Bool, sym, ◌∙◌, append-nil, take_all, All, IsByte, suc, ◌-◌, ◌≡◌, refl,
  List, [], ◌∷◌, ◌++◌, none, some, true, ap, arith, length, take, min,
}
use libnetq.Prelude.Int.{ℤ, pos, negsuc}
use libnetq.Endian.{little, big}
use libnetq.Leb128.Incremental
use libnetq.Leb128.Encode.{positive_chunks, unsigned_length}
use libnetq.Timer.{clz_loop}
use libnetq.Wasm.{◌>>=◌, read_leb128, read_leb128_uint32, read_leb128_uint64, read_string}
use libnetq.Wasm.Leb.{read_sum, read_leb128_lem}
use libnetq.Wasm.Import.{
  memory, ImportItem, import_section, unknown_section, import_section_from_memory, read_items,
  read_import_item,
}
use libnetq.Wasm.Module.{Module, wasm_magic, wasm_version, from_memory}
use libnetq.Wasm.Write.{module_write_to}
use libnetq.Wasm.Text.{uint32_text, string_text, module_text, IsItem, IsModule}
use mathlib.Core.Path.{subst}
use libnetq.Wasm.Sink.{Sink, Taken, IsWritten}
use libnetq.Wasm.Sections.{module_text-from_memory}
use libnetq.Wasm.Again.{IsWritable, from_memory-module_write_to}
use libnetq.Wasm.RoundTrip.{
  module_write_to-IsWritten, IsEnd-nothing, module_write_to-from_memory, from_memory_truncated,
}

-- "env", "memory"
abbrev memory_import : ImportItem
memory_import = record {
  module_name = 0x65 ∷ 0x6e ∷ 0x76 ∷ [];
  item_name = 0x6d ∷ 0x65 ∷ 0x6d ∷ 0x6f ∷ 0x72 ∷ 0x79 ∷ [];
  desc = memory 3 1 300;
}

abbrev sample : Module
sample = record {
  magic = wasm_magic;
  version = wasm_version;
  sections =
      import_section (record { items = memory_import ∷ []; item_count = 1 })
      ∷ unknown_section 10 (1 ∷ 2 ∷ 3 ∷ [])
      ∷ [];
}

sample-IsModule : IsModule sample
unfolding positive_chunks unsigned_length
sample-IsModule =
    let item : IsItem memory_import =
      ((refl, omega arith), (refl, omega arith), (refl, omega arith, omega arith, λ e. cc)) in
    (refl, refl, ((((item, tt), refl, omega arith), omega arith), ((refl, omega arith), tt)))

-- A callback that takes two bytes at most.
abbrev write_two : List ℕ → List ℕ → ℤ × List ℕ
write_two bytes buffer = let n = min 2 (length bytes) in (pos n, buffer ++ take n bytes)

abbrev all_bytes : List ℕ → Bool
all_bytes [] = true
all_bytes (b ∷ bytes) = ltb b 256 && all_bytes bytes

all_bytes_lem : (bytes : List ℕ) → all_bytes bytes ≡ true → All IsByte bytes
all_bytes_lem [] e = tt
all_bytes_lem (b ∷ bytes) e =
    let (h, f) = and_true (ltb b 256) (all_bytes bytes) e in
    (ground (arith, h), all_bytes_lem bytes f)

sample-IsByte : All IsByte (module_text sample)
unfolding positive_chunks unsigned_length
sample-IsByte = all_bytes_lem (module_text sample) refl

sample-IsWritable : All IsWritable sample.sections
unfolding positive_chunks unsigned_length
sample-IsWritable = ((((refl, refl), tt), omega arith), (tt, tt))

write_two-Sink : Sink ⊥ write_two (λ buffer. buffer)
write_two-Sink = record {
  takes = λ b bytes buffer.
      let all : List ℕ = b ∷ bytes in
      let n = min 2 (length all) in
      let e : n ≡ suc (n - 1) = omega arith in
      subst (λ k. Taken ⊥ (λ buffer. buffer) all buffer (pos k, buffer ++ take n all)) (sym e)
        (omega arith, ap (λ k. buffer ++ take k all) e);
}

-- A callback that keeps the first bytes and fails with -1 from then on.
abbrev write_once : List ℕ → List ℕ → ℤ × List ℕ
write_once bytes [] = (pos (length bytes), bytes)
write_once bytes (b ∷ buffer) = (negsuc 0, b ∷ buffer)

write_once-Taken :
    (b : ℕ) (bytes buffer : List ℕ)
    → Taken Unit (λ buffer. buffer) (b ∷ bytes) buffer (write_once (b ∷ bytes) buffer)
write_once-Taken b bytes [] =
    (omega arith, sym (take_all (suc (length bytes)) (b ∷ bytes) (omega arith)))
write_once-Taken b bytes (c ∷ buffer) = (tt, refl)

write_once-Sink : Sink Unit write_once (λ buffer. buffer)
write_once-Sink = record { takes = write_once-Taken }

module_write_to-IsWritten_example :
    IsWritten Unit
      (λ buffer. buffer)
      []
      (module_text sample)
      (module_write_to write_once little sample [])
module_write_to-IsWritten_example =
    module_write_to-IsWritten write_once (λ buffer. buffer) write_once-Sink little sample []
      sample-IsModule

-- The sample is read from its text.
sample_read : from_memory little (module_text sample) ≡ some sample
sample_read =
    ap (from_memory little) (sym (append-nil (module_text sample)))
    ∙ module_text-from_memory little sample [] sample-IsModule IsEnd-nothing

from_memory-module_write_to_example :
    (s' : List ℕ) × (module_write_to write_two big sample [] ≡ (true, s'))
    × (from_memory big s' ≡ some sample)
from_memory-module_write_to_example =
    from_memory-module_write_to write_two (λ buffer. buffer) write_two-Sink little big big
      (module_text sample) sample [] sample-IsByte sample_read sample-IsWritable refl

module_write_to-from_memory_example :
    (s' : List ℕ) × (module_write_to write_two little sample [] ≡ (true, s'))
    × (from_memory big s' ≡ some sample)
module_write_to-from_memory_example =
    module_write_to-from_memory write_two (λ buffer. buffer) write_two-Sink little big sample []
      sample-IsModule refl

-- Imports whose count is larger than what follows.
short_imports : import_section_from_memory (3 ∷ []) ≡ none
unfolding import_section_from_memory ◌>>=◌ read_leb128_uint32 read_leb128 read_items
    read_import_item read_string Incremental.update Incremental.get_clz32 clz_loop
short_imports = refl

from_memory_truncated_example :
    (from_memory little (module_text sample ++ 10 ∷ []) ≡ some sample)
    × (from_memory little (module_text sample ++ 10 ∷ uint32_text 5) ≡ some sample)
    × (from_memory little (module_text sample ++ 2 ∷ string_text (3 ∷ [])) ≡ some sample)
from_memory_truncated_example =
    from_memory_truncated little sample 10 5 (3 ∷ []) sample-IsModule (omega arith) (omega arith)
      (omega arith) short_imports

read_leb128_lem_example :
    (read_leb128_uint32 (0xac ∷ 0x02 ∷ 7 ∷ []) ≡ read_sum 4 0 0 (0xac ∷ 0x02 ∷ 7 ∷ []))
    × (read_leb128_uint64 (0xac ∷ 0x02 ∷ 7 ∷ []) ≡ read_sum 8 0 0 (0xac ∷ 0x02 ∷ 7 ∷ []))
read_leb128_lem_example =
    read_leb128_lem (0xac ∷ 0x02 ∷ 7 ∷ []) (omega arith, (omega arith, (omega arith, tt)))
