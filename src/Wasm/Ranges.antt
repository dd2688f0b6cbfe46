-- ===== src/Wasm/Ranges.antt =====
-- The sections that are read: their values are in range.
use libnetq.Prelude.{
  ℕ, zero, suc, ◌^◌, ◌<◌, ◌≡◌, refl, sym, ap, List, [], ◌∷◌, Option, none, some, true, false,
  bit_and, ◌==◌, if◌then◌else◌, arith, length, All, IsByte, if_cases,
}
use libnetq.Wasm.{give, read_data, read_leb128_uint64, read_string}
use libnetq.Wasm.Import.{
  function, table, memory, global, ImportItem, ImportSection, Section, import_section,
  unknown_section, is_elem_type, is_mem_type, is_val_type, read_import_function, read_import_table,
  read_import_memory, read_import_global, read_desc, read_import_item, read_items, at_end,
  import_section_from_memory, section_from_memory, as_import,
}
use libnetq.Wasm.Module.{read_section}
use libnetq.Wasm.Text.{IsDesc}
use libnetq.Wasm.Gives.{
  Fine, Gives, Gives-then, Gives-give, Gives-refuse, Gives-guarded, Gives-weaken, Gives-uint8,
  Gives-data, Gives-uint32, Gives-uint64,
}

abbrev pub IsShort : List ℕ → Type 0
IsShort s = length s < 2 ^ 32

Gives-string : Gives IsShort read_string
unfolding read_string
Gives-string =
    Gives-then read_data
      (λ n small. Gives-weaken (λ bytes h. omega (arith, h.0, small)) (Gives-data n)) Gives-uint32

Gives-max_value :
    (memtype : ℕ)
    → Gives
        (λ v. (v < 2 ^ 64) × ((bit_and memtype 1 == 0) ≡ true → v ≡ 0))
        (if bit_and memtype 1 == 0 then give 0 else read_leb128_uint64)
Gives-max_value memtype =
    if_cases (Gives (λ v. (v < 2 ^ 64) × ((bit_and memtype 1 == 0) ≡ true → v ≡ 0)))
      (bit_and memtype 1 == 0) _ _ (λ e. Gives-give 0 (omega arith, λ e. refl))
      (λ e. Gives-weaken (λ v h. (h, λ e'. ground (arith, e, e'))) Gives-uint64)

Gives-function : Gives IsDesc read_import_function
Gives-function = Gives-then _ (λ typeidx h. Gives-give (function typeidx) h) Gives-uint32

Gives-table : Gives IsDesc read_import_table
Gives-table =
    Gives-then _
      (λ elemtype he. Gives-guarded (is_elem_type elemtype) _ (λ e.
        Gives-then _
          (λ l hl. Gives-then _ (λ u hu. Gives-give (table elemtype l u) (e, hl, hu)) Gives-uint32)
          Gives-uint32))
      Gives-uint8

Gives-memory : Gives IsDesc read_import_memory
Gives-memory =
    Gives-then _
      (λ memtype hm. Gives-guarded (is_mem_type memtype) _ (λ e.
        Gives-then _
          (λ l hl.
            Gives-then _ (λ u hu. Gives-give (memory memtype l u) (e, hl, hu.0, hu.1))
              (Gives-max_value memtype))
          Gives-uint64))
      Gives-uint8

Gives-global : Gives IsDesc read_import_global
Gives-global =
    Gives-then _
      (λ valtype hv.
        Gives-guarded (is_val_type valtype) _
          (λ e. Gives-then _ (λ mut hm. Gives-give (global valtype mut) e) Gives-uint8))
      Gives-uint8

Gives-IsDesc : (id : ℕ) → Gives IsDesc (read_desc id)
Gives-IsDesc id =
    if_cases (Gives IsDesc) (id == 0) _ _ (λ e. Gives-function)
      (λ e.
        if_cases (Gives IsDesc) (id == 1) _ _ (λ e. Gives-table)
          (λ e.
            if_cases (Gives IsDesc) (id == 2) _ _ (λ e. Gives-memory)
              (λ e. if_cases (Gives IsDesc) (id == 3) _ _ (λ e. Gives-global) (λ e. Gives-refuse))))

-- An item, a section and a module as they are read.
abbrev pub IsRanged : ImportItem → Type 0
IsRanged i = IsShort i.module_name × IsShort i.item_name × IsDesc i.desc

Gives-item : Gives IsRanged read_import_item
unfolding read_import_item
Gives-item =
    Gives-then _
      (λ m hm.
        Gives-then _
          (λ n hn.
            Gives-then _
              (λ id hid. Gives-then _ (λ d hd. Gives-give _ (hm, hn, hd)) (Gives-IsDesc id))
              Gives-uint8)
          Gives-string)
      Gives-string

Gives-items : (count : ℕ) → Gives (λ is. All IsRanged is × (length is ≡ count)) (read_items count)
unfolding read_items
Gives-items zero = Gives-give [] (tt, refl)
Gives-items (suc count) =
    Gives-then _
      (λ i hi.
        Gives-then _ (λ is his. Gives-give _ ((hi, his.0), ap suc his.1)) (Gives-items count))
      Gives-item

abbrev pub IsRangedSection : Section → Type 0
IsRangedSection (import_section s) =
    All IsRanged s.items × (s.item_count ≡ length s.items) × (s.item_count < 2 ^ 32)
IsRangedSection (unknown_section id bytes) = ((id == 2) ≡ false) × IsShort bytes

abbrev pub Given : {A : Type 0} → (A → Type 0) → Option A → Type 0
Given P none = Unit
Given P (some a) = P a

pub Given-Fine : {A : Type 0} (P : A → Type 0) (r : Option A × List ℕ) → Fine P r → Given P r.0
Given-Fine P (none, rest) h = tt
Given-Fine P (some a, rest) (h, g) = h

abbrev IsRangedImport : ImportSection → Type 0
IsRangedImport s = IsRangedSection (import_section s)

at_end-Fine :
    {A : Type 0} (P : A → Type 0) (a : A) (bytes : List ℕ)
    → P a
    → All IsByte bytes
    → Fine P (at_end a bytes)
at_end-Fine P a [] h g = (h, tt)
at_end-Fine P a (b ∷ bytes) h g = tt

Given-imports :
    (bytes : List ℕ) → All IsByte bytes → Given IsRangedImport (import_section_from_memory bytes)
unfolding import_section_from_memory
Given-imports bytes g =
    let all =
      Gives-then _
        (λ count hc.
          Gives-then {Q = IsRangedImport} _
            (λ is his. record {
              run = λ bytes g. at_end-Fine IsRangedImport _ bytes (his.0, sym his.1, hc) g;
            })
            (Gives-items count))
        Gives-uint32 in
    Given-Fine IsRangedImport _ (all.run bytes g)

Given-as_import :
    (o : Option ImportSection) → Given IsRangedImport o → Given IsRangedSection (as_import o)
Given-as_import none h = tt
Given-as_import (some s) h = h

Given-section :
    (id : ℕ) (bytes : List ℕ)
    → IsShort bytes
    → All IsByte bytes
    → Given IsRangedSection (section_from_memory id bytes)
unfolding section_from_memory
Given-section id bytes small g =
    if_cases (Given IsRangedSection) (id == 2) _ _
      (λ e. Given-as_import (import_section_from_memory bytes) (Given-imports bytes g))
      (λ e. (e, small))

Fine-Given :
    {A : Type 0} (P : A → Type 0) (o : Option A) (rest : List ℕ)
    → Given P o
    → All IsByte rest
    → Fine P (o, rest)
Fine-Given P none rest h g = tt
Fine-Given P (some a) rest h g = (h, g)

pub Gives-section : Gives IsRangedSection read_section
unfolding read_section
Gives-section =
    Gives-then _
      (λ id hid.
        Gives-then _
          (λ n small.
            Gives-then _
              (λ content hc. record {
                run = λ bytes g.
                    let short : IsShort content = omega (arith, hc.0, small) in
                    Fine-Given IsRangedSection (section_from_memory id content) bytes
                      (Given-section id content short hc.1) g;
              })
              (Gives-data n))
          Gives-uint32)
      Gives-uint8
