-- ===== src/Wasm/Again.antt =====
-- The modules that are read, written and read again.
use libnetq.Prelude.{
  ℕ, zero, suc, ◌≡◌, List, [], ◌∷◌, Option, none, some, true, ltb, ◌==◌, arith, length, All, IsByte,
  if_cases,
}
use libnetq.Prelude.Int.{ℤ}
use libnetq.Endian.{ByteOrder}
use mathlib.Core.Path.{subst}
use libnetq.Json.{c_string}
use libnetq.Wasm.Import.{ImportItem, Section, import_section, unknown_section}
use libnetq.Wasm.Module.{
  Module, wasm_magic, wasm_version, read_uint32_le, read_section, read_sections, with_section,
  module_of, from_memory,
}
use libnetq.Wasm.Write.{module_write_to}
use libnetq.Wasm.Text.{content_text, IsItem, IsSection}
use libnetq.Wasm.Gives.{Fine, Gives, Gives-then, Gives-guarded, All-drop}
use libnetq.Wasm.Sink.{Sink}
use libnetq.Wasm.RoundTrip.{module_write_to-from_memory}
use libnetq.Wasm.Ranges.{IsShort, IsRanged, IsRangedSection, Given, Given-Fine, Gives-section}

with_section-All :
    (next : List ℕ → List Section × List ℕ)
    → ((rest : List ℕ) → All IsByte rest → All IsRangedSection (next rest).0)
    → (r : Option Section × List ℕ) → Fine IsRangedSection r
    → All IsRangedSection (with_section next r).0
with_section-All next h (none, rest) f = tt
with_section-All next h (some s, rest) (f, g) = (f, h rest g)

read_sections-All :
    (fuel : ℕ) (bytes : List ℕ)
    → All IsByte bytes
    → All IsRangedSection (read_sections fuel bytes).0
unfolding read_sections
read_sections-All fuel [] g = tt
read_sections-All zero (b ∷ bytes) g = tt
read_sections-All (suc fuel) (b ∷ bytes) g =
    with_section-All (λ rest. read_sections fuel rest) (read_sections-All fuel)
      (read_section (b ∷ bytes)) (Gives-section.run (b ∷ bytes) g)

abbrev IsRangedModule : Module → Type 0
IsRangedModule m =
    (m.magic ≡ wasm_magic) × (m.version ≡ wasm_version) × All IsRangedSection m.sections

module_of-Fine :
    (magic version : ℕ) (r : List Section × List ℕ)
    → magic ≡ wasm_magic
    → version ≡ wasm_version
    → All IsRangedSection r.0
    → Fine IsRangedModule (module_of magic version r)
module_of-Fine magic version (sections, []) e f h = ((e, f, h), tt)
module_of-Fine magic version (sections, b ∷ bytes) e f h = tt

Gives-word : (h : ByteOrder) → Gives (λ v. Unit) (read_uint32_le h)
unfolding read_uint32_le
Gives-word h = record {
  run = λ bytes g.
      if_cases (Fine (λ v. Unit)) (ltb (length bytes) 4) _ _ (λ e. tt)
        (λ e. (tt, All-drop 4 bytes g));
}

Given-module :
    (h : ByteOrder) (bytes : List ℕ) → All IsByte bytes → Given IsRangedModule (from_memory h bytes)
unfolding from_memory
Given-module h bytes g =
    let all =
      Gives-then {Q = IsRangedModule} _
        (λ magic u. Gives-guarded (magic == wasm_magic) _ (λ e.
          Gives-then {Q = IsRangedModule} _
            (λ version u. Gives-guarded (version == wasm_version) _ (λ f. record {
              run = λ bytes g.
                  module_of-Fine magic version (read_sections (length bytes) bytes)
                    (ground (arith, e)) (ground (arith, f))
                    (read_sections-All (length bytes) bytes g);
            }))
            (Gives-word h)))
        (Gives-word h) in
    Given-Fine IsRangedModule _ (all.run bytes g)

-- Imports whose names hold no character 0 and whose text has a size of 32 bits.
abbrev IsPlain : ImportItem → Type 0
IsPlain i = (c_string i.module_name ≡ i.module_name) × (c_string i.item_name ≡ i.item_name)

abbrev pub IsWritable : Section → Type 0
IsWritable (import_section s) = All IsPlain s.items × IsShort (content_text (import_section s))
IsWritable (unknown_section id bytes) = Unit

All-IsItem : (is : List ImportItem) → All IsRanged is → All IsPlain is → All IsItem is
All-IsItem [] r p = tt
All-IsItem (i ∷ is) ((m, n, d), rs) ((p, q), ps) = (((p, m), (q, n), d), All-IsItem is rs ps)

section-IsSection : (s : Section) → IsRangedSection s → IsWritable s → IsSection s
section-IsSection (import_section s) (is, e, small) (plain, short) =
    ((All-IsItem s.items is plain, e, small), short)
section-IsSection (unknown_section id bytes) (other, short) w = (other, short)

All-IsSection : (ss : List Section) → All IsRangedSection ss → All IsWritable ss → All IsSection ss
All-IsSection [] r w = tt
All-IsSection (s ∷ ss) (r, rs) (w, ws) = (section-IsSection s r w, All-IsSection ss rs ws)

-- A module that was read from any bytes is written by a callback that takes at least one and at most
-- all of the bytes at each call and keeps them in order, and is read again from the bytes kept, where
-- its import names hold no character 0 and the text of its imports is shorter than 4 GiB.
pub from_memory-module_write_to :
    {S : Type 0} (write : List ℕ → S → ℤ × S) (kept : S → List ℕ) (sink : Sink ⊥ write kept)
    (h h' h'' : ByteOrder) (bytes : List ℕ) (m : Module) (s : S)
    → All IsByte bytes
    → from_memory h bytes ≡ some m
    → All IsWritable m.sections
    → kept s ≡ []
    → (s' : S) × (module_write_to write h' m s ≡ (true, s')) × (from_memory h'' (kept s') ≡ some m)
from_memory-module_write_to write kept sink h h' h'' bytes m s g e w empty =
    let (magic, version, ss) = subst (Given IsRangedModule) e (Given-module h bytes g) in
    module_write_to-from_memory write kept sink h' h'' m s
      (magic, version, All-IsSection m.sections ss w) empty
