-- ===== src/Wasm/Reading.antt =====
-- The text of the imports is read as the imports.
use libnetq.Prelude.{
  ℕ, ◌^◌, ◌<◌, ◌≡◌, refl, sym, ap, ◌∙◌, List, [], ◌∷◌, ◌++◌, append_assoc, none, some, Bool, true,
  false, bit_and, ltb, ◌==◌, if◌then◌else◌, arith, length, take, drop, All, Bool-cases, inl, inr,
  length-append,
}
use libnetq.Wasm.{
  Read, ◌>>=◌, then_read, give, read_uint8, read_data, read_leb128_uint64, read_string,
}
use libnetq.Wasm.Import.{
  ImportDesc, function, table, memory, global, ImportItem, guarded, read_desc, read_import_item,
  read_items,
}
use libnetq.Wasm.Write.{import_id}
use libnetq.Wasm.Text.{uint64_text, string_text, desc_text, item_text, items_text, IsDesc, IsItem}
use libnetq.Wasm.Numbers.{Reads, uint32_text-Reads, uint64_text-Reads}

module _ {A B : Type 0} {m : Read A} {s : List ℕ} {a : A} where
  Reads-then :
      (k : A → Read B) {t : List ℕ} {b : B}
      → Reads m s a
      → Reads (k a) t b
      → Reads (m >>= k) (s ++ t) b
  unfolding ◌>>=◌
  Reads-then k {t = t} p q = record {
    run = λ rest.
        ap (λ bytes. then_read (m bytes) k) (append_assoc s t rest)
        ∙ ap (λ r. then_read r k) (p.run (t ++ rest))
        ∙ q.run rest;
  }

  Reads-give : (f : A → B) → Reads m s a → Reads (m >>= λ a. give (f a)) s (f a)
  unfolding ◌>>=◌
  Reads-give f p = record { run = λ rest. ap (λ r. then_read r (λ a. give (f a))) (p.run rest) }

Reads-guarded :
    {A : Type 0} {b : Bool} {m : Read A} {s : List ℕ} {a : A}
    → b ≡ true
    → Reads m s a
    → Reads (guarded b m) s a
Reads-guarded {m = m} {s = s} e p = record {
  run = λ rest. ap (λ b. guarded b m (s ++ rest)) e ∙ p.run rest;
}

read_uint8-Reads : (b : ℕ) → Reads read_uint8 (b ∷ []) b
read_uint8-Reads b = record { run = λ rest. refl }

take-length : (bytes rest : List ℕ) → take (length bytes) (bytes ++ rest) ≡ bytes
take-length [] rest = refl
take-length (b ∷ bytes) rest = ap (λ r. b ∷ r) (take-length bytes rest)

drop-length : (bytes rest : List ℕ) → drop (length bytes) (bytes ++ rest) ≡ rest
drop-length [] rest = refl
drop-length (b ∷ bytes) rest = drop-length bytes rest

pub read_data-Reads : (bytes : List ℕ) → Reads (read_data (length bytes)) bytes bytes
unfolding read_data
read_data-Reads bytes = record {
  run = λ rest.
      let all : List ℕ = bytes ++ rest in
      let enough : ltb (length all) (length bytes) ≡ false =
        ground (arith, length-append bytes rest) in
      ap (λ t. if t then (none, all) else (some (take (length bytes) all), drop (length bytes) all))
        enough
      ∙ ap (λ (bs : List ℕ). (some bs, drop (length bytes) all)) (take-length bytes rest)
      ∙ ap (λ (bs : List ℕ). (some bytes, bs)) (drop-length bytes rest);
}

string_text-Reads : (s : List ℕ) → length s < 2 ^ 32 → Reads read_string (string_text s) s
unfolding read_string
string_text-Reads s h = Reads-then _ (uint32_text-Reads (length s) h) (read_data-Reads s)

max_value-Reads :
    (memtype max_value : ℕ)
    → max_value < 2 ^ 64
    → ((bit_and memtype 1 == 0) ≡ true → max_value ≡ 0)
    → Reads
        (if bit_and memtype 1 == 0 then give 0 else read_leb128_uint64)
        (if bit_and memtype 1 == 0 then [] else uint64_text max_value)
        max_value
max_value-Reads memtype max_value u z = elim (Bool-cases (bit_and memtype 1 == 0)) [
  | inl none_given ↦
      rw none_given (record { run = λ rest. ap (λ v. (some v, rest)) (sym (z none_given)) })
  | inr given ↦ rw given (uint64_text-Reads max_value u)
]

desc_text-Reads : (d : ImportDesc) → IsDesc d → Reads (read_desc (import_id d)) (desc_text d) d
desc_text-Reads (function typeidx) h = Reads-give _ (uint32_text-Reads typeidx h)
desc_text-Reads (table elemtype min_value max_value) (e, l, u) =
    Reads-then _ (read_uint8-Reads elemtype) (
      Reads-guarded e (
        Reads-then _ (uint32_text-Reads min_value l)
          (Reads-give _ (uint32_text-Reads max_value u))))
desc_text-Reads (memory memtype min_value max_value) (e, l, u, z) =
    Reads-then _ (read_uint8-Reads memtype) (
      Reads-guarded e (
        Reads-then _ (uint64_text-Reads min_value l)
          (Reads-give _ (max_value-Reads memtype max_value u z))))
desc_text-Reads (global valtype mut) h =
    Reads-then _ (read_uint8-Reads valtype) (Reads-guarded h (Reads-give _ (read_uint8-Reads mut)))

item_text-Reads : (i : ImportItem) → IsItem i → Reads read_import_item (item_text i) i
unfolding read_import_item
item_text-Reads i (m, n, d) = Reads-then _ (string_text-Reads i.module_name m.1) (
    Reads-then _ (string_text-Reads i.item_name n.1) (
      Reads-then _ (read_uint8-Reads (import_id i.desc)) (Reads-give _ (desc_text-Reads i.desc d))))

pub items_text-Reads :
    (is : List ImportItem) → All IsItem is → Reads (read_items (length is)) (items_text is) is
unfolding read_items
items_text-Reads [] h = record { run = λ rest. refl }
items_text-Reads (i ∷ is) (h, hs) =
    Reads-then _ (item_text-Reads i h) (Reads-give _ (items_text-Reads is hs))
