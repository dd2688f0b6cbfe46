-- ===== src/Wasm/Numbers.antt =====
-- Numbers that are written and read again.
use libnetq.Prelude.{
  ℕ, ◌^◌, ◌<◌, ◌≡◌, sym, ap, ◌∙◌, List, [], ◌∷◌, ◌++◌, Option, none, some, Bool, true, false, ltb,
  if◌then◌else◌, arith, Bool-cases, inl, inr, append-nil,
}
use libnetq.Leb128.Encode.{positive_chunks, unsigned_length}
use libnetq.Wasm.Leb.{read_sum, read_leb128_lem}
use libnetq.Wasm.{
  Read, ◌>>=◌, then_read, give, leb128_round, read_leb128, read_leb128_uint32, read_leb128_uint64,
}
use libnetq.Leb128.Incremental
use libnetq.Leb128.Incremental.{Leb128Dec, update, value_uint32}
use libnetq.Wasm.Text.{uint32_text, uint64_text}
use mathlib.Core.Path.{subst}
use libnetq.Wasm.Chunks.{read_sum-chunks, positive_chunks-IsByte}

pub record Reads {A : Type 0} (m : Read A) (text : List ℕ) (a : A) : Type 0 where
  pub run : (rest : List ℕ) → m (text ++ rest) ≡ (some a, rest)

-- A number is read alike whatever follows it.
module _ (limit : ℕ) (f : Leb128Dec → ℕ) (v : ℕ) (rest : List ℕ) where
  abbrev Yields : Option Leb128Dec × List ℕ → List ℕ → Type 0
  Yields r left = then_read r (λ d. give (f d)) ≡ (some v, left)

  refused : (bytes : List ℕ) → ¬ Yields (none, bytes) []
  refused bytes h = cc

  taken : (d : Leb128Dec) (bytes : List ℕ) → Yields (some d, bytes) [] → (f d ≡ v) × (bytes ≡ [])
  taken d bytes h = (cc, cc)

  round_lem :
      (next next' : Leb128Dec → Option Leb128Dec × List ℕ) (bytes : List ℕ) (r : Bool × Leb128Dec)
      → ((d : Leb128Dec) → Yields (next d) [] → Yields (next' d) rest)
      → Yields (leb128_round limit next bytes r) []
      → Yields (leb128_round limit next' (bytes ++ rest) r) rest
  round_lem next next' bytes (true, d) ih h = elim (Bool-cases (ltb limit (Incremental.size d))) [
    | inl over ↦ absurd (
        refused bytes
          (subst (λ t. Yields (if t then (none, bytes) else (some d, bytes)) []) over h))
    | inr fits ↦
        let (value, all) =
          taken d bytes
            (subst (λ t. Yields (if t then (none, bytes) else (some d, bytes)) []) fits h) in
        ap
          (λ t.
            then_read (if t then (none, bytes ++ rest) else (some d, bytes ++ rest))
              (λ d. give (f d)))
          fits
        ∙ ap (λ w. (some w, bytes ++ rest)) value
        ∙ ap (λ bs. (some v, bs ++ rest)) all
  ]
  round_lem next next' bytes (false, d) ih h = elim (Bool-cases (ltb limit (Incremental.size d))) [
    | inl over ↦
        absurd (refused bytes (subst (λ t. Yields (if t then (none, bytes) else next d) []) over h))
    | inr fits ↦
        ap (λ t. then_read (if t then (none, bytes ++ rest) else next' d) (λ d. give (f d))) fits
        ∙ ih d (subst (λ t. Yields (if t then (none, bytes) else next d) []) fits h)
  ]

  read_leb128-append :
      (bytes : List ℕ) (d : Leb128Dec)
      → Yields (read_leb128 limit d bytes) []
      → Yields (read_leb128 limit d (bytes ++ rest)) rest
  unfolding read_leb128
  read_leb128-append [] d h = absurd (refused [] h)
  read_leb128-append (b ∷ bytes) d h =
      round_lem (λ d. read_leb128 limit d bytes) (λ d. read_leb128 limit d (bytes ++ rest)) bytes
        (update b d) (read_leb128-append bytes) h

number_alone :
    (rungs v : ℕ)
    → positive_chunks v 0 (unsigned_length rungs 1 v) ++ []
      ≡ positive_chunks v 0 (unsigned_length rungs 1 v)
number_alone rungs v = append-nil (positive_chunks v 0 (unsigned_length rungs 1 v))

pub uint32_text-Reads : (v : ℕ) → v < 2 ^ 32 → Reads read_leb128_uint32 (uint32_text v) v
unfolding ◌>>=◌ read_leb128_uint32
uint32_text-Reads v h =
    let bytes = positive_chunks-IsByte v 0 (unsigned_length 4 1 v) in
    let alone = read_sum-chunks 4 4 v [] h (omega arith) in
    let last =
      (read_leb128_lem (uint32_text v) bytes).0
      ∙ ap (read_sum 4 0 0) (sym (number_alone 4 v))
      ∙ alone in
    record {
      run = λ rest.
          read_leb128-append 4 value_uint32 v rest (uint32_text v) (Incremental.init false) last;
    }

pub uint64_text-Reads : (v : ℕ) → v < 2 ^ 64 → Reads read_leb128_uint64 (uint64_text v) v
unfolding ◌>>=◌ read_leb128_uint64
uint64_text-Reads v h =
    let bytes = positive_chunks-IsByte v 0 (unsigned_length 9 1 v) in
    let alone = read_sum-chunks 8 9 v [] h (omega arith) in
    let last =
      (read_leb128_lem (uint64_text v) bytes).1
      ∙ ap (read_sum 8 0 0) (sym (number_alone 9 v))
      ∙ alone in
    record {
      run = λ rest.
          read_leb128-append 8 (λ d. d.value) v rest (uint64_text v) (Incremental.init false) last;
    }
