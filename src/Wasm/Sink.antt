-- ===== src/Wasm/Sink.antt =====
-- Callbacks that take some of the bytes at every call, and what a write of all the bytes leaves.
use libnetq.Prelude.{
  ℕ, zero, suc, ◌+◌, ◌-◌, ◌^◌, ◌≤◌, ◌≡◌, refl, sym, ap, ◌∙◌, List, [], ◌∷◌, ◌++◌, append-nil,
  append_assoc, Bool, true, false, leb, if◌then◌else◌, arith, length, take, drop, min,
  take-append-drop, length-drop,
}
use mathlib.Core.Path.{subst}
use libnetq.Prelude.Int.{ℤ, pos, negsuc}
use libnetq.Endian.{ByteOrder, little, big, store, host_to_le32, byte_swap32, le_bytes}
use libnetq.BufferBuilder.{overwrite}
use libnetq.BufferBuilder.RoundTrip.{take-overwrite}
use libnetq.Leb128.Encode.{positive_chunks, unsigned_length, emit, encode_unsigned}
use libnetq.Leb128.UnsignedRoundTrip.{length-positive_chunks}
use libnetq.Wasm.Module.{wasm_magic, wasm_version}
use libnetq.Wasm.Write.{
  leb128_buffer, encoded, write_byte_buffer, ◌>>◌, then_write, skip, wrote, write_rounds, write_all,
}

-- What a callback made of the bytes: it fails and takes none, or it takes the first of them, at least
-- one, and keeps them in order. `fails` says whether it may fail.
abbrev pub Taken : {S : Type 0} → Type 0 → (S → List ℕ) → List ℕ → S → ℤ × S → Type 0
Taken fails kept bytes s (pos zero, s') = fails × (kept s' ≡ kept s)
Taken fails kept bytes s (pos (suc n), s') =
    (suc n ≤ length bytes) × (kept s' ≡ kept s ++ take (suc n) bytes)
Taken fails kept bytes s (negsuc n, s') = fails × (kept s' ≡ kept s)

pub record Sink {S : Type 0} (fails : Type 0) (write : List ℕ → S → ℤ × S) (kept : S → List ℕ)
    : Type 0 where
  pub takes :
      (b : ℕ) (bytes : List ℕ) (s : S) → Taken fails kept (b ∷ bytes) s (write (b ∷ bytes) s)

pub write_byte_buffer-Sink : Sink ⊥ write_byte_buffer (λ buffer. buffer)
write_byte_buffer-Sink = record {
  takes = λ b bytes buffer.
      let all : List ℕ = b ∷ bytes in
      let n = min (2 ^ 31 - 1) (length all) in
      let e : n ≡ suc (n - 1) = omega arith in
      subst (λ k. Taken ⊥ (λ buffer. buffer) all buffer (pos k, buffer ++ take n all)) (sym e)
        (omega arith, ap (λ k. buffer ++ take k all) e);
}

-- The bytes of a number, as the encoder leaves them in its buffer.
unsigned_length_le : (rungs n v : ℕ) → unsigned_length rungs n v ≤ n + rungs
unfolding unsigned_length
unsigned_length_le zero n v = omega arith
unsigned_length_le (suc rungs) n v = ground (arith, unsigned_length_le rungs (n + 1) v)

pub encoded_lem :
    (rungs v : ℕ)
    → rungs ≤ 9
    → encoded (encode_unsigned rungs leb128_buffer 10 v)
      ≡ positive_chunks v 0 (unsigned_length rungs 1 v)
unfolding encode_unsigned emit
encoded_lem rungs v h =
    let n = unsigned_length rungs 1 v in
    let chunks = positive_chunks v 0 n in
    let room : leb n 10 ≡ true = ground (arith, unsigned_length_le rungs 1 v) in
    let len = length-positive_chunks v 0 n in
    let empty : List ℕ = 0 ∷ 0 ∷ 0 ∷ 0 ∷ 0 ∷ 0 ∷ 0 ∷ 0 ∷ 0 ∷ 0 ∷ [] in
    ap (λ t. take n (if t then overwrite chunks empty else empty)) room
    ∙ ap (λ k. take k (overwrite chunks empty)) (sym len)
    ∙ take-overwrite chunks empty (omega (arith, len, unsigned_length_le rungs 1 v))

pub magic_bytes :
    (h : ByteOrder) → store h 4 (host_to_le32 h wasm_magic) ≡ 0x00 ∷ 0x61 ∷ 0x73 ∷ 0x6d ∷ []
unfolding store host_to_le32 byte_swap32 le_bytes
magic_bytes little = refl
magic_bytes big = refl

pub version_bytes :
    (h : ByteOrder) → store h 4 (host_to_le32 h wasm_version) ≡ 0x01 ∷ 0x00 ∷ 0x00 ∷ 0x00 ∷ []
unfolding store host_to_le32 byte_swap32 le_bytes
version_bytes little = refl
version_bytes big = refl

-- What a write has kept: all of the text, or, where the callback failed, a beginning of it.
abbrev pub IsWritten : {S : Type 0} → Type 0 → (S → List ℕ) → S → List ℕ → Bool × S → Type 0
IsWritten fails kept s text (true, s') = kept s' ≡ kept s ++ text
IsWritten fails kept s text (false, s') =
    fails × (part : List ℕ) × (rest : List ℕ) × (part ++ rest ≡ text) × (kept s' ≡ kept s ++ part)

pub record Prints {S : Type 0} (fails : Type 0) (kept : S → List ℕ) (m : S → Bool × S)
    (text : List ℕ) : Type 0 where
  pub run : (s : S) → IsWritten fails kept s text (m s)

module _ {S : Type 0} (fails : Type 0) (kept : S → List ℕ) where
  IsWritten-behind :
      (s s' : S) (t u : List ℕ)
      → kept s' ≡ kept s ++ t
      → (r : Bool × S) → IsWritten fails kept s' u r
      → IsWritten fails kept s (t ++ u) r
  IsWritten-behind s s' t u e (true, s'') f = f ∙ ap (λ ts. ts ++ u) e ∙ append_assoc (kept s) t u
  IsWritten-behind s s' t u e (false, s'') (x, part, rest, g, f) = (
    x,
    t ++ part,
    rest,
    append_assoc t part rest ∙ ap (λ us. t ++ us) g,
    f ∙ ap (λ ts. ts ++ part) e ∙ append_assoc (kept s) t part,
  )

  IsWritten-then_write :
      (s : S) (k : S → Bool × S) (t u : List ℕ)
      → Prints fails kept k u
      → (r : Bool × S) → IsWritten fails kept s t r
      → IsWritten fails kept s (t ++ u) (then_write r k)
  IsWritten-then_write s k t u q (true, s') e = IsWritten-behind s s' t u e (k s') (q.run s')
  IsWritten-then_write s k t u q (false, s') (x, part, rest, g, f) =
      (x, part, rest ++ u, sym (append_assoc part rest u) ∙ ap (λ ts. ts ++ u) g, f)

module _ {S : Type 0} {fails : Type 0} {kept : S → List ℕ} where
  pub Prints-then :
      {m k : S → Bool × S} {t u : List ℕ}
      → Prints fails kept m t
      → Prints fails kept k u
      → Prints fails kept (m >> k) (t ++ u)
  unfolding ◌>>◌
  Prints-then {m = m} {k = k} {t = t} {u = u} p q = record {
    run = λ s. IsWritten-then_write fails kept s k t u q (m s) (p.run s);
  }

  pub Prints-nothing : Prints fails kept skip []
  Prints-nothing = record { run = λ s. sym (append-nil (kept s)) }

module _ {S : Type 0} (fails : Type 0) (kept : S → List ℕ) where
  IsWritten-wrote :
      (s : S) (bytes : List ℕ) (next : ℕ → S → Bool × S)
      → ((n : ℕ) → Prints fails kept (next (suc n)) (drop (suc n) bytes))
      → (r : ℤ × S) → Taken fails kept bytes s r
      → IsWritten fails kept s bytes (wrote next r)
  IsWritten-wrote s bytes next q (pos zero, s') (x, f) =
      (x, [], bytes, refl, f ∙ sym (append-nil (kept s)))
  IsWritten-wrote s bytes next q (pos (suc n), s') (le, f) =
      subst (λ t. IsWritten fails kept s t (next (suc n) s')) (take-append-drop (suc n) bytes)
        (IsWritten-behind fails kept s s' (take (suc n) bytes) (drop (suc n) bytes) f
          (next (suc n) s') ((q n).run s'))
  IsWritten-wrote s bytes next q (negsuc n, s') (x, f) =
      (x, [], bytes, refl, f ∙ sym (append-nil (kept s)))

module _ {S : Type 0} {fails : Type 0} {write : List ℕ → S → ℤ × S} {kept : S → List ℕ}
    (sink : Sink fails write kept) where
  write_rounds_lem :
      (fuel : ℕ) (bytes : List ℕ)
      → length bytes ≤ fuel
      → Prints fails kept (write_rounds write fuel bytes) bytes
  unfolding write_rounds
  write_rounds_lem fuel [] h = Prints-nothing
  write_rounds_lem zero (b ∷ bytes) h = absurd (omega arith)
  write_rounds_lem (suc fuel) (b ∷ bytes) h = record {
    run = λ s.
        let all : List ℕ = b ∷ bytes in
        IsWritten-wrote fails kept s all (λ n s. write_rounds write fuel (drop n all) s)
          (λ n.
            write_rounds_lem fuel (drop (suc n) all) (omega (arith, h, length-drop (suc n) all)))
          (write all s) (sink.takes b bytes s);
  }

  pub write_all_lem : (bytes : List ℕ) → Prints fails kept (write_all write bytes) bytes
  write_all_lem bytes = write_rounds_lem (length bytes) bytes (omega arith)
