-- ===== src/BufferBuilder/Stream.antt =====
-- A builder as a stream: the bytes of all writes, one behind another, cut at the end of the memory.
use libnetq.Prelude.{
  ℕ, zero, suc, ◌+◌, ◌-◌, ◌≤◌, ◌<◌, ◌≡◌, refl, ap, ◌∙◌, ◌↔◌, List, [], ◌∷◌, ◌++◌, true, arith,
  length, take, append_assoc, append-nil, bit_or, ltb, length-append, length-take, take-append,
  take_all, take-nil, sym, min, if◌then◌else◌,
}
use libnetq.BufferBuilder.{overwrite}
use libnetq.BufferBuilder.Builder.{
  BufferBuilder, overwrite_at, init, is_overflow, current_position, write,
}
use mathlib.Core.Path.{subst}

-- A sequence of writes.
abbrev pub write_all : List (List ℕ) → BufferBuilder → BufferBuilder
write_all [] b = b
write_all (x ∷ xs) b = write_all xs (write x b).1

abbrev pub concat : List (List ℕ) → List ℕ
concat [] = []
concat (x ∷ xs) = x ++ concat xs

overwrite_at-nil : (i : ℕ) (mem : List ℕ) → overwrite_at i [] mem ≡ mem
overwrite_at-nil zero mem = refl
overwrite_at-nil (suc i) [] = refl
overwrite_at-nil (suc i) (x ∷ mem) = ap (λ r. x ∷ r) (overwrite_at-nil i mem)

overwrite_at-overwrite :
    (xs ys mem : List ℕ)
    → length xs ≤ length mem
    → overwrite_at (length xs) ys (overwrite xs mem) ≡ overwrite (xs ++ ys) mem
overwrite_at-overwrite [] ys mem p = refl
overwrite_at-overwrite (x ∷ xs) ys [] p = absurd (omega arith)
overwrite_at-overwrite (x ∷ xs) ys (m ∷ mem) p =
    ap (λ r. x ∷ r) (overwrite_at-overwrite xs ys mem (omega arith))

-- What one write does, in all three of its branches.
record Wrote (bytes : List ℕ) (b b' : BufferBuilder) : Type 0 where
  position_lem : b'.position ≡ b.position + min b.size (length bytes)
  size_lem : b'.size ≡ b.size - length bytes
  memory_lem : b'.memory ≡ overwrite_at b.position (take b.size bytes) b.memory
  flags_lem : b'.flags ≡ (if ltb b.size (length bytes) then bit_or b.flags 1 else b.flags)

write-Wrote : (bytes : List ℕ) (b : BufferBuilder) → Wrote bytes b (write bytes b).1
unfolding write
write-Wrote bytes b = record {
  position_lem = ground arith;
  size_lem = ground arith;
  memory_lem = ground (
    arith,
    overwrite_at-nil b.position b.memory,
    take_all (length bytes) bytes,
    take_all b.size bytes,
    take_none,
  );
  flags_lem = ground arith;
}
  where
    take_none : b.size ≡ 0 → take b.size bytes ≡ []
    take_none e = rw e

-- What the state is after the bytes `sent` have been asked for, of a memory of which `size` bytes
-- may be written.
record Holds (memory : List ℕ) (size : ℕ) (sent : List ℕ) (b : BufferBuilder) : Type 0 where
  position_lem : b.position ≡ length (take size sent)
  size_lem : b.size ≡ size - length sent
  memory_lem : b.memory ≡ overwrite (take size sent) memory
  flags_lem : b.flags ≡ (if ltb size (length sent) then 1 else 0)

write-Holds :
    (memory : List ℕ) (size : ℕ) (sent bytes : List ℕ) (b : BufferBuilder)
    → size ≤ length memory
    → Holds memory size sent b
    → Holds memory size (sent ++ bytes) (write bytes b).1
write-Holds memory size sent bytes b p h = record {
  position_lem = ground (
    arith,
    w.position_lem,
    h.position_lem,
    h.size_lem,
    length-take size sent,
    length-take size (sent ++ bytes),
    length-append sent bytes,
  );
  size_lem = ground (arith, w.size_lem, h.size_lem, length-append sent bytes);
  memory_lem = ground (
    arith,
    w.memory_lem,
    h.memory_lem,
    h.position_lem,
    h.size_lem,
    take-append size sent bytes,
    overwrite_at-overwrite (take size sent) (take b.size bytes) memory,
    length-take size sent,
  );
  flags_lem = ground (arith, w.flags_lem, h.flags_lem, h.size_lem, length-append sent bytes);
}
  where
    w : Wrote bytes b (write bytes b).1
    w = write-Wrote bytes b

write_all-Holds :
    (memory : List ℕ) (size : ℕ) (sent : List ℕ) (chunks : List (List ℕ)) (b : BufferBuilder)
    → size ≤ length memory
    → Holds memory size sent b
    → Holds memory size (sent ++ concat chunks) (write_all chunks b)
write_all-Holds memory size sent [] b p h = rw (append-nil sent) h
write_all-Holds memory size sent (x ∷ xs) b p h =
    subst (λ (all : List ℕ). Holds memory size all (write_all xs (write x b).1))
      (append_assoc sent x (concat xs))
      (write_all-Holds memory size (sent ++ x) xs (write x b).1 p
        (write-Holds memory size sent x b p h))

-- After `NQBufferBuilder_init` with `size` bytes of the memory and any sequence of writes, the
-- memory starts with the bytes of all writes, one behind another, cut after `size` bytes, and is as
-- before behind them; the position is the number of those bytes; and the builder reports an
-- overflow exactly if more than `size` bytes were asked for.
pub write_all_lem :
    (memory : List ℕ) (size : ℕ) (chunks : List (List ℕ))
    → size ≤ length memory
    → let b = write_all chunks (init memory size) in
      (b.memory ≡ overwrite (take size (concat chunks)) memory)
      × (current_position b ≡ min size (length (concat chunks)))
      × ((is_overflow b ≡ true) ↔ (size < length (concat chunks)))
unfolding init is_overflow current_position
write_all_lem memory size chunks p =
    (h.memory_lem, h.position_lem ∙ length-take size (concat chunks), ground (arith, h.flags_lem))
  where
    start : Holds memory size [] (init memory size)
    start = record {
      position_lem = sym (ap (λ (r : List ℕ). length r) (take-nil size));
      size_lem = omega arith;
      memory_lem = sym (ap (λ (r : List ℕ). overwrite r memory) (take-nil size));
      flags_lem = ground arith;
    }

    h : Holds memory size (concat chunks) (write_all chunks (init memory size))
    h = write_all-Holds memory size [] chunks (init memory size) p start
