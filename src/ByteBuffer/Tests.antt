-- ===== src/ByteBuffer/Tests.antt =====
-- A buffer used on concrete bytes, in blocks that are full of the byte 0xAA at first.
use libnetq.Prelude.{
  ℕ, ◌≤◌, ◌≡◌, refl, List, [], ◌∷◌, Option, none, some, true, false, length-replicate, replicate,
  arith,
}
use libnetq.ByteBuffer.{ByteBuffer, init, append, insert}
use libnetq.ByteBuffer.Holds.{Allocates, init-Holds}
use libnetq.ByteBuffer.Run.{
  Op, append_op, insert_op, remove_op, shrink_op, run, apply_all, contents, run-apply_all,
}
use libnetq.ByteBuffer.Refused.{allocation_refused}

abbrev malloc : ℕ → Option (List ℕ)
malloc n = some (replicate n 0xAA)

malloc-Allocates : Allocates malloc
malloc-Allocates n h = (replicate n 0xAA, refl, length-replicate {A = ℕ} n 0xAA)

-- "ad", then "bc" between, then a byte behind the end, then the first is removed, and
-- five are kept.
abbrev ops : List Op
ops =
    append_op (0x61 ∷ 0x64 ∷ [])
    ∷ insert_op 1 (0x62 ∷ 0x63 ∷ [])
    ∷ insert_op 6 (0x65 ∷ [])
    ∷ remove_op 0 1
    ∷ shrink_op 5
    ∷ []

ops_bytes : apply_all ops [] ≡ 0x62 ∷ 0x63 ∷ 0x64 ∷ 0 ∷ 0 ∷ []
ops_bytes = refl

run-apply_all_example :
    (b : ByteBuffer) × (run malloc ops init ≡ some (true, b))
    × (contents b ≡ apply_all ops [])
    × (b.size ≤ b.capacity)
run-apply_all_example = run-apply_all malloc ops malloc-Allocates refl

allocation_refused_example :
    (append (λ n. none) (0x61 ∷ []) init ≡ some (false, init))
    × (insert (λ n. none) 0 (0x61 ∷ []) init ≡ none)
allocation_refused_example =
    allocation_refused (λ n. none) 0x61 [] init-Holds (omega arith) (omega arith) refl
