-- ===== src/ByteBuffer/Run.antt =====
-- A buffer and the list of its bytes, operation by operation.
use libnetq.Prelude.{
  ℕ, ◌+◌, ◌^◌, ◌≤◌, ◌<◌, ◌≡◌, refl, sym, ap, ◌∙◌, max, List, [], ◌∷◌, ◌++◌, Option, none, some,
  Bool, true, leb, ltb, ◌&&◌, length, take, take_all, drop, arith, and_true,
}
use libnetq.ByteBuffer.{
  ByteBuffer, bind, block_of, init, clear, resize, with_room, append, insert, remove_at,
}
use mathlib.Core.Path.{subst}
use libnetq.ByteBuffer.Memory.{take-length}
use libnetq.ByteBuffer.Holds.{Holds, Allocates, room_lem, init-Holds}
use libnetq.ByteBuffer.Remove.{remove_at-Holds, resize_lem}
use libnetq.ByteBuffer.Insert.{splice, append-Holds, insert-Holds}

-- The bytes that a program may read.
abbrev pub contents : ByteBuffer → List ℕ
contents b = take b.size (block_of b)

pub contents-Holds : {b : ByteBuffer} {xs : List ℕ} → Holds b xs → contents b ≡ xs
contents-Holds {b} {xs} h =
    ap (take b.size) h.shape.stored
    ∙ ap (λ n. take n (xs ++ h.slack)) h.sized
    ∙ take-length xs h.slack

pub data Op : Type 0 where
  append_op : List ℕ → Op
  insert_op : ℕ → List ℕ → Op
  remove_op : ℕ → ℕ → Op
  clear_op : Op
  shrink_op : ℕ → Op

-- What an operation does to the bytes.
abbrev pub apply : Op → List ℕ → List ℕ
apply (append_op bytes) xs = xs ++ bytes
apply (insert_op position []) xs = xs
apply (insert_op position (c ∷ cs)) xs = splice position (c ∷ cs) xs
apply (remove_op position size) xs = take position xs ++ drop (position + size) xs
apply clear_op xs = []
apply (shrink_op size) xs = take size xs

-- The bytes after it are fewer than 2^32, and those removed or kept are there.
abbrev pub allowed : Op → List ℕ → Bool
allowed (append_op bytes) xs = ltb (length xs + length bytes) (2 ^ 32)
allowed (insert_op position bytes) xs = ltb (max position (length xs) + length bytes) (2 ^ 32)
allowed (remove_op position size) xs = leb (position + size) (length xs)
allowed clear_op xs = true
allowed (shrink_op size) xs = leb size (length xs)

abbrev pub apply_all : List Op → List ℕ → List ℕ
apply_all [] xs = xs
apply_all (op ∷ ops) xs = apply_all ops (apply op xs)

abbrev pub all_allowed : List Op → List ℕ → Bool
all_allowed [] xs = true
all_allowed (op ∷ ops) xs = allowed op xs && all_allowed ops (apply op xs)

abbrev succeeded : Option ByteBuffer → Option (Bool × ByteBuffer)
succeeded none = none
succeeded (some b) = some (true, b)

module _ (malloc : ℕ → Option (List ℕ)) where
  abbrev pub perform : Op → ByteBuffer → Option (Bool × ByteBuffer)
  perform (append_op bytes) b = append malloc bytes b
  perform (insert_op position bytes) b = insert malloc position bytes b
  perform (remove_op position size) b = succeeded (remove_at position size b)
  perform clear_op b = some (true, clear b)
  perform (shrink_op size) b = resize malloc size b

  -- One operation after the other, as long as they succeed.
  abbrev pub run : List Op → ByteBuffer → Option (Bool × ByteBuffer)
  run [] b = some (true, b)
  run (op ∷ ops) b = bind (perform op b) (with_room (run ops))

  module _ (gives : Allocates malloc) where
    perform-Holds :
        (op : Op) {b : ByteBuffer} {xs : List ℕ}
        → Holds b xs
        → allowed op xs ≡ true
        → (b' : ByteBuffer) × (perform op b ≡ some (true, b')) × Holds b' (apply op xs)
    unfolding insert
    perform-Holds (append_op bytes) h a = append-Holds malloc gives bytes h (ground arith)
    perform-Holds (insert_op position []) {b} h a = (b, refl, h)
    perform-Holds (insert_op position (c ∷ cs)) h a =
        insert-Holds malloc gives position c cs h (ground arith)
    perform-Holds (remove_op position size) h a =
        let (b', e, h') = remove_at-Holds position size h (ground arith) in (b', ap succeeded e, h')
    perform-Holds clear_op h a = (init, refl, init-Holds)
    perform-Holds (shrink_op size) {xs = xs} h a =
        let fits : length xs < 2 ^ 32 = omega (arith, room_lem h, h.shape.small) in
        let (b', ys, e, h', len, front) =
          resize_lem malloc size gives h (ground (arith, a, fits)) in
        let same : ys ≡ take size xs =
          sym (take_all (length xs) ys (ground (arith, a, len))) ∙ front in
        (b', e, subst (Holds b') same h')

    run-Holds :
        (ops : List Op) {b : ByteBuffer} {xs : List ℕ}
        → Holds b xs
        → all_allowed ops xs ≡ true
        → (b' : ByteBuffer) × (run ops b ≡ some (true, b')) × Holds b' (apply_all ops xs)
    run-Holds [] {b} h a = (b, refl, h)
    run-Holds (op ∷ ops) {b} {xs} h a =
        let (first, others) = and_true (allowed op xs) _ a in
        let (b1, e1, h1) = perform-Holds op h first in
        let (b2, e2, h2) = run-Holds ops h1 others in
        (b2, ap (λ o. bind o (with_room (run ops))) e1 ∙ e2, h2)

-- With a `malloc` that gives every block of less than 2^32 bytes, any sequence of appends, insertions,
-- removals, clearings and resizes to a smaller or the same size, on an empty buffer, as long as the
-- bytes stay fewer than 2^32 and only bytes that are there are removed, succeeds, touches no memory
-- outside the block, and leaves the bytes that the same operations on a list leave.
pub run-apply_all :
    (malloc : ℕ → Option (List ℕ)) (ops : List Op)
    → Allocates malloc
    → all_allowed ops [] ≡ true
    → (b : ByteBuffer) × (run malloc ops init ≡ some (true, b))
      × (contents b ≡ apply_all ops [])
      × (b.size ≤ b.capacity)
run-apply_all malloc ops gives a =
    let (b, e, h) = run-Holds malloc gives ops init-Holds a in
    (b, e, contents-Holds h, omega (arith, room_lem h, h.sized))
