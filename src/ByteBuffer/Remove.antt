-- ===== src/ByteBuffer/Remove.antt =====
-- Bytes that are removed, and a buffer that is resized.
use libnetq.Prelude.{
  get_or, take-nil, ℕ, ◌+◌, ◌-◌, ◌%◌, ◌^◌, ◌≤◌, ◌<◌, ◌≡◌, refl, sym, ap, ◌∙◌, List, [], ◌∷◌, ◌++◌,
  append_assoc, Option, none, some, true, leb, if◌then◌else◌, length, length-append, length-take,
  length-drop, take-append-drop, take, drop, arith,
}
use libnetq.ByteBuffer.{ByteBuffer, bind, block_of, with_room, resize, remove_at, read_at, write_at}
use libnetq.ByteBuffer.Memory.{cut, read_at_lem, write_at_lem}
use libnetq.ByteBuffer.Holds.{Holds, Allocates, make_room-Holds}
use mathlib.Core.Path.{subst}
use libnetq.ByteBuffer.Memory.{drop-length}

remove_run :
    {b : ByteBuffer} {xs : List ℕ} (p m q : List ℕ)
    → Holds b xs
    → xs ≡ p ++ (m ++ q)
    → (b' : ByteBuffer) × (remove_at (length p) (length m) b ≡ some b') × Holds b' (p ++ q)
unfolding remove_at
remove_run {b} {xs} p m q h e =
    let i = length p + length m in
    let size : b.size ≡ i + length q =
      omega (arith, h.sized, ap length e, length-append p (m ++ q), length-append m q) in
    let behind = m ++ (q ++ h.slack) in
    let k =
      cut (length q) behind
        (omega (arith, length-append m (q ++ h.slack), length-append q h.slack)) in
    let here : block_of b ≡ p ++ behind =
      h.shape.stored
      ∙ ap (λ t. t ++ h.slack) e
      ∙ append_assoc p (m ++ q) h.slack
      ∙ ap (λ t. p ++ t) (append_assoc m q h.slack) in
    let lengths : length (p ++ behind) ≡ length (p ++ (q ++ k.back)) = omega (
      arith,
      length-append p behind,
      length-append p (q ++ k.back),
      length-append q k.back,
      ap length k.whole,
      length-append k.front k.back,
      k.front_length,
    ) in
    let finish : List ℕ → Option ByteBuffer =
      λ block. some (record b { data_block = some block; size = b.size - length m }) in
    let write : List ℕ → Option ByteBuffer =
      λ rest. bind (write_at (length p) rest (block_of b)) finish in
    let inside : leb i b.size ≡ true = ground (arith, size) in
    let new = record b { data_block = some (p ++ (q ++ k.back)); size = b.size - length m } in
    (
      new,
      ap (λ t. if t then bind (read_at i (b.size - i) (block_of b)) write else none) inside
          ∙ ap (λ o. bind o write)
              (read_at_lem (block_of b) (p ++ m) q h.slack i (b.size - i)
                (here ∙ sym (append_assoc p m _)) (sym (length-append p m)) (omega (arith, size)))
          ∙ ap (λ o. bind o finish)
              (write_at_lem (block_of b) p k.front k.back q (length p)
                (here ∙ ap (λ t. p ++ t) k.whole) refl k.front_length),
      record {
        slack = k.back;
        shape = record {
          stored = sym (append_assoc p q k.back);
          full =
              h.shape.full
              ∙ ap length (sym h.shape.stored ∙ here)
              ∙ lengths
              ∙ ap length (sym (append_assoc p q k.back));
          small = h.shape.small;
        };
        sized = omega (arith, size, length-append p q);
      },
    )

pub remove_at-Holds :
    {b : ByteBuffer} {xs : List ℕ} (position size : ℕ)
    → Holds b xs
    → position + size ≤ length xs
    → (b' : ByteBuffer) × (remove_at position size b ≡ some b')
      × Holds b' (take position xs ++ drop (position + size) xs)
remove_at-Holds {b} {xs} position size h fits =
    let p = take position xs in
    let m = take size (drop position xs) in
    let q = drop size (drop position xs) in
    let whole : xs ≡ p ++ (m ++ q) = sym (
      ap (λ t. p ++ t) (take-append-drop size (drop position xs)) ∙ take-append-drop position xs) in
    let at : length p ≡ position = omega (arith, length-take position xs) in
    let long : length m ≡ size =
      omega (arith, length-take size (drop position xs), length-drop position xs) in
    let (b', e, h') = remove_run p m q h whole in
    let same : q ≡ drop (position + size) xs =
      sym (drop-length (p ++ m) q)
      ∙ ap (λ t. drop (length (p ++ m)) t) (append_assoc p m q ∙ sym whole)
      ∙ ap (λ n. drop n xs) (omega (arith, length-append p m, at, long)) in
    (
      b',
      ap (λ n. remove_at n size b) (sym at) ∙ ap (λ n. remove_at (length p) n b) (sym long) ∙ e,
      subst (λ t. Holds b' (p ++ t)) same h',
    )

-- Of two lists that begin alike, each as long as the other.
common_front : (xs ys s t : List ℕ) → xs ++ s ≡ ys ++ t → take (length xs) ys ≡ take (length ys) xs
common_front [] ys s t e = sym (take-nil (length ys))
common_front (x ∷ xs) [] s t e = refl
common_front (x ∷ xs) (y ∷ ys) s t e =
    ap (λ z. z ∷ take (length xs) ys) (sym (ap (λ l. get_or l 0 0) e))
    ∙ ap (λ l. x ∷ l) (common_front xs ys s t (ap (drop 1) e))

-- Where `malloc` gives every block of less than 2^32 bytes, a resize to less than 2^32 succeeds: the
-- buffer has that size, and the bytes that were there as far as they go.
pub resize_lem :
    (malloc : ℕ → Option (List ℕ)) (size : ℕ) {b : ByteBuffer} {xs : List ℕ}
    → Allocates malloc
    → Holds b xs
    → size < 2 ^ 32
    → (b' : ByteBuffer) × (ys : List ℕ) × (resize malloc size b ≡ some (true, b'))
      × Holds b' ys
      × (length ys ≡ size)
      × (take (length xs) ys ≡ take size xs)
unfolding resize
resize_lem malloc size {b} {xs} gives h small =
    let (b1, e1, h1, enough) = make_room-Holds malloc gives size h small in
    let k = cut size (xs ++ h1.slack) (omega (arith, enough, h1.shape.full)) in
    (
      record b1 { size = size % 2 ^ 32 },
      k.front,
      ap (λ o. bind o (with_room (λ b'. some (true, record b' { size = size % 2 ^ 32 })))) e1,
      record {
        slack = k.back;
        shape = record {
          stored = h1.shape.stored ∙ k.whole;
          full = h1.shape.full ∙ ap length k.whole;
          small = h1.shape.small;
        };
        sized = omega (arith, k.front_length);
      },
      k.front_length,
      common_front xs k.front h1.slack k.back k.whole ∙ ap (λ n. take n xs) k.front_length,
    )
