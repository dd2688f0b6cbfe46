-- ===== src/ByteBuffer/Refused.antt =====
-- An allocation that fails.
use libnetq.Prelude.{
  ℕ, ◌+◌, ◌%◌, ◌^◌, ◌<◌, ◌≡◌, ap, ◌∙◌, List, ◌∷◌, Option, none, some, Bool, false, leb, ◌==◌,
  if◌then◌else◌, length, arith,
}
use libnetq.ByteBuffer.{
  ByteBuffer, bind, block_of, read_at, write_at, next_capacity, with_room, make_room,
  expand_capacity, reserve_capacity, moved, replaced, filled, append, insert, insert_inside,
  shifted,
}
use libnetq.ByteBuffer.Holds.{Holds, next_capacity_bounds}

-- Where the bytes to append do not fit and `malloc` fails, `append` answers false and leaves the
-- buffer as it is, but `insert` of the same bytes at the end writes through a null pointer.
pub allocation_refused :
    (malloc : ℕ → Option (List ℕ)) {b : ByteBuffer} {xs : List ℕ} (c : ℕ) (cs : List ℕ)
    → Holds b xs
    → length xs + length (c ∷ cs) < 2 ^ 32
    → b.capacity < length xs + length (c ∷ cs)
    → malloc (next_capacity b (length xs + length (c ∷ cs))) ≡ none
    → (append malloc (c ∷ cs) b ≡ some (false, b)) × (insert malloc (length xs) (c ∷ cs) b ≡ none)
unfolding append insert insert_inside make_room expand_capacity reserve_capacity moved replaced
allocation_refused malloc {b} {xs} c cs h small full failed =
    let bytes = c ∷ cs in
    let n = length xs + length bytes in
    let m = (b.size + length bytes) % 2 ^ 64 in
    let sum : m ≡ n = omega (arith, h.sized) in
    let (least, most) = next_capacity_bounds b n small in
    let expanded : make_room malloc n b ≡ moved (next_capacity b n) b (malloc (next_capacity b n)) =
      ground arith in
    let goes : ℕ → Option (Bool × ByteBuffer) =
      λ n. bind (make_room malloc n b) (with_room (λ b'. filled b'.size bytes n b')) in
    let opened : append malloc bytes b ≡ goes m = ground (arith, h.sized, sum) in
    let move : ByteBuffer → Option ByteBuffer =
      λ b'. if length xs == b.size then some b' else shifted (length xs) (length bytes) b b' in
    let taken : ℕ → Option ByteBuffer =
      λ n. if leb n b.capacity then some b else replaced malloc n (length xs) b in
    let inserts : ℕ → Option (Bool × ByteBuffer) =
      λ n. bind (bind (taken n) move) (filled (length xs) bytes n) in
    let opened2 : insert malloc (length xs) bytes b ≡ inserts m = ground (arith, h.sized, sum) in
    let grown : taken n ≡ replaced malloc n (length xs) b = ground arith in
    let nothing : replaced malloc n (length xs) b ≡ none =
      ap
        (λ o. bind o (λ new_data. bind (read_at 0 (length xs) (block_of b)) (λ bytes.
          bind (write_at 0 bytes new_data) (λ block.
            some (record b { data_block = some block; capacity = next_capacity b n % 2 ^ 32 })))))
        failed in
    (
      opened
          ∙ ap goes sum
          ∙ ap (λ o. bind o (with_room (λ b'. filled b'.size bytes n b')))
              (expanded ∙ ap (moved (next_capacity b n) b) failed),
      opened2
          ∙ ap inserts sum
          ∙ ap (λ o. bind (bind o move) (filled (length xs) bytes n)) (grown ∙ nothing),
    )
