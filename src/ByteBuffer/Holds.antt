-- ===== src/ByteBuffer/Holds.antt =====
-- What a buffer holds, and the room that it makes.
use libnetq.Prelude.{
  ℕ, ◌+◌, ◌%◌, ◌^◌, ◌≤◌, ◌<◌, ◌≡◌, refl, sym, ap, ◌∙◌, List, [], ◌++◌, Option, some, Bool, true,
  ltb, length, length-append, arith, Bool-cases, inl, inr,
}
use libnetq.ByteBuffer.{
  ByteBuffer, bind, block_of, read_at, write_at, next_capacity, moved, reserve_capacity,
  expand_capacity, make_room, replaced, filled, init,
}
use libnetq.ByteBuffer.Memory.{cut, read_at_lem, write_at_lem}

-- The block of a buffer, as long as the capacity says.
pub record Shape (b : ByteBuffer) (block : List ℕ) : Type 0 where
  pub stored : block_of b ≡ block
  pub full : b.capacity ≡ length block
  pub small : b.capacity < 2 ^ 32

-- The bytes of a buffer, with room behind them.
pub record Holds (b : ByteBuffer) (xs : List ℕ) : Type 0 where
  pub slack : List ℕ
  pub shape : Shape b (xs ++ slack)
  pub sized : b.size ≡ length xs

-- A `malloc` that gives every block of less than 2^32 bytes.
abbrev pub Allocates : (ℕ → Option (List ℕ)) → Type 0
Allocates malloc =
    (n : ℕ) → n < 2 ^ 32 → (block : List ℕ) × (malloc n ≡ some block) × (length block ≡ n)

pub init-Holds : Holds init []
init-Holds = record {
  slack = [];
  shape = record { stored = refl; full = refl; small = omega arith };
  sized = refl;
}

pub room_lem :
    {b : ByteBuffer} {xs : List ℕ} (h : Holds b xs) → b.capacity ≡ length xs + length h.slack
room_lem {xs = xs} h = h.shape.full ∙ length-append xs h.slack

pub next_capacity_bounds :
    (b : ByteBuffer) (n : ℕ) → n < 2 ^ 32 → (n ≤ next_capacity b n) × (next_capacity b n < 2 ^ 32)
unfolding next_capacity
next_capacity_bounds b n h = (omega arith, omega arith)

-- A new block with the first bytes of the old one.
fresh_lem :
    (bytes new : List ℕ)
    → length bytes ≤ length new
    → (junk : List ℕ) × (write_at 0 bytes new ≡ some (bytes ++ junk))
      × (length (bytes ++ junk) ≡ length new)
fresh_lem bytes new h =
    let c = cut (length bytes) new h in
    (
      c.back,
      write_at_lem new [] c.front c.back bytes 0 c.whole refl c.front_length,
      length-append bytes c.back
          ∙ ap (λ n. n + length c.back) (sym c.front_length)
          ∙ sym (length-append c.front c.back)
          ∙ ap length (sym c.whole),
    )

-- What `replaced` leaves: the bytes in front, then bytes of no meaning.
pub record Replaced (b b' : ByteBuffer) (p : List ℕ) (n : ℕ) : Type 0 where
  pub junk : List ℕ
  pub shape : Shape b' (p ++ junk)
  pub same_size : b'.size ≡ b.size
  pub enough : n ≤ b'.capacity

module _ (malloc : ℕ → Option (List ℕ)) (gives : Allocates malloc) where
  pub replaced_lem :
      {b : ByteBuffer} (p q : List ℕ) (new_size n : ℕ)
      → block_of b ≡ p ++ q
      → n ≡ length p
      → n ≤ new_size
      → new_size < 2 ^ 32
      → (b' : ByteBuffer) × (replaced malloc new_size n b ≡ some b') × Replaced b b' p new_size
  unfolding replaced
  replaced_lem {b} p q new_size n e l h small =
      let (least, most) = next_capacity_bounds b new_size small in
      let capacity = next_capacity b new_size in
      let (new, given, new_length) = gives capacity most in
      let (junk, written, same_length) = fresh_lem p new (omega (arith, new_length, l)) in
      let same : capacity % 2 ^ 32 ≡ capacity = omega (arith, most) in
      let finish : List ℕ → Option ByteBuffer =
        λ block. some (record b { data_block = some block; capacity = capacity % 2 ^ 32 }) in
      (
        record b { data_block = some (p ++ junk); capacity = capacity % 2 ^ 32 },
        ap
              (λ o. bind o (λ new.
                bind (read_at 0 n (block_of b)) (λ bytes. bind (write_at 0 bytes new) finish)))
              given
            ∙ ap (λ o. bind o (λ bytes. bind (write_at 0 bytes new) finish))
                (read_at_lem (block_of b) [] p q 0 n e refl l)
            ∙ ap (λ o. bind o finish) written,
        record {
          junk = junk;
          shape = record {
            stored = refl;
            full = same ∙ sym new_length ∙ sym same_length;
            small = omega (arith, same);
          };
          same_size = refl;
          enough = omega (arith, same);
        },
      )

  moved-Holds :
      {b : ByteBuffer} {xs : List ℕ} (n : ℕ)
      → Holds b xs
      → b.capacity < n
      → n < 2 ^ 32
      → (b' : ByteBuffer) × (moved n b (malloc n) ≡ some (true, b'))
        × Holds b' xs
        × (n ≤ b'.capacity)
  unfolding moved
  moved-Holds {b} {xs} n h more small =
      let (new, given, new_length) = gives n small in
      let (junk, written, same_length) = fresh_lem xs new (omega (arith, new_length, room_lem h)) in
      let finish : List ℕ → Option (Bool × ByteBuffer) =
        λ block. some (true, record b { data_block = some block; capacity = n }) in
      (
        record b { data_block = some (xs ++ junk); capacity = n },
        ap (moved n b) given
            ∙ ap (λ o. bind o (λ bytes. bind (write_at 0 bytes new) finish))
                (read_at_lem (block_of b) [] xs h.slack 0 b.size h.shape.stored refl h.sized)
            ∙ ap (λ o. bind o finish) written,
        record {
          slack = junk;
          shape = record { stored = refl; full = sym new_length ∙ sym same_length; small = small };
          sized = h.sized;
        },
        omega arith,
      )

  pub make_room-Holds :
      {b : ByteBuffer} {xs : List ℕ} (n : ℕ)
      → Holds b xs
      → n < 2 ^ 32
      → (b' : ByteBuffer) × (make_room malloc n b ≡ some (true, b'))
        × Holds b' xs
        × (n ≤ b'.capacity)
  unfolding make_room expand_capacity reserve_capacity
  make_room-Holds {b} n h small = elim (Bool-cases (ltb b.capacity n)) [
    | inl more ↦
        let (least, most) = next_capacity_bounds b n small in
        let capacity = next_capacity b n in
        let grows : b.capacity < capacity = ground arith in
        let (b', e, h', f) = moved-Holds capacity h grows most in
        let opened : make_room malloc n b ≡ moved capacity b (malloc capacity) = ground arith in
        (b', opened ∙ e, h', omega (arith, f, least))
    | inr enough ↦
        let kept : make_room malloc n b ≡ some (true, b) = ground arith in
        (b, kept, h, ground arith)
  ]

-- A run is written to its place: what the buffer then holds.
pub filled-Holds :
    {b : ByteBuffer} {block : List ℕ} (a m r bytes ys slack : List ℕ) (position new_size : ℕ)
    → Shape b block
    → block ≡ a ++ (m ++ r)
    → position ≡ length a
    → length m ≡ length bytes
    → a ++ (bytes ++ r) ≡ ys ++ slack
    → new_size ≡ length ys
    → (b' : ByteBuffer) × (filled position bytes new_size b ≡ some (true, b')) × Holds b' ys
unfolding filled
filled-Holds {b} {block} a m r bytes ys slack position new_size h e p q f g =
    let finish : List ℕ → Option (Bool × ByteBuffer) =
      λ block. some (true, record b { data_block = some block; size = new_size % 2 ^ 32 }) in
    let lengths : length block ≡ length (a ++ (bytes ++ r)) =
      ap length e
      ∙ length-append a (m ++ r)
      ∙ ap (λ n. length a + n)
          (length-append m r ∙ ap (λ n. n + length r) q ∙ sym (length-append bytes r))
      ∙ sym (length-append a (bytes ++ r)) in
    let total = lengths ∙ ap length f ∙ length-append ys slack in
    (
      record b { data_block = some (a ++ (bytes ++ r)); size = new_size % 2 ^ 32 },
      ap (λ o. bind o finish) (write_at_lem (block_of b) a m r bytes position (h.stored ∙ e) p q),
      record {
        slack = slack;
        shape = record { stored = f; full = h.full ∙ lengths ∙ ap length f; small = h.small };
        sized = omega (arith, g, total, h.full, h.small);
      },
    )
