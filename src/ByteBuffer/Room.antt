-- ===== src/ByteBuffer/Room.antt =====
-- Room for an insertion, and the gap in front of one behind the end.
use libnetq.Prelude.{
  ℕ, ◌+◌, ◌^◌, ◌≤◌, ◌<◌, ◌≡◌, refl, sym, ap, ◌∙◌, List, ◌++◌, append_assoc, Option, some, Bool,
  true, false, if◌then◌else◌, length, length-append, arith,
}
use mathlib.Core.Path.{subst}
use libnetq.ByteBuffer.{ByteBuffer, bind, block_of, write_at, replaced, filled}
use libnetq.ByteBuffer.Memory.{cut, write_at_lem}
use libnetq.ByteBuffer.Holds.{Shape, Holds, Allocates, replaced_lem, filled-Holds}

-- A buffer whose block starts with `p` and takes `n` bytes.
pub record Room (b : ByteBuffer) (p : List ℕ) (n : ℕ) : Type 0 where
  pub behind : List ℕ
  pub shape : Shape b (p ++ behind)
  pub enough : n ≤ length p + length behind

make-Room :
    {b : ByteBuffer} {p : List ℕ} {n : ℕ} (j : List ℕ)
    → Shape b (p ++ j)
    → n ≤ b.capacity
    → Room b p n
make-Room {p = p} j h e = record {
  behind = j;
  shape = h;
  enough = omega (arith, e, h.full, length-append p j);
}

-- The zeros behind the bytes and then the bytes that come there.
pub gap-Holds :
    (bytes zeros : List ℕ) (position n : ℕ) {b : ByteBuffer} {xs : List ℕ}
    → Room b xs n
    → position ≡ length xs + length zeros
    → n ≡ position + length bytes
    → (b' : ByteBuffer) × (bind
          (write_at (length xs) zeros (block_of b))
          (λ block. filled position bytes n (record b { data_block = some block }))
        ≡ some (true, b'))
      × Holds b' (xs ++ (zeros ++ bytes))
gap-Holds bytes zeros position n {b} {xs} room at sum =
    let k = cut (length zeros) room.behind (omega (arith, room.enough)) in
    let behind = ap length k.whole ∙ length-append k.front k.back in
    let k2 = cut (length bytes) k.back (omega (arith, room.enough, behind, k.front_length)) in
    let block = xs ++ (zeros ++ k.back) in
    let finish : List ℕ → Option (Bool × ByteBuffer) =
      λ block. filled position bytes n (record b { data_block = some block }) in
    let lengths : length (xs ++ room.behind) ≡ length block = omega (
      arith,
      behind,
      k.front_length,
      length-append xs room.behind,
      length-append xs (zeros ++ k.back),
      length-append zeros k.back,
    ) in
    let (b3, e3, h3) =
      filled-Holds {b = record b { data_block = some block }} (xs ++ zeros) k2.front k2.back bytes
        (xs ++ (zeros ++ bytes)) k2.back position n
        (record { stored = refl; full = room.shape.full ∙ lengths; small = room.shape.small })
        (ap (λ t. xs ++ (zeros ++ t)) k2.whole ∙ sym (append_assoc xs zeros _))
        (at ∙ sym (length-append xs zeros)) k2.front_length
        (append_assoc xs zeros _
          ∙ ap (λ t. xs ++ t) (sym (append_assoc zeros bytes k2.back))
          ∙ sym (append_assoc xs (zeros ++ bytes) k2.back))
        (omega (arith, sum, at, length-append xs (zeros ++ bytes), length-append zeros bytes)) in
    (
      b3,
      ap (λ o. bind o finish)
            (write_at_lem (block_of b) xs k.front k.back zeros (length xs)
              (room.shape.stored ∙ ap (λ s. xs ++ s) k.whole) refl k.front_length)
          ∙ e3,
      h3,
    )

module _ (malloc : ℕ → Option (List ℕ)) (gives : Allocates malloc) where
  -- The buffer kept, or the one with a new block.
  pub kept_or_replaced :
      (fits : Bool) {b : ByteBuffer} {xs : List ℕ} (p q : List ℕ) (n i : ℕ)
      → Holds b xs
      → xs ≡ p ++ q
      → i ≡ length p
      → length xs ≤ n
      → n < 2 ^ 32
      → (fits ≡ true → n ≤ b.capacity)
      → (b' : ByteBuffer) × ((if fits then some b else replaced malloc n i b) ≡ some b')
        × Room b' p n
  kept_or_replaced true {b} p q n i h e f l small g =
      let at = append_assoc p q h.slack in
      (
        b,
        refl,
        make-Room (q ++ h.slack) (subst (Shape b) (ap (λ t. t ++ h.slack) e ∙ at) h.shape) (g refl),
      )
  kept_or_replaced false {b} p q n i h e f l small g =
      let at = append_assoc p q h.slack in
      let (b', e', r) =
        replaced_lem malloc gives p (q ++ h.slack) n i
          (h.shape.stored ∙ ap (λ t. t ++ h.slack) e ∙ at) f
          (omega (arith, f, l, ap length e, length-append p q)) small in
      (b', e', make-Room r.junk r.shape r.enough)
