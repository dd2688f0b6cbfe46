-- ===== src/ByteBuffer/Shift.antt =====
-- The end of the bytes moved up for an insertion.
use libnetq.Prelude.{
  ℕ, ◌+◌, ◌-◌, ◌≡◌, refl, sym, ap, ◌∙◌, List, [], ◌∷◌, ◌++◌, append_assoc, Option, some, ◌==◌,
  if◌then◌else◌, length, length-append, arith, Bool-cases, inl, inr,
}
use mathlib.Core.Path.{subst}
use libnetq.ByteBuffer.{ByteBuffer, bind, block_of, write_at, shifted}
use libnetq.ByteBuffer.Memory.{cut, read_at_lem, write_at_lem}
use libnetq.ByteBuffer.Holds.{Shape, Holds}
use libnetq.ByteBuffer.Room.{Room}

nil_eq : (xs ys : List ℕ) → length xs ≡ 0 → length ys ≡ 0 → xs ≡ ys
nil_eq [] [] p q = refl
nil_eq [] (y ∷ ys) p q = absurd (omega arith)
nil_eq (x ∷ xs) ys p q = absurd (omega arith)

-- The end of the bytes moved up: the block that `filled` gets.
pub shifted_lem :
    (len : ℕ) {b b1 : ByteBuffer} {xs : List ℕ} (p q : List ℕ)
    → Holds b xs
    → xs ≡ p ++ q
    → Room b1 p (length p + len + length q)
    → (b2 : ByteBuffer) × (gap : List ℕ) × (rest : List ℕ) × ((if length p == b.size
          then some b1
          else shifted (length p) len b b1)
        ≡ some b2)
      × Shape b2 (p ++ (gap ++ (q ++ rest)))
      × (length gap ≡ len)
unfolding shifted
shifted_lem len {b} {b1} {xs} p q h e room =
    let k = cut len room.behind (omega (arith, room.enough)) in
    let behind = ap length k.whole ∙ length-append k.front k.back in
    let k2 = cut (length q) k.back (omega (arith, room.enough, behind, k.front_length)) in
    let size : b.size ≡ length p + length q = h.sized ∙ ap length e ∙ length-append p q in
    let from = p ++ (k.front ++ (k2.front ++ k2.back)) in
    let to = p ++ (k.front ++ (q ++ k2.back)) in
    let here : p ++ room.behind ≡ from =
      ap (λ t. p ++ t) (k.whole ∙ ap (λ t. k.front ++ t) k2.whole) in
    let lengths : length from ≡ length to = omega (
      arith,
      k2.front_length,
      length-append p (k.front ++ (k2.front ++ k2.back)),
      length-append p (k.front ++ (q ++ k2.back)),
      length-append k.front (k2.front ++ k2.back),
      length-append k.front (q ++ k2.back),
      length-append k2.front k2.back,
      length-append q k2.back,
    ) in
    elim (Bool-cases (length p == b.size)) [
      | inl none_behind ↦
          let nothing : length q ≡ 0 = ground (arith, size) in
          let same : k2.front ≡ q = nil_eq k2.front q (k2.front_length ∙ nothing) nothing in
          (
            b1,
            k.front,
            k2.back,
            ap (λ t. if t then some b1 else shifted (length p) len b b1) none_behind,
            subst (Shape b1) (here ∙ ap (λ t. p ++ (k.front ++ (t ++ k2.back))) same) room.shape,
            k.front_length,
          )
      | inr some_behind ↦
          let finish : List ℕ → Option ByteBuffer =
            λ block. some (record b1 { data_block = some block }) in
          (
            record b1 { data_block = some to },
            k.front,
            k2.back,
            ap (λ t. if t then some b1 else shifted (length p) len b b1) some_behind
                ∙ ap
                    (λ o.
                      bind o (λ rest. bind (write_at (length p + len) rest (block_of b1)) finish))
                    (read_at_lem (block_of b) p q h.slack (length p) (b.size - length p)
                      (h.shape.stored ∙ ap (λ t. t ++ h.slack) e ∙ append_assoc p q h.slack) refl
                      (omega (arith, size)))
                ∙ ap (λ o. bind o finish)
                    (write_at_lem (block_of b1) (p ++ k.front) k2.front k2.back q (length p + len)
                      (room.shape.stored ∙ here ∙ sym (append_assoc p k.front _))
                      (omega (arith, length-append p k.front, k.front_length)) k2.front_length)
                ∙ ap finish (append_assoc p k.front (q ++ k2.back)),
            record {
              stored = refl;
              full = room.shape.full ∙ ap length here ∙ lengths;
              small = room.shape.small;
            },
            k.front_length,
          )
    ]
