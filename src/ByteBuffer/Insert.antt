-- ===== src/ByteBuffer/Insert.antt =====
-- Bytes that are appended and inserted.
use libnetq.Prelude.{
  ℕ, zero, suc, ◌+◌, ◌-◌, ◌%◌, ◌^◌, ◌≤◌, ◌<◌, ◌≡◌, refl, sym, ap, ◌∙◌, max, List, [], ◌∷◌, ◌++◌,
  append-nil, append_assoc, Option, some, Bool, true, false, leb, ltb, ◌==◌, if◌then◌else◌, length,
  length-append, length-replicate, replicate, take, drop, arith, Bool-cases, inl, inr,
}
use mathlib.Core.Path.{subst}
use libnetq.ByteBuffer.{
  ByteBuffer, bind, block_of, write_at, with_room, make_room, replaced, filled, append, insert,
  insert_behind, insert_inside, shifted,
}
use libnetq.ByteBuffer.Memory.{cut}
use libnetq.ByteBuffer.Holds.{Holds, Allocates, room_lem, make_room-Holds, filled-Holds}
use libnetq.ByteBuffer.Room.{Room, kept_or_replaced, gap-Holds}
use libnetq.ByteBuffer.Shift.{shifted_lem}
use libnetq.Prelude.{take_all, length-take, take-append-drop}

-- What stands behind an insertion: a place behind the end is reached with zeros.
abbrev pub splice : ℕ → List ℕ → List ℕ → List ℕ
splice position bytes xs =
    take position xs ++ (replicate (position - length xs) 0 ++ (bytes ++ drop position xs))

drop_all : (n : ℕ) (xs : List ℕ) → length xs ≤ n → drop n xs ≡ []
drop_all zero [] h = refl
drop_all zero (x ∷ xs) h = absurd (omega arith)
drop_all (suc n) [] h = refl
drop_all (suc n) (x ∷ xs) h = drop_all n xs (omega arith)

module _ (malloc : ℕ → Option (List ℕ)) (gives : Allocates malloc) where
  pub append-Holds :
      (bytes : List ℕ) {b : ByteBuffer} {xs : List ℕ}
      → Holds b xs
      → length xs + length bytes < 2 ^ 32
      → (b' : ByteBuffer) × (append malloc bytes b ≡ some (true, b')) × Holds b' (xs ++ bytes)
  unfolding append
  append-Holds [] {b} {xs} h small = (b, refl, subst (Holds b) (sym (append-nil xs)) h)
  append-Holds (c ∷ cs) {b} {xs} h small =
      let bytes = c ∷ cs in
      let n = (b.size + length bytes) % 2 ^ 64 in
      let sum : n ≡ length xs + length bytes = omega (arith, h.sized) in
      let (b1, e1, h1, enough) = make_room-Holds malloc gives n h (omega (arith, sum)) in
      let k = cut (length bytes) h1.slack (omega (arith, enough, room_lem h1, sum)) in
      let (b2, e2, h2) =
        filled-Holds xs k.front k.back bytes (xs ++ bytes) k.back b1.size n h1.shape
          (ap (λ s. xs ++ s) k.whole) h1.sized k.front_length (sym (append_assoc xs bytes k.back))
          (sum ∙ sym (length-append xs bytes)) in
      let opened : append malloc bytes b
          ≡ bind (make_room malloc n b) (with_room (λ b'. filled b'.size bytes n b')) =
        ground (arith, h.sized, sum) in
      (b2, opened ∙ ap (λ o. bind o (with_room (λ b'. filled b'.size bytes n b'))) e1 ∙ e2, h2)

  insert_behind-Holds :
      (bytes : List ℕ) (position : ℕ) {b : ByteBuffer} {xs : List ℕ}
      → Holds b xs
      → b.size < position
      → position + length bytes < 2 ^ 32
      → (b' : ByteBuffer) × (insert_behind malloc position bytes b ≡ some (true, b'))
        × Holds b' (xs ++ (replicate (position - length xs) 0 ++ bytes))
  unfolding insert_behind
  insert_behind-Holds bytes position {b} {xs} h far small =
      let n = (position + length bytes) % 2 ^ 64 in
      let sum : n ≡ position + length bytes = omega arith in
      let zeros : List ℕ = replicate (position - length xs) 0 in
      let zeros_length : length zeros ≡ position - length xs =
        length-replicate {A = ℕ} (position - length xs) 0 in
      let (b1, e1, room) =
        kept_or_replaced malloc gives (leb n b.capacity) xs [] n b.size h (sym (append-nil xs))
          h.sized (omega (arith, sum, far, h.sized)) (omega (arith, sum)) (λ t. ground arith) in
      let (b2, e2, h2) =
        gap-Holds bytes zeros position n room (omega (arith, zeros_length, far, h.sized)) sum in
      let rest : ByteBuffer → Option (Bool × ByteBuffer) = λ b'.
        bind (write_at b.size (replicate (position - b.size) 0) (block_of b'))
          (λ block. filled position bytes n (record b' { data_block = some block })) in
      let flipped : (if ltb b.capacity n then replaced malloc n b.size b else some b)
          ≡ (if leb n b.capacity then some b else replaced malloc n b.size b) =
        ground arith in
      let no_wrap : ltb n b.size ≡ false = ground (arith, sum, far) in
      let opened : insert_behind malloc position bytes b
          ≡ bind (if ltb b.capacity n then replaced malloc n b.size b else some b) rest =
        ap
          (λ t.
            if t
            then some (false, b)
            else bind (if ltb b.capacity n then replaced malloc n b.size b else some b) rest)
          no_wrap in
      let same =
        ap
          (λ s.
            bind (write_at s (replicate (position - s) 0) (block_of b1))
              (λ block. filled position bytes n (record b1 { data_block = some block })))
          h.sized in
      (b2, opened ∙ ap (λ o. bind o rest) (flipped ∙ e1) ∙ same ∙ e2, h2)

  insert_inside-Holds :
      (bytes : List ℕ) {b : ByteBuffer} {xs : List ℕ} (p q : List ℕ)
      → Holds b xs
      → xs ≡ p ++ q
      → length xs + length bytes < 2 ^ 32
      → (b' : ByteBuffer) × (insert_inside malloc (length p) bytes b ≡ some (true, b'))
        × Holds b' (p ++ (bytes ++ q))
  unfolding insert_inside
  insert_inside-Holds bytes {b} {xs} p q h e small =
      let n = (b.size + length bytes) % 2 ^ 64 in
      let sum : n ≡ length xs + length bytes = omega (arith, h.sized) in
      let split = ap length e ∙ length-append p q in
      let total : n ≡ length p + length bytes + length q = omega (arith, sum, split) in
      let (b1, e1, room) =
        kept_or_replaced malloc gives (leb n b.capacity) p q n (length p) h e refl
          (omega (arith, sum)) (omega (arith, sum)) (λ t. ground arith) in
      let (b2, gap, rest, e2, shape, gap_length) =
        shifted_lem (length bytes) p q h e (subst (Room b1 p) total room) in
      let (b3, e3, h3) =
        filled-Holds p gap (q ++ rest) bytes (p ++ (bytes ++ q)) rest (length p) n shape refl refl
          gap_length
          (ap (λ t. p ++ t) (sym (append_assoc bytes q rest))
            ∙ sym (append_assoc p (bytes ++ q) rest))
          (omega (arith, total, length-append p (bytes ++ q), length-append bytes q)) in
      let move : ByteBuffer → Option ByteBuffer =
        λ b'. if length p == b.size then some b' else shifted (length p) (length bytes) b b' in
      let first = if leb n b.capacity then some b else replaced malloc n (length p) b in
      let no_wrap : ltb n b.size ≡ false = ground (arith, sum, h.sized) in
      (
        b3,
        ap (λ t. if t then some (false, b) else bind (bind first move) (filled (length p) bytes n))
              no_wrap
            ∙ ap (λ o. bind (bind o move) (filled (length p) bytes n)) e1
            ∙ ap (λ o. bind o (filled (length p) bytes n)) e2
            ∙ e3,
        h3,
      )

  pub insert-Holds :
      (position c : ℕ) (cs : List ℕ) {b : ByteBuffer} {xs : List ℕ}
      → Holds b xs
      → max position (length xs) + length (c ∷ cs) < 2 ^ 32
      → (b' : ByteBuffer) × (insert malloc position (c ∷ cs) b ≡ some (true, b'))
        × Holds b' (splice position (c ∷ cs) xs)
  unfolding insert
  insert-Holds position c cs {b} {xs} h small = elim (Bool-cases (ltb b.size position)) [
    | inl behind ↦
        let far : b.size < position = ground arith in
        let (b', e, h') = insert_behind-Holds (c ∷ cs) position h far (omega arith) in
        let zeros : List ℕ = replicate (position - length xs) 0 in
        let same : xs ++ (zeros ++ (c ∷ cs)) ≡ splice position (c ∷ cs) xs =
          ap (λ t. xs ++ (zeros ++ t)) (sym (append-nil (c ∷ cs)))
          ∙ ap (λ t. xs ++ (zeros ++ ((c ∷ cs) ++ t)))
              (sym (drop_all position xs (omega (arith, far, h.sized))))
          ∙ ap (λ t. t ++ (zeros ++ ((c ∷ cs) ++ drop position xs)))
              (sym (take_all position xs (omega (arith, far, h.sized)))) in
        let opened : insert malloc position (c ∷ cs) b ≡ insert_behind malloc position (c ∷ cs) b =
          ground arith in
        (b', opened ∙ e, subst (Holds b') same h')
    | inr inside ↦
        let near : position ≤ length xs = ground (arith, h.sized) in
        let p = take position xs in
        let at : length p ≡ position = omega (arith, length-take position xs, near) in
        let (b', e, h') =
          insert_inside-Holds (c ∷ cs) p (drop position xs) h (sym (take-append-drop position xs))
            (omega arith) in
        let no_gap : position - length xs ≡ 0 = omega arith in
        let same : p ++ ((c ∷ cs) ++ drop position xs) ≡ splice position (c ∷ cs) xs =
          ap (λ n. p ++ (replicate n 0 ++ ((c ∷ cs) ++ drop position xs))) (sym no_gap) in
        let opened : insert malloc position (c ∷ cs) b ≡ insert_inside malloc position (c ∷ cs) b =
          ground arith in
        (
          b',
          opened ∙ ap (λ n. insert_inside malloc n (c ∷ cs) b) (sym at) ∙ e,
          subst (Holds b') same h',
        )
  ]
