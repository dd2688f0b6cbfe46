-- ===== src/WebSocket/Write.antt =====
-- `NQWebSocketBuffer_write` and the growth of the block.
use libnetq.Prelude.{
  ℕ, zero, suc, ◌+◌, ◌-◌, ◌*◌, ◌^◌, ◌≤◌, ◌<◌, ◌≡◌, ◌⊎◌, inl, inr, refl, sym, ap, ◌∙◌, List, [], ◌∷◌,
  ◌++◌, true, false, Option, none, some, arith, length, take, drop, min, length-take, length-drop,
  ltb, Option-cases, Bool-cases,
}
use mathlib.Core.Path.{subst}
use libnetq.BufferBuilder.{overwrite}
use libnetq.BufferBuilder.Builder.{overwrite_at}
use libnetq.BufferBuilder.RoundTrip.{take-overwrite}
use libnetq.WebSocket.Buffer.{
  WebSocketBuffer, header_max, payload_of, map_block, payload_capacity_resize, append_payload,
  cut_length, write_resized, write,
}

abbrev HasRoom : ℕ → Option (List ℕ) → Type 0
HasRoom capacity none = capacity ≡ 0
HasRoom capacity (some block) = header_max + capacity ≤ length block

pub record IsValid (b : WebSocketBuffer) : Type 0 where
  pub room : HasRoom b.payload_capacity b.block
  pub len_in : b.payload_len ≤ b.payload_capacity

abbrev pub contents : WebSocketBuffer → List ℕ
contents b = payload_of b.payload_len b.block

length-overwrite_at : (i : ℕ) (bs xs : List ℕ) → length (overwrite_at i bs xs) ≡ length xs
length-overwrite_at zero [] xs = refl
length-overwrite_at zero (b ∷ bs) [] = refl
length-overwrite_at zero (b ∷ bs) (x ∷ xs) = ap suc (length-overwrite_at zero bs xs)
length-overwrite_at (suc i) bs [] = refl
length-overwrite_at (suc i) bs (x ∷ xs) = ap suc (length-overwrite_at i bs xs)

drop-overwrite_at :
    (i j k : ℕ) (bs xs : List ℕ)
    → i + j ≡ k
    → i ≤ length xs
    → drop i (overwrite_at k bs xs) ≡ overwrite_at j bs (drop i xs)
drop-overwrite_at zero j k bs xs e p =
    let e' : k ≡ j = omega arith in ap (λ (n : ℕ). overwrite_at n bs xs) e'
drop-overwrite_at (suc i) j zero bs xs e p = absurd (omega arith)
drop-overwrite_at (suc i) j (suc k) bs [] e p = absurd (omega arith)
drop-overwrite_at (suc i) j (suc k) bs (x ∷ xs) e p =
    drop-overwrite_at i j k bs xs (omega arith) (omega arith)

take-overwrite_at :
    (j k : ℕ) (bs xs : List ℕ)
    → j + length bs ≡ k
    → k ≤ length xs
    → take k (overwrite_at j bs xs) ≡ take j xs ++ bs
take-overwrite_at zero k bs xs e p =
    let e' : k ≡ length bs = omega arith in
    ap (λ (n : ℕ). take n (overwrite bs xs)) e' ∙ take-overwrite bs xs (omega arith)
take-overwrite_at (suc j) zero bs xs e p = absurd (omega arith)
take-overwrite_at (suc j) (suc k) bs [] e p = absurd (omega arith)
take-overwrite_at (suc j) (suc k) bs (x ∷ xs) e p =
    ap (λ (r : List ℕ). x ∷ r) (take-overwrite_at j k bs xs (omega arith) (omega arith))

-- The payload after a copy behind its first `len` bytes.
payload_of-append :
    (len : ℕ) (bytes block : List ℕ)
    → header_max + (len + length bytes) ≤ length block
    → payload_of (len + length bytes) (some (overwrite_at (header_max + len) bytes block))
      ≡ payload_of len (some block) ++ bytes
payload_of-append len bytes block p =
    ap (λ (r : List ℕ). take (len + length bytes) r)
      (drop-overwrite_at header_max len (header_max + len) bytes block refl (omega arith))
    ∙ take-overwrite_at len (len + length bytes) bytes (drop header_max block) refl
        (omega (arith, length-drop header_max block))

nil_of_length : (xs : List ℕ) → length xs ≡ 0 → [] ≡ xs
nil_of_length [] e = refl
nil_of_length (x ∷ xs) e = absurd (omega arith)

append_payload-IsValid :
    (bytes : List ℕ) (b : WebSocketBuffer)
    → IsValid b
    → b.payload_len + length bytes ≤ b.payload_capacity
    → let b' = (append_payload bytes (b.payload_len + length bytes) b).1 in
      (contents b' ≡ contents b ++ bytes) × IsValid b'
unfolding append_payload
append_payload-IsValid bytes b v p = go b.block v.room
  where
    go :
        (o : Option (List ℕ))
        → HasRoom b.payload_capacity o
        → (payload_of
              (b.payload_len + length bytes)
              (map_block (overwrite_at (header_max + b.payload_len) bytes) o)
            ≡ payload_of b.payload_len o ++ bytes)
          × IsValid (record b {
            block = map_block (overwrite_at (header_max + b.payload_len) bytes) o;
            payload_len = b.payload_len + length bytes;
          })
    go none r = (nil_of_length bytes (omega arith), record { room = r; len_in = p })
    go (some block) r = (
      payload_of-append b.payload_len bytes block (omega arith),
      record {
        room = omega (arith, length-overwrite_at (header_max + b.payload_len) bytes block);
        len_in = p;
      },
    )

length-contents :
    (len capacity : ℕ) (o : Option (List ℕ))
    → HasRoom capacity o
    → len ≤ capacity
    → length (payload_of len o) ≡ len
length-contents len capacity none r p = omega arith
length-contents len capacity (some block) r p =
    omega (arith, length-take len (drop header_max block), length-drop header_max block)

-- What `malloc` is trusted with: a block that it gives out has the size asked for.
module _ (malloc : ℕ → Option (List ℕ))
    (length-malloc : (n : ℕ) (block : List ℕ) → malloc n ≡ some block → length block ≡ n) where
  -- The block has grown, and holds what the old one held.
  record Grown (new : ℕ) (b b' : WebSocketBuffer) : Type 0 where
    valid : IsValid b'
    same : contents b' ≡ contents b
    same_len : b'.payload_len ≡ b.payload_len
    large : new ≤ b'.payload_capacity

  moved :
      (capacity new : ℕ) (b : WebSocketBuffer) (block : List ℕ)
      → IsValid b
      → length block ≡ header_max + capacity
      → b.payload_len ≤ capacity
      → new ≤ capacity
      → Grown new b (record b {
        block = some (overwrite_at header_max (payload_of b.payload_len b.block) block);
        payload_capacity = capacity;
      })
  moved capacity new b block v e p q = record {
    valid = record {
      room = omega (arith, length-overwrite_at header_max (payload_of b.payload_len b.block) block);
      len_in = p;
    };
    same =
        ap (λ (r : List ℕ). take b.payload_len r)
          (drop-overwrite_at header_max 0 header_max (payload_of b.payload_len b.block) block refl
            (omega arith))
        ∙ take-overwrite_at 0 b.payload_len (payload_of b.payload_len b.block)
            (drop header_max block) (omega (arith, len))
            (omega (arith, length-drop header_max block));
    same_len = refl;
    large = q;
  }
    where
      len : length (payload_of b.payload_len b.block) ≡ b.payload_len
      len = length-contents b.payload_len b.payload_capacity b.block v.room v.len_in

  resize_cases :
      (new : ℕ) (b : WebSocketBuffer)
      → IsValid b
      → b.payload_capacity < new
      → new < 2 ^ 62
      → ((malloc (header_max + new * 2) ≡ none)
          × (payload_capacity_resize malloc new b ≡ (false, b)))
        ⊎ ((b' : WebSocketBuffer) × (payload_capacity_resize malloc new b ≡ (true, b'))
            × Grown new b b')
  unfolding payload_capacity_resize
  resize_cases new b v p q = elim (Option-cases (malloc (header_max + new * 2))) [
    | inl e ↦ inl (e, ground arith)
    | inr (block, e) ↦ inr (
      _,
      ground (arith, e),
      moved (new * 2) new b block v (length-malloc _ block e) (omega (arith, v.len_in))
          (omega arith),
    )
  ]

  appended :
      (bytes : List ℕ) (b b' : WebSocketBuffer)
      → IsValid b'
      → contents b' ≡ contents b
      → b'.payload_len ≡ b.payload_len
      → b.payload_len + length bytes ≤ b'.payload_capacity
      → let (r, out) = append_payload bytes (b.payload_len + length bytes) b' in
        (r ≡ some (length bytes)) × (contents out ≡ contents b ++ bytes) × IsValid out
  appended bytes b b' v same len p =
      subst
        (λ (n : ℕ).
          let (r, out) = append_payload bytes (n + length bytes) b' in
          (r ≡ some (length bytes)) × (contents out ≡ contents b ++ bytes) × IsValid out)
        len
        (
          unfold append_payload in refl,
          (append_payload-IsValid bytes b' v (omega arith)).0
              ∙ ap (λ (r : List ℕ). r ++ bytes) same,
          (append_payload-IsValid bytes b' v (omega arith)).1,
        )

  cut_length_lem :
      (len size : ℕ) → len + size < 2 ^ 64 → cut_length len size ≡ some (size, len + size)
  unfolding cut_length
  cut_length_lem len size p = ground arith

  -- `NQWebSocketBuffer_write` on a well-formed buffer, of any number of bytes that stays below 2 ^ 62
  -- with the payload: either `malloc` refuses the larger block, and the buffer is as before and the
  -- result is -1; or the result is the number of bytes, at most 2 ^ 31 - 1, exactly so many of the
  -- first bytes are appended to the payload, and the buffer stays well formed.
  pub write_lem :
      (bytes : List ℕ) (b : WebSocketBuffer)
      → IsValid b
      → b.payload_len + length bytes < 2 ^ 62
      → let taken = take (min (2 ^ 31 - 1) (length bytes)) bytes in
        let (r, out) = write malloc bytes b in
        ((malloc (header_max + (b.payload_len + length taken) * 2) ≡ none) × (r ≡ none) × (out ≡ b))
        ⊎ ((r ≡ some (length taken)) × (contents out ≡ contents b ++ taken) × IsValid out)
  unfolding write write_resized
  write_lem bytes b v p = elim (Bool-cases (ltb b.payload_capacity new)) [
    | inr fits ↦ rw (cut, fits, write) (inr (appended taken b b v refl refl (ground (arith, fits))))
    | inl grow ↦ elim (resize_cases new b v (ground (arith, grow)) (omega (arith, size))) [
      | inl (m, e) ↦ rw (cut, grow, e, write) (inl (m, refl, refl))
      | inr (b', e, g) ↦
          rw (cut, grow, e, write) (inr (appended taken b b' g.valid g.same g.same_len g.large))
    ]
  ]
    where
      taken : List ℕ
      taken = take (min (2 ^ 31 - 1) (length bytes)) bytes

      new : ℕ
      new = b.payload_len + length taken

      size : length taken ≡ min (2 ^ 31 - 1) (length bytes)
      size = omega (arith, length-take (min (2 ^ 31 - 1) (length bytes)) bytes)

      cut :
          cut_length b.payload_len (min (2 ^ 31 - 1) (length bytes))
          ≡ some (min (2 ^ 31 - 1) (length bytes), new)
      cut =
          cut_length_lem b.payload_len (min (2 ^ 31 - 1) (length bytes)) (omega arith)
          ∙ ap (λ (n : ℕ). some (min (2 ^ 31 - 1) (length bytes), b.payload_len + n)) (sym size)
