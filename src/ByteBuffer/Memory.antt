-- ===== src/ByteBuffer/Memory.antt =====
-- Blocks taken apart into the runs of bytes that are read and written.
use libnetq.Prelude.{
  ℕ, ◌+◌, ◌≤◌, ◌≡◌, refl, sym, ap, ◌∙◌, List, [], ◌∷◌, ◌++◌, none, some, true, leb, if◌then◌else◌,
  length, length-append, length-take, take-append-drop, take, drop, arith,
}
use libnetq.BufferBuilder.{overwrite}
use libnetq.BufferBuilder.Builder.{overwrite_at}
use libnetq.ByteBuffer.{read_at, write_at}

-- A list cut at `n`.
pub record Cut (n : ℕ) (xs : List ℕ) : Type 0 where
  pub front : List ℕ
  pub back : List ℕ
  pub whole : xs ≡ front ++ back
  pub front_length : length front ≡ n

pub cut : (n : ℕ) (xs : List ℕ) → n ≤ length xs → Cut n xs
cut n xs h = record {
  front = take n xs;
  back = drop n xs;
  whole = sym (take-append-drop n xs);
  front_length = omega (arith, length-take n xs);
}

pub drop-length : (a r : List ℕ) → drop (length a) (a ++ r) ≡ r
drop-length [] r = refl
drop-length (x ∷ a) r = drop-length a r

pub take-length : (a r : List ℕ) → take (length a) (a ++ r) ≡ a
take-length [] r = refl
take-length (x ∷ a) r = ap (λ t. x ∷ t) (take-length a r)

overwrite-run :
    (bytes m r : List ℕ) → length m ≡ length bytes → overwrite bytes (m ++ r) ≡ bytes ++ r
overwrite-run [] [] r h = refl
overwrite-run [] (x ∷ m) r h = absurd (omega arith)
overwrite-run (b ∷ bytes) [] r h = absurd (omega arith)
overwrite-run (b ∷ bytes) (x ∷ m) r h = ap (λ t. b ∷ t) (overwrite-run bytes m r (omega arith))

overwrite_at-run :
    (a bytes m r : List ℕ)
    → length m ≡ length bytes
    → overwrite_at (length a) bytes (a ++ (m ++ r)) ≡ a ++ (bytes ++ r)
overwrite_at-run [] bytes m r h = overwrite-run bytes m r h
overwrite_at-run (x ∷ a) bytes m r h = ap (λ t. x ∷ t) (overwrite_at-run a bytes m r h)

-- The middle of three runs is read.
pub read_at_lem :
    (block a m r : List ℕ) (i n : ℕ)
    → block ≡ a ++ (m ++ r)
    → i ≡ length a
    → n ≡ length m
    → read_at i n block ≡ some m
unfolding read_at
read_at_lem block a m r i n e p q =
    let fits : leb (i + n) (length block) ≡ true =
      ground (arith, ap length e, length-append a (m ++ r), length-append m r) in
    ap (λ b. if b then some (take n (drop i block)) else none) fits
    ∙ ap some (
        ap (λ t. take n (drop i t)) e
        ∙ ap (λ i. take n (drop i (a ++ (m ++ r)))) p
        ∙ ap (take n) (drop-length a (m ++ r))
        ∙ ap (λ n. take n (m ++ r)) q
        ∙ take-length m r)

-- The middle of three runs is replaced.
pub write_at_lem :
    (block a m r bytes : List ℕ) (i : ℕ)
    → block ≡ a ++ (m ++ r)
    → i ≡ length a
    → length m ≡ length bytes
    → write_at i bytes block ≡ some (a ++ (bytes ++ r))
unfolding write_at
write_at_lem block a m r bytes i e p q =
    let fits : leb (i + length bytes) (length block) ≡ true =
      ground (arith, ap length e, length-append a (m ++ r), length-append m r) in
    ap (λ b. if b then some (overwrite_at i bytes block) else none) fits
    ∙ ap some (
        ap (overwrite_at i bytes) e
        ∙ ap (λ i. overwrite_at i bytes (a ++ (m ++ r))) p
        ∙ overwrite_at-run a bytes m r q)
