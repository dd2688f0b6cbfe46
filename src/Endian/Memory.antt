-- ===== src/Endian/Memory.antt =====
-- What a word becomes in memory, and back, on either kind of host.
use libnetq.Prelude.{
  ℕ, zero, suc, ◌+◌, ◌*◌, ◌/◌, ◌%◌, ◌^◌, ◌<◌, ◌≡◌, refl, ap, ◌∙◌, List, [], ◌∷◌, arith, length, All,
  IsByte, All-append, length-append,
}
use libnetq.Endian.{
  ByteOrder, little, big, store, load, le_bytes, le_word, byte_swap16, byte_swap32, byte_swap64,
  host_to_le16, host_to_be16, host_to_le32, host_to_be32, host_to_le64, host_to_be64,
}
use libnetq.Endian.Swap.{byte_swap16_lem, byte_swap32_lem, byte_swap64_lem}
use mathlib.Core.Path.{subst}
use mathlib.Core.List.{reverse, reverse-reverse, reverse-cons}
use native.Mathlib.Nat.{pow-suc, div-div-eq-div-mul}

below_power : (n w : ℕ) → w < 256 ^ suc n → w / 256 < 256 ^ n
below_power n w p = omega (arith, pow-suc 256 n)

le_word-le_bytes : (n w : ℕ) → w < 256 ^ n → le_word (le_bytes n w) ≡ w
unfolding le_word le_bytes
le_word-le_bytes zero w p = omega arith
le_word-le_bytes (suc n) w p = omega (arith, le_word-le_bytes n (w / 256) (below_power n w p))

le_bytes-le_word : (bs : List ℕ) → All IsByte bs → le_bytes (length bs) (le_word bs) ≡ bs
unfolding le_word le_bytes
le_bytes-le_word [] p = refl
le_bytes-le_word (b ∷ bs) (pb, p) = ground (arith, first, rest, le_bytes-le_word bs p)
  where
    first : (b + 256 * le_word bs) % 256 ≡ b
    first = omega arith

    rest : (b + 256 * le_word bs) / 256 ≡ le_word bs
    rest = omega arith

pub length-le_bytes : (n w : ℕ) → length (le_bytes n w) ≡ n
unfolding le_bytes
length-le_bytes zero w = refl
length-le_bytes (suc n) w = ap suc (length-le_bytes n (w / 256))

le_bytes-IsByte : (n w : ℕ) → All IsByte (le_bytes n w)
unfolding le_bytes
le_bytes-IsByte zero w = tt
le_bytes-IsByte (suc n) w = (omega arith, le_bytes-IsByte n (w / 256))

length-reverse : (xs : List ℕ) → length (reverse xs) ≡ length xs
length-reverse [] = refl
length-reverse (x ∷ xs) = rw (reverse-cons, length-append) (omega (arith, length-reverse xs))

reverse-IsByte : (xs : List ℕ) → All IsByte xs → All IsByte (reverse xs)
reverse-IsByte [] p = tt
reverse-IsByte (x ∷ xs) (px, p) =
    rw reverse-cons (All-append IsByte (reverse xs) (x ∷ []) (reverse-IsByte xs p) (px, tt))

pub length-store : (h : ByteOrder) (n w : ℕ) → length (store h n w) ≡ n
unfolding store
length-store little n w = length-le_bytes n w
length-store big n w = length-reverse (le_bytes n w) ∙ length-le_bytes n w

pub store-IsByte : (h : ByteOrder) (n w : ℕ) → All IsByte (store h n w)
unfolding store
store-IsByte little n w = le_bytes-IsByte n w
store-IsByte big n w = reverse-IsByte (le_bytes n w) (le_bytes-IsByte n w)

-- A host reads back the word that it stored.
pub load-store : (h : ByteOrder) (n w : ℕ) → w < 256 ^ n → load h (store h n w) ≡ w
unfolding load store
load-store little n w p = le_word-le_bytes n w p
load-store big n w p = rw reverse-reverse (le_word-le_bytes n w p)

-- The places of the bytes, from the highest to the lowest, against the words that they form.
places2 : (a b : ℕ) → a * 2 ^ 8 + b ≡ b + 256 * (a + 256 * 0)
places2 a b = omega arith

places4 :
    (a b c d : ℕ)
    → a * 2 ^ 24 + b * 2 ^ 16 + c * 2 ^ 8 + d ≡ d + 256 * (c + 256 * (b + 256 * (a + 256 * 0)))
places4 a b c d = omega arith

places8 :
    (a b c d e f g h : ℕ)
    → a * 2 ^ 56 + b * 2 ^ 48 + c * 2 ^ 40 + d * 2 ^ 32 + e * 2 ^ 24 + f * 2 ^ 16 + g * 2 ^ 8 + h
      ≡ h
        + 256
          * (g + 256 * (f + 256 * (e + 256 * (d + 256 * (c + 256 * (b + 256 * (a + 256 * 0)))))))
places8 a b c d e f g h = omega arith

swap16_word : (w : ℕ) → byte_swap16 w ≡ le_word (reverse (le_bytes 2 w))
unfolding le_word le_bytes
swap16_word w = simp byte_swap16_lem (places2 _ _)

swap32_word : (w : ℕ) → byte_swap32 w ≡ le_word (reverse (le_bytes 4 w))
unfolding le_word le_bytes
swap32_word w = simp (byte_swap32_lem, div-div-eq-div-mul) (places4 _ _ _ _)

swap64_word : (w : ℕ) → byte_swap64 w ≡ le_word (reverse (le_bytes 8 w))
unfolding le_word le_bytes
swap64_word w = simp (byte_swap64_lem, div-div-eq-div-mul) (places8 _ _ _ _ _ _ _ _)

-- What a swap of n-byte words does to their bytes in memory.
module _ (n : ℕ) (swap : ℕ → ℕ)
    (reversed : (w : ℕ) → swap w ≡ le_word (reverse (le_bytes n w))) where
  le_bytes-swap : (w : ℕ) → le_bytes n (swap w) ≡ reverse (le_bytes n w)
  le_bytes-swap w = rw (reversed w) (
      subst (λ (m : ℕ). le_bytes m (le_word (reverse (le_bytes n w))) ≡ reverse (le_bytes n w))
        (length-reverse (le_bytes n w) ∙ length-le_bytes n w)
        (le_bytes-le_word _ (reverse-IsByte _ (le_bytes-IsByte n w))))

  reverse-le_bytes-swap : (w : ℕ) → reverse (le_bytes n (swap w)) ≡ le_bytes n w
  reverse-le_bytes-swap w = rw (le_bytes-swap w) (reverse-reverse (le_bytes n w))

  swap-le_word :
      (bs : List ℕ) → length bs ≡ n → All IsByte bs → swap (le_word bs) ≡ le_word (reverse bs)
  swap-le_word bs e p = rw (reversed (le_word bs)) (
      ap (λ (xs : List ℕ). le_word (reverse xs))
        (subst (λ (m : ℕ). le_bytes m (le_word bs) ≡ bs) e (le_bytes-le_word bs p)))

  swap-le_word-reverse :
      (bs : List ℕ) → length bs ≡ n → All IsByte bs → swap (le_word (reverse bs)) ≡ le_word bs
  swap-le_word-reverse bs e p =
      swap-le_word (reverse bs) (length-reverse bs ∙ e) (reverse-IsByte bs p)
      ∙ ap le_word (reverse-reverse bs)

pub store-host_to_be16 : (h : ByteOrder) (w : ℕ) → store h 2 (host_to_be16 h w) ≡ store big 2 w
unfolding store host_to_be16
store-host_to_be16 little w = le_bytes-swap 2 byte_swap16 swap16_word w
store-host_to_be16 big w = refl

pub host_to_be16-load :
    (h : ByteOrder) (bs : List ℕ)
    → length bs ≡ 2
    → All IsByte bs
    → host_to_be16 h (load h bs) ≡ load big bs
unfolding load host_to_be16
host_to_be16-load little bs e p = swap-le_word 2 byte_swap16 swap16_word bs e p
host_to_be16-load big bs e p = refl

pub store-host_to_le16 : (h : ByteOrder) (w : ℕ) → store h 2 (host_to_le16 h w) ≡ store little 2 w
unfolding store host_to_le16
store-host_to_le16 little w = refl
store-host_to_le16 big w = reverse-le_bytes-swap 2 byte_swap16 swap16_word w

pub host_to_le16-load :
    (h : ByteOrder) (bs : List ℕ)
    → length bs ≡ 2
    → All IsByte bs
    → host_to_le16 h (load h bs) ≡ load little bs
unfolding load host_to_le16
host_to_le16-load little bs e p = refl
host_to_le16-load big bs e p = swap-le_word-reverse 2 byte_swap16 swap16_word bs e p

pub store-host_to_be32 : (h : ByteOrder) (w : ℕ) → store h 4 (host_to_be32 h w) ≡ store big 4 w
unfolding store host_to_be32
store-host_to_be32 little w = le_bytes-swap 4 byte_swap32 swap32_word w
store-host_to_be32 big w = refl

pub host_to_be32-load :
    (h : ByteOrder) (bs : List ℕ)
    → length bs ≡ 4
    → All IsByte bs
    → host_to_be32 h (load h bs) ≡ load big bs
unfolding load host_to_be32
host_to_be32-load little bs e p = swap-le_word 4 byte_swap32 swap32_word bs e p
host_to_be32-load big bs e p = refl

pub store-host_to_le32 : (h : ByteOrder) (w : ℕ) → store h 4 (host_to_le32 h w) ≡ store little 4 w
unfolding store host_to_le32
store-host_to_le32 little w = refl
store-host_to_le32 big w = reverse-le_bytes-swap 4 byte_swap32 swap32_word w

pub host_to_le32-load :
    (h : ByteOrder) (bs : List ℕ)
    → length bs ≡ 4
    → All IsByte bs
    → host_to_le32 h (load h bs) ≡ load little bs
unfolding load host_to_le32
host_to_le32-load little bs e p = refl
host_to_le32-load big bs e p = swap-le_word-reverse 4 byte_swap32 swap32_word bs e p

pub store-host_to_be64 : (h : ByteOrder) (w : ℕ) → store h 8 (host_to_be64 h w) ≡ store big 8 w
unfolding store host_to_be64
store-host_to_be64 little w = le_bytes-swap 8 byte_swap64 swap64_word w
store-host_to_be64 big w = refl

pub host_to_be64-load :
    (h : ByteOrder) (bs : List ℕ)
    → length bs ≡ 8
    → All IsByte bs
    → host_to_be64 h (load h bs) ≡ load big bs
unfolding load host_to_be64
host_to_be64-load little bs e p = swap-le_word 8 byte_swap64 swap64_word bs e p
host_to_be64-load big bs e p = refl

pub store-host_to_le64 : (h : ByteOrder) (w : ℕ) → store h 8 (host_to_le64 h w) ≡ store little 8 w
unfolding store host_to_le64
store-host_to_le64 little w = refl
store-host_to_le64 big w = reverse-le_bytes-swap 8 byte_swap64 swap64_word w

pub host_to_le64-load :
    (h : ByteOrder) (bs : List ℕ)
    → length bs ≡ 8
    → All IsByte bs
    → host_to_le64 h (load h bs) ≡ load little bs
unfolding load host_to_le64
host_to_le64-load little bs e p = refl
host_to_le64-load big bs e p = swap-le_word-reverse 8 byte_swap64 swap64_word bs e p
