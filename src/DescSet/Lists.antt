-- ===== src/DescSet/Lists.antt =====
-- Lists of distinct places, and functions changed at a place.
use libnetq.Prelude.{
  ℕ, zero, suc, ◌+◌, ◌≤◌, ◌<◌, ◌≡◌, ◌≢◌, sym, List, [], ◌∷◌, ◌++◌, arith, All, All-append,
}
use libnetq.DescSet.{put_at, places}

abbrev pub Distinct : List ℕ → Type 0
Distinct [] = Unit
Distinct (x ∷ xs) = All (λ y. y ≢ x) xs × Distinct xs

pub All-both :
    {P Q R : ℕ → Type 0} (xs : List ℕ)
    → ((x : ℕ) → P x → Q x → R x)
    → All P xs
    → All Q xs
    → All R xs
All-both [] f p q = tt
All-both (x ∷ xs) f p q = (f x p.0 q.0, All-both xs f p.1 q.1)

pub All-places :
    {P : ℕ → Type 0} (i n : ℕ) → ((j : ℕ) → i ≤ j → j < i + n → P j) → All P (places i n)
All-places i zero f = tt
All-places i (suc n) f = (
  f i (omega arith) (omega arith),
  All-places (suc i) n (λ j h k. f j (omega arith) (omega arith)),
)

pub Distinct-places : (i n : ℕ) → Distinct (places i n)
Distinct-places i zero = tt
Distinct-places i (suc n) =
    (All-places (suc i) n (λ j h k. ground arith), Distinct-places (suc i) n)

pub Distinct-append :
    (xs : List ℕ) (i : ℕ) → All (λ x. x ≢ i) xs → Distinct xs → Distinct (xs ++ i ∷ [])
Distinct-append [] i h d = (tt, tt)
Distinct-append (x ∷ xs) i h d =
    (All-append (λ y. y ≢ x) xs (i ∷ []) d.0 (λ e. h.0 (sym e), tt), Distinct-append xs i h.1 d.1)

pub put_at_self {ℓ} : {A : Type ℓ} (i : ℕ) (a : A) (f : ℕ → A) → put_at i a f i ≡ a
put_at_self i a f = ground arith

pub put_at_other {ℓ} : {A : Type ℓ} (i j : ℕ) (a : A) (f : ℕ → A) → j ≢ i → put_at i a f j ≡ f j
put_at_other i j a f h = ground arith
