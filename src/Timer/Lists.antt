-- ===== src/Timer/Lists.antt =====
-- The lists of a timer queue: which entries they hold, how often, and the order by time.
use libnetq.Prelude.{
  ℕ, ◌+◌, ◌-◌, ◌<◌, ◌≡◌, refl, List, [], ◌∷◌, ◌++◌, arith, ◌==◌, if◌then◌else◌, All, Bool-cases,
  inl, inr, ==_iff,
}
use mathlib.Core.Path.{subst}
use libnetq.Prelude.Int.{ℤ, ◌≤ℤ◌, int_ltb}

-- How often an entry is in a list.
abbrev pub count : ℕ → List ℕ → ℕ
count i [] = 0
count i (j ∷ rest) = (if j == i then 1 else 0) + count i rest

-- `NQListHead_remove`, on the list that holds the entry.
unfoldable pub erase : ℕ → List ℕ → List ℕ
erase a [] = []
erase a (x ∷ xs) = if x == a then xs else x ∷ erase a xs

-- The loop of `NQTimerList_insert`, `time` being the time points. At the list's end the source
-- compares with the list's head as if it were an entry; either way it then adds at the back.
unfoldable pub insert_by : (ℕ → ℤ) → ℕ → List ℕ → List ℕ
insert_by time k [] = k ∷ []
insert_by time k (i ∷ rest) =
    if int_ltb (time k) (time i) then k ∷ i ∷ rest else i ∷ insert_by time k rest

-- Every entry is due no later than those behind it.
abbrev pub IsSorted : (ℕ → ℤ) → List ℕ → Type 0
IsSorted time [] = Unit {0}
IsSorted time (i ∷ rest) = All (λ j. time i ≤ℤ time j) rest × IsSorted time rest

pub count-append :
    (i : ℕ) (front back : List ℕ) → count i (front ++ back) ≡ count i front + count i back
count-append i [] back = omega arith
count-append i (j ∷ front) back = omega (arith, count-append i front back)

pub count-erase :
    (a b : ℕ) (xs : List ℕ) → count b (erase a xs) ≡ count b xs - (if a == b then 1 else 0)
unfolding erase
count-erase a b [] = ground arith
count-erase a b (x ∷ xs) = ground (arith, count-erase a b xs)

pub count-insert_by :
    (time : ℕ → ℤ) (k b : ℕ) (xs : List ℕ)
    → count b (insert_by time k xs) ≡ (if k == b then 1 else 0) + count b xs
unfolding insert_by
count-insert_by time k b [] = refl
count-insert_by time k b (i ∷ rest) = ground (arith, count-insert_by time k b rest)

pub erase_absent : (a : ℕ) (xs : List ℕ) → count a xs ≡ 0 → erase a xs ≡ xs
unfolding erase
erase_absent a [] h = refl
erase_absent a (x ∷ xs) h = ground (arith, erase_absent a xs)

All-erase : (P : ℕ → Type 0) (a : ℕ) (xs : List ℕ) → All P xs → All P (erase a xs)
unfolding erase
All-erase P a [] p = p
All-erase P a (x ∷ xs) p = elim (Bool-cases (x == a)) [
  | inl e ↦ rw e p.1
  | inr e ↦ rw e (p.0, All-erase P a xs p.1)
]

pub All-insert_by :
    (P : ℕ → Type 0) (time : ℕ → ℤ) (k : ℕ) (xs : List ℕ)
    → P k
    → All P xs
    → All P (insert_by time k xs)
unfolding insert_by
All-insert_by P time k [] p ps = (p, tt)
All-insert_by P time k (i ∷ rest) p ps = elim (Bool-cases (int_ltb (time k) (time i))) [
  | inl e ↦ rw e (p, ps)
  | inr e ↦ rw e (ps.0, All-insert_by P time k rest p ps.1)
]

All-count : (P : ℕ → Type 0) (xs : List ℕ) → ((j : ℕ) → 0 < count j xs → P j) → All P xs
All-count P [] f = tt
All-count P (x ∷ xs) f = (f x (ground arith), All-count P xs (λ j h. f j (ground arith)))

pub count-All : (P : ℕ → Type 0) (xs : List ℕ) (j : ℕ) → All P xs → 0 < count j xs → P j
count-All P [] j p h = absurd (omega arith)
count-All P (x ∷ xs) j p h = elim (Bool-cases (x == j)) [
  | inl e ↦ subst P ((==_iff x j).0 e) p.0
  | inr e ↦ count-All P xs j p.1 (ground (arith, h, e))
]

pub IsSorted-erase :
    (time : ℕ → ℤ) (a : ℕ) (xs : List ℕ) → IsSorted time xs → IsSorted time (erase a xs)
unfolding erase
IsSorted-erase time a [] s = s
IsSorted-erase time a (x ∷ xs) s = elim (Bool-cases (x == a)) [
  | inl e ↦ rw e s.1
  | inr e ↦ rw e (All-erase (λ j. time x ≤ℤ time j) a xs s.0, IsSorted-erase time a xs s.1)
]

pub IsSorted-insert_by :
    (time : ℕ → ℤ) (k : ℕ) (xs : List ℕ) → IsSorted time xs → IsSorted time (insert_by time k xs)
unfolding insert_by
IsSorted-insert_by time k [] s = (tt, tt)
IsSorted-insert_by time k (i ∷ rest) s = elim (Bool-cases (int_ltb (time k) (time i))) [
  | inl e ↦
      let before : time k ≤ℤ time i = ground (arith, e) in
      rw e (
        (
          before,
          All-count (λ j. time k ≤ℤ time j) rest
              (λ j h. omega (arith, before, count-All (λ j. time i ≤ℤ time j) rest j s.0 h)),
        ),
        s,
      )
  | inr e ↦
      let after : time i ≤ℤ time k = ground (arith, e) in
      rw e (
        All-insert_by (λ j. time i ≤ℤ time j) time k rest after s.0,
        IsSorted-insert_by time k rest s.1,
      )
]

-- The order depends on the times of the listed entries only.
pub IsSorted-congr :
    (f g : ℕ → ℤ) (xs : List ℕ)
    → ((j : ℕ) → 0 < count j xs → f j ≡ g j)
    → IsSorted f xs
    → IsSorted g xs
IsSorted-congr f g [] e s = tt
IsSorted-congr f g (x ∷ xs) e s =
    let same : f x ≡ g x = e x (ground arith) in
    (
      All-count (λ j. g x ≤ℤ g j) xs
          (λ j h.
            subst (λ (a : ℤ). a ≤ℤ g j) same
              (subst (λ (a : ℤ). f x ≤ℤ a) (e j (ground (arith, h)))
                (count-All (λ j. f x ≤ℤ f j) xs j s.0 h))),
      IsSorted-congr f g xs (λ j h. e j (ground (arith, h))) s.1,
    )
