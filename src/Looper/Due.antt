-- ===== src/Looper/Due.antt =====
-- How much of the time that has passed is still to be performed: what each round lowers.
use libnetq.Prelude.{
  ℕ, suc, ◌+◌, ◌-◌, ◌<◌, ◌≡◌, refl, ap, List, [], ◌∷◌, ◌==◌, arith, Bool-cases, inl, inr, ==_iff,
}
use libnetq.Prelude.Int.{ℤ, pos_part, neg_part, int_ltb}
use libnetq.Timer.Lists.{count, erase, insert_by}

-- One more than the time since `t`, and 0 if `t` is later than `now`.
abbrev pub overdue : ℤ → ℤ → ℕ
overdue now t = suc (pos_part now + neg_part t) - (pos_part t + neg_part now)

abbrev pub due : ℤ → (ℕ → ℤ) → List ℕ → ℕ
due now time [] = 0
due now time (i ∷ rest) = overdue now (time i) + due now time rest

pub due-erase :
    (now : ℤ) (time : ℕ → ℤ) (i : ℕ) (xs : List ℕ)
    → 0 < count i xs
    → due now time (erase i xs) + overdue now (time i) ≡ due now time xs
unfolding erase
due-erase now time i [] h = absurd (omega arith)
due-erase now time i (x ∷ xs) h = elim (Bool-cases (x == i)) [
  | inl e ↦ rw e (omega (arith, ap (λ (k : ℕ). overdue now (time k)) ((==_iff x i).0 e)))
  | inr e ↦ rw e (omega (arith, due-erase now time i xs (ground (arith, h, e))))
]

pub due-insert_by :
    (now : ℤ) (time : ℕ → ℤ) (i : ℕ) (xs : List ℕ)
    → due now time (insert_by time i xs) ≡ overdue now (time i) + due now time xs
unfolding insert_by
due-insert_by now time i [] = omega arith
due-insert_by now time i (x ∷ xs) = elim (Bool-cases (int_ltb (time i) (time x))) [
  | inl e ↦ rw e refl
  | inr e ↦ rw e (omega (arith, due-insert_by now time i xs))
]

pub due_congr :
    (now : ℤ) (f g : ℕ → ℤ) (xs : List ℕ)
    → ((j : ℕ) → 0 < count j xs → f j ≡ g j)
    → due now f xs ≡ due now g xs
due_congr now f g [] e = refl
due_congr now f g (x ∷ xs) e =
    let same : overdue now (f x) ≡ overdue now (g x) = ap (overdue now) (e x (ground arith)) in
    omega (arith, same, due_congr now f g xs (λ j h. e j (ground (arith, h))))
