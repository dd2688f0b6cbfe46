-- ===== src/Base64/PastTable.antt =====
-- Characters from 128 on, for which the decoder's table has no place.
use libnetq.Prelude.{
  ℕ, zero, suc, ◌≤◌, ◌≡◌, refl, ap, List, [], ◌∷◌, none, some, get_elem?, length, arith, inl, inr,
  Bool-cases,
}
use libnetq.Base64.{is_nonpad, is_url, dec_table, looked, decode_groups, decode_ex}

get_elem?-past : {A : Type 0} (xs : List A) (i : ℕ) → length xs ≤ i → get_elem? xs i ≡ none
get_elem?-past [] i h = refl
get_elem?-past (x ∷ xs) zero h = absurd (omega arith)
get_elem?-past (x ∷ xs) (suc i) h = get_elem?-past xs i (omega arith)

length-dec_table : (flags : ℕ) → length (dec_table flags) ≡ 128
length-dec_table flags = elim (Bool-cases (is_url flags)) [ inl e ↦ rw e refl | inr e ↦ rw e refl ]

-- Any text that starts with a character from 128 on, in either alphabet and for any output, makes
-- the decoder read behind the end of its table.
pub decode_ex-past_table :
    (c : ℕ) (rest : List ℕ) (room flags : ℕ)
    → 128 ≤ c
    → decode_ex (some (c ∷ rest)) room flags ≡ none
unfolding decode_ex decode_groups
decode_ex-past_table c rest room flags h = by_length rest
  where
    past : get_elem? (dec_table flags) c ≡ none
    past = get_elem?-past (dec_table flags) c (omega (arith, length-dec_table flags))

    by_length :
        (rest : List ℕ)
        → decode_groups (dec_table flags) (is_nonpad flags) room (c ∷ rest) 0 [] ≡ none
    by_length [] = ap (looked _ _) past
    by_length (c2 ∷ []) = ap (looked _ _) past
    by_length (c2 ∷ c3 ∷ []) = ap (looked _ _) past
    by_length (c2 ∷ c3 ∷ c4 ∷ more) = ap (looked _ _) past
