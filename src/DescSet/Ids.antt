-- ===== src/DescSet/Ids.antt =====
-- The identifiers that are made.
use libnetq.Prelude.{
  ℕ, ◌+◌, ◌-◌, ◌%◌, ◌^◌, ◌≡◌, ◌≢◌, sym, ap, ◌∙◌, List, [], ◌∷◌, some, ◌==◌, bit_or, if◌then◌else◌,
  arith, Bool-cases, inl, inr,
}
use libnetq.Prelude.Bits.{bit_and_low, bit_and_field, bit_or_add}
use libnetq.DescSet.{to_index, masked, joined_id, make_identifier}

pub to_index_lem : (id : ℕ) → to_index id ≡ id % 4096
to_index_lem id = bit_and_low 12 id

masked_low : (max_id random : ℕ) → masked max_id random % 4096 ≡ 0
masked_low max_id random =
    let x = if max_id == 2 ^ 64 - 1 then random else random % (max_id + 1) in
    omega (arith, bit_and_field 12 52 x)

joined_id_lem :
    (id bits : ℕ)
    → bits % 4096 ≡ 0
    → joined_id id bits ≢ 0
    → to_index (joined_id id bits) ≡ to_index id
joined_id_lem id bits low h = elim (Bool-cases (bits == 0)) [
  | inl e ↦ absurd (h (ground arith))
  | inr e ↦
      let same : joined_id id bits ≡ bits + id % 4096 =
        ap (λ t. if t then bits else bit_or bits (to_index id)) e
        ∙ bit_or_add 12 bits (to_index id) low (omega (arith, to_index_lem id))
        ∙ ap (λ n. bits + n) (to_index_lem id) in
      to_index_lem (joined_id id bits) ∙ omega (arith, same) ∙ sym (to_index_lem id)
]

pub make_identifier_lem :
    (randoms : List ℕ) (id max_id new : ℕ) (more : List ℕ)
    → make_identifier randoms id max_id ≡ some (new, more)
    → (new ≢ id) × (new ≢ 0 → to_index new ≡ to_index id)
unfolding make_identifier
make_identifier_lem [] id max_id new more e = absurd (cc)
make_identifier_lem (random ∷ randoms) id max_id new more e =
    let result = joined_id id (masked max_id random) in
    elim (Bool-cases (id == result)) [
      | inl again ↦ make_identifier_lem randoms id max_id new more (
          ap (λ t. if t then make_identifier randoms id max_id else some (result, randoms))
            (sym again)
          ∙ e)
      | inr done ↦
          let stops : some (result, randoms) ≡ some (new, more) =
            ap (λ t. if t then make_identifier randoms id max_id else some (result, randoms))
              (sym done)
            ∙ e in
          let same : result ≡ new = cc in
          (
            λ h. absurd (ground (arith, same, h)),
            λ h.
                ap to_index (sym same)
                ∙ joined_id_lem id (masked max_id random) (masked_low max_id random)
                    (λ z. h (sym same ∙ z)),
          )
    ]
