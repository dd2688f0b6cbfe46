-- ===== src/DescSet/Cases.antt =====
-- What an allocation or a release did.
use libnetq.Prelude.{
  ℕ, ◌<◌, ◌≡◌, ◌≢◌, ◌⊎◌, refl, sym, ap, ◌∙◌, List, [], ◌∷◌, Option, none, some, false, ltb, ◌==◌,
  arith, Bool-cases, Option-cases, inl, inr,
}
use libnetq.DescSet.{
  DescSet, to_index, make_identifier, taken, given, map_option, shift_free, alloc_entry, find_entry,
  release_found, release_entry,
}
use libnetq.DescSet.Ids.{make_identifier_lem}

-- What a successful allocation did.
pub record Taken (s s' : DescSet) (id : ℕ) (p : Option ℕ) : Type 0 where
  pub place : ℕ
  pub others : List ℕ
  pub front : s.free_list ≡ place ∷ others
  pub after : s' ≡ taken place others id s
  pub found : p ≡ some place
  pub fresh : id ≢ s.ids place
  pub index : id ≢ 0 → to_index id ≡ to_index (s.ids place)

shift_free-cases :
    (randoms free : List ℕ) (s s' : DescSet) (id : ℕ) (p : Option ℕ) (more : List ℕ)
    → s.free_list ≡ free
    → shift_free randoms free s ≡ some (id, p, s', more)
    → ((s' ≡ s) × (id ≡ 0)) ⊎ Taken s s' id p
shift_free-cases randoms [] s s' id p more f e = inl (cc, cc)
shift_free-cases randoms (i ∷ others) s s' id p more f e =
    elim (Option-cases (make_identifier randoms (s.ids i) s.max_id)) [
      | inl n ↦
          let nothing : none ≡ some (id, p, s', more) =
            ap (map_option (given i others s)) (sym n) ∙ e in
          absurd (cc)
      | inr ((new, left), m) ↦
          let just : some (given i others s (new, left)) ≡ some (id, p, s', more) =
            ap (map_option (given i others s)) (sym m) ∙ e in
          let same : new ≡ id = cc in
          let (fresh, index) = make_identifier_lem randoms (s.ids i) s.max_id new left m in
          inr (record {
            place = i;
            others = others;
            front = f;
            after = cc;
            found = cc;
            fresh = λ h. fresh (same ∙ h);
            index = λ h. ap to_index (sym same) ∙ index (λ z. h (sym same ∙ z));
          })
    ]

pub alloc_entry-cases :
    (randoms : List ℕ) (s : DescSet) {s' : DescSet} {id : ℕ} {p : Option ℕ} {more : List ℕ}
    → alloc_entry randoms s ≡ some (id, p, s', more)
    → ((s' ≡ s) × (id ≡ 0)) ⊎ Taken s s' id p
unfolding alloc_entry
alloc_entry-cases randoms s {s'} {id} {p} {more} e =
    shift_free-cases randoms s.free_list s s' id p more refl e

-- What a release did, if anything.
pub record Released (s s' : DescSet) (id : ℕ) : Type 0 where
  pub inside : to_index id < s.max_count
  pub own : s.ids (to_index id) ≡ id
  pub taken_before : s.is_free (to_index id) ≡ false
  pub after : s' ≡ release_found s (some (to_index id))

pub release_entry-cases :
    (id : ℕ) (s : DescSet) {s' : DescSet}
    → release_entry id s ≡ some s'
    → (s' ≡ s) ⊎ Released s s' id
unfolding release_entry find_entry
release_entry-cases id s {s'} e = elim (Bool-cases (ltb (to_index id) s.max_count)) [
  | inl inside ↦ elim (Bool-cases (s.ids (to_index id) == id)) [
    | inl own ↦ elim (Bool-cases (s.is_free (to_index id))) [
      | inl free ↦ inl (ground (arith, e))
      | inr busy ↦ inr (record {
        inside = ground arith;
        own = ground arith;
        taken_before = busy;
        after = ground (arith, e);
      })
    ]
    | inr other ↦ inl (ground (arith, e))
  ]
  | inr outside ↦ absurd (ground (arith, e))
]
