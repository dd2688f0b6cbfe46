-- ===== src/DescSet/Lost.antt =====
-- An entry that is lost.
use libnetq.Prelude.{
  ℕ, ◌-◌, ◌^◌, ◌<◌, ◌≡◌, ◌≢◌, refl, sym, ap, ◌∙◌, List, [], ◌∷◌, ◌++◌, some, arith,
}
use libnetq.Prelude.Bits.{bit_and_field}
use libnetq.DescSet.Lists.{put_at_self}
use libnetq.DescSet.{
  DescSet, to_index, put_at, taken, given, map_option, shift_free, masked, make_identifier,
  alloc_entry, find_entry,
}

-- Where the random generator gives a number below 4096, no largest identifier is set, and the next
-- free entry is not the first of the block and has an identifier other than 0: the entry is taken and
-- comes to the list of those handed out, but the call answers 0, which stands for failure, and no
-- identifier leads to the entry.
pub alloc_entry-lost :
    (id : ℕ) (s : DescSet) (random i : ℕ) (more others : List ℕ)
    → random < 4096
    → s.max_id ≡ 2 ^ 64 - 1
    → s.free_list ≡ i ∷ others
    → s.ids i ≢ 0
    → i ≢ 0
    → (s' : DescSet) × (alloc_entry (random ∷ more) s ≡ some (0, some i, s', more))
      × (s'.alloc_list ≡ s.alloc_list ++ i ∷ [])
      × (s'.free_list ≡ others)
      × (find_entry id s' ≢ some (some i))
unfolding alloc_entry make_identifier find_entry
alloc_entry-lost id s random i more others h m f e z =
    let cleared : masked (2 ^ 64 - 1) random ≡ 0 = omega (arith, bit_and_field 12 52 random) in
    let made : make_identifier (random ∷ more) (s.ids i) s.max_id ≡ some (0, more) =
      ap (make_identifier (random ∷ more) (s.ids i)) m ∙ ground (arith, cleared) in
    (
      taken i others 0 s,
      ap (λ free. shift_free (random ∷ more) free s) f ∙ ap (map_option (given i others s)) made,
      refl,
      refl,
      λ q.
          let at : to_index id ≡ i = ground (arith, q) in
          let own : put_at i 0 s.ids (to_index id) ≡ id = ground (arith, q) in
          let zero_id : id ≡ 0 = sym own ∙ ap (put_at i 0 s.ids) at ∙ put_at_self i 0 s.ids in
          z (sym at ∙ ap to_index zero_id),
    )
