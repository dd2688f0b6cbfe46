-- ===== src/DescSet/Tests.antt =====
-- A set of three entries, with random numbers that are given.
use libnetq.Prelude.{
  ◌+◌, ◌≡◌, ◌≢◌, ◌⊎◌, ◌*◌, ◌^◌, ◌-◌, refl, [], ◌∷◌, ◌++◌, some, true, false, arith,
}
use libnetq.DescSet.{
  DescSet, places, to_index, taken, create, make_identifier, alloc_entry, find_entry, find_data,
  has_entry, release_entry,
}
use libnetq.DescSet.Valid.{History, made, IsValid, History-IsValid}
use libnetq.DescSet.Handles.{has_entry-alloc_entry, has_entry-release_entry}
use libnetq.DescSet.Lost.{alloc_entry-lost}

abbrev three : DescSet
three = record {
  max_id = 2 ^ 64 - 1;
  max_count = 3;
  entry_size = 40;
  ids = λ i. i;
  is_free = λ i. true;
  alloc_list = [];
  free_list = places 0 3;
}

three-History : History three
unfolding create
three-History = made (λ n. true) 3 8 refl

abbrev one_given : DescSet
one_given = taken 0 (1 ∷ 2 ∷ []) (5 * 4096) three

History-IsValid_example : IsValid three
History-IsValid_example = History-IsValid three three-History

has_entry-alloc_entry_example :
    (some 0 ≡ some (to_index (5 * 4096)))
    × (has_entry (5 * 4096) one_given ≡ some true)
    × (find_data (5 * 4096) one_given ≡ some (some 0))
    × (has_entry (three.ids (to_index (5 * 4096))) one_given ≡ some false)
    × ((to_index 2 ≡ to_index (5 * 4096)) ⊎ (has_entry 2 one_given ≡ has_entry 2 three))
unfolding alloc_entry make_identifier
has_entry-alloc_entry_example =
    has_entry-alloc_entry 2 three one_given ((5 * 4096 + 7) ∷ []) (5 * 4096) (some 0) []
      three-History refl (omega arith)

has_entry-release_entry_example :
    (s : DescSet) × (release_entry (5 * 4096) one_given ≡ some s)
    × (has_entry (5 * 4096) s ≡ some false)
    × (s.free_list ≡ one_given.free_list ++ to_index (5 * 4096) ∷ [])
    × ((to_index 2 ≡ to_index (5 * 4096)) ⊎ (has_entry 2 s ≡ has_entry 2 one_given))
unfolding has_entry find_entry
has_entry-release_entry_example = has_entry-release_entry 2 one_given (5 * 4096) refl

abbrev two_left : DescSet
two_left = record three { free_list = 1 ∷ 2 ∷ [] }

alloc_entry-lost_example :
    (s : DescSet) × (alloc_entry (9 ∷ []) two_left ≡ some (0, some 1, s, []))
    × (s.alloc_list ≡ 1 ∷ [])
    × (s.free_list ≡ 2 ∷ [])
    × (find_entry 1 s ≢ some (some 1))
alloc_entry-lost_example =
    alloc_entry-lost 1 two_left 9 1 [] (2 ∷ []) (omega arith) refl refl (omega arith) (omega arith)
