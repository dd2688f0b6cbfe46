-- ===== src/DescSet.antt =====
-- libnetq/DescSet.c, libnetq/DescSet.h: a set of entries that are handed out under identifiers.
-- An entry is its place in the block; `NQDescList` lists are sequences of places. What the random
-- generator gives is a list, whose end has no result. A look-up of a place behind the block, which C
-- leaves undefined, has no result either. The contents of entries are left out.
pub mod Ids
pub mod Lists
pub mod Cases
pub mod Valid
pub mod Handles
pub mod Lost
mod Tests
use libnetq.Prelude.{
  ℕ, zero, suc, ◌+◌, ◌-◌, ◌*◌, ◌/◌, ◌%◌, ◌^◌, List, [], ◌∷◌, ◌++◌, Option, none, some, Bool, true,
  false, ltb, ◌==◌, ◌||◌, bit_and, bit_or, if◌then◌else◌, length,
}

-- NQ_DESC_NUM_MAX
abbrev pub num_max : ℕ
num_max = 2 ^ 12

-- NQ_DESC_INVALID
abbrev pub desc_invalid : ℕ
desc_invalid = 0

-- NQ_UINTPTR_MAX
abbrev pub uintptr_max : ℕ
uintptr_max = 2 ^ 64 - 1

-- NQDescIdentifierToIndex
abbrev pub to_index : ℕ → ℕ
to_index id = bit_and id (num_max - 1)

pub record DescSet : Type 0 where
  pub max_id : ℕ
  pub max_count : ℕ
  pub entry_size : ℕ
  pub ids : ℕ → ℕ
  pub is_free : ℕ → Bool
  pub alloc_list : List ℕ
  pub free_list : List ℕ

abbrev pub put_at {ℓ} : {A : Type ℓ} → ℕ → A → (ℕ → A) → ℕ → A
put_at i a f j = if i == j then a else f j

-- A random value with the lowest bits cleared.
abbrev pub masked : ℕ → ℕ → ℕ
masked max_id random =
    bit_and (if max_id == uintptr_max then random else random % (max_id + 1)) (2 ^ 64 - num_max)

-- The `continue` of the loop goes on to its condition.
abbrev pub joined_id : ℕ → ℕ → ℕ
joined_id id bits = if bits == desc_invalid then bits else bit_or bits (to_index id)

unfoldable pub make_identifier : List ℕ → ℕ → ℕ → Option (ℕ × List ℕ)
make_identifier [] id max_id = none
make_identifier (random ∷ more) id max_id =
    let rest = make_identifier more id max_id in
    let result = joined_id id (masked max_id random) in
    if id == result then rest else some (result, more)

abbrev pub erase : ℕ → List ℕ → List ℕ
erase i [] = []
erase i (j ∷ js) = if i == j then js else j ∷ erase i js

-- The places from `i` on.
abbrev pub places : ℕ → ℕ → List ℕ
places i zero = []
places i (suc n) = i ∷ places (suc i) n

-- `malloc` answers whether there is such a block; the two structures have 72 and 32 bytes.
unfoldable pub create : (ℕ → Bool) → ℕ → ℕ → Option DescSet
create malloc num size =
    let entry_size = (32 + size + 7) / 8 * 8 % 2 ^ 64 in
    if ltb num_max num || size == 0
    then none
    else if malloc ((72 + num * entry_size) % 2 ^ 64)
    then some (record {
      max_id = uintptr_max;
      max_count = num;
      entry_size = entry_size;
      ids = λ i. i;
      is_free = λ i. true;
      alloc_list = [];
      free_list = places 0 num;
    })
    else none

unfoldable pub set_max_id : ℕ → DescSet → Bool × DescSet
set_max_id id s = if ltb id num_max then (false, s) else (true, record s { max_id = id })

abbrev pub set_size : DescSet → ℕ
set_size s = length s.alloc_list

abbrev pub is_empty : DescSet → Bool
is_empty s = length s.alloc_list == 0

abbrev pub taken : ℕ → List ℕ → ℕ → DescSet → DescSet
taken i others id s = record s {
  ids = put_at i id s.ids;
  is_free = put_at i false s.is_free;
  free_list = others;
  alloc_list = s.alloc_list ++ i ∷ [];
}

abbrev pub given : ℕ → List ℕ → DescSet → ℕ × List ℕ → ℕ × Option ℕ × DescSet × List ℕ
given i others s (id, more) = (id, some i, taken i others id s, more)

abbrev pub map_option {ℓ κ} : {A : Type ℓ} {B : Type κ} → (A → B) → Option A → Option B
map_option f none = none
map_option f (some a) = some (f a)

abbrev pub shift_free : List ℕ → List ℕ → DescSet → Option (ℕ × Option ℕ × DescSet × List ℕ)
shift_free randoms [] s = some (desc_invalid, none, s, randoms)
shift_free randoms (i ∷ others) s =
    map_option (given i others s) (make_identifier randoms (s.ids i) s.max_id)

-- The identifier, the place of the entry, the set behind it, and the random values that are left.
unfoldable pub alloc_entry : List ℕ → DescSet → Option (ℕ × Option ℕ × DescSet × List ℕ)
alloc_entry randoms s = shift_free randoms s.free_list s

unfoldable pub find_entry : ℕ → DescSet → Option (Option ℕ)
find_entry id s =
    if ltb (to_index id) s.max_count
    then some (if s.ids (to_index id) == id then some (to_index id) else none)
    else none

abbrev pub unless_free : DescSet → Option ℕ → Option ℕ
unless_free s none = none
unless_free s (some i) = if s.is_free i then none else some i

abbrev pub release_found : DescSet → Option ℕ → DescSet
release_found s none = s
release_found s (some i) = record s {
  alloc_list = erase i s.alloc_list;
  is_free = put_at i true s.is_free;
  free_list = s.free_list ++ i ∷ [];
}

unfoldable pub release_entry : ℕ → DescSet → Option DescSet
release_entry id s = map_option (λ e. release_found s (unless_free s e)) (find_entry id s)

unfoldable pub find_data : ℕ → DescSet → Option (Option ℕ)
find_data id s = map_option (unless_free s) (find_entry id s)

abbrev pub is_some : Option ℕ → Bool
is_some none = false
is_some (some i) = true

unfoldable pub has_entry : ℕ → DescSet → Option Bool
has_entry id s = map_option (λ e. is_some (unless_free s e)) (find_entry id s)

abbrev pub first : DescSet → Option ℕ
first s = elim s.alloc_list [ [] ↦ none | i ∷ is ↦ some i ]
