-- ===== src/BufferBuilder/Tests.antt =====
-- Runs of the reads and writes, and the theorems at concrete inputs.
use libnetq.Prelude.{
  ℕ, ◌≡◌, refl, ◌↔◌, ◌<◌, List, [], ◌∷◌, some, none, true, arith, min, length, take,
}
use libnetq.Endian.{little, big, load, host_to_be16, byte_swap16, le_word}
use libnetq.BufferBuilder.{overwrite}
use libnetq.BufferBuilder.Get
use libnetq.BufferBuilder.Builder.{init, is_overflow, current_position, write}
use libnetq.BufferBuilder.Stream.{write_all, concat, write_all_lem}

abbrev zeros : List ℕ
zeros = 0 ∷ 0 ∷ 0 ∷ 0 ∷ 0 ∷ 0 ∷ 0 ∷ 0 ∷ []

big_from_little : Get.get_uint16_be little (0x12 ∷ 0x34 ∷ 0x56 ∷ []) ≡ some (2, 0x1234)
unfolding Get.get_uint16_be load host_to_be16 byte_swap16 le_word
big_from_little = refl

too_short : Get.get_uint32_le big (1 ∷ 2 ∷ 3 ∷ []) ≡ none
unfolding Get.get_uint32_le
too_short = refl

abbrev chunks : List (List ℕ)
chunks = (1 ∷ 2 ∷ []) ∷ (3 ∷ 4 ∷ []) ∷ (5 ∷ []) ∷ []

abbrev three_of_four : List ℕ
three_of_four = 0 ∷ 0 ∷ 0 ∷ 9 ∷ []

write_all_example :
    let b = write_all chunks (init three_of_four 3) in
    (b.memory ≡ overwrite (take 3 (concat chunks)) three_of_four)
    × (current_position b ≡ min 3 (length (concat chunks)))
    × ((is_overflow b ≡ true) ↔ (3 < length (concat chunks)))
write_all_example = write_all_lem three_of_four 3 chunks (omega arith)

write_all_memory : (write_all chunks (init three_of_four 3)).memory ≡ 1 ∷ 2 ∷ 3 ∷ 9 ∷ []
unfolding write init
write_all_memory = refl
