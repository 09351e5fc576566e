-- ===== src/Complement/Examples.antt =====
-- The buffers of test/shrinkler_gba_unit_test/complement_test.cpp.
use shrinkler_gba.Complement.{calculate_complement, calculate_header_complement}
use shrinkler_gba.Complement.Laws.{
  HasComplement, IsAccepted, HasComplement-iff_IsAccepted, calculate_complement_unique,
  calculate_complement_lem,
}
use shrinkler_gba.Complement.Sum.{sum_from}
use shrinkler_gba.Base.{
  ℕ, List, set, ◌≡◌, [], err, ok, ◌↔◌, arith, refl, suc, undefined_behaviour, ◌<◌, ◌+◌, ◌∷◌, zero,
  ◌%◌,
}

abbrev count_up : ℕ → ℕ → List ℕ
count_up zero n = []
count_up (suc left) n = n ∷ count_up left (n + 1)

abbrev ascending_numbers : List ℕ
ascending_numbers = count_up 30 1

complement_of_ascending_numbers : calculate_header_complement ascending_numbers ≡ ok 0x34
unfolding calculate_header_complement
complement_of_ascending_numbers = refl

game_version_of_ascending_numbers : calculate_complement ascending_numbers 28 ≡ ok 0x33
unfolding calculate_complement
game_version_of_ascending_numbers = refl

complement_of_short_area : calculate_header_complement (count_up 20 1) ≡ err undefined_behaviour
unfolding calculate_header_complement
complement_of_short_area = refl

HasComplement-iff_IsAccepted_example :
    HasComplement (set ascending_numbers 28 0x33) ↔ IsAccepted (set ascending_numbers 28 0x33)
HasComplement-iff_IsAccepted_example =
    HasComplement-iff_IsAccepted (set ascending_numbers 28 0x33) (omega arith) (omega arith)

calculate_complement_unique_example :
    IsAccepted (set ascending_numbers 28 0x33)
    ↔ (calculate_complement ascending_numbers 28 ≡ ok 0x33)
calculate_complement_unique_example =
    calculate_complement_unique ascending_numbers 28 0x33 (omega arith) (omega arith) (omega arith)
      (omega arith)

calculate_complement_lem_example :
    (c : ℕ) × (calculate_complement ascending_numbers 28 ≡ ok c)
    × (c < 256)
    × ((c + 0x19 + sum_from ascending_numbers 30 0) % 256 ≡ 29)
calculate_complement_lem_example =
    calculate_complement_lem ascending_numbers 28 (omega arith) (omega arith)
