-- ===== src/Complement.antt =====
-- src/shrinkler_gba/complement.cppm and complement.cpp: the checksum of the cartridge header.
-- The pointer to the checksum area is the list of the bytes from there on; a read past its end is
-- undefined behaviour.
pub mod Sum
pub mod Laws
mod Examples
use shrinkler_gba.Base.{
  ℕ, zero, suc, ◌+◌, ◌-◌, List, ◌==◌, if◌then◌else◌, u8, read, Result, ok, ◌>>=◌,
}
use shrinkler_gba.Gba.{ofs_game_title, ofs_complement}

abbrev pub checksum_area_size : ℕ
checksum_area_size = ofs_complement - ofs_game_title + 1

abbrev pub complement_index : ℕ
complement_index = ofs_complement - ofs_game_title

-- The body of the loop: the variable byte does not count.
add_unless_variable : List ℕ → ℕ → ℕ → ℕ → Result ℕ
add_unless_variable checksum_area variable_byte_index i sum =
    if i == variable_byte_index
    then ok sum
    else read checksum_area i >>= λ byte. ok (u8 (sum + byte))

-- The loop at index `i`, with the number of rounds left.
pub sum_loop : List ℕ → ℕ → ℕ → ℕ → ℕ → Result ℕ
sum_loop checksum_area variable_byte_index zero i sum = ok sum
sum_loop checksum_area variable_byte_index (suc left) i sum =
    add_unless_variable checksum_area variable_byte_index i sum
    >>= sum_loop checksum_area variable_byte_index left (i + 1)

-- `-sum` is negative as an `int`; the cast to `unsigned char` takes it modulo 256.
unfoldable pub calculate_complement : List ℕ → ℕ → Result ℕ
unfolding sum_loop add_unless_variable
calculate_complement checksum_area variable_byte_index = do
  sum ← sum_loop checksum_area variable_byte_index checksum_area_size 0 0x19
  ok (u8 (256 - sum))

-- The overload with one argument.
unfoldable pub calculate_header_complement : List ℕ → Result ℕ
unfolding calculate_complement
calculate_header_complement checksum_area = calculate_complement checksum_area complement_index
