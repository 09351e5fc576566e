-- ===== src/Utility.antt =====
-- src/shrinkler_gba/utility.cppm and utility.cpp: the Adler-32 checksum and `to_signed`.
pub mod Adler
pub mod Signed
mod Examples
use shrinkler_gba.Base.{ℕ, ◌+◌, ◌%◌, List, [], ◌∷◌, bit_or, u32, ◌<<<◌}

-- The additions are those of `uint32_t`.
abbrev pub base : ℕ
base = 65521

-- The loop, with its two sums.
unfoldable pub adler_loop : List ℕ → ℕ → ℕ → ℕ × ℕ
adler_loop [] s1 s2 = (s1, s2)
adler_loop (byte ∷ rest) s1 s2 =
    let s1' = u32 (s1 + byte) % base in let s2' = u32 (s2 + s1') % base in adler_loop rest s1' s2'

unfoldable pub adler32 : List ℕ → ℕ
unfolding adler_loop
adler32 bytes = let (s1, s2) = adler_loop bytes 1 0 in bit_or (u32 (s2 <<< 16)) s1
