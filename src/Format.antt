-- ===== src/Format.antt =====
-- std::format, as far as src/shrinkler_gba uses it: numbers in decimal and in hexadecimal with a
-- prefix, and padding. And `to_hex` of elf_info.cppm.
pub mod Laws
pub mod Sizes
use shrinkler_gba.Base.{
  ℕ, Text, if◌then◌else◌, [], codes, ltb, replicate, suc, ◌++◌, ◌+◌, ◌-◌, ◌/◌, length, ◌%◌, ◌∷◌,
  ◌==◌, zero,
}

-- `0` to `9` and `a` to `f`.
abbrev pub digit : ℕ → ℕ
digit d = if ltb d 10 then b'0' + d else b'a' + (d - 10)

-- The digits of a number, in front of those that are given; one for each unit of fuel at most.
pub digits_onto : ℕ → ℕ → ℕ → Text → Text
digits_onto base zero n behind = behind
digits_onto base (suc fuel) n behind =
    let rest = digits_onto base fuel (n / base) (digit (n % base) ∷ behind) in
    if n / base == 0 then digit (n % base) ∷ behind else rest

-- More than the digits of a `uint64_t` to any base.
abbrev pub max_digits : ℕ
max_digits = 64

unfoldable pub decimal : ℕ → Text
unfolding digits_onto
decimal n = digits_onto 10 max_digits n []

unfoldable pub hexadecimal : ℕ → Text
unfolding digits_onto
hexadecimal n = digits_onto 16 max_digits n []

-- `{:<width>}` of a number: spaces in front.
unfoldable pub decimal_in : ℕ → ℕ → Text
unfolding decimal
decimal_in width n = replicate (width - length (decimal n)) b' ' ++ decimal n

abbrev pub prefix : Text
prefix = codes "0x"

-- `to_hex(value)`: `{:#0x}`, where the width is missing.
unfoldable pub to_hex : ℕ → Text
unfolding hexadecimal
to_hex value = prefix ++ hexadecimal value

-- `to_hex(value, ndigits)`: `{:#0<width>x}`, where the zeros stand behind the prefix.
unfoldable pub to_hex_padded : ℕ → ℕ → Text
unfolding hexadecimal
to_hex_padded value ndigits =
    prefix ++ (replicate (ndigits - length (hexadecimal value)) b'0' ++ hexadecimal value)
