-- ===== src/Format/Sizes.antt =====
-- How long formatted numbers are at most.
use shrinkler_gba.Format.{
  digits_onto, digit, decimal, hexadecimal, to_hex, to_hex_padded, max_digits, prefix,
}
use shrinkler_gba.Base.{
  ℕ, Text, length, ◌≤◌, [], arith, ◌+◌, length-append, suc, Bool-cases, replicate, ◌-◌, ◌/◌,
  length-replicate, ◌==◌, inl, inr, ◌%◌, ◌∷◌, zero,
}

length-digits_onto :
    (base fuel n : ℕ) (behind : Text)
    → length (digits_onto base fuel n behind) ≤ fuel + length behind
unfolding digits_onto
length-digits_onto base zero n behind = omega arith
length-digits_onto base (suc fuel) n behind = elim (Bool-cases (n / base == 0)) [
  | inl done ↦ rw done (omega arith)
  | inr more ↦
      rw more (omega (arith, length-digits_onto base fuel (n / base) (digit (n % base) ∷ behind)))
]

pub length-decimal : (n : ℕ) → length (decimal n) ≤ 64
unfolding decimal
length-decimal n = length-digits_onto 10 max_digits n []

length-hexadecimal : (n : ℕ) → length (hexadecimal n) ≤ 64
unfolding hexadecimal
length-hexadecimal n = length-digits_onto 16 max_digits n []

pub length-to_hex : (n : ℕ) → length (to_hex n) ≤ 66
unfolding to_hex
length-to_hex n = omega (arith, length-hexadecimal n, length-append prefix (hexadecimal n))

pub length-to_hex_padded-le : (n ndigits : ℕ) → length (to_hex_padded n ndigits) ≤ ndigits + 66
unfolding to_hex_padded
length-to_hex_padded-le n ndigits = omega (
  arith,
  length-hexadecimal n,
  length-append (replicate (ndigits - length (hexadecimal n)) b'0') (hexadecimal n),
  length-replicate {A = ℕ} (ndigits - length (hexadecimal n)) b'0',
)
