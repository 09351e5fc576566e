-- ===== src/Format/Laws.antt =====
-- Reading back what `to_hex` writes.
use shrinkler_gba.Format.{digit, digits_onto, hexadecimal, to_hex, to_hex_padded, max_digits}
use shrinkler_gba.Base.{
  Text, ℕ, drop, if◌then◌else◌, ◌<◌, ◌∷◌, ltb, ◌*◌, ◌^◌, ◌≡◌, arith, ◌+◌, ◌-◌, [], suc, Bool-cases,
  ◌/◌, ◌==◌, inl, inr, zero, refl, ap, length, replicate, ◌≤◌, length-append, ◌%◌, ◌++◌, ◌∙◌,
  ==_iff, length-replicate,
}
use native.Mathlib.Nat.{pow-suc}

-- The value of a digit.
abbrev digit_value : ℕ → ℕ
digit_value c = if ltb c b'a' then c - b'0' else c - b'a' + 10

-- The value of digits behind a number that is already read.
abbrev pub value_from : ℕ → ℕ → Text → ℕ
value_from base n [] = n
value_from base n (c ∷ text) = value_from base (n * base + digit_value c) text

-- Reading a number in hexadecimal, behind its prefix of two characters.
abbrev pub of_hex : Text → ℕ
of_hex text = value_from 16 0 (drop 2 text)

digit_value-digit : (d : ℕ) → d < 16 → digit_value (digit d) ≡ d
digit_value-digit d h = ground arith

below_one : (n : ℕ) → n < 16 ^ 0 → n ≡ 0
below_one n h = omega arith

shrink : (n fuel : ℕ) → n < 16 ^ suc fuel → n / 16 < 16 ^ fuel
shrink n fuel h = omega (arith, pow-suc 16 fuel)

value-digits_onto :
    (fuel n : ℕ) (behind : Text)
    → n < 16 ^ fuel
    → value_from 16 0 (digits_onto 16 fuel n behind) ≡ value_from 16 n behind
unfolding digits_onto
value-digits_onto zero n behind h = rw (below_one n h) refl
value-digits_onto (suc fuel) n behind h = elim (Bool-cases (n / 16 == 0)) [
  | inl done ↦ rw done (
      ap (λ (v : ℕ). value_from 16 v behind)
        (omega (arith, digit_value-digit (n % 16) (omega arith), (==_iff (n / 16) 0).0 done)))
  | inr more ↦ rw more (
      value-digits_onto fuel (n / 16) (digit (n % 16) ∷ behind) (shrink n fuel h)
      ∙ ap (λ (v : ℕ). value_from 16 v behind)
          (omega (arith, digit_value-digit (n % 16) (omega arith))))
]

of_zeros : (k : ℕ) (text : Text) → value_from 16 0 (replicate k b'0' ++ text) ≡ value_from 16 0 text
of_zeros zero text = refl
of_zeros (suc k) text = of_zeros k text

module _ (n : ℕ) (small : n < 2 ^ 64) where
  value-hexadecimal : value_from 16 0 (hexadecimal n) ≡ n
  unfolding hexadecimal
  value-hexadecimal = value-digits_onto max_digits n [] (omega arith)

  -- A number of up to 64 bits can be read back from what both overloads of `to_hex` write.
  pub of_hex-to_hex :
      (of_hex (to_hex n) ≡ n) × ((ndigits : ℕ) → of_hex (to_hex_padded n ndigits) ≡ n)
  unfolding to_hex to_hex_padded
  of_hex-to_hex = (
    value-hexadecimal,
    λ ndigits. of_zeros (ndigits - length (hexadecimal n)) (hexadecimal n) ∙ value-hexadecimal,
  )

-- With a number of digits, the text is at least so long, and has two characters more.
pub length-to_hex_padded : (n ndigits : ℕ) → 2 + ndigits ≤ length (to_hex_padded n ndigits)
unfolding to_hex_padded
length-to_hex_padded n ndigits = omega (
  arith,
  length-append (replicate (ndigits - length (hexadecimal n)) b'0') (hexadecimal n),
  length-replicate {A = ℕ} (ndigits - length (hexadecimal n)) b'0',
)
