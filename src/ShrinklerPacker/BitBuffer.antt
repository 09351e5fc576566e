-- ===== src/ShrinklerPacker/BitBuffer.antt =====
-- src/shrinkler_gba/shrinkler_packer.cpp: the bit buffer of the emitted range decoder. Bits are shifted
-- out of a buffer at the top; the lowest 1 in it marks their end. A buffer with the mark only is filled
-- with the next word.
use shrinkler_gba.Base.{
  ℕ, List, All, ◌<◌, ◌^◌, ◌∷◌, length, u32, ◌*◌, arith, ◌+◌, ◌≡◌, [], ◌%◌, ◌≢◌, suc, ◌<<<◌, zero,
  ◌>>>◌, leb, ◌≤◌, ◌==◌, bit_or, ap, ◌∙◌, bit_or-shifted,
}
use native.Mathlib.Nat.{pow-suc, mul-le-mul_right}

-- The number with the given binary digits, the highest first.
abbrev pub number : List ℕ → ℕ
number [] = 0
number (b ∷ bits) = b * 2 ^ length bits + number bits

abbrev pub AreBits : List ℕ → Type 0
AreBits = All (λ (b : ℕ). b < 2)

number-lt : (bits : List ℕ) → AreBits bits → number bits < 2 ^ length bits
number-lt [] h = omega arith
number-lt (zero ∷ bits) (h, hs) = omega (arith, number-lt bits hs, pow-suc 2 (length bits))
number-lt (suc zero ∷ bits) (h, hs) = omega (arith, number-lt bits hs, pow-suc 2 (length bits))
number-lt (suc (suc b) ∷ bits) (h, hs) = absurd (omega arith)

-- A buffer with the given bits: they and the mark are at the top.
pub record IsBuffer (bits : List ℕ) (buffer : ℕ) : Type 0 where
  pub mark : ℕ
  pub at_top : 2 ^ length bits * mark ≡ 2 ^ 31
  pub value : buffer ≡ (2 * number bits + 1) * mark

-- Shifting a buffer of a bit at least.
abbrev pub IsShifted : List ℕ → ℕ → ℕ → Type 0
IsShifted bits buffer b =
    IsBuffer bits (u32 (buffer <<< 1)) × ((buffer >>> 31) % 2 ≡ b) × (u32 (buffer <<< 1) ≢ 0)

module _ (bits : List ℕ) (buffer : ℕ) (hs : AreBits bits) where
  -- The bits below the highest, with the mark.
  below : (k : ℕ) → 2 ^ length bits * k ≡ 2 ^ 30 → (2 * number bits + 1) * k < 2 ^ 31
  below zero full = omega (arith, full)
  below (suc k) full = omega (arith, full, mul-le-mul_right (suc k) (number-lt bits hs))

  positive : (k : ℕ) → 2 ^ length bits * k ≡ 2 ^ 30 → 1 ≤ (2 * number bits + 1) * k
  positive zero full = absurd (omega (arith, full))
  positive (suc k) full = omega arith

  shift :
      (b k : ℕ)
      → b < 2
      → 2 ^ length bits * k ≡ 2 ^ 30
      → buffer ≡ b * 2 ^ 31 + (2 * number bits + 1) * k
      → IsShifted bits buffer b
  shift b k h full value =
      let some_below = positive k full in
      let few_below = below k full in
      (
        record { mark = 2 * k; at_top = omega (arith, full); value = omega arith },
        omega arith,
        λ e. omega (arith, e),
      )

-- The highest bit of a buffer is shifted out.
pub shift_lem :
    (b : ℕ) (bits : List ℕ) (buffer : ℕ)
    → AreBits (b ∷ bits)
    → IsBuffer (b ∷ bits) buffer
    → IsShifted bits buffer b
shift_lem b bits buffer (h, hs) is =
    let full : 2 ^ length bits * is.mark ≡ 2 ^ 30 =
      omega (arith, is.at_top, ap (λ (x : ℕ). x * is.mark) (pow-suc 2 (length bits))) in
    shift bits buffer hs b is.mark h full (is.value ∙ omega (arith, ap (λ (x : ℕ). b * x) full))

-- A word is loaded and shifted, and the mark is set behind its bits.
pub word_lem :
    (b : ℕ) (bits : List ℕ)
    → AreBits (b ∷ bits)
    → length bits ≡ 31
    → (number (b ∷ bits) < 2 ^ 32)
      × (leb (2 ^ 32) (number (b ∷ bits) + number (b ∷ bits)) ≡ (b == 1))
      × IsBuffer bits (bit_or (u32 (number (b ∷ bits) + number (b ∷ bits))) 1)
word_lem b bits (h, hs) long =
    let power : 2 ^ length bits ≡ 2 ^ 31 = ap (λ (n : ℕ). 2 ^ n) long in
    let top : b * 2 ^ length bits ≡ b * 2 ^ 31 = ap (λ (x : ℕ). b * x) power in
    let low = number-lt bits hs in
    let shifted : u32 (number (b ∷ bits) + number (b ∷ bits)) ≡ number bits * 2 ^ 1 =
      omega (arith, low, top, power) in
    (
      omega (arith, low, top, power),
      ground (arith, low, top, power),
      record {
        mark = 1;
        at_top = omega (arith, power);
        value =
            ap (λ (x : ℕ). bit_or x 1) shifted
            ∙ bit_or-shifted 1 (number bits) 1 (omega arith)
            ∙ omega arith;
      },
    )
