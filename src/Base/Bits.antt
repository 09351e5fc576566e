-- ===== src/Base/Bits.antt =====
-- `|` and `&` on native numbers: a sum of fields that do not overlap, and the test of one bit.
use Prim.Native.Nat.{
  ℕ, zero, suc, ◌+◌, ◌*◌, ◌/◌, ◌%◌, ◌^◌, ◌≤◌, ◌<◌, min, max, digits, bit_and, bit_or,
  bit_and-bitwise, bit_or-bitwise,
}
use mathlib.Core.Path.{◌≡◌, refl, ap, sym, ◌∙◌}
use native.Mathlib.Nat.{pow-suc, mul_comm, div-div-eq-div-mul}
use native.Mathlib.Omega.{arith}

module _ (z : ℕ → ℕ) (f : ℕ → ℕ → ℕ) where
  digits_enough : (n m a b : ℕ) → a ≤ n → a ≤ m → digits z f n a b ≡ digits z f m a b
  digits_enough (suc n) (suc m) (suc a) b p q =
      ap (λ d. d * 2 + f (suc a % 2) (b % 2))
        (digits_enough n m (suc a / 2) (b / 2) (omega arith) (omega arith))
  digits_enough zero zero a b p q = refl
  digits_enough (suc n) (suc m) zero b p q = refl
  digits_enough zero (suc m) zero b p q = refl
  digits_enough (suc n) zero zero b p q = refl
  digits_enough _ _ (suc a) b p q = absurd (omega arith)

  -- The digits of `a`, with any fuel that is enough for its half.
  digits_step :
      (n a b : ℕ)
      → suc a / 2 ≤ n
      → digits z f (suc a) (suc a) b ≡ digits z f n (suc a / 2) (b / 2) * 2 + f (suc a % 2) (b % 2)
  digits_step n a b h =
      ap (λ d. d * 2 + f (suc a % 2) (b % 2))
        (digits_enough a n (suc a / 2) (b / 2) (omega arith) h)

or_lowest : (a b : ℕ) → bit_or a b ≡ bit_or (a / 2) (b / 2) * 2 + max (a % 2) (b % 2)
or_lowest zero b = omega (arith, bit_or-bitwise 0 b, bit_or-bitwise 0 (b / 2))
or_lowest (suc a) b = omega (
  arith,
  bit_or-bitwise (suc a) b,
  bit_or-bitwise (suc a / 2) (b / 2),
  digits_step (λ y. y) max (suc a / 2) a b (omega arith),
)

and_lowest : (a b : ℕ) → bit_and a b ≡ bit_and (a / 2) (b / 2) * 2 + min (a % 2) (b % 2)
and_lowest zero b = omega (arith, bit_and-bitwise 0 b, bit_and-bitwise 0 (b / 2))
and_lowest (suc a) b = omega (
  arith,
  bit_and-bitwise (suc a) b,
  bit_and-bitwise (suc a / 2) (b / 2),
  digits_step (λ y. 0) min (suc a / 2) a b (omega arith),
)

or_zero : (n a : ℕ) → a ≤ n → bit_or a 0 ≡ a
or_zero n zero h = bit_or-bitwise 0 0
or_zero zero (suc a) h = absurd (omega arith)
or_zero (suc n) (suc a) h = omega (arith, or_lowest (suc a) 0, or_zero n (suc a / 2) (omega arith))

or_comm : (n a b : ℕ) → a ≤ n → bit_or a b ≡ bit_or b a
or_comm zero a b h =
    let nothing : a ≡ 0 = omega arith in
    rw nothing (bit_or-bitwise 0 b ∙ sym (or_zero b b (omega arith)))
or_comm (suc n) a b h =
    omega (arith, or_lowest a b, or_lowest b a, or_comm n (a / 2) (b / 2) (omega arith))

pub bit_or_comm : (a b : ℕ) → bit_or a b ≡ bit_or b a
bit_or_comm a b = or_comm a a b (omega arith)

and_zero : (n a : ℕ) → a ≤ n → bit_and a 0 ≡ 0
and_zero n zero h = bit_and-bitwise 0 0
and_zero zero (suc a) h = absurd (omega arith)
and_zero (suc n) (suc a) h =
    omega (arith, and_lowest (suc a) 0, and_zero n (suc a / 2) (omega arith))

pub bit_and-zero : (a : ℕ) → bit_and a 0 ≡ 0
bit_and-zero a = and_zero a a (omega arith)

double : (q k : ℕ) → q * 2 ^ suc k ≡ 2 * (q * 2 ^ k)
double q k = omega (arith, ap (λ (p : ℕ). q * p) (pow-suc 2 k))

-- `(q << k) | r`, where `r` has `k` bits.
pub bit_or-shifted : (k q r : ℕ) → r < 2 ^ k → bit_or (q * 2 ^ k) r ≡ q * 2 ^ k + r
bit_or-shifted zero q r small =
    let none_left : r ≡ 0 = omega arith in
    rw none_left (omega (arith, or_zero (q * 1) (q * 1) (omega arith)))
bit_or-shifted (suc k) q r small =
    let whole : 2 ^ suc k ≡ 2 * 2 ^ k = pow-suc 2 k ∙ mul_comm (2 ^ k) 2 in
    let halves = bit_or-shifted k q (r / 2) (omega arith) in
    let even : q * 2 ^ suc k / 2 ≡ q * 2 ^ k = omega (arith, double q k) in
    let last = or_lowest (q * 2 ^ suc k) r in
    omega (arith, double q k, last, halves, ap (λ (h : ℕ). bit_or h (r / 2)) even)

-- The test of one bit.
pub bit_and-bit : (k a : ℕ) → bit_and a (2 ^ k) ≡ a / 2 ^ k % 2 * 2 ^ k
bit_and-bit zero a = omega (arith, and_lowest a 1, bit_and-zero (a / 2))
bit_and-bit (suc k) a =
    let whole : 2 ^ suc k ≡ 2 * 2 ^ k = pow-suc 2 k ∙ mul_comm (2 ^ k) 2 in
    let even : 2 ^ suc k / 2 ≡ 2 ^ k = omega arith in
    let digit : a / 2 ^ suc k ≡ a / 2 / 2 ^ k =
      ap (λ h. a / h) (whole) ∙ sym (div-div-eq-div-mul a 2 (2 ^ k)) in
    omega (
      arith,
      and_lowest a (2 ^ suc k),
      bit_and-bit k (a / 2),
      ap (λ (h : ℕ). bit_and (a / 2) h) even,
      double (a / 2 / 2 ^ k % 2) k,
      ap (λ (h : ℕ). h % 2 * 2 ^ suc k) digit,
    )
