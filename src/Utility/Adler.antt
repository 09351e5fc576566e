-- ===== src/Utility/Adler.antt =====
-- `adler32` against the definition of RFC 1950.
use shrinkler_gba.Base.{
  ℕ, ◌+◌, ◌*◌, ◌%◌, ◌^◌, ◌/◌, ◌<◌, ◌≡◌, ap, List, [], ◌∷◌, arith, length, IsBytes, IsByte, set,
  bit_or-shifted, get_or, suc, ◌≢◌, zero,
}
use shrinkler_gba.Utility.{base, adler_loop, adler32}
use mathlib.Core.Path.{ap₂}

abbrev pub sum : List ℕ → ℕ
sum [] = 0
sum (byte ∷ rest) = byte + sum rest

-- Each byte counts as often as there are bytes from it on.
abbrev pub weighted_sum : List ℕ → ℕ
weighted_sum [] = 0
weighted_sum (byte ∷ rest) = (length rest + 1) * byte + weighted_sum rest

-- n * (x % m) and n * x are the same modulo m.
mul-mod : (n x : ℕ) → n * (x % base) % base ≡ n * x % base
mul-mod n x =
    let split : x ≡ x / base * base + x % base = omega arith in
    let scaled : n * x ≡ n * (x / base * base + x % base) = ap (λ (t : ℕ). n * t) split in
    omega (arith, scaled)

-- The additions of `uint32_t` do not overflow.
pub adler_loop_step :
    (byte : ℕ) (rest : List ℕ) (s1 s2 : ℕ)
    → s1 < base
    → s2 < base
    → IsByte byte
    → adler_loop (byte ∷ rest) s1 s2
      ≡ adler_loop rest ((s1 + byte) % base) ((s2 + (s1 + byte) % base) % base)
unfolding adler_loop
adler_loop_step byte rest s1 s2 h k b =
    let first : (s1 + byte) % 2 ^ 32 % base ≡ (s1 + byte) % base = omega arith in
    let second : (s2 + (s1 + byte) % 2 ^ 32 % base) % 2 ^ 32 % base
        ≡ (s2 + (s1 + byte) % base) % base =
      omega arith in
    ap₂ (adler_loop rest) first second

-- The two sums, from any start values.
adler_loop_lem :
    (bytes : List ℕ) (s1 s2 : ℕ)
    → s1 < base
    → s2 < base
    → IsBytes bytes
    → ((adler_loop bytes s1 s2).0 ≡ (s1 + sum bytes) % base)
      × ((adler_loop bytes s1 s2).1 ≡ (s2 + length bytes * s1 + weighted_sum bytes) % base)
adler_loop_lem [] s1 s2 h k b = unfold adler_loop in (omega arith, omega arith)
adler_loop_lem (byte ∷ rest) s1 s2 h k (b, bs) =
    let s1' : ℕ = (s1 + byte) % base in
    let s2' : ℕ = (s2 + s1') % base in
    let (first, second) = adler_loop_lem rest s1' s2' (omega arith) (omega arith) bs in
    rw (adler_loop_step byte rest s1 s2 h k b)
      (omega (arith, first), omega (arith, second, mul-mod (length rest) (s1 + byte)))

-- `adler32` is the checksum of RFC 1950: the high half is the sum of the bytes, each with the
-- number of bytes from it on, and of their number; the low half is one more than their sum; both
-- modulo 65521.
pub adler32_lem :
    (bytes : List ℕ)
    → IsBytes bytes
    → adler32 bytes ≡ (length bytes + weighted_sum bytes) % base * 2 ^ 16 + (1 + sum bytes) % base
unfolding adler32
adler32_lem bytes b =
    let (s1, s2) = adler_loop bytes 1 0 in
    let (first, second) = adler_loop_lem bytes 1 0 (omega arith) (omega arith) b in
    let low : s1 < 2 ^ 16 = omega (arith, first) in
    let fits : s2 * 2 ^ 16 % 2 ^ 32 ≡ s2 * 2 ^ 16 = omega (arith, second) in
    rw fits (rw (bit_or-shifted 16 s2 s1 low) (omega (arith, first, second)))

sum-set :
    (bytes : List ℕ) (i b : ℕ)
    → i < length bytes
    → sum (set bytes i b) + get_or bytes i 0 ≡ sum bytes + b
sum-set [] i b h = absurd (omega arith)
sum-set (x ∷ xs) zero b h = omega arith
sum-set (x ∷ xs) (suc i) b h = omega (arith, sum-set xs i b (omega arith))

pub IsBytes-set : (bytes : List ℕ) (i b : ℕ) → IsBytes bytes → IsByte b → IsBytes (set bytes i b)
IsBytes-set [] i b h k = tt
IsBytes-set (x ∷ xs) zero b (h, hs) k = (k, hs)
IsBytes-set (x ∷ xs) (suc i) b (h, hs) k = (h, IsBytes-set xs i b hs k)

IsByte-get_or : (bytes : List ℕ) (i : ℕ) → IsBytes bytes → IsByte (get_or bytes i 0)
IsByte-get_or [] i h = omega arith
IsByte-get_or (x ∷ xs) zero (h, hs) = h
IsByte-get_or (x ∷ xs) (suc i) (h, hs) = IsByte-get_or xs i hs

-- A change of one byte changes the checksum.
pub adler32-set_ne :
    (bytes : List ℕ) (i b : ℕ)
    → IsBytes bytes
    → IsByte b
    → i < length bytes
    → b ≢ get_or bytes i 0
    → adler32 (set bytes i b) ≢ adler32 bytes
adler32-set_ne bytes i b h k inside ne = omega (
  arith,
  adler32_lem bytes h,
  adler32_lem (set bytes i b) (IsBytes-set bytes i b h k),
  sum-set bytes i b inside,
  IsByte-get_or bytes i h,
)
