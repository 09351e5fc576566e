-- ===== src/ShrinklerPacker/RangeDecoder.antt =====
-- The range decoder of the Shrinkler format, as a specification of the code that
-- src/shrinkler_gba/shrinkler_packer.cpp emits for `getbit`: how a bit is decided and its probability
-- adjusted.
use shrinkler_gba.Base.{ℕ, leb, if◌then◌else◌, ◌*◌, ◌<◌, ◌^◌, ◌≤◌, arith, ◌-◌, ◌>>>◌, ◌+◌}
use native.Mathlib.Nat.{mul-le-mul}

pub record Decision : Type 0 where
  pub bit : ℕ
  pub size : ℕ
  pub value : ℕ
  pub prob : ℕ

-- The part of the interval that is for a 1.
abbrev pub threshold : ℕ → ℕ → ℕ
threshold prob size = (prob * size) >>> 16

unfoldable pub decide : ℕ → ℕ → ℕ → Decision
decide prob size value =
    let one_size = threshold prob size in
    if leb one_size value
    then record {
      bit = 0;
      size = size - one_size;
      value = value - one_size;
      prob = prob - (prob >>> 4);
    }
    else record { bit = 1; size = one_size; value = value; prob = prob - (prob >>> 4) + 0xfff }

-- A probability of 16 bits that is not too small.
abbrev pub IsProbability : ℕ → Type 0
IsProbability prob = (15 ≤ prob) × (prob < 2 ^ 16)

-- A value in an interval of up to 16 bits.
abbrev pub IsInterval : ℕ → ℕ → Type 0
IsInterval size value = (value < size) × (size < 2 ^ 16)

pub threshold_bounds :
    (prob size : ℕ)
    → IsProbability prob
    → 2 ^ 15 ≤ size
    → size < 2 ^ 16
    → (1 ≤ threshold prob size) × (threshold prob size < size) × (prob * size < 2 ^ 32)
threshold_bounds prob size (few, many) large small =
    let low = mul-le-mul {n₁ = 15} {m₁ = 2 ^ 15} {n₂ = prob} {m₂ = size} few large in
    let high =
      mul-le-mul {n₁ = prob} {m₁ = size} {n₂ = 2 ^ 16 - 1} {m₂ = size} (omega arith)
        (omega arith) in
    (omega (arith, low), omega (arith, high), omega (arith, high))

pub decide_bounds :
    (prob size value : ℕ)
    → IsProbability prob
    → 2 ^ 15 ≤ size
    → IsInterval size value
    → IsProbability (decide prob size value).prob
      × IsInterval (decide prob size value).size (decide prob size value).value
unfolding decide
decide_bounds prob size value is large (inside, small) =
    let (positive, partial, product) = threshold_bounds prob size is large small in
    ground (arith, positive, partial)
