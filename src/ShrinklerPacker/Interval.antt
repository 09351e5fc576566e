-- ===== src/ShrinklerPacker/Interval.antt =====
-- src/shrinkler_gba/shrinkler_packer.cpp: what the loop of `getbit` does to the interval of the range
-- decoder, within the program that `assemble` emits.
use shrinkler_gba.Thumb.{Code, Machine, Reaches, target, emitted}
use shrinkler_gba.ShrinklerPacker.{statements, packed_intro, decompression}
use shrinkler_gba.ShrinklerPacker.Getbit.{rvalue, isize, getbit_decode}
use shrinkler_gba.ShrinklerPacker.Main.{code_start}
use shrinkler_gba.ShrinklerPacker.BitBuffer.{number}
use shrinkler_gba.ShrinklerPacker.Stream.{HasStream, KeepsOthers, readbit, before_condition}
use shrinkler_gba.ShrinklerPacker.Normalise.{normalise, normalise-total, normalise_lem, condition}
use shrinkler_gba.InputFile.{InputFile}
use native.Mathlib.Nat.{pow-le-pow_right, mul-le-mul}
use shrinkler_gba.Base.{
  true, false, ℕ, Bool, List, ◌<◌, ◌≡◌, ◌++◌, ◌^◌, leb, ◌*◌, length, true, [], ◌+◌, arith, ◌≤◌,
  refl, codes, drop, some, Bool-cases, inl, some-injective, inr, none_ne_some, ◌∷◌, ap, ◌∙◌,
}
use native.Mathlib.Nat.{pow-suc}

-- The bits that are read, those that are left, and the interval that they make.
pub record IsScaled (stream : List ℕ) (size value : ℕ) (end : ℕ × ℕ × List ℕ) : Type 0 where
  pub bits : List ℕ
  pub parts : stream ≡ bits ++ end.2
  pub size_scaled : end.0 ≡ size * 2 ^ length bits
  pub value_scaled : end.1 ≡ value * 2 ^ length bits + number bits
  pub large : 2 ^ 15 ≤ end.0
  pub small : end.0 < 2 ^ 16

unread :
    (stream : List ℕ) (size value : ℕ)
    → size < 2 ^ 16
    → leb (2 ^ 15) size ≡ true
    → IsScaled stream size value (size, value, stream)
unread stream size value h done = record {
  bits = [];
  parts = refl;
  size_scaled = omega arith;
  value_scaled = omega arith;
  large = ground arith;
  small = h;
}

pub normalise-IsScaled :
    (stream : List ℕ) (size value : ℕ) (end : ℕ × ℕ × List ℕ)
    → size < 2 ^ 16
    → normalise stream size value ≡ some end
    → IsScaled stream size value end
unfolding normalise
normalise-IsScaled [] size value end h total = elim (Bool-cases (leb (2 ^ 15) size)) [
  | inl done ↦ rw (some-injective (rw done at total)) at (unread [] size value h done)
  | inr more ↦ absurd (none_ne_some (rw more at total))
]
normalise-IsScaled (b ∷ stream) size value end h total = elim (Bool-cases (leb (2 ^ 15) size)) [
  | inl done ↦ rw (some-injective (rw done at total)) at (unread (b ∷ stream) size value h done)
  | inr more ↦
      let is =
        normalise-IsScaled stream (2 * size) (2 * value + b) end (ground arith)
          (rw more at total) in
      record {
        bits = b ∷ is.bits;
        parts = ap (λ (s : List ℕ). b ∷ s) is.parts;
        size_scaled =
            omega (arith, is.size_scaled, ap (λ (x : ℕ). size * x) (pow-suc 2 (length is.bits)));
        value_scaled =
            omega (arith, is.value_scaled, ap (λ (x : ℕ). value * x) (pow-suc 2 (length is.bits)));
        large = is.large;
        small = is.small;
      }
]

-- The program, and the code behind the loop.
abbrev pub depacker : Bool → Bool → InputFile → List ℕ → Code
depacker code_in_header debug_checks file compressed =
    emitted (statements code_in_header debug_checks file compressed)

abbrev pub behind_loop : Bool → InputFile → List ℕ → Code
behind_loop debug_checks file compressed =
    drop 2 (emitted getbit_decode)
    ++ (emitted code_start
        ++ (emitted (decompression debug_checks file)
            ++ emitted (packed_intro debug_checks compressed)))

-- Where the loop stands in the program.
abbrev IsLoop : Bool → Code → Code → Type 0
IsLoop c p rest =
    (target (codes "loop_condition") p ≡ condition c rest)
    × (target (codes "nonewword") p ≡ before_condition (condition c rest))
    × (target (codes "readbit") p ≡ readbit c (condition c rest))

depacker-IsLoop :
    (c d : Bool) (file : InputFile) (compressed : List ℕ)
    → IsLoop c (depacker c d file compressed) (behind_loop d file compressed)
unfolding statements
depacker-IsLoop true true file compressed = (refl, refl, refl)
depacker-IsLoop true false file compressed = (refl, refl, refl)
depacker-IsLoop false true file compressed = (refl, refl, refl)
depacker-IsLoop false false file compressed = (refl, refl, refl)

module _ (c d : Bool) (file : InputFile) (compressed : List ℕ) where
  abbrev p : Code
  p = depacker c d file compressed

  abbrev rest : Code
  rest = behind_loop d file compressed

  -- In every program that is emitted, the loop of `getbit` starts at its condition. Run with a stream
  -- of fifteen bits or more in the bit buffer and the words at `inp`, a size of the interval from 1 to 16
  -- bits and a value below it, it ends, with the first bits of the stream behind the value, the size
  -- shifted as often and of 16 bits, the other bits left in buffer and memory, and memory and the
  -- registers unchanged that are neither the scratch register nor of the decoder.
  pub getbit_loop_lem :
      (m : Machine) (stream : List ℕ)
      → HasStream m stream
      → 15 ≤ length stream
      → 1 ≤ m.registers isize
      → m.registers isize < 2 ^ 16
      → m.registers rvalue < m.registers isize
      → (target (codes "loop_condition") p ≡ condition c rest)
        × ((bits : List ℕ) × (left : List ℕ) × (m' : Machine) × Reaches p
              (m, condition c rest)
              (m', rest)
            × (stream ≡ bits ++ left)
            × HasStream m' left
            × (m'.registers isize ≡ m.registers isize * 2 ^ length bits)
            × (m'.registers rvalue ≡ m.registers rvalue * 2 ^ length bits + number bits)
            × (2 ^ 15 ≤ m'.registers isize)
            × (m'.registers isize < 2 ^ 16)
            × (m'.memory ≡ m.memory)
            × KeepsOthers m m')
  getbit_loop_lem m stream has long positive small inside =
      let power : 2 ^ 15 ≤ 2 ^ length stream =
        pow-le-pow_right {n = 2} (omega arith) {i = 15} {j = length stream} long in
      let enough : 2 ^ 15 ≤ m.registers isize * 2 ^ length stream = omega (
        arith,
        mul-le-mul {n₁ = 1} {m₁ = 2 ^ 15} {n₂ = m.registers isize} {m₂ = 2 ^ length stream} positive
            power,
      ) in
      let (condition_at, nonewword_at, readbit_at) = depacker-IsLoop c d file compressed in
      let (end, total) = normalise-total stream (m.registers isize) (m.registers rvalue) enough in
      let is = normalise-IsScaled stream (m.registers isize) (m.registers rvalue) end small total in
      let (m', reached, done) =
        normalise_lem p rest c nonewword_at readbit_at stream (m.registers isize)
          (m.registers rvalue) m end has refl refl small inside total in
      (
        condition_at,
        (
          is.bits,
          end.2,
          m',
          reached,
          is.parts,
          done.stream_is,
          done.size_is ∙ is.size_scaled,
          done.value_is ∙ is.value_scaled,
          omega (arith, is.large, done.size_is),
          omega (arith, is.small, done.size_is),
          done.memory_kept,
          done.others_kept,
        ),
      )
