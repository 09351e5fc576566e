-- ===== src/ShrinklerPacker/DepackerBits.antt =====
-- src/shrinkler_gba/shrinkler_packer.cpp: calls of `getbit` and `getnumber` in the program that
use mathlib.Core.Option
use native.Mathlib.Nat.{pow-le-pow_right, mul-le-mul}
use shrinkler_gba.ShrinklerPacker.Range.{Range, get_bit, Decodes, HasCalled, decided}
use shrinkler_gba.ShrinklerPacker.Calls.{bit_call}
use shrinkler_gba.ShrinklerPacker.NumberRoutine.{CanNumber, HasNumber, number_call}
use shrinkler_gba.ShrinklerPacker.Calls.{CanCall}
use shrinkler_gba.Base.{
  true, false, arith, refl, ◌<◌, ◌≡◌, ◌≤◌, length, some, codes, ◌^◌, ◌+◌, ◌*◌, sym, Bool-cases, leb,
  inl, inr, ap, length-append,
}
-- `assemble` emits.
use shrinkler_gba.Assembler.{Call, Register}
use shrinkler_gba.ShrinklerPacker.{statements, packed_intro, decompression}
use shrinkler_gba.ShrinklerPacker.Interval.{depacker, normalise-IsScaled}
use shrinkler_gba.ShrinklerPacker.Main.{code_start}
use shrinkler_gba.Base.{Bool, List, ℕ, ◌∷◌, ◌++◌}
use shrinkler_gba.InputFile.{InputFile}
use shrinkler_gba.ShrinklerPacker.BitContract.{HasGetbit}
use shrinkler_gba.ShrinklerPacker.Number.{HasGetnumber, get_number}
use shrinkler_gba.Thumb.{Code, emitted, Machine, Reaches, half_at}
use shrinkler_gba.ShrinklerPacker.Getbit.{rvalue, isize}
use shrinkler_gba.ShrinklerPacker.Stream.{HasStream}
use mathlib.Core.Path.{subst}
use shrinkler_gba.ShrinklerPacker.RangeDecoder.{IsInterval, IsProbability}
use shrinkler_gba.ShrinklerPacker.Normalise.{normalise-total}

-- What follows the two routines.
abbrev pub behind_getbit : Bool → InputFile → List ℕ → Code
behind_getbit d file compressed =
    emitted code_start ++ (emitted (decompression d file) ++ emitted (packed_intro d compressed))

abbrev behind_getnumber : Bool → List ℕ → Code
behind_getnumber d compressed = Call.pool ∷ emitted (packed_intro d compressed)

pub depacker-HasGetbit :
    (c d : Bool) (file : InputFile) (compressed : List ℕ)
    → HasGetbit (depacker c d file compressed) c (behind_getbit d file compressed)
unfolding statements
depacker-HasGetbit true true file compressed = record {
  getbit_at = refl;
  condition_at = refl;
  nonewword_at = refl;
  readbit_at = refl;
  one_at = refl;
  done_at = refl;
}
depacker-HasGetbit true false file compressed = record {
  getbit_at = refl;
  condition_at = refl;
  nonewword_at = refl;
  readbit_at = refl;
  one_at = refl;
  done_at = refl;
}
depacker-HasGetbit false true file compressed = record {
  getbit_at = refl;
  condition_at = refl;
  nonewword_at = refl;
  readbit_at = refl;
  one_at = refl;
  done_at = refl;
}
depacker-HasGetbit false false file compressed = record {
  getbit_at = refl;
  condition_at = refl;
  nonewword_at = refl;
  readbit_at = refl;
  one_at = refl;
  done_at = refl;
}

depacker-HasGetnumber :
    (c d : Bool) (file : InputFile) (compressed : List ℕ)
    → HasGetnumber (depacker c d file compressed) (behind_getnumber d compressed)
unfolding statements
depacker-HasGetnumber true true file compressed = record {
  getnumber_at = refl;
  number_loop_at = refl;
  bits_loop_at = refl;
  count_returns = refl;
  bits_returns = refl;
  short = omega arith;
  bits_short = omega arith;
}
depacker-HasGetnumber true false file compressed = record {
  getnumber_at = refl;
  number_loop_at = refl;
  bits_loop_at = refl;
  count_returns = refl;
  bits_returns = refl;
  short = omega arith;
  bits_short = omega arith;
}
depacker-HasGetnumber false true file compressed = record {
  getnumber_at = refl;
  number_loop_at = refl;
  bits_loop_at = refl;
  count_returns = refl;
  bits_returns = refl;
  short = omega arith;
  bits_short = omega arith;
}
depacker-HasGetnumber false false file compressed = record {
  getnumber_at = refl;
  number_loop_at = refl;
  bits_loop_at = refl;
  count_returns = refl;
  bits_returns = refl;
  short = omega arith;
  bits_short = omega arith;
}

-- Fifteen bits are enough for a bit, which is left with all but fifteen of the stream.
get_bit-total :
    (k : ℕ) (r : Range)
    → 15 ≤ length r.stream
    → 1 ≤ r.size
    → IsInterval r.size r.value
    → (b : ℕ) × (r' : Range) × (get_bit k r ≡ some (b, r'))
      × (length r.stream ≤ length r'.stream + 15)
unfolding get_bit
get_bit-total k r long positive (inside, small) =
    let power : 2 ^ 15 ≤ 2 ^ length r.stream =
      pow-le-pow_right {n = 2} (omega arith) {i = 15} {j = length r.stream} long in
    let enough : 2 ^ 15 ≤ r.size * 2 ^ length r.stream = omega (
      arith,
      mul-le-mul {n₁ = 1} {m₁ = 2 ^ 15} {n₂ = r.size} {m₂ = 2 ^ length r.stream} positive power,
    ) in
    let (end, total) = normalise-total r.stream r.size r.value enough in
    let is = normalise-IsScaled r.stream r.size r.value end small total in
    let few : length is.bits ≤ 15 = elim (Bool-cases (leb (length is.bits) 15)) [
      | inl yes_few ↦ ground arith
      | inr many ↦
          let large : 2 ^ 16 ≤ 2 ^ length is.bits =
            pow-le-pow_right {n = 2} (omega arith) {i = 16} {j = length is.bits} (ground arith) in
          absurd (
            omega (
              arith,
              is.size_scaled,
              is.small,
              mul-le-mul {n₁ = 1} {m₁ = 2 ^ length is.bits} {n₂ = r.size} {m₂ = 2 ^ length is.bits}
                  positive (omega arith),
              large,
            ))
    ] in
    (
      (decided k r end).0,
      (decided k r end).1,
      ap (Option.map (decided k r)) total,
      omega (arith, few, ap length is.parts, length-append is.bits end.2),
    )

module _ (c d : Bool) (file : InputFile) (compressed : List ℕ) where
  abbrev program : Code
  program = depacker c d file compressed

  -- A call of `getbit` in the program that is emitted, with the return address behind it, returns
  -- there with the bit that the range decoder decides in a context as the carry, if the decoder has
  -- enough bits for it. The processor's state is then again that of the decoder: size, value, the
  -- bits that are left and all contexts, of which only the decided one is adjusted; the output
  -- pointer, the registers of numbers and offsets, the stack pointer and the memory below the
  -- contexts are kept, but for the 16 bytes below the stack pointer. Before the call the processor's
  -- state is that of a decoder whose value is below the size, the size below 2 ^ 16 and every
  -- context a probability; the registers that are saved hold 32 bits, `bitctx` has the index of the
  -- context, and the contexts are above an aligned stack with 16 bytes of room and below the
  -- compressed data.
  pub depacker-getbit_lem :
      (base k b : ℕ) (m : Machine) (r r' : Range) (code : Code)
      → k < 2048
      → CanCall program base k m r code
      → get_bit k r ≡ some (b, r')
      → (m' : Machine) × Reaches program (m, Call.bl (codes "getbit") ∷ code) (m', code)
        × Decodes base m' r'
        × HasCalled b base m m'
  depacker-getbit_lem base k b m r r' code few can h =
      bit_call program c (behind_getbit d file compressed) (depacker-HasGetbit c d file compressed)
        base k few m r code b r' can h

  -- Called as above with fifteen bits of data or more and an interval that is not empty, `getbit` always
  -- returns; then the value is below the size of the interval, the size is below 2 ^ 16, every one of the
  -- 2048 contexts is a probability from 15 to 2 ^ 16 - 1, and at most fifteen bits have been read.
  pub depacker-getbit_bounds :
      (base k : ℕ) (m : Machine) (r : Range) (code : Code)
      → k < 2048
      → CanCall program base k m r code
      → 15 ≤ length r.stream
      → 1 ≤ r.size
      → (m' : Machine) × Reaches program (m, Call.bl (codes "getbit") ∷ code) (m', code)
        × (m'.registers rvalue < m'.registers isize)
        × (m'.registers isize < 2 ^ 16)
        × ((j : ℕ)
            → j < 2048
            → (15 ≤ half_at m'.memory (base + 2 * j)) × (half_at m'.memory (base + 2 * j) < 2 ^ 16))
        × ((left : List ℕ) × HasStream m' left × (length r.stream ≤ length left + 15))
  depacker-getbit_bounds base k m r code few can long positive =
      let (b, r', got, left) = get_bit-total k r long positive can.decodes.inside in
      let (m', reached, decodes, called) = depacker-getbit_lem base k b m r r' code few can got in
      (
        m',
        reached,
        omega (arith, decodes.value_is, decodes.size_is, decodes.inside.0),
        omega (arith, decodes.size_is, decodes.inside.1),
        λ j low.
            subst IsProbability (sym (decodes.contexts_are j low).0) (decodes.contexts_are j low).1,
        (r'.stream, decodes.streaming, left),
      )

  -- A call of `getnumber` in the program that is emitted, with the number of a group of contexts
  -- below 7 in `tmp0` and the return address behind it, returns there with the number in `tmp1` that
  -- the Shrinkler format has for the group, if it has one with at most 31 bits behind the first:
  -- their count in unary, then the bits, the highest first, each in a context of its own. The
  -- decoder's state is as the format says, and the output pointer, the offset, the stack pointer and
  -- the memory below the 24 bytes of stack that are used are kept. Before the call the processor's
  -- state is that of a decoder, the contexts begin where the aligned stack pointer is, with 24 bytes
  -- below it, and the registers for output and numbers hold 32 bits.
  pub depacker-getnumber_lem :
      (group n : ℕ) (m : Machine) (r r' : Range) (code : Code)
      → CanNumber program group m code r
      → get_number group r ≡ some (n, r')
      → (m' : Machine) × Reaches program (m, Call.bl (codes "getnumber") ∷ code) (m', code)
        × Decodes (m.registers Register.sp) m' r'
        × HasNumber n m m'
  depacker-getnumber_lem group n m r r' code can h =
      number_call program c (behind_getbit d file compressed)
        (depacker-HasGetbit c d file compressed) (behind_getnumber d compressed)
        (depacker-HasGetnumber c d file compressed) group m code r can n r' h
