-- ===== src/ShrinklerPacker/DepackerLiteral.antt =====
-- src/shrinkler_gba/shrinkler_packer.cpp: literals in the program that `assemble` emits.
use shrinkler_gba.Assembler.{Register}
use shrinkler_gba.Base.{true, false, Bool, List, ℕ, codes, arith, refl, ◌≡◌, some}
use shrinkler_gba.ShrinklerPacker.{statements}
use shrinkler_gba.ShrinklerPacker.Interval.{depacker}
use shrinkler_gba.ShrinklerPacker.Literal.{HasLiteral, get_literal}
use shrinkler_gba.ShrinklerPacker.LiteralRoutine.{CanLiteral, HasLiteralByte, literal_lem}
use shrinkler_gba.ShrinklerPacker.DepackerBits.{depacker-HasGetbit, behind_getbit}
use shrinkler_gba.InputFile.{InputFile}
use shrinkler_gba.Thumb.{Code, Machine, target, Reaches}
use shrinkler_gba.ShrinklerPacker.Range.{Range, Decodes}
use shrinkler_gba.ShrinklerPacker.Getbit.{outp}

depacker-HasLiteral :
    (c d : Bool) (file : InputFile) (compressed : List ℕ)
    → HasLiteral
        (depacker c d file compressed)
        (target (codes "switch") (depacker c d file compressed))
unfolding statements
depacker-HasLiteral true true file compressed = record {
  literal_at = refl;
  getlit_at = refl;
  switch_at = refl;
  returns = refl;
  short = omega arith;
}
depacker-HasLiteral true false file compressed = record {
  literal_at = refl;
  getlit_at = refl;
  switch_at = refl;
  returns = refl;
  short = omega arith;
}
depacker-HasLiteral false true file compressed = record {
  literal_at = refl;
  getlit_at = refl;
  switch_at = refl;
  returns = refl;
  short = omega arith;
}
depacker-HasLiteral false false file compressed = record {
  literal_at = refl;
  getlit_at = refl;
  switch_at = refl;
  returns = refl;
  short = omega arith;
}

module _ (c d : Bool) (file : InputFile) (compressed : List ℕ) where
  abbrev program : Code
  program = depacker c d file compressed

  -- Run from the label `literal` of the program that is emitted, the code reaches the label `switch`
  -- with the byte at the output pointer that the Shrinkler format has for a literal there, if it has
  -- one: eight bits, the highest first, each in a context of the parity of the address and of the
  -- bits before it. The decoder's state is as the format says, the output pointer is one further,
  -- and the registers of offsets and numbers, the stack pointer and the memory below the 16 bytes of
  -- stack that are used are kept, but for the byte. At the start the processor's state is that of a
  -- decoder, the contexts begin where the aligned stack pointer is, the output pointer is more than
  -- 16 bytes below, and the register of numbers holds 32 bits.
  pub depacker-literal_lem :
      (byte : ℕ) (m : Machine) (r r' : Range)
      → CanLiteral m r
      → get_literal (m.registers outp) r ≡ some (byte, r')
      → (m' : Machine) × Reaches program
          (m, target (codes "literal") program)
          (m', target (codes "switch") program)
        × Decodes (m.registers Register.sp) m' r'
        × HasLiteralByte byte m m'
  depacker-literal_lem byte m r r' can h =
      literal_lem program c (behind_getbit d file compressed)
        (depacker-HasGetbit c d file compressed) (target (codes "switch") program)
        (depacker-HasLiteral c d file compressed) byte m r r' can h
