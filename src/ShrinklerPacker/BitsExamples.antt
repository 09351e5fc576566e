-- ===== src/ShrinklerPacker/BitsExamples.antt =====
-- The routines of the depacker at a small program.
use shrinkler_gba.ShrinklerPacker.Kind.{CanKind, depacker-getkind_lem}
use shrinkler_gba.ShrinklerPacker.{statements}
use shrinkler_gba.ShrinklerPacker.Literal.{get_literal, read_literal}
use shrinkler_gba.ShrinklerPacker.LiteralRoutine.{CanLiteral, HasLiteralByte}
use shrinkler_gba.ShrinklerPacker.DepackerLiteral.{depacker-literal_lem}
use shrinkler_gba.Assembler.{Register, Call}
use shrinkler_gba.ShrinklerPacker.Number.{get_number, read_bits, count_bits}
use shrinkler_gba.ShrinklerPacker.Range.{Range, get_bit, Decodes, HasCalled}
use shrinkler_gba.ShrinklerPacker.Calls.{CanCall}
use shrinkler_gba.ShrinklerPacker.NumberRoutine.{CanNumber, HasNumber}
use shrinkler_gba.ShrinklerPacker.RangeDecoder.{decide}
use shrinkler_gba.ShrinklerPacker.Normalise.{normalise}
use shrinkler_gba.ShrinklerPacker.Interval.{depacker}
use shrinkler_gba.ShrinklerPacker.DepackerBits.{
  depacker-getbit_lem, depacker-getbit_bounds, depacker-getnumber_lem,
}
use shrinkler_gba.InputFile.{InputFile}
use shrinkler_gba.Base.{
  List, Option, [], arith, drop, false, if◌then◌else◌, ℕ, ◌∷◌, codes, refl, some, ◌^◌, none, ◌<◌,
  ◌≤◌, ◌+◌, ◌*◌, length,
}
use shrinkler_gba.ShrinklerPacker.Stream.{HasStream}
use shrinkler_gba.Thumb.{Code, Machine, Reaches, same, target, half_at}
use shrinkler_gba.ShrinklerPacker.Getbit.{bitbuf, rvalue, inp, isize, tmp0, outp}

abbrev no_bytes : InputFile
no_bytes = record { entry = 0x02000000; load_address = 0x02000000; bytes = [] }

abbrev program : Code
program = depacker false false no_bytes []

-- Every byte in memory is 0xa5, and with them the contexts and the compressed data.
abbrev calling : Machine
calling = record {
  registers = λ r.
      if same r bitbuf
      then 2 ^ 31
      else if same r inp
      then 0x08000200
      else if same r isize
      then 1
      else if same r Register.sp
      then 0x03007000
      else if same r tmp0
      then 3
      else if same r outp
      then 0x02000000
      else 0;
  carry = false;
  is_zero = false;
  mul_carry = λ x y. false;
  memory = λ address. 0xa5;
}

abbrev word_bits : List ℕ
word_bits =
    1 ∷ 0 ∷ 1 ∷ 0 ∷ 0 ∷ 1 ∷ 0 ∷ 1 ∷ 1 ∷ 0 ∷ 1 ∷ 0 ∷ 0 ∷ 1 ∷ 0 ∷ 1 ∷ 1 ∷ 0 ∷ 1 ∷ 0 ∷ 0 ∷ 1 ∷ 0 ∷ 1
    ∷ 1 ∷ 0 ∷ 1 ∷ 0 ∷ 0 ∷ 1 ∷ 0 ∷ 1 ∷ []

abbrev range : Range
range = record { size = 1; value = 0; stream = word_bits; contexts = λ k. 0xa5a5 }

calling-HasStream : HasStream calling word_bits
calling-HasStream = record {
  buffered = [];
  words = word_bits ∷ [];
  whole = refl;
  buffered_bits = tt;
  in_buffer = record { mark = 2 ^ 31; at_top = refl; value = refl };
  in_memory = (refl, refl, omega arith, tt);
  aligned = refl;
  inside = omega arith;
}

calling-Decodes : Decodes 0x03007000 calling range
calling-Decodes = record {
  base_even = refl;
  below_data = omega arith;
  size_is = refl;
  value_is = refl;
  inside = (omega arith, omega arith);
  streaming = calling-HasStream;
  contexts_are = λ k few. (refl, (omega arith, omega arith));
}

-- Behind the call of `getbit` for a literal, and behind that of `getnumber` for a length.
abbrev behind_bit : Code
behind_bit = drop 4 (target (codes "getlit") program)

abbrev behind_number : Code
behind_number = drop 2 (target (codes "readlength") program)

calling-CanCall : CanCall program 0x03007000 5 calling range behind_bit
unfolding statements
calling-CanCall = record {
  decodes = calling-Decodes;
  stack_aligned = refl;
  stack_room = omega arith;
  stack_low = omega arith;
  words = (omega arith, (omega arith, (omega arith, tt)));
  context_is = refl;
  returns = refl;
  short = omega arith;
}

calling-CanNumber : CanNumber program 3 calling behind_number range
unfolding statements
calling-CanNumber = record {
  decodes = calling-Decodes;
  stack_aligned = refl;
  stack_room = omega arith;
  group_small = omega arith;
  group_is = refl;
  words = (omega arith, (omega arith, tt));
  returns = refl;
  short = omega arith;
}

abbrev range_of : Option (ℕ × Range) → Range
range_of none = range
range_of (some x) = x.1

depacker-getbit_lem_example :
    (m' : Machine) × Reaches program
      (calling, Call.bl (codes "getbit") ∷ behind_bit)
      (m', behind_bit)
    × Decodes 0x03007000 m' (range_of (get_bit 5 range))
    × HasCalled 0 0x03007000 calling m'
unfolding get_bit normalise decide
depacker-getbit_lem_example =
    depacker-getbit_lem false false no_bytes [] 0x03007000 5 0 calling range
      (range_of (get_bit 5 range)) behind_bit (omega arith) calling-CanCall refl

depacker-getbit_bounds_example :
    (m' : Machine) × Reaches program
      (calling, Call.bl (codes "getbit") ∷ behind_bit)
      (m', behind_bit)
    × (m'.registers rvalue < m'.registers isize)
    × (m'.registers isize < 2 ^ 16)
    × ((j : ℕ)
        → j < 2048
        → (15 ≤ half_at m'.memory (0x03007000 + 2 * j))
          × (half_at m'.memory (0x03007000 + 2 * j) < 2 ^ 16))
    × ((left : List ℕ) × HasStream m' left × (32 ≤ length left + 15))
depacker-getbit_bounds_example =
    depacker-getbit_bounds false false no_bytes [] 0x03007000 5 calling range behind_bit
      (omega arith) calling-CanCall (omega arith) (omega arith)

depacker-getnumber_lem_example :
    (m' : Machine) × Reaches program
      (calling, Call.bl (codes "getnumber") ∷ behind_number)
      (m', behind_number)
    × Decodes 0x03007000 m' (range_of (get_number 3 range))
    × HasNumber 3 calling m'
unfolding get_number count_bits read_bits get_bit normalise decide
depacker-getnumber_lem_example =
    depacker-getnumber_lem false false no_bytes [] 3 3 calling range (range_of (get_number 3 range))
      behind_number calling-CanNumber refl

calling-CanLiteral : CanLiteral calling range
calling-CanLiteral = record {
  decodes = calling-Decodes;
  stack_aligned = refl;
  output_below = omega arith;
  number_small = omega arith;
}

depacker-literal_lem_example :
    (m' : Machine) × Reaches program
      (calling, target (codes "literal") program)
      (m', target (codes "switch") program)
    × Decodes 0x03007000 m' (range_of (get_literal 0x02000000 range))
    × HasLiteralByte 127 calling m'
unfolding get_literal read_literal get_bit normalise decide
depacker-literal_lem_example =
    depacker-literal_lem false false no_bytes [] 127 calling range
      (range_of (get_literal 0x02000000 range)) calling-CanLiteral refl

abbrev behind_kind : Code
behind_kind = drop 1 (target (codes "switch") program)

calling-CanKind : CanKind program calling range behind_kind
unfolding statements
calling-CanKind = record {
  decodes = calling-Decodes;
  stack_aligned = refl;
  stack_room = omega arith;
  words = (omega arith, (omega arith, (omega arith, tt)));
  returns = refl;
  short = omega arith;
}

depacker-getkind_lem_example :
    (m' : Machine) × Reaches program
      (calling, Call.bl (codes "getkind") ∷ behind_kind)
      (m', behind_kind)
    × Decodes 0x03007000 m' (range_of (get_bit 5 range))
    × HasCalled 0 0x03007000 calling m'
unfolding get_bit normalise decide
depacker-getkind_lem_example =
    depacker-getkind_lem false false no_bytes [] 0 calling range (range_of (get_bit 5 range))
      behind_kind calling-CanKind refl
