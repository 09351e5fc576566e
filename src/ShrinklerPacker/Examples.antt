-- ===== src/ShrinklerPacker/Examples.antt =====
-- The constructor and the debug checks at a small program.
use shrinkler_gba.Assembler.Sample.{
  sample, bytes_of, sample-IsAssembler, sample_link, emit_behind, emit, are_bytes, align_or_pool,
}
use shrinkler_gba.ShrinklerPacker.Correct.{
  shrinkler_cartridge_assembler_lem, shrinkler_cartridge_assembler_err,
}
use shrinkler_gba.ShrinklerPacker.DebugChecks.{
  debug_checks_lem, debug_checks-wrong_byte, program, checks, after_checks, EndsAt,
}
use shrinkler_gba.ShrinklerPacker.Checked.{verdict, sum_label, sum_message, check_sp}
use shrinkler_gba.Thumb.{Machine, Code, target, same, Reaches}
use shrinkler_gba.Utility.{adler32}
use shrinkler_gba.ShrinklerPacker.Interval.{getbit_loop_lem, depacker, behind_loop}
use shrinkler_gba.ShrinklerPacker.Normalise.{condition}
use shrinkler_gba.ShrinklerPacker.Stream.{HasStream, KeepsOthers}
use shrinkler_gba.ShrinklerPacker.BitBuffer.{number}
use shrinkler_gba.Base.{
  List, true, ℕ, ◌∷◌, [], arith, ◌≡◌, ok, refl, err, undefined_behaviour, ◌↔◌, codes, false,
  if◌then◌else◌, get_or, ◌-◌, ◌^◌, ◌++◌, ◌*◌, length, ◌+◌, ◌≤◌, ◌<◌,
}
use shrinkler_gba.InputFile.{InputFile}
use shrinkler_gba.ShrinklerPacker.{
  PackerOptions, shrinkler_cartridge_assembler, statements, rom_start,
}
use shrinkler_gba.CartridgeAssembler.{Assembled}
use shrinkler_gba.ShrinklerPacker.Layout.{FitsInt32}
use shrinkler_gba.CartridgeAssembler.Layout.{calls_of}
use shrinkler_gba.ShrinklerPacker.Construct.{IsCartridge}
use shrinkler_gba.Assembler.{Call, Register}
use shrinkler_gba.ShrinklerPacker.Getbit.{outp, saved_sp, bitbuf, inp, isize, rvalue}
use shrinkler_gba.ShrinklerPacker.Debug.{initial_sp}

abbrev small_file : InputFile
small_file = record { entry = 0x02000000; load_address = 0x02000000; bytes = 1 ∷ 2 ∷ 3 ∷ [] }

abbrev packed : List ℕ
packed = 0xab ∷ 0xcd ∷ []

abbrev small_options : PackerOptions ℕ
small_options = record { code_in_header = true; debug_checks = true; encoder_parameters = 0 }

small_FitsInt32 : FitsInt32 true small_file
small_FitsInt32 = omega arith

abbrev small_image : List ℕ
small_image = bytes_of (calls_of (statements true true small_file packed) [])

small_linked :
    sample.link rom_start (calls_of (statements true true small_file packed) []) ≡ ok small_image
unfolding sample sample_link bytes_of emit_behind emit align_or_pool are_bytes statements
small_linked = refl

shrinkler_cartridge_assembler_lem_example :
    (c : Assembled) × (shrinkler_cartridge_assembler sample small_file packed small_options ≡ ok c)
    × IsCartridge true small_image packed c
shrinkler_cartridge_assembler_lem_example =
    shrinkler_cartridge_assembler_lem sample sample-IsAssembler small_file packed small_options
      small_FitsInt32 small_image small_linked

-- A program that cannot be linked, since 300 is no byte.
abbrev bad_program : List ℕ
bad_program = 300 ∷ []

shrinkler_cartridge_assembler_err_example :
    (shrinkler_cartridge_assembler sample small_file bad_program small_options
      ≡ err undefined_behaviour)
    ↔ (sample.link rom_start (calls_of (statements true true small_file bad_program) [])
        ≡ err undefined_behaviour)
shrinkler_cartridge_assembler_err_example =
    shrinkler_cartridge_assembler_err sample sample-IsAssembler small_file bad_program small_options
      small_FitsInt32 undefined_behaviour

-- A processor with the program in memory and the registers as they are after decompression.
abbrev depacked : ℕ → List ℕ → Machine
depacked output_pointer bytes = record {
  registers =
      λ r. if same r outp then output_pointer else if same r Register.sp then initial_sp else 0;
  carry = false;
  is_zero = false;
  mul_carry = λ x y. false;
  memory = λ address. get_or bytes (address - 0x02000000) 0;
}

abbrev after : Code
after = after_checks small_file packed

debug_checks_lem_example :
    (target (codes "donedecompressing") (program true small_file packed)
      ≡ Call.mov Register.sp saved_sp ∷ checks small_file after)
    × EndsAt
        (program true small_file packed)
        (depacked 0x02000003 (1 ∷ 2 ∷ 3 ∷ []))
        (checks small_file after)
        after
unfolding adler32
debug_checks_lem_example =
    debug_checks_lem true small_file packed (depacked 0x02000003 (1 ∷ 2 ∷ 3 ∷ [])) (omega arith)
      (omega arith) (1 ∷ 2 ∷ 3 ∷ []) (omega arith) refl (omega arith) (refl, (refl, (refl, tt)))

debug_checks-wrong_byte_example :
    EndsAt
      (program true small_file packed)
      (depacked 0x02000003 (1 ∷ 7 ∷ 3 ∷ []))
      (checks small_file after)
      (verdict false sum_label sum_message (check_sp after))
debug_checks-wrong_byte_example =
    debug_checks-wrong_byte true small_file packed (depacked 0x02000003 (1 ∷ 7 ∷ 3 ∷ []))
      (omega arith) (omega arith) 1 7 (omega arith) (omega arith) (omega arith) (omega arith)
      (refl, (refl, (refl, tt))) refl

-- A processor at the start of decompression: the buffer has the mark only, and every byte in memory
-- is 0xa5.
abbrev starting : Machine
starting = record {
  registers = λ r.
      if same r bitbuf
      then 2 ^ 31
      else if same r inp
      then 0x08000200
      else if same r isize
      then 1
      else 0;
  carry = false;
  is_zero = false;
  mul_carry = λ x y. false;
  memory = λ address. 0xa5;
}

abbrev word_bits : List ℕ
word_bits =
    1 ∷ 0 ∷ 1 ∷ 0 ∷ 0 ∷ 1 ∷ 0 ∷ 1 ∷ 1 ∷ 0 ∷ 1 ∷ 0 ∷ 0 ∷ 1 ∷ 0 ∷ 1 ∷ 1 ∷ 0 ∷ 1 ∷ 0 ∷ 0 ∷ 1 ∷ 0 ∷ 1
    ∷ 1 ∷ 0 ∷ 1 ∷ 0 ∷ 0 ∷ 1 ∷ 0 ∷ 1 ∷ []

starting-HasStream : HasStream starting word_bits
starting-HasStream = record {
  buffered = [];
  words = word_bits ∷ [];
  whole = refl;
  buffered_bits = tt;
  in_buffer = record { mark = 2 ^ 31; at_top = refl; value = refl };
  in_memory = (refl, refl, omega arith, tt);
  aligned = refl;
  inside = omega arith;
}

abbrev loop_end : Code
loop_end = behind_loop false small_file packed

getbit_loop_lem_example :
    (target (codes "loop_condition") (depacker true false small_file packed)
      ≡ condition true loop_end)
    × ((bits : List ℕ) × (left : List ℕ) × (m' : Machine) × Reaches
          (depacker true false small_file packed)
          (starting, condition true loop_end)
          (m', loop_end)
        × (word_bits ≡ bits ++ left)
        × HasStream m' left
        × (m'.registers isize ≡ 1 * 2 ^ length bits)
        × (m'.registers rvalue ≡ 0 * 2 ^ length bits + number bits)
        × (2 ^ 15 ≤ m'.registers isize)
        × (m'.registers isize < 2 ^ 16)
        × (m'.memory ≡ starting.memory)
        × KeepsOthers starting m')
getbit_loop_lem_example =
    getbit_loop_lem true false small_file packed starting word_bits starting-HasStream (omega arith)
      (omega arith) (omega arith) (omega arith)
