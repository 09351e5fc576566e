-- ===== src/ShrinklerPacker/Debug.antt =====
-- src/shrinkler_gba/shrinkler_packer.cpp: the checks that the depacker runs when it is built with
-- `--debug-checks`, and the routine that they call. The size of the loaded data is narrowed twice, to
-- `uint32_t` and to `int32_t`; a value that fits the second fits the first, and both throw the same.
use shrinkler_gba.Assembler.{Register, Condition, Call}
use shrinkler_gba.CartridgeAssembler.{Statement, call, ldr_narrow}
use shrinkler_gba.InputFile.{InputFile}
use shrinkler_gba.Gba.{bg_palette_start, vram_start}
use shrinkler_gba.Utility.{adler32}
use shrinkler_gba.ShrinklerPacker.Getbit.{outp, tmp1}
use shrinkler_gba.Base.{
  ℕ, ◌∷◌, [], ◌++◌, Bool, Text, bit_or, ◌+◌, ◌<<<◌, ◌>>>◌, List, u32, if◌then◌else◌, not, codes,
  length, ◌*◌, ◌-◌,
}

abbrev pub initial_sp : ℕ
initial_sp = 0x03007f00

abbrev reg_dispcnt : ℕ
reg_dispcnt = 0x04000000 + 0x00

abbrev mode_4 : ℕ
mode_4 = 4

abbrev bg2_on : ℕ
bg2_on = 1 <<< 10

abbrev pub rgb5 : ℕ → ℕ → ℕ → ℕ
rgb5 r g b = bit_or (bit_or r (u32 (g <<< 5))) (u32 (b <<< 10))

abbrev pub rgb8 : ℕ → ℕ → ℕ → ℕ
rgb8 r g b = rgb5 (r >>> 3) (g >>> 3) (b >>> 3)

abbrev pub newline : Text
newline = 10 ∷ []

abbrev pub debug_call_panic_routine : Bool → Text → List Statement
debug_call_panic_routine debug_checks message =
    if not debug_checks
    then []
    else (call (Call.adr Register.r2 message)
        ∷ call (Call.bl (codes "panic"))
        ∷ call (Call.align 2)
        ∷ call (Call.label message)
        ∷ call (Call.asciz message)
        ∷ call (Call.align 1)
        ∷ [])

abbrev pub decompressed_data : Register
decompressed_data = Register.r0

abbrev pub s1 : Register
s1 = Register.r1

abbrev pub s2 : Register
s2 = Register.r2

abbrev pub loop_counter : Register
loop_counter = Register.r3

abbrev pub byte_register : Register
byte_register = Register.r4

abbrev pub base_register : Register
base_register = Register.r5

abbrev pub expected_checksum : Register
expected_checksum = Register.r6

abbrev pub debug_check_decompressed_data_size : Bool → InputFile → List Statement
debug_check_decompressed_data_size debug_checks file =
    if not debug_checks
    then []
    else ((ldr_narrow tmp1 file.load_address
          ∷ call (Call.sub_registers outp outp tmp1)
          ∷ ldr_narrow tmp1 (length file.bytes)
          ∷ call (Call.cmp outp tmp1)
          ∷ call (Call.b_if Condition.eq (codes "decompressed_data_size_ok"))
          ∷ [])
        ++ (debug_call_panic_routine debug_checks (codes "Wrong decompressed data size" ++ newline)
            ++ (call (Call.label (codes "decompressed_data_size_ok")) ∷ [])))

abbrev pub debug_check_decompressed_data : Bool → InputFile → List Statement
debug_check_decompressed_data debug_checks file =
    if not debug_checks
    then []
    else ((call (Call.ldr_literal base_register (65521))
          ∷ ldr_narrow decompressed_data file.load_address
          ∷ call (Call.mov_imm s1 1)
          ∷ call (Call.mov_imm s2 0)
          ∷ ldr_narrow loop_counter (length file.bytes)
          ∷ call (Call.label (codes "adler32_loop"))
          ∷ call (Call.ldrb_imm byte_register decompressed_data 0)
          ∷ call (Call.add s1 byte_register)
          ∷ call (Call.cmp s1 base_register)
          ∷ call (Call.b_if Condition.lo (codes "s1_ok"))
          ∷ call (Call.sub_registers s1 s1 base_register)
          ∷ call (Call.label (codes "s1_ok"))
          ∷ call (Call.add s2 s1)
          ∷ call (Call.cmp s2 base_register)
          ∷ call (Call.b_if Condition.lo (codes "s2_ok"))
          ∷ call (Call.sub_registers s2 s2 base_register)
          ∷ call (Call.label (codes "s2_ok"))
          ∷ call (Call.add_imm decompressed_data 1)
          ∷ call (Call.sub_imm loop_counter 1)
          ∷ call (Call.b_if Condition.ne (codes "adler32_loop"))
          ∷ call (Call.lsl s2 s2 16)
          ∷ call (Call.orr s1 s2)
          ∷ call (Call.ldr_literal expected_checksum (adler32 file.bytes))
          ∷ call (Call.cmp s1 expected_checksum)
          ∷ call (Call.b_if Condition.eq (codes "checksum_ok"))
          ∷ [])
        ++ (debug_call_panic_routine debug_checks
              (codes "Wrong decompressed data checksum" ++ newline)
            ++ (call (Call.label (codes "checksum_ok")) ∷ [])))

abbrev pub debug_check_sp_on_exit : Bool → List Statement
debug_check_sp_on_exit debug_checks =
    if not debug_checks
    then []
    else ((call (Call.ldr_literal Register.r0 (initial_sp))
          ∷ call (Call.cmp Register.r0 Register.sp)
          ∷ call (Call.b_if Condition.eq (codes "sp_ok"))
          ∷ [])
        ++ (debug_call_panic_routine debug_checks (codes "Wrong sp after depacking" ++ newline)
            ++ (call (Call.label (codes "sp_ok")) ∷ [])))

abbrev pub debug_emit_panic_routine : Bool → List Statement
debug_emit_panic_routine debug_checks =
    if not debug_checks
    then []
    else (call (Call.align 1)
        ∷ call (Call.label (codes "panic"))
        ∷ call (Call.ldr_literal Register.r0 (0xc0ded00d))
        ∷ call (Call.mov_imm Register.r1 0)
        ∷ call (Call.and_bits Register.r0 Register.r0)
        ∷ call (Call.ldr_literal Register.r0 (bit_or mode_4 bg2_on))
        ∷ call (Call.ldr_literal Register.r1 (reg_dispcnt))
        ∷ call (Call.str Register.r0 Register.r1 0)
        ∷ call
            (Call.ldr_literal Register.r0 (bit_or (u32 (rgb8 255 255 255 <<< 16)) (rgb8 0 119 215)))
        ∷ call (Call.ldr_literal Register.r1 (bg_palette_start))
        ∷ call (Call.str Register.r0 Register.r1 0)
        ∷ call (Call.adr Register.r0 (codes "sadface"))
        ∷ call (Call.ldr_literal Register.r1 (vram_start + 4 * 240 + 4))
        ∷ call (Call.mov_imm Register.r4 8)
        ∷ call (Call.label (codes "copy_line"))
        ∷ call (Call.ldmia Register.r0 (Register.r2 ∷ Register.r3 ∷ []))
        ∷ call (Call.stmia Register.r1 (Register.r2 ∷ Register.r3 ∷ []))
        ∷ call (Call.add_imm Register.r1 (240 - 8))
        ∷ call (Call.sub_imm_from Register.r4 Register.r4 1)
        ∷ call (Call.b_if Condition.ne (codes "copy_line"))
        ∷ call (Call.label (codes "loop"))
        ∷ call (Call.b (codes "loop"))
        ∷ call (Call.align 2)
        ∷ call (Call.label (codes "sadface"))
        ∷ call (Call.byte (0x00 ∷ 0x01 ∷ 0x01 ∷ 0x01 ∷ 0x01 ∷ 0x01 ∷ 0x01 ∷ 0x00 ∷ []))
        ∷ call (Call.byte (0x01 ∷ 0x00 ∷ 0x00 ∷ 0x00 ∷ 0x00 ∷ 0x00 ∷ 0x00 ∷ 0x01 ∷ []))
        ∷ call (Call.byte (0x01 ∷ 0x00 ∷ 0x01 ∷ 0x00 ∷ 0x00 ∷ 0x01 ∷ 0x00 ∷ 0x01 ∷ []))
        ∷ call (Call.byte (0x01 ∷ 0x00 ∷ 0x00 ∷ 0x00 ∷ 0x00 ∷ 0x00 ∷ 0x00 ∷ 0x01 ∷ []))
        ∷ call (Call.byte (0x01 ∷ 0x00 ∷ 0x00 ∷ 0x01 ∷ 0x01 ∷ 0x00 ∷ 0x00 ∷ 0x01 ∷ []))
        ∷ call (Call.byte (0x01 ∷ 0x00 ∷ 0x01 ∷ 0x00 ∷ 0x00 ∷ 0x01 ∷ 0x00 ∷ 0x01 ∷ []))
        ∷ call (Call.byte (0x01 ∷ 0x00 ∷ 0x00 ∷ 0x00 ∷ 0x00 ∷ 0x00 ∷ 0x00 ∷ 0x01 ∷ []))
        ∷ call (Call.byte (0x00 ∷ 0x01 ∷ 0x01 ∷ 0x01 ∷ 0x01 ∷ 0x01 ∷ 0x01 ∷ 0x00 ∷ []))
        ∷ call (Call.pool)
        ∷ [])
