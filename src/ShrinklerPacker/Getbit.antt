-- ===== src/ShrinklerPacker/Getbit.antt =====
-- src/shrinkler_gba/shrinkler_packer.cpp: the depacker that is emitted in front of the compressed
-- program, in the order of the source. Each list below is a run of statements of `assemble`.
use shrinkler_gba.Assembler.{Register, Condition, Call}
use shrinkler_gba.CartridgeAssembler.{Statement, call, throw_if_wrong_lc, throw_if_not_aligned}
use shrinkler_gba.Base.{
  ℕ, ◌∷◌, [], List, suc, ◌*◌, codes, if◌then◌else◌, length, ◌%◌, ◌+◌, ◌>>>◌, ◌==◌, ◌/◌, zero,
}
use shrinkler_gba.Gba.{ofs_fixed_byte, ofs_game_version, fixed_byte_value}

-- The registers' names.
abbrev pub inp : Register
inp = Register.r0

abbrev pub outp : Register
outp = Register.r1

abbrev pub tmp0 : Register
tmp0 = Register.r2

abbrev pub tmp1 : Register
tmp1 = Register.r3

abbrev pub rvalue : Register
rvalue = Register.r4

abbrev pub isize : Register
isize = Register.r5

abbrev pub bitbuf : Register
bitbuf = Register.r6

abbrev pub bitctx : Register
bitctx = Register.r7

abbrev pub offset : Register
offset = Register.r8

abbrev pub saved_sp : Register
saved_sp = Register.r9

abbrev pub init_one_prob : ℕ
init_one_prob = 0x8000

abbrev pub adjust_shift : ℕ
adjust_shift = 4

abbrev pub single_bit_contexts : ℕ
single_bit_contexts = 1

abbrev pub num_contexts : ℕ
num_contexts = 2048

abbrev pub getnumber_push_list : List Register
getnumber_push_list = outp ∷ Register.lr ∷ []

abbrev pub getbit_push_list : List Register
getbit_push_list = outp ∷ tmp0 ∷ tmp1 ∷ Register.lr ∷ []

-- What is pushed as `lr` is popped as `pc`.
abbrev pub to_pop_list : List Register → List Register
to_pop_list [] = []
to_pop_list (Register.lr ∷ rest) = Register.pc ∷ to_pop_list rest
to_pop_list (r ∷ rest) = r ∷ to_pop_list rest

abbrev pub ctx_table_offset : ℕ
ctx_table_offset =
    4 * length getbit_push_list + 4 * length getnumber_push_list + 2 * single_bit_contexts

-- `std::countr_zero` of a power of two.
abbrev pub countr_zero : ℕ → ℕ → ℕ
countr_zero zero n = 0
countr_zero (suc bits) n = if n % 2 == 0 then suc (countr_zero bits (n / 2)) else 0

-- getkind: whether the next symbol is a literal or a reference.
abbrev pub getkind : List Statement
getkind =
    throw_if_not_aligned 1
    ∷ call (Call.align 1)
    ∷ call (Call.label (codes "getkind"))
    ∷ call (Call.lsl bitctx outp 31)
    ∷ call (Call.lsr bitctx bitctx 23)
    ∷ []

-- getbit: one bit from the range decoder, up to the place of the header's fixed byte.
abbrev pub getbit_readbit : List Statement
getbit_readbit =
    call (Call.label (codes "getbit"))
    ∷ call (Call.push getbit_push_list)
    ∷ call (Call.b (codes "loop_condition"))
    ∷ call (Call.label (codes "readbit"))
    ∷ call (Call.lsl bitbuf bitbuf 1)
    ∷ call (Call.b_if Condition.ne (codes "nonewword"))
    ∷ call (Call.label (codes "newword"))
    ∷ call (Call.ldr bitbuf inp 0)
    ∷ call (Call.add_imm inp 4)
    ∷ call (Call.add bitbuf bitbuf)
    ∷ []

abbrev pub getbit_fixed_byte : List Statement
getbit_fixed_byte =
    throw_if_wrong_lc ofs_fixed_byte (codes "fixed byte")
    ∷ call (Call.mov_imm tmp0 fixed_byte_value)
    ∷ []

abbrev pub getbit_nonewword : List Statement
getbit_nonewword =
    call (Call.mov_imm tmp0 1)
    ∷ call (Call.orr bitbuf tmp0)
    ∷ call (Call.label (codes "nonewword"))
    ∷ call (Call.adc rvalue rvalue)
    ∷ call (Call.add isize isize)
    ∷ call (Call.label (codes "loop_condition"))
    ∷ []

abbrev dummy_game_version : ℕ
dummy_game_version = 0x77

abbrev pub getbit_game_version : List Statement
getbit_game_version =
    throw_if_wrong_lc ofs_game_version (codes "game version")
    ∷ call (Call.mov_imm tmp0 dummy_game_version)
    ∷ []

abbrev pub getbit_decode : List Statement
getbit_decode =
    call (Call.lsr tmp0 isize 16)
    ∷ call (Call.b_if Condition.cc (codes "readbit"))
    ∷ call (Call.add_registers tmp0 bitctx bitctx)
    ∷ call (Call.add tmp0 Register.sp)
    ∷ call (Call.ldrh tmp1 tmp0 ctx_table_offset)
    ∷ call (Call.mov outp tmp1)
    ∷ call (Call.mul outp isize)
    ∷ call (Call.lsr outp outp 16)
    ∷ call (Call.lsr bitctx tmp1 adjust_shift)
    ∷ call (Call.sub_registers tmp1 tmp1 bitctx)
    ∷ call (Call.sub_registers rvalue rvalue outp)
    ∷ call (Call.b_if Condition.cc (codes "one"))
    ∷ call (Call.label (codes "zero"))
    ∷ call (Call.sub_registers isize isize outp)
    ∷ call (Call.add_imm tmp1 0)
    ∷ call (Call.b (codes "done"))
    ∷ call (Call.label (codes "one"))
    ∷ call (Call.mov isize outp)
    ∷ call (Call.ldr_literal bitctx (0xffff >>> adjust_shift))
    ∷ call (Call.add tmp1 bitctx)
    ∷ call (Call.add rvalue outp)
    ∷ call (Call.label (codes "done"))
    ∷ call (Call.strh tmp1 tmp0 ctx_table_offset)
    ∷ call (Call.pop (to_pop_list getbit_push_list))
    ∷ []
