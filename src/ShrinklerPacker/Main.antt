-- ===== src/ShrinklerPacker/Main.antt =====
-- src/shrinkler_gba/shrinkler_packer.cpp: the main decompression code, and `getnumber`.
use shrinkler_gba.Assembler.{Register, Condition, Call}
use shrinkler_gba.CartridgeAssembler.{Statement, call, ldr_narrow, throw_if_not_aligned}
use shrinkler_gba.InputFile.{InputFile}
use shrinkler_gba.Base.{◌∷◌, [], List, codes, ◌/◌}
use shrinkler_gba.ShrinklerPacker.Getbit.{
  bitctx, outp, getnumber_push_list, inp, isize, tmp0, bitbuf, offset, saved_sp, tmp1, rvalue,
  to_pop_list, countr_zero, num_contexts, init_one_prob,
}

-- The entry point, in ARM state, up to where the addresses are known.
abbrev pub code_start : List Statement
code_start =
    throw_if_not_aligned 2
    ∷ call (Call.align 2)
    ∷ call (Call.label (codes "code_start"))
    ∷ call (Call.arm_to_thumb inp)
    ∷ call (Call.mov saved_sp Register.sp)
    ∷ call (Call.adr inp (codes "packed_intro"))
    ∷ []

-- Set up the range decoder and its contexts.
abbrev pub load_addresses : InputFile → List Statement
load_addresses file =
    ldr_narrow outp file.load_address
    ∷ call (Call.mov_imm isize 1)
    ∷ call (Call.lsl bitbuf isize 31)
    ∷ call (Call.lsl rvalue isize (countr_zero 32 (num_contexts / 2)))
    ∷ call (Call.lsl bitctx isize (countr_zero 32 init_one_prob))
    ∷ call (Call.orr bitctx bitbuf)
    ∷ call (Call.label (codes "init"))
    ∷ call (Call.push (bitctx ∷ []))
    ∷ call (Call.sub_imm rvalue 1)
    ∷ call (Call.b_if Condition.ne (codes "init"))
    ∷ []

-- The main loop.
abbrev pub literal : List Statement
literal =
    call (Call.label (codes "literal"))
    ∷ call (Call.mov_imm tmp0 1)
    ∷ call (Call.label (codes "getlit"))
    ∷ call (Call.lsl bitctx outp 31)
    ∷ call (Call.lsr bitctx bitctx 23)
    ∷ call (Call.orr bitctx tmp0)
    ∷ call (Call.bl (codes "getbit"))
    ∷ call (Call.adc tmp0 tmp0)
    ∷ call (Call.cmp_imm tmp0 255)
    ∷ call (Call.b_if Condition.ls (codes "getlit"))
    ∷ call (Call.strb_imm tmp0 outp 0)
    ∷ call (Call.add_imm outp 1)
    ∷ call (Call.label (codes "switch"))
    ∷ call (Call.bl (codes "getkind"))
    ∷ call (Call.b_if Condition.cc (codes "literal"))
    ∷ []

abbrev pub reference : List Statement
reference =
    call (Call.mov_imm bitctx 0)
    ∷ call (Call.sub_imm bitctx 1)
    ∷ call (Call.bl (codes "getbit"))
    ∷ call (Call.b_if Condition.cc (codes "readoffset"))
    ∷ call (Call.label (codes "readlength"))
    ∷ call (Call.mov_imm tmp0 4)
    ∷ call (Call.bl (codes "getnumber"))
    ∷ call (Call.mov tmp0 offset)
    ∷ call (Call.neg tmp0 tmp0)
    ∷ call (Call.label (codes "copyloop"))
    ∷ call (Call.ldrb bitctx outp tmp0)
    ∷ call (Call.strb_imm bitctx outp 0)
    ∷ call (Call.add_imm outp 1)
    ∷ call (Call.sub_imm tmp1 1)
    ∷ call (Call.b_if Condition.ne (codes "copyloop"))
    ∷ call (Call.bl (codes "getkind"))
    ∷ call (Call.b_if Condition.cc (codes "literal"))
    ∷ call (Call.label (codes "readoffset"))
    ∷ call (Call.mov_imm tmp0 3)
    ∷ call (Call.bl (codes "getnumber"))
    ∷ call (Call.sub_imm tmp1 2)
    ∷ call (Call.mov offset tmp1)
    ∷ call (Call.b_if Condition.ne (codes "readlength"))
    ∷ call (Call.label (codes "donedecompressing"))
    ∷ call (Call.mov Register.sp saved_sp)
    ∷ []

abbrev pub leave : InputFile → List Statement
leave file = ldr_narrow outp file.entry ∷ call (Call.bx outp) ∷ []

-- getnumber: a number of variable length.
abbrev pub getnumber : List Statement
getnumber =
    call (Call.label (codes "getnumber"))
    ∷ call (Call.push getnumber_push_list)
    ∷ call (Call.lsl tmp0 tmp0 8)
    ∷ call (Call.mov_imm outp 0)
    ∷ call (Call.label (codes "numberloop"))
    ∷ call (Call.add_imm outp 2)
    ∷ call (Call.mov bitctx tmp0)
    ∷ call (Call.orr bitctx outp)
    ∷ call (Call.bl (codes "getbit"))
    ∷ call (Call.b_if Condition.cs (codes "numberloop"))
    ∷ call (Call.mov_imm tmp1 1)
    ∷ call (Call.sub_imm outp 1)
    ∷ call (Call.label (codes "bitsloop"))
    ∷ call (Call.mov bitctx tmp0)
    ∷ call (Call.orr bitctx outp)
    ∷ call (Call.bl (codes "getbit"))
    ∷ call (Call.adc tmp1 tmp1)
    ∷ call (Call.sub_imm outp 2)
    ∷ call (Call.b_if Condition.cs (codes "bitsloop"))
    ∷ call (Call.pop (to_pop_list getnumber_push_list))
    ∷ call (Call.pool)
    ∷ []
