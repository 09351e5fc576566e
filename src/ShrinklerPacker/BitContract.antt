-- ===== src/ShrinklerPacker/BitContract.antt =====
-- src/shrinkler_gba/shrinkler_packer.cpp: the routine `getbit`, what it needs and what it leaves.
use shrinkler_gba.Assembler.{Register, Call}
use shrinkler_gba.Thumb.{Code, Machine, target, half_at, carry_of}
use shrinkler_gba.Thumb.Memory.{AgreeFrom, AreWords}
use shrinkler_gba.ShrinklerPacker.Getbit.{
  inp, outp, tmp0, tmp1, rvalue, isize, bitctx, offset, saved_sp, getbit_push_list,
  ctx_table_offset,
}
use shrinkler_gba.ShrinklerPacker.RangeDecoder.{Decision, IsProbability, IsInterval}
use shrinkler_gba.ShrinklerPacker.Stream.{HasStream, readbit, before_condition}
use shrinkler_gba.ShrinklerPacker.Normalise.{condition}
use shrinkler_gba.ShrinklerPacker.Decode.{decode, finish}
use shrinkler_gba.Base.{ℕ, Bool, List, codes, u32, ◌%◌, ◌-◌, ◌^◌, ◌∷◌, ◌≡◌, ◌+◌, ◌≤◌, ◌<◌}

abbrev pub getbit : Bool → Code → Code
getbit c after =
    Call.push getbit_push_list
    ∷ Call.b (codes "loop_condition")
    ∷ Call.label (codes "readbit")
    ∷ readbit c (condition c (decode after))

-- The labels of the routine stand where they should.
pub record HasGetbit (p : Code) (c : Bool) (after : Code) : Type 0 where
  pub getbit_at : target (codes "getbit") p ≡ getbit c after
  pub condition_at : target (codes "loop_condition") p ≡ condition c (decode after)
  pub nonewword_at : target (codes "nonewword") p ≡ before_condition (condition c (decode after))
  pub readbit_at : target (codes "readbit") p ≡ readbit c (condition c (decode after))
  pub one_at : target (codes "one") p ≡ target (codes "one") (decode after)
  pub done_at : target (codes "done") p ≡ finish after

-- The address of the context that `bitctx` selects.
abbrev pub context_address : ℕ → ℕ → ℕ
context_address sp ctx = u32 (u32 (u32 (ctx + ctx) + (sp - 16)) + ctx_table_offset)

-- What the routine needs: room on the stack, which lies below the contexts and these below the
-- compressed data, a probability, and an interval with its value.
pub record IsReady (m : Machine) (a : ℕ) (stream : List ℕ) : Type 0 where
  pub stack_aligned : m.registers Register.sp % 4 ≡ 0
  pub stack_room : 16 ≤ m.registers Register.sp
  pub words : AreWords getbit_push_list m.registers
  pub context_is : context_address (m.registers Register.sp) (m.registers bitctx) ≡ a
  pub context_even : a % 2 ≡ 0
  pub context_above : m.registers Register.sp ≤ a
  pub context_below : a + 2 ≤ m.registers inp
  pub probable : IsProbability (half_at m.memory a)
  pub inside : IsInterval (m.registers isize) (m.registers rvalue)
  pub streaming : HasStream m stream

-- Registers and memory after the routine: the context is adjusted, and what is below the stack pointer
-- may have changed.
pub record HasDecided (d : Decision) (a : ℕ) (m m' : Machine) : Type 0 where
  pub size_is : m'.registers isize ≡ d.size
  pub value_is : m'.registers rvalue ≡ d.value
  pub bit_is : carry_of m'.carry ≡ d.bit
  pub prob_is : half_at m'.memory a ≡ d.prob
  pub moved : m.registers inp ≤ m'.registers inp
  pub outp_kept : m'.registers outp ≡ m.registers outp
  pub tmp0_kept : m'.registers tmp0 ≡ m.registers tmp0
  pub tmp1_kept : m'.registers tmp1 ≡ m.registers tmp1
  pub offset_kept : m'.registers offset ≡ m.registers offset
  pub saved_sp_kept : m'.registers saved_sp ≡ m.registers saved_sp
  pub sp_kept : m'.registers Register.sp ≡ m.registers Register.sp
  pub below_kept : (x : ℕ) → x + 16 < m.registers Register.sp → m'.memory x ≡ m.memory x
  pub stack_kept : AgreeFrom (m.registers Register.sp) a m.memory m'.memory
  pub above_kept : AgreeFrom (a + 2) (2 ^ 32) m.memory m'.memory
