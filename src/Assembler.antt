-- ===== src/Assembler.antt =====
-- The assembler library lzasm, which is a parameter: its state is the list of the calls made so far,
-- the latest first, and its two functions that return something are functions of that list. The
-- calls are those that src/shrinkler_gba makes; a 32-bit literal is given by its bit pattern.
pub mod Laws
pub mod Sample
use shrinkler_gba.Base.{ℕ, List, Text, Result}

pub data Register : Type 0 where
  r0 r1 r2 r3 r4 r5 r6 r7 r8 r9 sp lr pc : Register

-- Conditions of branches.
pub data Condition : Type 0 where
  eq ne cs cc lo ls : Condition

pub data Call : Type 0 where
  -- directives
  label : Text → Call
  align : ℕ → Call
  byte : List ℕ → Call
  hword : ℕ → Call
  asciz : Text → Call
  incbin : List ℕ → Call
  pool : Call
  -- code in ARM state
  arm_branch : Text → Call
  arm_to_thumb : Register → Call
  -- branches
  b : Text → Call
  b_if : Condition → Text → Call
  bl : Text → Call
  bx : Register → Call
  swi : ℕ → Call
  -- moves and arithmetic
  mov_imm : Register → ℕ → Call
  mov : Register → Register → Call
  lsl : Register → Register → ℕ → Call
  lsr : Register → Register → ℕ → Call
  add_imm : Register → ℕ → Call
  add : Register → Register → Call
  add_registers : Register → Register → Register → Call
  sub_imm : Register → ℕ → Call
  sub_registers : Register → Register → Register → Call
  sub_imm_from : Register → Register → ℕ → Call
  adc : Register → Register → Call
  orr : Register → Register → Call
  and_bits : Register → Register → Call
  mul : Register → Register → Call
  neg : Register → Register → Call
  cmp_imm : Register → ℕ → Call
  cmp : Register → Register → Call
  -- loads and stores
  adr : Register → Text → Call
  ldr_literal : Register → ℕ → Call
  ldr : Register → Register → ℕ → Call
  str : Register → Register → ℕ → Call
  ldrh : Register → Register → ℕ → Call
  strh : Register → Register → ℕ → Call
  ldrb : Register → Register → Register → Call
  ldrb_imm : Register → Register → ℕ → Call
  strb_imm : Register → Register → ℕ → Call
  push : List Register → Call
  pop : List Register → Call
  ldmia : Register → List Register → Call
  stmia : Register → List Register → Call

pub record Assembler : Type 0 where
  -- `current_lc()`, the offset of what comes next.
  pub current_lc : List Call → ℕ
  -- `link(address)`, the bytes of the program.
  pub link : ℕ → List Call → Result (List ℕ)
