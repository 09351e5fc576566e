-- ===== src/ShrinklerPacker/Kind.antt =====
-- src/shrinkler_gba/shrinkler_packer.cpp: calls of `getkind`, which falls through into `getbit`.
use shrinkler_gba.Assembler.{Register, Call}
use shrinkler_gba.Base.{
  true, false, Bool, codes, List, ◌%◌, ◌≡◌, ℕ, ◌≤◌, some, ◌∷◌, refl, [], length, u32, ◌<◌, ◌<<<◌,
  ◌^◌, ◌>>>◌, ◌-◌, ◌==◌, ◌*◌, arith, ap,
}
use shrinkler_gba.ShrinklerPacker.{statements}
use shrinkler_gba.ShrinklerPacker.Interval.{depacker}
use shrinkler_gba.ShrinklerPacker.Range.{Range, get_bit, Decodes, HasCalled, Decodes-kept}
use shrinkler_gba.ShrinklerPacker.BitContract.{HasGetbit, getbit}
use shrinkler_gba.ShrinklerPacker.Calls.{CanCall, bit_entry, HasCalled-kept}
use shrinkler_gba.ShrinklerPacker.Literal.{literal_slot, parity_lem}
use shrinkler_gba.ShrinklerPacker.DepackerBits.{depacker-HasGetbit, behind_getbit}
use shrinkler_gba.Thumb.{
  Code, Machine, run_steps, target, step, Reaches, put, code_at, result, same,
}
use shrinkler_gba.InputFile.{InputFile}
use shrinkler_gba.ShrinklerPacker.Getbit.{bitctx, outp, tmp0, tmp1}
use shrinkler_gba.Thumb.Memory.{AreWords}
use shrinkler_gba.Thumb.Laws.{Reaches-trans}

-- What the caller sees to, with the contexts where the stack begins.
pub record CanKind (p : Code) (m : Machine) (r : Range) (code : Code) : Type 0 where
  pub decodes : Decodes (m.registers Register.sp) m r
  pub stack_aligned : m.registers Register.sp % 4 ≡ 0
  pub stack_room : 16 ≤ m.registers Register.sp
  pub words : AreWords (outp ∷ tmp0 ∷ tmp1 ∷ []) m.registers
  pub returns : code_at p (length code) ≡ code
  pub short : length code < 2 ^ 32

HasGetkind : Code → Code → Type 0
HasGetkind p code =
    target (codes "getkind") p
    ≡ Call.lsl bitctx outp 31 ∷ Call.lsr bitctx bitctx 23 ∷ Call.label (codes "getbit") ∷ code

module _ (p : Code) (c : Bool) (after : Code) (has : HasGetbit p c after)
    (kind : HasGetkind p (getbit c after)) where
  -- The context is selected.
  select_kind :
      (m : Machine) (r : Range) (code : Code)
      → CanKind p m r code
      → (m' : Machine) × Reaches p (m, Call.bl (codes "getkind") ∷ code) (m', getbit c after)
        × CanCall p (m.registers Register.sp) (literal_slot (m.registers outp) 0) m' r code
        × (m'.registers Register.lr ≡ length code)
        × ((x : Register)
            → same x bitctx ≡ false
            → same x Register.lr ≡ false
            → m'.registers x ≡ m.registers x)
        × (m'.memory ≡ m.memory)
  unfolding run_steps step HasGetkind
  select_kind m r code can =
      let base = m.registers Register.sp in
      let k = literal_slot (m.registers outp) 0 in
      let m1 : Machine = put Register.lr (length code) m in
      let m2 : Machine = record (result bitctx (u32 (m1.registers outp <<< 31)) m1) {
        carry = (m1.registers outp >>> (32 - 31)) % 2 == 1;
      } in
      let m3 : Machine = record (result bitctx (m2.registers bitctx >>> 23) m2) {
        carry = (m2.registers bitctx >>> (23 - 1)) % 2 == 1;
      } in
      let parity : m3.registers bitctx ≡ m.registers outp % 2 * 2 ^ 8 =
        parity_lem (m.registers outp) in
      let can' : CanCall p base k m3 r code = record {
        decodes = Decodes-kept base m m3 r refl refl refl refl (λ x low high. refl) can.decodes;
        stack_aligned = can.stack_aligned;
        stack_room = can.stack_room;
        stack_low = omega arith;
        words = can.words;
        context_is =
            omega
              (arith, parity, can.stack_room, can.decodes.below_data, can.decodes.streaming.inside);
        returns = can.returns;
        short = can.short;
      } in
      (
        m3,
        Reaches-trans p _
            (
              m1,
              Call.lsl bitctx outp 31
                  ∷ Call.lsr bitctx bitctx 23
                  ∷ Call.label (codes "getbit")
                  ∷ getbit c after,
            )
            _ (record { steps = 1; reached = ap (λ (next : Code). some (m1, next)) kind })
            (record { steps = 3; reached = refl }),
        can',
        refl,
        λ x h h'. rw (h, h') refl,
        refl,
      )

  kind_call :
      (b : ℕ) (m : Machine) (r r' : Range) (code : Code)
      → CanKind p m r code
      → get_bit (literal_slot (m.registers outp) 0) r ≡ some (b, r')
      → (m' : Machine) × Reaches p (m, Call.bl (codes "getkind") ∷ code) (m', code)
        × Decodes (m.registers Register.sp) m' r'
        × HasCalled b (m.registers Register.sp) m m'
  kind_call b m r r' code can h =
      let base = m.registers Register.sp in
      let k = literal_slot (m.registers outp) 0 in
      let (m1, selected, can', lr_is, registers, memory) = select_kind m r code can in
      let (m', reached, decodes, is) =
        bit_entry p c after has base k (omega arith) m1 r code lr_is b r' can' h in
      (
        m',
        Reaches-trans p _ _ _ selected reached,
        decodes,
        HasCalled-kept b base m m1 m' registers memory is,
      )

depacker-HasGetkind :
    (c d : Bool) (file : InputFile) (compressed : List ℕ)
    → HasGetkind (depacker c d file compressed) (getbit c (behind_getbit d file compressed))
unfolding HasGetkind statements
depacker-HasGetkind true true file compressed = refl
depacker-HasGetkind true false file compressed = refl
depacker-HasGetkind false true file compressed = refl
depacker-HasGetkind false false file compressed = refl

module _ (c d : Bool) (file : InputFile) (compressed : List ℕ) where
  -- A call of `getkind` in the program that is emitted, with the return address behind it, returns
  -- there with the bit as the carry that the range decoder decides in the context of the parity of
  -- the output pointer, if the decoder has enough bits for it. The decoder's state is as it says;
  -- the output pointer, the registers of numbers and offsets, the stack pointer and the memory below
  -- the stack are kept, but for the 16 bytes below the stack pointer. Before the call the
  -- processor's state is that of a decoder, the contexts begin where the aligned stack pointer is,
  -- with 16 bytes below it, and the registers that are saved hold 32 bits.
  pub depacker-getkind_lem :
      (b : ℕ) (m : Machine) (r r' : Range) (code : Code)
      → CanKind (depacker c d file compressed) m r code
      → get_bit (literal_slot (m.registers outp) 0) r ≡ some (b, r')
      → (m' : Machine) × Reaches
          (depacker c d file compressed)
          (m, Call.bl (codes "getkind") ∷ code)
          (m', code)
        × Decodes (m.registers Register.sp) m' r'
        × HasCalled b (m.registers Register.sp) m m'
  depacker-getkind_lem b m r r' code can h =
      kind_call (depacker c d file compressed) c (behind_getbit d file compressed)
        (depacker-HasGetbit c d file compressed) (depacker-HasGetkind c d file compressed) b m r r'
        code can h
