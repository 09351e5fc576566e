-- ===== src/ShrinklerPacker/Calls.antt =====
-- src/shrinkler_gba/shrinkler_packer.cpp: calls of `getbit` from the code that is emitted.
use shrinkler_gba.ShrinklerPacker.Range.{
  Range, Decodes, HasCalled, get_bit, decided, decided-Decodes, Decodes-kept,
}
use shrinkler_gba.Assembler.{Register, Call}
use shrinkler_gba.ShrinklerPacker.RangeDecoder.{decide, IsProbability}
use shrinkler_gba.ShrinklerPacker.BitRoutine.{getbit_lem}
use shrinkler_gba.ShrinklerPacker.BitContract.{
  IsReady, getbit, HasGetbit, HasDecided, context_address,
}
use shrinkler_gba.Base.{
  ℕ, Bool, ◌%◌, ◌<◌, ◌≡◌, false, length, ◌≤◌, List, some, ◌+◌, ◌∙◌, ◌*◌, Option-cases, arith, codes,
  ◌∷◌, inl, [], ap, none_ne_some, sym, inr, refl, some-injective, ◌^◌,
}
use shrinkler_gba.Thumb.{Code, Machine, same, run_steps, step, Reaches, put, code_at}
use shrinkler_gba.ShrinklerPacker.Getbit.{bitctx, outp, isize, tmp0, rvalue, tmp1, offset, saved_sp}
use shrinkler_gba.Thumb.Memory.{AreWords}
use shrinkler_gba.ShrinklerPacker.Normalise.{normalise}
use mathlib.Core.Path.{subst}
use shrinkler_gba.Thumb.Laws.{Reaches-trans}

-- What the caller sees to.
pub record CanCall (p : Code) (base k : ℕ) (m : Machine) (r : Range) (code : Code) : Type 0 where
  pub decodes : Decodes base m r
  pub stack_aligned : m.registers Register.sp % 4 ≡ 0
  pub stack_room : 16 ≤ m.registers Register.sp
  pub stack_low : m.registers Register.sp ≤ base
  pub words : AreWords (outp ∷ tmp0 ∷ tmp1 ∷ []) m.registers
  pub context_is : context_address (m.registers Register.sp) (m.registers bitctx) ≡ base + 2 * k
  pub returns : code_at p (length code) ≡ code
  pub short : length code < 2 ^ 32

module _ (p : Code) (c : Bool) (after : Code) (has : HasGetbit p c after) (base k : ℕ)
    (few : k < 2048) (m : Machine) (r : Range) (code : Code)
    (lr_is : m.registers Register.lr ≡ length code) where
  caller-IsReady : CanCall p base k m r code → IsReady m (base + 2 * k) r.stream
  caller-IsReady can =
      let (word1, (word2, (word3, rest))) = can.words in
      let d = can.decodes in
      record {
        stack_aligned = can.stack_aligned;
        stack_room = can.stack_room;
        words = (word1, (word2, (word3, (omega (arith, lr_is, can.short), tt))));
        context_is = can.context_is;
        context_even = omega (arith, d.base_even);
        context_above = omega (arith, can.stack_low);
        context_below = omega (arith, d.below_data);
        probable = subst IsProbability (sym (d.contexts_are k few).0) (d.contexts_are k few).1;
        inside = (
          omega (arith, d.inside.0, d.size_is, d.value_is),
          omega (arith, d.inside.1, d.size_is),
        );
        streaming = d.streaming;
      }

  decided_entry :
      (end : ℕ × ℕ × List ℕ)
      → CanCall p base k m r code
      → normalise r.stream r.size r.value ≡ some end
      → (m' : Machine) × Reaches p (m, getbit c after) (m', code)
        × Decodes base m' (decided k r end).1
        × HasCalled (decided k r end).0 base m m'
  decided_entry end can total =
      let d = can.decodes in
      let total' : normalise r.stream (m.registers isize) (m.registers rvalue) ≡ some end =
        rw (d.size_is, d.value_is) total in
      let (m', reached, h, streaming) =
        getbit_lem p c after has m (base + 2 * k) r.stream (caller-IsReady can) end total' in
      let h' : HasDecided (decide (r.contexts k) end.0 end.1) (base + 2 * k) m m' =
        subst (λ (prob : ℕ). HasDecided (decide prob end.0 end.1) (base + 2 * k) m m')
          (d.contexts_are k few).0 h in
      (
        m',
        subst (λ (next : Code). Reaches p (m, getbit c after) (m', next))
            (ap (code_at p) lr_is ∙ can.returns) reached,
        decided-Decodes base k m m' r end few d can.stack_low total h' streaming,
        record {
          bit_is = h'.bit_is;
          outp_kept = h'.outp_kept;
          tmp0_kept = h'.tmp0_kept;
          tmp1_kept = h'.tmp1_kept;
          offset_kept = h'.offset_kept;
          saved_sp_kept = h'.saved_sp_kept;
          sp_kept = h'.sp_kept;
          below_kept = h'.below_kept;
          stack_kept = λ x low high. h'.stack_kept x low (omega arith);
        },
      )

  -- The routine decides a bit.
  pub bit_entry :
      (b : ℕ) (r' : Range)
      → CanCall p base k m r code
      → get_bit k r ≡ some (b, r')
      → (m' : Machine) × Reaches p (m, getbit c after) (m', code)
        × Decodes base m' r'
        × HasCalled b base m m'
  unfolding get_bit
  bit_entry b r' can h = elim (Option-cases (normalise r.stream r.size r.value)) [
    | inl none_left ↦ absurd (none_ne_some (rw none_left at h))
    | inr (end, total) ↦
        let is : decided k r end ≡ (b, r') = some-injective (rw total at h) in
        let (m', reached, decodes, is_called) = decided_entry end can total in
        (
          m',
          reached,
          subst (Decodes base m') (ap (λ (t : ℕ × Range). t.1) is) decodes,
          subst (λ (x : ℕ). HasCalled x base m m') (ap (λ (t : ℕ × Range). t.0) is) is_called,
        )
  ]

-- On the way to the routine only the return address and the context are set.
pub HasCalled-kept :
    (b base : ℕ) (m m1 m' : Machine)
    → ((x : Register)
        → same x bitctx ≡ false
        → same x Register.lr ≡ false
        → m1.registers x ≡ m.registers x)
    → m1.memory ≡ m.memory
    → HasCalled b base m1 m'
    → HasCalled b base m m'
HasCalled-kept b base m m1 m' registers memory called =
    let at_sp = registers Register.sp refl refl in
    record {
      bit_is = called.bit_is;
      outp_kept = called.outp_kept ∙ registers outp refl refl;
      tmp0_kept = called.tmp0_kept ∙ registers tmp0 refl refl;
      tmp1_kept = called.tmp1_kept ∙ registers tmp1 refl refl;
      offset_kept = called.offset_kept ∙ registers offset refl refl;
      saved_sp_kept = called.saved_sp_kept ∙ registers saved_sp refl refl;
      sp_kept = called.sp_kept ∙ at_sp;
      below_kept =
          λ x low. called.below_kept x (omega (arith, low, at_sp)) ∙ ap (λ (f : ℕ → ℕ). f x) memory;
      stack_kept = λ x low high.
          called.stack_kept x (omega (arith, low, at_sp)) high ∙ ap (λ (f : ℕ → ℕ). f x) memory;
    }

module _ (p : Code) (c : Bool) (after : Code) (has : HasGetbit p c after) (base k : ℕ)
    (few : k < 2048) (m : Machine) (r : Range) (code : Code) where
  -- A call decides a bit.
  pub bit_call :
      (b : ℕ) (r' : Range)
      → CanCall p base k m r code
      → get_bit k r ≡ some (b, r')
      → (m' : Machine) × Reaches p (m, Call.bl (codes "getbit") ∷ code) (m', code)
        × Decodes base m' r'
        × HasCalled b base m m'
  unfolding run_steps step
  bit_call b r' can h =
      let called : Machine = put Register.lr (length code) m in
      let can' : CanCall p base k called r code = record {
        decodes = Decodes-kept base m called r refl refl refl refl (λ x low high. refl) can.decodes;
        stack_aligned = can.stack_aligned;
        stack_room = can.stack_room;
        stack_low = can.stack_low;
        words = can.words;
        context_is = can.context_is;
        returns = can.returns;
        short = can.short;
      } in
      let (m', reached, decodes, is) =
        bit_entry p c after has base k few called r code refl b r' can' h in
      (
        m',
        Reaches-trans p _ _ _
            (record {
              steps = 1;
              reached = ap (λ (next : Code). some (called, next)) has.getbit_at;
            })
            reached,
        decodes,
        HasCalled-kept b base m called m' (λ x h h'. rw h' refl) refl is,
      )
