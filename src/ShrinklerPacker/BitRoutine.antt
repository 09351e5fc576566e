-- ===== src/ShrinklerPacker/BitRoutine.antt =====
-- src/shrinkler_gba/shrinkler_packer.cpp: the routine `getbit` as a whole, with the registers that it
-- saves on the stack.
use shrinkler_gba.Assembler.{Register, Call}
use shrinkler_gba.Thumb.{
  Code, Machine, step, run_steps, Reaches, put, half_at, store_words, code_at, load_words,
  write_half,
}
use shrinkler_gba.Thumb.Memory
use shrinkler_gba.Thumb.Memory.{AgreeFrom, HasFrame, AreWords}
use shrinkler_gba.Thumb.Laws.{Reaches-trans, Reaches-push, Reaches-strh, Reaches-pop}
use shrinkler_gba.ShrinklerPacker.Getbit.{
  inp, tmp0, tmp1, rvalue, isize, bitctx, offset, saved_sp, getbit_push_list, ctx_table_offset,
  bitbuf, to_pop_list,
}
use shrinkler_gba.ShrinklerPacker.RangeDecoder.{IsProbability, decide, decide_bounds}
use shrinkler_gba.ShrinklerPacker.Stream.{HasStream, HasStream-kept, HasStream-AreBits}
use shrinkler_gba.ShrinklerPacker.Normalise.{
  condition, normalise, IsNormalised, IsNormal, normalise-IsInterval, normalise_lem,
}
use shrinkler_gba.ShrinklerPacker.Decode.{decode, finish, IsDecided, decode_lem}
use shrinkler_gba.Base.{
  ℕ, Bool, List, arith, u32, ◌-◌, ◌^◌, ◌∷◌, ◌≡◌, ap, ◌+◌, refl, some, ◌∙◌, sym,
}
use mathlib.Core.Path.{subst}
use shrinkler_gba.ShrinklerPacker.BitContract.{
  getbit, HasGetbit, context_address, IsReady, HasDecided,
}

module _ (p : Code) (c : Bool) (after : Code) (has : HasGetbit p c after) (m : Machine) (a : ℕ)
    (stream : List ℕ) (ready : IsReady m a stream) where
  s : ℕ
  s = m.registers Register.sp - 16

  -- The registers are saved.
  abbrev saved : Machine
  saved =
      let bottom : ℕ = m.registers Register.sp - 16 in
      put Register.sp bottom (store_words bottom getbit_push_list m)

  save_steps : Reaches p (m, getbit c after) (saved, condition c (decode after))
  unfolding run_steps step
  save_steps =
      Reaches-trans p _ _ _
        (Reaches-push p m getbit_push_list _ refl ready.stack_aligned
          (omega (arith, ready.stack_room)))
        (record { steps = 1; reached = ap (λ (code : Code). some (saved, code)) has.condition_at })

  saved-AgreeFrom : AgreeFrom (m.registers Register.sp) (2 ^ 32) m.memory saved.memory
  saved-AgreeFrom x low high =
      Memory.store_words-above (m.registers Register.sp - 16) x getbit_push_list m
        (omega (arith, ready.stack_room))

  saved-HasStream : HasStream saved stream
  saved-HasStream =
      HasStream-kept m saved stream refl refl
        (λ x low high.
          saved-AgreeFrom x (omega (arith, ready.context_above, ready.context_below)) high)
        ready.streaming

  saved-HasFrame : HasFrame saved.memory (m.registers Register.sp - 16) getbit_push_list m.registers
  saved-HasFrame =
      Memory.store_words-HasFrame (m.registers Register.sp - 16) getbit_push_list m ready.words

  abbrev prob : ℕ
  prob = half_at m.memory a

  -- Behind the loop.
  module _ (end : ℕ × ℕ × List ℕ)
      (total : normalise stream (m.registers isize) (m.registers rvalue) ≡ some end) (m2 : Machine)
      (n : IsNormalised end saved m2) where
    looped-AgreeFrom : AgreeFrom (m.registers Register.sp) (2 ^ 32) m.memory m2.memory
    looped-AgreeFrom x low high = ap (λ (f : ℕ → ℕ). f x) n.memory_kept ∙ saved-AgreeFrom x low high

    looped_prob : half_at m2.memory a ≡ prob
    looped_prob =
        Memory.half_at-AgreeFrom (m.registers Register.sp) (2 ^ 32) a m.memory m2.memory
          looped-AgreeFrom ready.context_above
          (omega (arith, ready.context_below, ready.streaming.inside))

    looped_slot : context_address (m.registers Register.sp) (m2.registers bitctx) ≡ a
    looped_slot =
        ap (λ (x : ℕ). context_address (m.registers Register.sp) x)
          (n.others_kept bitctx refl refl refl refl refl)
        ∙ ready.context_is

    looped_sp : m2.registers Register.sp ≡ m.registers Register.sp - 16
    looped_sp = n.others_kept Register.sp refl refl refl refl refl

    looped-IsNormal : IsNormal end
    looped-IsNormal =
        normalise-IsInterval stream (m.registers isize) (m.registers rvalue) end
          (HasStream-AreBits m stream ready.streaming) ready.inside total

    decide_steps :
        (m3 : Machine) × Reaches p (m2, decode after) (m3, finish after)
        × IsDecided (decide prob end.0 end.1) a m2 m3
    decide_steps =
        let (large, (value_inside, small)) = looped-IsNormal in
        rw (n.size_is, n.value_is) at
          (decode_lem p after has.one_at has.done_at m2 a prob ready.context_even looped_prob
            (ap
                (λ (x : ℕ).
                  u32
                    (u32 (u32 (m2.registers bitctx + m2.registers bitctx) + x) + ctx_table_offset))
                looped_sp
              ∙ looped_slot)
            ready.probable (omega (arith, n.size_is, large))
            (omega (arith, n.size_is, n.value_is, value_inside), omega (arith, n.size_is, small)))

    -- The bit has been decided.
    module _ (m3 : Machine) (q : IsDecided (decide prob end.0 end.1) a m2 m3) where
      abbrev adjusted : Machine
      adjusted = record m3 { memory = write_half a (m3.registers tmp1) m3.memory }

      abbrev returned : Machine
      returned =
          put Register.sp (adjusted.registers Register.sp + 16)
            (load_words (adjusted.registers Register.sp) (to_pop_list getbit_push_list) adjusted)

      adjusted_sp : m3.registers Register.sp ≡ m.registers Register.sp - 16
      adjusted_sp = q.others_kept Register.sp refl refl refl refl refl refl ∙ looped_sp

      -- Below the context the memory is as it was when the registers had been saved.
      adjusted-below : AgreeFrom 0 a saved.memory adjusted.memory
      adjusted-below x low high =
          Memory.write_half-below a (m3.registers tmp1) x m3.memory high
          ∙ ap (λ (f : ℕ → ℕ). f x) (q.memory_kept ∙ n.memory_kept)

      adjusted-above : AgreeFrom (a + 2) (2 ^ 32) m2.memory adjusted.memory
      adjusted-above x low high =
          Memory.write_half-above a (m3.registers tmp1) x m3.memory low
          ∙ ap (λ (f : ℕ → ℕ). f x) q.memory_kept

      frame : HasFrame adjusted.memory (m3.registers Register.sp) getbit_push_list m.registers
      frame =
          subst (λ (bottom : ℕ). HasFrame adjusted.memory bottom getbit_push_list m.registers)
            (sym adjusted_sp)
            (Memory.HasFrame-AgreeFrom (m.registers Register.sp - 16) getbit_push_list m.registers
              saved.memory adjusted.memory
              (λ x low high.
                adjusted-below x (omega arith)
                  (omega (arith, ready.context_above, ready.stack_room)))
              saved-HasFrame)

      return_steps : Reaches p (m3, finish after) (returned, code_at p (m.registers Register.lr))
      return_steps =
          let (at_outp, (at_tmp0, (at_tmp1, (at_lr, rest)))) = frame in
          Reaches-trans p _ _ _
            (Reaches-strh p m3 tmp1 tmp0 ctx_table_offset a _ q.slot_is ready.context_even)
            (subst
              (λ (code : Code).
                Reaches p (adjusted, Call.pop (to_pop_list getbit_push_list) ∷ after)
                  (returned, code))
              (ap (code_at p) at_lr)
              (Reaches-pop p adjusted (to_pop_list getbit_push_list) after refl
                (omega (arith, adjusted_sp, ready.stack_aligned))
                (omega (
                  arith, adjusted_sp, ready.context_above, ready.context_below,
                  ready.streaming.inside,
                ))))

      returned-HasStream : HasStream returned end.2
      returned-HasStream =
          HasStream-kept m2 returned end.2 (q.others_kept bitbuf refl refl refl refl refl refl)
            (q.others_kept inp refl refl refl refl refl refl)
            (λ x low high. adjusted-above x (omega (arith, low, n.moved, ready.context_below)) high)
            n.stream_is

      decided_prob : IsProbability (decide prob end.0 end.1).prob
      decided_prob =
          let (large, inside) = looped-IsNormal in
          (decide_bounds prob end.0 end.1 ready.probable large inside).0

      returned-HasDecided : HasDecided (decide prob end.0 end.1) a m returned
      returned-HasDecided =
          let (at_outp, (at_tmp0, (at_tmp1, (at_lr, rest)))) = frame in
          record {
            size_is = q.size_is;
            value_is = q.value_is;
            bit_is = q.bit_is;
            prob_is =
                Memory.half_at-write_half a (m3.registers tmp1) m3.memory
                  (omega (arith, q.prob_is, decided_prob.1))
                ∙ q.prob_is;
            moved = omega (arith, n.moved, q.others_kept inp refl refl refl refl refl refl);
            outp_kept = at_outp;
            tmp0_kept = at_tmp0;
            tmp1_kept = at_tmp1;
            offset_kept =
                q.others_kept offset refl refl refl refl refl refl
                ∙ n.others_kept offset refl refl refl refl refl;
            saved_sp_kept =
                q.others_kept saved_sp refl refl refl refl refl refl
                ∙ n.others_kept saved_sp refl refl refl refl refl;
            sp_kept = omega (arith, adjusted_sp, ready.stack_room);
            below_kept = λ x below.
                adjusted-below x (omega arith) (omega (arith, below, ready.context_above))
                ∙ Memory.store_words-below (m.registers Register.sp - 16) x getbit_push_list m
                    (omega (arith, below));
            stack_kept = λ x low high.
                adjusted-below x (omega arith) high
                ∙ saved-AgreeFrom x low
                    (omega (arith, high, ready.context_below, ready.streaming.inside));
            above_kept = λ x low high.
                adjusted-above x low high
                ∙ looped-AgreeFrom x (omega (arith, low, ready.context_above)) high;
          }

  -- The routine, with enough bits.
  pub getbit_lem :
      (end : ℕ × ℕ × List ℕ)
      → normalise stream (m.registers isize) (m.registers rvalue) ≡ some end
      → (m' : Machine) × Reaches p (m, getbit c after) (m', code_at p (m.registers Register.lr))
        × HasDecided (decide prob end.0 end.1) a m m'
        × HasStream m' end.2
  getbit_lem end total =
      let (m2, reached2, n) =
        normalise_lem p (decode after) c has.nonewword_at has.readbit_at stream (m.registers isize)
          (m.registers rvalue) saved end saved-HasStream refl refl ready.inside.1 ready.inside.0
          total in
      let (m3, reached3, q) = decide_steps end total m2 n in
      (
        returned end total m2 n m3 q,
        Reaches-trans p _ _ _ save_steps (
            Reaches-trans p _ _ _ reached2
              (Reaches-trans p _ _ _ reached3 (return_steps end total m2 n m3 q))),
        returned-HasDecided end total m2 n m3 q,
        returned-HasStream end total m2 n m3 q,
      )
