-- ===== src/ShrinklerPacker/NumberRoutine.antt =====
-- src/shrinkler_gba/shrinkler_packer.cpp: calls of `getnumber`.
use shrinkler_gba.Assembler.{Register, Call}
use shrinkler_gba.Thumb.Memory
use native.Mathlib.Nat.{pow-le-pow_right, pow-suc}
use shrinkler_gba.ShrinklerPacker.Number.{
  HasGetnumber, InNumber, get_number, read_bits, number_loop, NumberKeeps, bits_loop, with_bit-some,
  OnlyNumber, count_bits, OnlyNumber-InNumber, OnlyNumber-NumberKeeps, NumberKeeps-trans,
}
use shrinkler_gba.Base.{
  ℕ, Bool, ◌≡◌, ◌%◌, ◌≤◌, length, some, ◌-◌, ◌<◌, ◌^◌, ◌*◌, arith, codes, suc, ◌+◌, u32, ◌∷◌, [],
  ◌<<<◌, ap, ◌>>>◌, refl, ◌==◌, ◌∙◌, sym, zero,
}
use shrinkler_gba.Thumb.{
  Code, Machine, put, run_steps, step, Reaches, store_words, result, load_words, code_at,
  difference,
}
use shrinkler_gba.ShrinklerPacker.BitContract.{HasGetbit}
use shrinkler_gba.ShrinklerPacker.Getbit.{
  tmp1, outp, offset, getnumber_push_list, saved_sp, tmp0, to_pop_list,
}
use shrinkler_gba.ShrinklerPacker.Range.{Range, Decodes, Decodes-kept}
use shrinkler_gba.Thumb.Memory.{AgreeFrom, HasFrame, AreWords}
use shrinkler_gba.ShrinklerPacker.NumberLoops.{Counts, counted, returning, count_lem, read_lem}
use shrinkler_gba.Thumb.Laws.{Reaches-trans, Reaches-push, Reaches-pop}
use mathlib.Core.Path.{subst}

module _ (p : Code) (c : Bool) (after : Code) (has : HasGetbit p c after) (rest : Code)
    (number : HasGetnumber p rest) (base group : ℕ) where
  -- Between the loops.
  starts_bits :
      (m : Machine) (r : Range) (k : ℕ)
      → InNumber base group (2 * suc k) m r
      → k < 31
      → (m' : Machine) × Reaches p
          (m, counted p c after has rest number base group)
          (m', bits_loop rest)
        × InNumber base group (2 * k + 1) m' r
        × (m'.registers tmp1 ≡ 1)
        × NumberKeeps base m m'
  unfolding run_steps step
  starts_bits m r k is few =
      let m1 = result tmp1 1 m in
      let m2 = difference outp (m1.registers outp) 1 m1 in
      let only : OnlyNumber m m2 = record {
        memory_kept = refl;
        others_kept = λ x h h'. rw (h, h') refl;
        number_small = omega arith;
      } in
      let next : m2.registers outp ≡ 2 * k + 1 = omega (arith, is.index_is, few) in
      (
        m2,
        record { steps = 3; reached = refl },
        subst (λ (i : ℕ). InNumber base group i m2 r) next
            (OnlyNumber-InNumber base group (2 * suc k) m m2 r only is),
        refl,
        OnlyNumber-NumberKeeps base m m2 only,
      )

  -- The two loops.
  read_number :
      (k n : ℕ) (m : Machine) (r r1 r' : Range)
      → 1 ≤ k
      → k ≤ 31
      → Counts p c after has rest number base group m k r1
      → read_bits k group 1 r1 ≡ some (n, r')
      → (m' : Machine) × Reaches p
          (m, number_loop rest)
          (m', returning p c after has rest number base group)
        × InNumber base group (m'.registers outp) m' r'
        × (m'.registers tmp1 ≡ n)
        × NumberKeeps base m m'
  read_number zero n m r r1 r' some_bits few counts h = absurd (omega arith)
  read_number (suc k) n m r r1 r' some_bits few (m1, reached1, is1, keeps1, bits_left, few_left) h =
      let (m2, reached2, is2, one_is, keeps2) = starts_bits m1 r1 k is1 (omega arith) in
      let power : 2 ^ suc (suc k) ≤ 2 ^ 32 =
        pow-le-pow_right {n = 2} (omega arith) {i = suc (suc k)} {j = 32} (omega arith) in
      let fits : (1 + 1) * 2 ^ suc k ≤ 2 ^ 32 = omega (arith, power, pow-suc 2 (suc k)) in
      let (m3, reached3, is3, number_is, keeps3) =
        read_lem p c after has rest number base group k 1 n m2 r1 r' is2 (omega arith) one_is fits
          h in
      (
        m3,
        Reaches-trans p _ _ _ reached1 (Reaches-trans p _ _ _ reached2 reached3),
        is3,
        number_is,
        NumberKeeps-trans base m m1 m3 keeps1 (NumberKeeps-trans base m1 m2 m3 keeps2 keeps3),
      )

  loops :
      (n : ℕ) (m : Machine) (r r' : Range)
      → InNumber base group 0 m r
      → get_number group r ≡ some (n, r')
      → (m' : Machine) × Reaches p
          (m, number_loop rest)
          (m', returning p c after has rest number base group)
        × InNumber base group (m'.registers outp) m' r'
        × (m'.registers tmp1 ≡ n)
        × NumberKeeps base m m'
  unfolding get_number
  loops n m r r' is h =
      let (k, r1, count, read) = with_bit-some (count_bits 31 group 1 r) _ (n, r') h in
      let counts =
        count_lem p c after has rest number base group 31 0 k m r r1 (omega arith) is count in
      let (m1, reached1, is1, keeps1, some_bits, few) = counts in
      read_number k n m r r1 r' some_bits few counts read

-- What a call of `getnumber` leaves.
pub record HasNumber (n : ℕ) (m m' : Machine) : Type 0 where
  pub number_is : m'.registers tmp1 ≡ n
  pub outp_kept : m'.registers outp ≡ m.registers outp
  pub offset_kept : m'.registers offset ≡ m.registers offset
  pub saved_sp_kept : m'.registers saved_sp ≡ m.registers saved_sp
  pub sp_kept : m'.registers Register.sp ≡ m.registers Register.sp
  pub below_kept : (x : ℕ) → x + 24 < m.registers Register.sp → m'.memory x ≡ m.memory x

-- What the caller sees to, with the contexts where the stack begins.
pub record CanNumber (p : Code) (group : ℕ) (m : Machine) (code : Code) (r : Range) : Type 0 where
  pub decodes : Decodes (m.registers Register.sp) m r
  pub stack_aligned : m.registers Register.sp % 4 ≡ 0
  pub stack_room : 24 ≤ m.registers Register.sp
  pub group_small : group < 7
  pub group_is : m.registers tmp0 ≡ group
  pub words : AreWords (outp ∷ tmp1 ∷ []) m.registers
  pub returns : code_at p (length code) ≡ code
  pub short : length code < 2 ^ 32

module _ (p : Code) (c : Bool) (after : Code) (has : HasGetbit p c after) (rest : Code)
    (number : HasGetnumber p rest) (group : ℕ) (m : Machine) (code : Code) (r : Range)
    (can : CanNumber p group m code r) where
  abbrev base : ℕ
  base = m.registers Register.sp

  abbrev entered : Machine
  entered =
      let called : Machine = put Register.lr (length code) m in
      let saved : Machine =
        put Register.sp (base - 8) (store_words (base - 8) getnumber_push_list called) in
      result outp 0 (record (result tmp0 (u32 (saved.registers tmp0 <<< 8)) saved) {
        carry = (saved.registers tmp0 >>> (32 - 8)) % 2 == 1;
      })

  enter_steps : Reaches p (m, Call.bl (codes "getnumber") ∷ code) (entered, number_loop rest)
  unfolding run_steps step
  enter_steps =
      let called : Machine = put Register.lr (length code) m in
      Reaches-trans p _ _ _
        (record {
          steps = 1;
          reached = ap (λ (next : Code). some (called, next)) number.getnumber_at;
        })
        (Reaches-trans p _ _ _
          (Reaches-push p called getnumber_push_list _ refl can.stack_aligned
            (omega (arith, can.stack_room)))
          (record { steps = 3; reached = refl }))

  entered-AgreeFrom : AgreeFrom base (2 ^ 32) m.memory entered.memory
  entered-AgreeFrom x low high =
      Memory.store_words-above (base - 8) x getnumber_push_list (put Register.lr (length code) m)
        (omega (arith, can.stack_room))

  entered-InNumber : InNumber base group 0 entered r
  entered-InNumber = record {
    decodes = Decodes-kept base m entered r refl refl refl refl entered-AgreeFrom can.decodes;
    base_aligned = can.stack_aligned;
    room = can.stack_room;
    group_small = can.group_small;
    sp_is = refl;
    group_is = omega (arith, can.group_is, can.group_small);
    index_is = refl;
    number_small = can.words.1.0;
  }

  entered-HasFrame :
      HasFrame entered.memory
        (base - 8)
        getnumber_push_list
        (put Register.lr (length code) m).registers
  entered-HasFrame =
      Memory.store_words-HasFrame (base - 8) getnumber_push_list (put Register.lr (length code) m)
        (can.words.0, (can.short, tt))

  -- A call reads a number.
  pub number_call :
      (n : ℕ) (r' : Range)
      → get_number group r ≡ some (n, r')
      → (m' : Machine) × Reaches p (m, Call.bl (codes "getnumber") ∷ code) (m', code)
        × Decodes (m.registers Register.sp) m' r'
        × HasNumber n m m'
  number_call n r' h =
      let (m1, reached, is, number_is, keeps) =
        loops p c after has rest number base group n entered r r' entered-InNumber h in
      let returned : Machine =
        put Register.sp (m1.registers Register.sp + 8)
          (load_words (m1.registers Register.sp) (to_pop_list getnumber_push_list) m1) in
      let (at_outp, (at_lr, none_left)) =
        subst
          (λ (bottom : ℕ).
            HasFrame m1.memory bottom getnumber_push_list
              (put Register.lr (length code) m).registers)
          (sym is.sp_is)
          (Memory.HasFrame-AgreeFrom (base - 8) getnumber_push_list
            (put Register.lr (length code) m).registers entered.memory m1.memory
            (λ x low high. keeps.stack_kept x low (omega (arith, high, can.stack_room)))
            entered-HasFrame) in
      let return_steps : Reaches p (m1, returning p c after has rest number base group)
          (returned, code) =
        subst
          (λ (next : Code).
            Reaches p (m1, returning p c after has rest number base group) (returned, next))
          (ap (code_at p) at_lr ∙ can.returns)
          (Reaches-pop p m1 (to_pop_list getnumber_push_list) rest refl
            (omega (arith, is.sp_is, can.stack_aligned, can.stack_room))
            (omega (
              arith, is.sp_is, can.stack_room, can.decodes.below_data, can.decodes.streaming.inside,
            ))) in
      (
        returned,
        Reaches-trans p _ _ _ enter_steps (Reaches-trans p _ _ _ reached return_steps),
        Decodes-kept base m1 returned r' refl refl refl refl (λ x low high. refl) is.decodes,
        record {
          number_is = number_is;
          outp_kept = at_outp;
          offset_kept = keeps.offset_kept;
          saved_sp_kept = keeps.saved_sp_kept;
          sp_kept = omega (arith, is.sp_is, can.stack_room);
          below_kept = λ x low.
              keeps.below_kept x low
              ∙ Memory.store_words-below (base - 8) x getnumber_push_list
                  (put Register.lr (length code) m) (omega (arith, low));
        },
      )
