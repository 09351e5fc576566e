-- ===== src/ShrinklerPacker/Decode.antt =====
-- src/shrinkler_gba/shrinkler_packer.cpp: the part of `getbit` behind its loop, which decides a bit.
use shrinkler_gba.Assembler.{Register, Call, Condition}
use shrinkler_gba.Thumb.{
  Code, Machine, step, run_steps, Reaches, target, emitted, put, sum, difference, result, half_at,
  same, carry_of,
}
use shrinkler_gba.Thumb.Laws.{Reaches-trans, Reaches-ldrh, Reaches-taken, Reaches-not_taken}
use shrinkler_gba.ShrinklerPacker.Getbit.{
  outp, tmp0, tmp1, rvalue, isize, bitctx, getbit_decode, getbit_push_list, ctx_table_offset,
  to_pop_list,
}
use shrinkler_gba.ShrinklerPacker.RangeDecoder.{
  Decision, IsProbability, IsInterval, decide, threshold, threshold_bounds,
}
use shrinkler_gba.Base.{
  ℕ, codes, drop, u32, ◌++◌, ◌+◌, ◌∷◌, ◌≡◌, false, ◌%◌, refl, ◌*◌, ◌>>>◌, ◌==◌, ◌^◌, ◌≤◌, arith,
  true, ◌-◌, ap, leb, not, ◌∙◌, some, Bool-cases, sym, inl, ◌<◌, inr,
}

-- The code behind the loop, and its end, where a bit has been decided.
abbrev pub decode : Code → Code
decode after = drop 2 (emitted getbit_decode) ++ after

abbrev pub finish : Code → Code
finish after =
    Call.strh tmp1 tmp0 ctx_table_offset ∷ Call.pop (to_pop_list getbit_push_list) ∷ after

-- What the decision leaves in the registers.
pub record IsDecided (d : Decision) (a : ℕ) (m m' : Machine) : Type 0 where
  pub size_is : m'.registers isize ≡ d.size
  pub value_is : m'.registers rvalue ≡ d.value
  pub prob_is : m'.registers tmp1 ≡ d.prob
  pub slot_is : u32 (m'.registers tmp0 + ctx_table_offset) ≡ a
  pub bit_is : carry_of m'.carry ≡ d.bit
  pub memory_kept : m'.memory ≡ m.memory
  pub others_kept :
      (r : Register)
      → same r outp ≡ false
      → same r tmp0 ≡ false
      → same r tmp1 ≡ false
      → same r rvalue ≡ false
      → same r isize ≡ false
      → same r bitctx ≡ false
      → m'.registers r ≡ m.registers r

le_of_leb : (a b : ℕ) → leb a b ≡ true → a ≤ b
le_of_leb a b h = ground arith

module _ (p after : Code) (one_at : target (codes "one") p ≡ target (codes "one") (decode after))
    (done_at : target (codes "done") p ≡ finish after) (m : Machine) (a prob : ℕ)
    (is_even : a % 2 ≡ 0) (has_prob : half_at m.memory a ≡ prob) where
  abbrev slot : Machine
  slot =
      let m1 = sum tmp0 (m.registers bitctx) (m.registers bitctx) m in
      put tmp0 (u32 (m1.registers tmp0 + m1.registers Register.sp)) m1

  -- The probability is in `tmp1`.
  abbrev fetched : Machine
  fetched = put tmp1 (half_at m.memory a) slot

  fetch_steps :
      u32 (slot.registers tmp0 + ctx_table_offset) ≡ a
      → (code : Code) × Reaches p (m, decode after) (fetched, code)
  unfolding run_steps step
  fetch_steps slot_is = (
    _,
    Reaches-trans p _ _ _ (record { steps = 2; reached = refl })
        (Reaches-ldrh p slot tmp1 tmp0 ctx_table_offset a _ slot_is is_even),
  )

  abbrev shifted : Machine
  shifted =
      let m1 = sum outp (fetched.registers tmp1) 0 fetched in
      let m2 = record (result outp (u32 (m1.registers outp * m1.registers isize)) m1) {
        carry = m1.mul_carry (m1.registers outp) (m1.registers isize);
      } in
      let m3 = record (result outp (m2.registers outp >>> 16) m2) {
        carry = (m2.registers outp >>> 15) % 2 == 1;
      } in
      let m4 = record (result bitctx (m3.registers tmp1 >>> 4) m3) {
        carry = (m3.registers tmp1 >>> 3) % 2 == 1;
      } in
      difference tmp1 (m4.registers tmp1) (m4.registers bitctx) m4

  abbrev compared : Machine
  compared = difference rvalue (shifted.registers rvalue) (shifted.registers outp) shifted

  module _ (slot_is : u32 (slot.registers tmp0 + ctx_table_offset) ≡ a) (is : IsProbability prob)
      (large : 2 ^ 15 ≤ m.registers isize)
      (inside : IsInterval (m.registers isize) (m.registers rvalue)) where
    compare_steps : Reaches p (m, decode after) (compared, drop 9 (decode after))
    unfolding run_steps step
    compare_steps =
        Reaches-trans p _ _ _ (record { steps = 2; reached = refl })
          (Reaches-trans p _ _ _
            (Reaches-ldrh p slot tmp1 tmp0 ctx_table_offset a _ slot_is is_even)
            (record { steps = 6; reached = refl }))

    one_size : ℕ
    one_size = threshold prob (m.registers isize)

    -- The registers before the branch.
    outp_is : compared.registers outp ≡ one_size
    unfolding one_size
    outp_is =
        let word : u32 (half_at m.memory a + 0) ≡ prob = omega (arith, has_prob) in
        let (positive, partial, product) =
          threshold_bounds prob (m.registers isize) is large inside.1 in
        ap (λ (x : ℕ). u32 (x * m.registers isize) >>> 16) word ∙ omega (arith, product)

    tmp1_is : compared.registers tmp1 ≡ prob - (prob >>> 4)
    tmp1_is = omega (arith, has_prob)

    zero_machine : Machine
    zero_machine =
        let m1 = difference isize (compared.registers isize) (compared.registers outp) compared in
        sum tmp1 (m1.registers tmp1) 0 m1

    zero_steps : compared.carry ≡ true → Reaches p (m, decode after) (zero_machine, finish after)
    unfolding run_steps step zero_machine
    zero_steps h = Reaches-trans p _ _ _ compare_steps (
        Reaches-trans p _ _ _ (Reaches-not_taken p compared Condition.cc (codes "one") _ (ap not h))
          (record { steps = 4; reached = ap (λ (code : Code). some (zero_machine, code)) done_at }))

    one_machine : Machine
    one_machine =
        let m1 = sum isize (compared.registers outp) 0 compared in
        let m2 = put bitctx 0xfff m1 in
        let m3 = sum tmp1 (m2.registers tmp1) (m2.registers bitctx) m2 in
        sum rvalue (m3.registers rvalue) (m3.registers outp) m3

    one_steps : compared.carry ≡ false → Reaches p (m, decode after) (one_machine, finish after)
    unfolding run_steps step one_machine
    one_steps h = Reaches-trans p _ _ _ compare_steps (
        Reaches-trans p _ _ _
          (Reaches-taken p compared Condition.cc (codes "one") _ _ (ap not h) one_at)
          (record { steps = 5; reached = refl }))

    zero-IsDecided :
        compared.carry ≡ true
        → IsDecided (decide prob (m.registers isize) (m.registers rvalue)) a m zero_machine
    unfolding zero_machine decide one_size
    zero-IsDecided h =
        let (positive, partial, product) =
          threshold_bounds prob (m.registers isize) is large inside.1 in
        let (value_inside, size_small) = inside in
        let o = outp_is in
        let t1 = tmp1_is in
        let le : leb one_size (m.registers rvalue) ≡ true =
          ap (λ (x : ℕ). leb x (m.registers rvalue)) (sym o) ∙ h in
        rw le (record {
          size_is = omega (arith, o, partial);
          value_is = omega (arith, o, le_of_leb one_size (m.registers rvalue) le);
          prob_is = omega (arith, t1, is.1);
          slot_is = slot_is;
          bit_is = ground (arith, t1);
          memory_kept = refl;
          others_kept = λ r h1 h2 h3 h4 h5 h7. rw (h1, h2, h3, h4, h5, h7) refl;
        })

    one-IsDecided :
        compared.carry ≡ false
        → IsDecided (decide prob (m.registers isize) (m.registers rvalue)) a m one_machine
    unfolding one_machine decide one_size
    one-IsDecided h =
        let (positive, partial, product) =
          threshold_bounds prob (m.registers isize) is large inside.1 in
        let (value_inside, size_small) = inside in
        let o = outp_is in
        let t1 = tmp1_is in
        let gt : leb one_size (m.registers rvalue) ≡ false =
          ap (λ (x : ℕ). leb x (m.registers rvalue)) (sym o) ∙ h in
        let below : m.registers rvalue < one_size = ground arith in
        rw gt (record {
          size_is = omega (arith, o, partial);
          value_is = omega (arith, o, below);
          prob_is = omega (arith, t1, is.1);
          slot_is = slot_is;
          bit_is = ground (arith, o, below);
          memory_kept = refl;
          others_kept = λ r h1 h2 h3 h4 h5 h7. rw (h1, h2, h3, h4, h5, h7) refl;
        })

    pub decode_lem :
        (m' : Machine) × Reaches p (m, decode after) (m', finish after)
        × IsDecided (decide prob (m.registers isize) (m.registers rvalue)) a m m'
    decode_lem = elim (Bool-cases compared.carry) [
      | inl h ↦ (zero_machine, zero_steps h, zero-IsDecided h)
      | inr h ↦ (one_machine, one_steps h, one-IsDecided h)
    ]
