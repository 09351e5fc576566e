-- ===== src/ShrinklerPacker/NumberLoops.antt =====
-- src/shrinkler_gba/shrinkler_packer.cpp: the two loops of `getnumber`.
use shrinkler_gba.Assembler.{Condition, Call}
use shrinkler_gba.Thumb.{Code, Machine, run_steps, step, Reaches, carry_of, sum, difference}
use native.Mathlib.Nat.{pow-suc, mul-le-mul_right, one-le-pow, le-mul_of_pos_right}
use shrinkler_gba.ShrinklerPacker.Number.{with_bit-some}
use shrinkler_gba.Base.{
  ◌∙◌, u32, leb, ◌-◌, ◌^◌, ap, refl, Bool, ℕ, ◌+◌, ◌*◌, ◌≤◌, ◌<◌, ◌≡◌, some, none_ne_some, suc,
  Option-cases, ◌∷◌, inl, codes, inr, arith, Bool-cases, ◌==◌, true, false, some-injective, zero,
  sym,
}
use shrinkler_gba.ShrinklerPacker.BitContract.{HasGetbit}
use shrinkler_gba.ShrinklerPacker.Number.{
  HasGetnumber, count_bits, InNumber, number_loop, NumberKeeps, number_slot, after_count,
  OnlyNumber, bits_loop, OnlyNumber-InNumber, context_call, NumberKeeps-trans,
  OnlyNumber-NumberKeeps, after_bits, read_bits,
}
use shrinkler_gba.ShrinklerPacker.Range.{Range, get_bit}
use shrinkler_gba.ShrinklerPacker.Getbit.{tmp1, outp, to_pop_list, getnumber_push_list}
use mathlib.Core.Path.{subst}
use shrinkler_gba.Thumb.Laws.{Reaches-trans, Reaches-taken, Reaches-not_taken}

positive : (k : ℕ) → 0 < 2 ^ k
positive k = one-le-pow k 2 (omega arith)

pub carry_small : (c : Bool) → carry_of c < 2
carry_small true = omega arith
carry_small false = omega arith

module _ (p : Code) (c : Bool) (after : Code) (has : HasGetbit p c after) (rest : Code)
    (number : HasGetnumber p rest) (base group : ℕ) where
  -- Behind the first loop.
  abbrev pub counted : Code
  counted =
      Call.mov_imm tmp1 1 ∷ Call.sub_imm outp 1 ∷ Call.label (codes "bitsloop") ∷ bits_loop rest

  abbrev pub Counts : Machine → ℕ → Range → Type 0
  Counts m k r =
      (m' : Machine) × Reaches p (m, number_loop rest) (m', counted)
      × InNumber base group (2 * k) m' r
      × NumberKeeps base m m'
      × (1 ≤ k)
      × (k ≤ 31)

  -- A bit of the first loop.
  count_bit :
      (m : Machine) (r r' : Range) (j b : ℕ)
      → InNumber base group (2 * j) m r
      → j < 31
      → get_bit (number_slot group (2 * (j + 1))) r ≡ some (b, r')
      → (m' : Machine) × Reaches p (m, number_loop rest) (m', after_count rest)
        × InNumber base group (2 * (j + 1)) m' r'
        × (carry_of m'.carry ≡ b)
        × NumberKeeps base m m'
  unfolding run_steps step
  count_bit m r r' j b is few h =
      let m1 = sum outp (m.registers outp) 2 m in
      let only : OnlyNumber m m1 = record {
        memory_kept = refl;
        others_kept = λ x h h'. rw h refl;
        number_small = is.number_small;
      } in
      let next : m1.registers outp ≡ 2 * (j + 1) = omega (arith, is.index_is) in
      let is' =
        subst (λ (i : ℕ). InNumber base group i m1 r) next
          (OnlyNumber-InNumber base group (2 * j) m m1 r only is) in
      let (m', reached, within, bit, kept, keeps) =
        context_call p c after has base group m1 r r' (2 * (j + 1)) b (after_count rest) is'
          (omega (arith, few)) number.count_returns number.short h in
      (
        m',
        Reaches-trans p _ _ _ (record { steps = 1; reached = refl }) reached,
        within,
        bit,
        NumberKeeps-trans base m m1 m' (OnlyNumber-NumberKeeps base m m1 only) keeps,
      )

  pub count_lem :
      (fuel j k : ℕ) (m : Machine) (r r' : Range)
      → fuel + j ≤ 31
      → InNumber base group (2 * j) m r
      → count_bits fuel group (j + 1) r ≡ some (k, r')
      → Counts m k r'
  unfolding count_bits
  count_lem zero j k m r r' few is h = absurd (none_ne_some h)
  count_lem (suc fuel) j k m r r' few is h =
      elim (Option-cases (get_bit (number_slot group (2 * (j + 1))) r)) [
        | inl stuck ↦ absurd (none_ne_some (rw stuck at h))
        | inr ((b, r1), got) ↦
            let (m1, reached, is1, bit, keeps) = count_bit m r r1 j b is (omega (arith, few)) got in
            elim (Bool-cases m1.carry) [
              | inl taken ↦
                  let set : (b == 1) ≡ true = rw (sym bit, taken) refl in
                  let (m2, reached2, is2, keeps2, some_bits, few_bits) =
                    count_lem fuel (j + 1) k m1 r1 r' (omega (arith, few)) is1
                      (rw (got, set) at h) in
                  (
                    m2,
                    Reaches-trans p _ _ _ reached (
                        Reaches-trans p _ _ _
                          (Reaches-taken p m1 Condition.cs (codes "numberloop") counted
                            (number_loop rest) taken number.number_loop_at)
                          reached2),
                    is2,
                    NumberKeeps-trans base m m1 m2 keeps keeps2,
                    some_bits,
                    few_bits,
                  )
              | inr passed ↦
                  let clear : (b == 1) ≡ false = rw (sym bit, passed) refl in
                  let at_k : Counts m (j + 1) r1 = (
                    m1,
                    Reaches-trans p _ _ _ reached
                        (Reaches-not_taken p m1 Condition.cs (codes "numberloop") counted passed),
                    is1,
                    keeps,
                    omega arith,
                    omega (arith, few),
                  ) in
                  let e : (j + 1, r1) ≡ (k, r') = some-injective (rw (got, clear) at h) in
                  subst (λ (x : ℕ × Range). Counts m x.0 x.1) e at_k
            ]
      ]

  -- Behind the second loop.
  abbrev pub returning : Code
  returning = Call.pop (to_pop_list getnumber_push_list) ∷ rest

  abbrev pub Reads : Machine → ℕ → Range → Type 0
  Reads m n r =
      (m' : Machine) × Reaches p (m, bits_loop rest) (m', returning)
      × InNumber base group (m'.registers outp) m' r
      × (m'.registers tmp1 ≡ n)
      × NumberKeeps base m m'

  -- A bit of the second loop.
  number_bit :
      (m : Machine) (r r' : Range) (k n b : ℕ)
      → InNumber base group (2 * k + 1) m r
      → k < 31
      → m.registers tmp1 ≡ n
      → (n + 1) * 2 ≤ 2 ^ 32
      → get_bit (number_slot group (2 * k + 1)) r ≡ some (b, r')
      → (m' : Machine) × Reaches p
          (m, bits_loop rest)
          (m', Call.b_if Condition.cs (codes "bitsloop") ∷ returning)
        × InNumber base group (m'.registers outp) m' r'
        × (m'.registers outp ≡ u32 (2 * k + 1 + 2 ^ 32 - 2))
        × (m'.registers tmp1 ≡ 2 * n + b)
        × (m'.carry ≡ leb 2 (2 * k + 1))
        × (b < 2)
        × NumberKeeps base m m'
  unfolding run_steps step
  number_bit m r r' k n b is few n_is fits h =
      let (m1, reached, is1, bit, kept, keeps) =
        context_call p c after has base group m r r' (2 * k + 1) b (after_bits rest) is
          (omega (arith, few)) number.bits_returns number.bits_short h in
      let m2 = sum tmp1 (m1.registers tmp1) (m1.registers tmp1 + carry_of m1.carry) m1 in
      let m3 = difference outp (m2.registers outp) 2 m2 in
      let small : b < 2 = omega (arith, bit, carry_small m1.carry) in
      let only : OnlyNumber m1 m3 = record {
        memory_kept = refl;
        others_kept = λ x h h'. rw (h, h') refl;
        number_small = omega arith;
      } in
      (
        m3,
        Reaches-trans p _ _ _ reached (record { steps = 2; reached = refl }),
        OnlyNumber-InNumber base group (2 * k + 1) m1 m3 r' only is1,
        omega (arith, is1.index_is),
        omega (arith, n_is, kept, bit, small, fits),
        ap (λ (x : ℕ). leb 2 x) is1.index_is,
        small,
        NumberKeeps-trans base m m1 m3 keeps (OnlyNumber-NumberKeeps base m1 m3 only),
      )

  pub read_lem :
      (k n n' : ℕ) (m : Machine) (r r' : Range)
      → InNumber base group (2 * k + 1) m r
      → k < 31
      → m.registers tmp1 ≡ n
      → (n + 1) * 2 ^ suc k ≤ 2 ^ 32
      → read_bits (suc k) group n r ≡ some (n', r')
      → Reads m n' r'
  unfolding read_bits
  read_lem zero n n' m r r' is few n_is fits h =
      let (b, r1, got, last) = with_bit-some (get_bit (number_slot group 1) r) _ (n', r') h in
      let (m1, reached, is1, at_outp, number_is, borrows, small, keeps) =
        number_bit m r r1 0 n b is few n_is (omega (arith, fits)) got in
      let e : (2 * n + b, r1) ≡ (n', r') = some-injective last in
      let at_end : Reads m (2 * n + b) r1 = (
        m1,
        Reaches-trans p _ _ _ reached
            (Reaches-not_taken p m1 Condition.cs (codes "bitsloop") returning borrows),
        is1,
        number_is,
        keeps,
      ) in
      subst (λ (x : ℕ × Range). Reads m x.0 x.1) e at_end
  read_lem (suc k) n n' m r r' is few n_is fits h =
      let (b, r1, got, more) =
        with_bit-some (get_bit (number_slot group (2 * suc k + 1)) r) _ (n', r') h in
      let double : (n + 1) * 2 ^ suc (suc k) ≡ (n + 1) * (2 ^ suc k * 2) =
        ap (λ (x : ℕ). (n + 1) * x) (pow-suc 2 (suc k)) in
      let (m1, reached, is1, at_outp, number_is, lasts, small, keeps) =
        number_bit m r r1 (suc k) n b is few n_is
          (omega
            (arith, fits, double, le-mul_of_pos_right {m = 2 ^ suc k} (n + 1) (positive (suc k))))
          got in
      let next : u32 (2 * suc k + 1 + 2 ^ 32 - 2) ≡ 2 * k + 1 = omega (arith, few) in
      let more_left : leb 2 (2 * suc k + 1) ≡ true = ground arith in
      let fits' : (2 * n + b + 1) * 2 ^ suc k ≤ 2 ^ 32 = omega (
        arith,
        fits,
        double,
        small,
        mul-le-mul_right {m = 2 * n + b + 1} {n = (n + 1) * 2} (2 ^ suc k) (omega (arith, small)),
      ) in
      let is1' = subst (λ (i : ℕ). InNumber base group i m1 r1) (at_outp ∙ next) is1 in
      let (m2, reached2, is2, number2, keeps2) =
        read_lem k (2 * n + b) n' m1 r1 r' is1' (omega (arith, few)) number_is fits' more in
      (
        m2,
        Reaches-trans p (m, bits_loop rest)
            (m1, Call.b_if Condition.cs (codes "bitsloop") ∷ returning) (m2, returning) reached
            (Reaches-trans p (m1, Call.b_if Condition.cs (codes "bitsloop") ∷ returning)
              (m1, bits_loop rest) (m2, returning)
              (Reaches-taken p m1 Condition.cs (codes "bitsloop") returning (bits_loop rest)
                (lasts ∙ more_left) number.bits_loop_at)
              reached2),
        is2,
        number2,
        NumberKeeps-trans base m m1 m2 keeps keeps2,
      )
