-- ===== src/ShrinklerPacker/Reduce.antt =====
-- src/shrinkler_gba/shrinkler_packer.cpp: the comparison, branch and subtraction of the checksum
-- loop that replace the remainder.
use shrinkler_gba.Assembler.{Register, Condition, Call}
use shrinkler_gba.Thumb.{
  Code, Machine, step, run_steps, Reaches, test, target, same, difference, sum, is_low, addition,
}
use shrinkler_gba.Thumb.Laws.{Reaches-trans, Reaches-taken, Reaches-not_taken}
use shrinkler_gba.Assembler.Laws.{register_number}
use shrinkler_gba.Utility.{base}
use shrinkler_gba.Base.{
  Text, leb, ◌∷◌, ◌≡◌, false, refl, true, ◌<◌, ◌*◌, ◌%◌, Bool-cases, inl, inr, ==_refl, ap, arith,
  not, ◌+◌, ◌∙◌, ℕ, u32, ◌&&◌, some,
}

-- Everything but one register and the flags is as before.
pub record DiffersOnlyAt (d : Register) (m m' : Machine) : Type 0 where
  pub registers_kept : (r : Register) → same r d ≡ false → m'.registers r ≡ m.registers r
  pub memory_kept : m'.memory ≡ m.memory

-- The code, in front of other code.
abbrev pub reduce : Register → Register → Text → Code → Code
reduce d k l code =
    Call.cmp d k ∷ Call.b_if Condition.lo l ∷ Call.sub_registers d d k ∷ Call.label l ∷ code

module _ (p : Code) (d k : Register) (l : Text) (code : Code) (m : Machine)
    (at_label : target l p ≡ code) where
  abbrev compared : Machine
  compared = test (m.registers d) (m.registers k) m

  abbrev subtracted : Machine
  subtracted = difference d (m.registers d) (m.registers k) compared

  compare_steps :
      Reaches p
        (m, reduce d k l code)
        (compared, Call.b_if Condition.lo l ∷ Call.sub_registers d d k ∷ Call.label l ∷ code)
  unfolding run_steps step
  compare_steps = record { steps = 1; reached = refl }

  too_large :
      leb (m.registers k) (m.registers d) ≡ true
      → Reaches p (m, reduce d k l code) (subtracted, code)
  unfolding run_steps step
  too_large h = Reaches-trans p _ _ _ compare_steps (
      Reaches-trans p _ _ _ (Reaches-not_taken p compared Condition.lo l _ (ap not h))
        (record { steps = 2; reached = refl }))

  small :
      leb (m.registers k) (m.registers d) ≡ false
      → Reaches p (m, reduce d k l code) (compared, code)
  small h =
      Reaches-trans p _ _ _ compare_steps
        (Reaches-taken p compared Condition.lo l _ code (ap not h) at_label)

  pub reduce_lem :
      m.registers k ≡ base
      → m.registers d < 2 * base
      → (m' : Machine) × Reaches p (m, reduce d k l code) (m', code)
        × (m'.registers d ≡ m.registers d % base)
        × DiffersOnlyAt d m m'
  reduce_lem divisor bound = elim (Bool-cases (leb (m.registers k) (m.registers d))) [
    | inl h ↦ (
      subtracted,
      too_large h,
      rw (==_refl (register_number d)) (ground arith),
      record { registers_kept = λ r other. rw other refl; memory_kept = refl },
    )
    | inr h ↦ (
      compared,
      small h,
      ground arith,
      record { registers_kept = λ r other. refl; memory_kept = refl },
    )
  ]

DiffersOnlyAt-trans :
    (d : Register) (m m' m'' : Machine)
    → DiffersOnlyAt d m m'
    → DiffersOnlyAt d m' m''
    → DiffersOnlyAt d m m''
DiffersOnlyAt-trans d m m' m'' x y = record {
  registers_kept = λ r other. y.registers_kept r other ∙ x.registers_kept r other;
  memory_kept = y.memory_kept ∙ x.memory_kept;
}

addition-eq-sum :
    (d r : Register) (m : Machine)
    → (is_low d && is_low r) ≡ true
    → addition d r m ≡ sum d (m.registers d) (m.registers r) m
addition-eq-sum d r m low = rw low refl

-- An addition modulo 65521.
pub add_reduce_lem :
    (p : Code) (d r k : Register) (l : Text) (code : Code) (m : Machine)
    → target l p ≡ code
    → m.registers k ≡ base
    → same k d ≡ false
    → (is_low d && is_low r) ≡ true
    → m.registers d + m.registers r < 2 * base
    → (m' : Machine) × Reaches p (m, Call.add d r ∷ reduce d k l code) (m', code)
      × (m'.registers d ≡ (m.registers d + m.registers r) % base)
      × DiffersOnlyAt d m m'
unfolding run_steps step
add_reduce_lem p d r k l code m at_label divisor other low bound =
    let total : ℕ = m.registers d + m.registers r in
    let m1 = sum d (m.registers d) (m.registers r) m in
    let fits : u32 total ≡ total = omega arith in
    let total_at : m1.registers d ≡ total = rw (==_refl (register_number d)) fits in
    let divisor1 : m1.registers k ≡ base = rw other divisor in
    let (m', reached, value, kept) =
      reduce_lem p d k l code m1 at_label divisor1 (rw total_at bound) in
    (
      m',
      Reaches-trans p _ _ _
          (record {
            steps = 1;
            reached =
                ap (λ (next : Machine). some (next, reduce d k l code)) (addition-eq-sum d r m low);
          })
          reached,
      value ∙ ap (λ (n : ℕ). n % base) total_at,
      DiffersOnlyAt-trans d m m1 m'
          (record { registers_kept = λ s ne. rw ne refl; memory_kept = refl }) kept,
    )
