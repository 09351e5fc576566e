-- ===== src/ShrinklerPacker/Checksum.antt =====
-- src/shrinkler_gba/shrinkler_packer.cpp: what the code of `debug_check_decompressed_data` does when
-- it runs. This module has the loop.
use shrinkler_gba.Assembler.{Condition, Call, Register}
use shrinkler_gba.Thumb.{Code, Machine, step, run_steps, Reaches, target, difference, sum, put}
use shrinkler_gba.Thumb.Laws.{Reaches-trans, Reaches-not_taken, Reaches-taken}
use shrinkler_gba.ShrinklerPacker.Debug.{
  decompressed_data, s1, s2, loop_counter, byte_register, base_register,
}
use shrinkler_gba.ShrinklerPacker.Reduce.{reduce, add_reduce_lem}
use shrinkler_gba.Utility.{base, adler_loop}
use mathlib.Core.Path.{subst}
use shrinkler_gba.Base.{
  ℕ, List, codes, ◌∷◌, ◌≡◌, ◌+◌, ◌<◌, IsByte, [], ◌^◌, u32, ◌%◌, arith, ◌∙◌, refl, ap, ◌≤◌, ◌-◌,
  ◌==◌, length, IsBytes, not, suc, false, sym,
}
use shrinkler_gba.Utility.Adler.{adler_loop_step}

-- The memory has the given bytes from an address on.
abbrev pub HasBytes : (ℕ → ℕ) → ℕ → List ℕ → Type 0
HasBytes memory address [] = Unit
HasBytes memory address (byte ∷ bytes) =
    (memory address ≡ byte) × HasBytes memory (address + 1) bytes

-- The memory and the stack pointer are as before.
pub record Keeps (m m' : Machine) : Type 0 where
  pub memory_kept : m'.memory ≡ m.memory
  pub stack_kept : m'.registers Register.sp ≡ m.registers Register.sp

pub Keeps-trans : (m m' m'' : Machine) → Keeps m m' → Keeps m' m'' → Keeps m m''
Keeps-trans m m' m'' x y = record {
  memory_kept = y.memory_kept ∙ x.memory_kept;
  stack_kept = y.stack_kept ∙ x.stack_kept;
}

-- What the loop keeps in its registers.
pub record IsAt (m : Machine) (address left first second : ℕ) : Type 0 where
  pub data_at : m.registers decompressed_data ≡ address
  pub left_at : m.registers loop_counter ≡ left
  pub s1_at : m.registers s1 ≡ first
  pub s2_at : m.registers s2 ≡ second
  pub base_at : m.registers base_register ≡ base

-- The loop's code, with what follows it.
abbrev advance : Code → Code
advance after =
    Call.add_imm decompressed_data 1
    ∷ Call.sub_imm loop_counter 1
    ∷ Call.b_if Condition.ne (codes "adler32_loop")
    ∷ after

abbrev pub second_sum : Code → Code
second_sum after = Call.add s2 s1 ∷ reduce s2 base_register (codes "s2_ok") (advance after)

abbrev pub loop_body : Code → Code
loop_body after =
    Call.ldrb_imm byte_register decompressed_data 0
    ∷ Call.add s1 byte_register
    ∷ reduce s1 base_register (codes "s1_ok") (second_sum after)

module _ (p after : Code) (s1_label : target (codes "s1_ok") p ≡ second_sum after)
    (s2_label : target (codes "s2_ok") p ≡ advance after) where
  module _ (m : Machine) (address left first second : ℕ) (at : IsAt m address left first second)
      (address_fits : address + left < 2 ^ 32) (small1 : first < base)
      (small2 : second < base) where
    -- A byte is loaded and added to the first sum.
    first_steps :
        (byte : ℕ)
        → IsByte byte
        → m.memory address ≡ byte
        → (m' : Machine) × Reaches p (m, loop_body after) (m', second_sum after)
          × IsAt m' address left ((first + byte) % base) second
          × Keeps m m'
    unfolding run_steps step
    first_steps byte small here =
        let m1 = put byte_register (m.memory (u32 (m.registers decompressed_data + 0))) m in
        let here' : u32 (m.registers decompressed_data + 0) ≡ address = omega (arith, at.data_at) in
        let loaded : m1.registers byte_register ≡ byte = ap m.memory here' ∙ here in
        let (m', reached, value, kept) =
          add_reduce_lem p s1 byte_register base_register (codes "s1_ok") (second_sum after) m1
            s1_label at.base_at refl refl (omega (arith, at.s1_at, loaded)) in
        (
          m',
          Reaches-trans p _ _ _ (record { steps = 1; reached = refl }) reached,
          record {
            data_at = kept.registers_kept decompressed_data refl ∙ at.data_at;
            left_at = kept.registers_kept loop_counter refl ∙ at.left_at;
            s1_at = omega (arith, value, at.s1_at, loaded);
            s2_at = kept.registers_kept s2 refl ∙ at.s2_at;
            base_at = kept.registers_kept base_register refl ∙ at.base_at;
          },
          record {
            memory_kept = kept.memory_kept;
            stack_kept = kept.registers_kept Register.sp refl;
          },
        )

    -- The first sum is added to the second.
    second_steps :
        (m' : Machine) × Reaches p (m, second_sum after) (m', advance after)
        × IsAt m' address left first ((second + first) % base)
        × Keeps m m'
    second_steps =
        let (m', reached, value, kept) =
          add_reduce_lem p s2 s1 base_register (codes "s2_ok") (advance after) m s2_label at.base_at
            refl refl (omega (arith, at.s1_at, at.s2_at)) in
        (
          m',
          reached,
          record {
            data_at = kept.registers_kept decompressed_data refl ∙ at.data_at;
            left_at = kept.registers_kept loop_counter refl ∙ at.left_at;
            s1_at = kept.registers_kept s1 refl ∙ at.s1_at;
            s2_at = omega (arith, value, at.s1_at, at.s2_at);
            base_at = kept.registers_kept base_register refl ∙ at.base_at;
          },
          record {
            memory_kept = kept.memory_kept;
            stack_kept = kept.registers_kept Register.sp refl;
          },
        )

    -- The address and the counter.
    advance_steps :
        1 ≤ left
        → (m' : Machine) × Reaches p
            (m, advance after)
            (m', Call.b_if Condition.ne (codes "adler32_loop") ∷ after)
          × IsAt m' (address + 1) (left - 1) first second
          × (m'.is_zero ≡ (left == 1))
          × Keeps m m'
    unfolding run_steps step
    advance_steps some_left =
        let m1 = sum decompressed_data (m.registers decompressed_data) 1 m in
        let m' = difference loop_counter (m1.registers loop_counter) 1 m1 in
        (
          m',
          record { steps = 2; reached = refl },
          record {
            data_at = omega (arith, at.data_at);
            left_at = omega (arith, at.left_at);
            s1_at = at.s1_at;
            s2_at = at.s2_at;
            base_at = at.base_at;
          },
          ap (λ (n : ℕ). n == 1) at.left_at,
          record { memory_kept = refl; stack_kept = refl },
        )

  -- One round, up to the branch at its end.
  round :
      (m : Machine) (address left first second byte : ℕ)
      → IsAt m address left first second
      → address + left < 2 ^ 32
      → 1 ≤ left
      → first < base
      → second < base
      → IsByte byte
      → m.memory address ≡ byte
      → (m' : Machine) × Reaches p
          (m, loop_body after)
          (m', Call.b_if Condition.ne (codes "adler32_loop") ∷ after)
        × IsAt m'
            (address + 1)
            (left - 1)
            ((first + byte) % base)
            ((second + (first + byte) % base) % base)
        × (m'.is_zero ≡ (left == 1))
        × Keeps m m'
  round m address left first second byte at fits some_left small1 small2 small here =
      let first' : ℕ = (first + byte) % base in
      let second' : ℕ = (second + first') % base in
      let (m1, reached1, at1, kept1) =
        first_steps m address left first second at fits small1 small2 byte small here in
      let (m2, reached2, at2, kept2) =
        second_steps m1 address left first' second at1 fits (omega arith) small2 in
      let (m3, reached3, at3, zero3, kept3) =
        advance_steps m2 address left first' second' at2 fits (omega arith) (omega arith)
          some_left in
      (
        m3,
        Reaches-trans p _ _ _ reached1 (Reaches-trans p _ _ _ reached2 reached3),
        at3,
        zero3,
        Keeps-trans m m1 m3 kept1 (Keeps-trans m1 m2 m3 kept2 kept3),
      )

  module _ (loop_label : target (codes "adler32_loop") p ≡ loop_body after) where
    -- The loop ends with the two sums of `adler_loop`.
    pub loop_lem :
        (byte : ℕ) (bytes : List ℕ) (m : Machine) (address first second : ℕ)
        → IsAt m address (length (byte ∷ bytes)) first second
        → address + length (byte ∷ bytes) < 2 ^ 32
        → first < base
        → second < base
        → IsBytes (byte ∷ bytes)
        → HasBytes m.memory address (byte ∷ bytes)
        → (m' : Machine) × Reaches p (m, loop_body after) (m', after)
          × (m'.registers s1 ≡ (adler_loop (byte ∷ bytes) first second).0)
          × (m'.registers s2 ≡ (adler_loop (byte ∷ bytes) first second).1)
          × Keeps m m'
    loop_lem byte [] m address first second at fits small1 small2 (small, rest_small)
          (here, later) =
        let (m', reached, at', zero', kept) =
          round m address _ first second byte at fits (omega arith) small1 small2 small here in
        (
          m',
          Reaches-trans p _ _ _ reached
              (Reaches-not_taken p m' Condition.ne _ after (ap not zero')),
          rw (adler_loop_step byte [] first second small1 small2 small)
              (unfold adler_loop in at'.s1_at),
          rw (adler_loop_step byte [] first second small1 small2 small)
              (unfold adler_loop in at'.s2_at),
          kept,
        )
    loop_lem byte (next ∷ bytes) m address first second at fits small1 small2 (small, rest_small)
          (here, later) =
        let (m', reached, at', zero', kept) =
          round m address _ first second byte at fits (omega arith) small1 small2 small here in
        let first' : ℕ = (first + byte) % base in
        let second' : ℕ = (second + first') % base in
        let left' : suc (suc (length bytes)) - 1 ≡ suc (length bytes) = omega arith in
        let more : m'.is_zero ≡ false = ground (arith, zero') in
        let later' : HasBytes m'.memory (address + 1) (next ∷ bytes) =
          subst (λ (memory : ℕ → ℕ). HasBytes memory (address + 1) (next ∷ bytes))
            (sym kept.memory_kept) later in
        let (end, finished, end1, end2, kept') =
          loop_lem next bytes m' (address + 1) first' second' (rw left' at at') (omega arith)
            (omega arith) (omega arith) rest_small later' in
        (
          end,
          Reaches-trans p _ _ _ reached (
              Reaches-trans p _ _ _
                (Reaches-taken p m' Condition.ne _ after (loop_body after) (ap not more) loop_label)
                finished),
          rw (adler_loop_step byte (next ∷ bytes) first second small1 small2 small) end1,
          rw (adler_loop_step byte (next ∷ bytes) first second small1 small2 small) end2,
          Keeps-trans m m' end kept kept',
        )
