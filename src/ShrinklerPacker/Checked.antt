-- ===== src/ShrinklerPacker/Checked.antt =====
-- src/shrinkler_gba/shrinkler_packer.cpp: what the debug checks do when they run, one after another.
use shrinkler_gba.Assembler.{Register, Condition, Call}
use shrinkler_gba.Thumb.{
  Code, Machine, step, run_steps, Reaches, target, emitted, test, put, difference, result,
}
use shrinkler_gba.Thumb.Laws.{Reaches-trans, Reaches-b_if}
use shrinkler_gba.ShrinklerPacker.Debug.{
  decompressed_data, s1, s2, loop_counter, base_register, debug_check_decompressed_data,
  debug_check_decompressed_data_size, debug_check_sp_on_exit, debug_call_panic_routine, initial_sp,
  newline, expected_checksum,
}
use shrinkler_gba.ShrinklerPacker.Checksum.{loop_lem, HasBytes, IsAt, Keeps}
use shrinkler_gba.InputFile.{InputFile}
use shrinkler_gba.Utility.{base, adler32}
use shrinkler_gba.Base.{
  ℕ, Bool, Text, List, codes, if◌then◌else◌, true, ◌++◌, ◌≡◌, ◌∷◌, ◌==◌, ◌+◌, length, ◌<◌, refl,
  ◌^◌, arith, IsBytes, sym, u32, ◌<<<◌, bit_or, ap, bit_or_comm, ◌∙◌,
}
use shrinkler_gba.ShrinklerPacker.Getbit.{outp, tmp1}
use mathlib.Core.Path.{ap₂}

abbrev pub size_label : Text
size_label = codes "decompressed_data_size_ok"

abbrev pub size_message : Text
size_message = codes "Wrong decompressed data size"

abbrev pub sum_label : Text
sum_label = codes "checksum_ok"

abbrev pub sum_message : Text
sum_message = codes "Wrong decompressed data checksum"

abbrev pub sp_label : Text
sp_label = codes "sp_ok"

abbrev pub sp_message : Text
sp_message = codes "Wrong sp after depacking"

abbrev pub panic : Text → Code
panic message = emitted (debug_call_panic_routine true (message ++ newline))

-- The code of each check, with the code that follows it.
abbrev pub check_sp : Code → Code
check_sp rest = emitted (debug_check_sp_on_exit true) ++ rest

abbrev pub check_data : InputFile → Code → Code
check_data file rest = emitted (debug_check_decompressed_data true file) ++ rest

abbrev pub check_size : InputFile → Code → Code
check_size file rest = emitted (debug_check_decompressed_data_size true file) ++ rest

-- A passed check goes on behind its label, a failed one at its call of the panic routine.
abbrev pub verdict : Bool → Text → Text → Code → Code
verdict passed label message rest =
    if passed then rest else panic message ++ (Call.label label ∷ rest)

module _ (p rest : Code) (m : Machine) where
  pub check_sp_lem :
      target sp_label p ≡ rest
      → (m' : Machine) × Reaches p
          (m, check_sp rest)
          (m', verdict (initial_sp == m.registers Register.sp) sp_label sp_message rest)
        × Keeps m m'
  unfolding run_steps step
  check_sp_lem at_label =
      let m' = test initial_sp (m.registers Register.sp) (put Register.r0 initial_sp m) in
      (
        m',
        Reaches-trans p _ _ _ (record { steps = 2; reached = refl })
            (Reaches-b_if p m' Condition.eq sp_label _ rest _ at_label refl),
        record { memory_kept = refl; stack_kept = refl },
      )

  pub check_size_lem :
      (file : InputFile)
      → target size_label p ≡ rest
      → file.load_address + length file.bytes < 2 ^ 32
      → m.registers outp < 2 ^ 32
      → (m' : Machine) × Reaches p
          (m, check_size file rest)
          (
            m',
            verdict
                (m.registers outp == file.load_address + length file.bytes)
                size_label
                size_message
                rest,
          )
        × Keeps m m'
  unfolding run_steps step
  check_size_lem file at_label fits word =
      let m1 = put tmp1 file.load_address m in
      let m2 = difference outp (m1.registers outp) file.load_address m1 in
      let m3 = put tmp1 (length file.bytes) m2 in
      let m' = test (m3.registers outp) (length file.bytes) m3 in
      let same_test : m'.is_zero ≡ (m.registers outp == file.load_address + length file.bytes) =
        ground arith in
      (
        m',
        Reaches-trans p _ _ _ (record { steps = 4; reached = refl })
            (Reaches-b_if p m' Condition.eq size_label _ rest _ at_label same_test),
        record { memory_kept = refl; stack_kept = refl },
      )

  pub check_data_lem :
      (file : InputFile) (byte : ℕ) (found : List ℕ)
      → target (codes "adler32_loop") p ≡ target (codes "adler32_loop") (check_data file rest)
      → target (codes "s1_ok") p ≡ target (codes "s1_ok") (check_data file rest)
      → target (codes "s2_ok") p ≡ target (codes "s2_ok") (check_data file rest)
      → target sum_label p ≡ rest
      → file.load_address + length file.bytes < 2 ^ 32
      → length (byte ∷ found) ≡ length file.bytes
      → IsBytes (byte ∷ found)
      → HasBytes m.memory file.load_address (byte ∷ found)
      → (m' : Machine) × Reaches p
          (m, check_data file rest)
          (m', verdict (adler32 (byte ∷ found) == adler32 file.bytes) sum_label sum_message rest)
        × Keeps m m'
  unfolding run_steps step adler32
  check_data_lem file byte found loop_label s1_label s2_label ok_label fits sized small has =
      let m1 = put loop_counter (length file.bytes) (
        result s2 0
          (result s1 1 (put decompressed_data file.load_address (put base_register base m)))) in
      let at : IsAt m1 file.load_address (length (byte ∷ found)) 1 0 = record {
        data_at = refl;
        left_at = sym sized;
        s1_at = refl;
        s2_at = refl;
        base_at = refl;
      } in
      let (m2, reached, end1, end2, kept) =
        loop_lem p _ s1_label s2_label loop_label byte found m1 file.load_address 1 0 at
          (omega arith) (omega arith) (omega arith) small has in
      let m3 = result s2 (u32 (m2.registers s2 <<< 16)) m2 in
      let m4 = result s1 (bit_or (m3.registers s1) (m3.registers s2)) m3 in
      let m5 = put expected_checksum (adler32 file.bytes) m4 in
      let m' = test (m5.registers s1) (adler32 file.bytes) m5 in
      let same_test : m'.is_zero ≡ (adler32 (byte ∷ found) == adler32 file.bytes) =
        ap (λ (n : ℕ). n == adler32 file.bytes)
          (bit_or_comm (m2.registers s1) (u32 (m2.registers s2 <<< 16))
            ∙ ap₂ (λ (a b : ℕ). bit_or (u32 (b <<< 16)) a) end1 end2) in
      (
        m',
        Reaches-trans p _ _ _ (record { steps = 6; reached = refl })
            (Reaches-trans p _ _ _ reached (
              Reaches-trans p _ _ _ (record { steps = 4; reached = refl })
                (Reaches-b_if p m' Condition.eq sum_label _ rest _ ok_label same_test))),
        record { memory_kept = kept.memory_kept; stack_kept = kept.stack_kept },
      )
