-- ===== src/ShrinklerPacker/DebugChecks.antt =====
-- src/shrinkler_gba/shrinkler_packer.cpp: the debug checks as a whole, within the program that
-- `assemble` emits.
use shrinkler_gba.Assembler.{Register, Call}
use shrinkler_gba.Thumb.{Code, target, emitted, Machine, Reaches}
use shrinkler_gba.ShrinklerPacker.{statements, packed_intro}
use shrinkler_gba.ShrinklerPacker.Main.{leave, getnumber}
use shrinkler_gba.ShrinklerPacker.Getbit.{outp, saved_sp}
use shrinkler_gba.ShrinklerPacker.Checked.{
  size_label, size_message, sum_label, sum_message, sp_label, sp_message, verdict, check_sp,
  check_data, check_size, check_sp_lem, check_data_lem, check_size_lem,
}
use shrinkler_gba.InputFile.{InputFile}
use shrinkler_gba.Base.{
  ℕ, Bool, List, codes, true, ◌++◌, ◌∷◌, ◌≡◌, false, refl, Text, ◌==◌, ◌+◌, length, if◌then◌else◌,
  ◌<◌, ◌^◌, IsBytes, ◌∙◌, sym, IsByte, ◌≤◌, ◌≢◌, get_or, arith, set, length-set, [],
}
use shrinkler_gba.ShrinklerPacker.Debug.{initial_sp}
use shrinkler_gba.Utility.{adler32}
use shrinkler_gba.ShrinklerPacker.Checksum.{Keeps, Keeps-trans, HasBytes}
use shrinkler_gba.Thumb.Laws.{Reaches-trans}
use mathlib.Core.Path.{subst}
use shrinkler_gba.Utility.Adler.{adler32-set_ne, IsBytes-set}

abbrev pub checks : InputFile → Code → Code
checks file rest = check_size file (check_data file (check_sp rest))

-- Where the checks end: behind the last one, or at the panic of the first that fails.
abbrev pub outcome : InputFile → Code → Bool → Bool → Bool → Code
outcome file rest size_ok sum_ok sp_ok =
    if size_ok
    then (if sum_ok
        then verdict sp_ok sp_label sp_message rest
        else verdict false sum_label sum_message (check_sp rest))
    else verdict false size_label size_message (check_data file (check_sp rest))

-- The program, and what follows the checks in it.
abbrev pub program : Bool → InputFile → List ℕ → Code
program code_in_header file compressed = emitted (statements code_in_header true file compressed)

abbrev pub after_checks : InputFile → List ℕ → Code
after_checks file compressed =
    emitted (leave file) ++ (emitted getnumber ++ emitted (packed_intro true compressed))

-- The checks follow the decompression.
done_lem :
    (code_in_header : Bool) (file : InputFile) (compressed : List ℕ)
    → target (codes "donedecompressing") (program code_in_header file compressed)
      ≡ Call.mov Register.sp saved_sp ∷ checks file (after_checks file compressed)
unfolding statements
done_lem true file compressed = refl
done_lem false file compressed = refl

-- The labels of the checks stand nowhere else in the program.
abbrev Finds : Code → Code → Type 0
Finds p own =
    (target size_label p ≡ target size_label own)
    × (target (codes "adler32_loop") p ≡ target (codes "adler32_loop") own)
    × (target (codes "s1_ok") p ≡ target (codes "s1_ok") own)
    × (target (codes "s2_ok") p ≡ target (codes "s2_ok") own)
    × (target sum_label p ≡ target sum_label own)
    × (target sp_label p ≡ target sp_label own)

program-Finds :
    (code_in_header : Bool) (file : InputFile) (compressed : List ℕ)
    → Finds (program code_in_header file compressed) (checks file (after_checks file compressed))
unfolding statements
program-Finds true file compressed = (refl, refl, refl, refl, refl, refl)
program-Finds false file compressed = (refl, refl, refl, refl, refl, refl)

-- Code is run to its end, and leaves the memory and the stack pointer alone.
abbrev pub EndsAt : Code → Machine → Code → Code → Type 0
EndsAt p m start end = (m' : Machine) × Reaches p (m, start) (m', end) × Keeps m m'

-- A check, and what follows it if it is passed.
after_check :
    (p start next end : Code) (m : Machine) (passed : Bool) (l message : Text)
    → EndsAt p m start (verdict passed l message next)
    → ((m' : Machine) → Keeps m m' → EndsAt p m' next end)
    → EndsAt p m start (if passed then end else verdict false l message next)
after_check p start next end m false l message ends more = ends
after_check p start next end m true l message (m1, reached, kept) more =
    let (m2, reached', kept') = more m1 kept in
    (m2, Reaches-trans p _ _ _ reached reached', Keeps-trans m m1 m2 kept kept')

module _ (p rest : Code) (file : InputFile) (byte : ℕ) (found : List ℕ)
    (finds : Finds p (checks file rest)) (fits : file.load_address + length file.bytes < 2 ^ 32)
    (sized : length (byte ∷ found) ≡ length file.bytes) (small : IsBytes (byte ∷ found)) where
  abbrev sum_ok : Bool
  sum_ok = adler32 (byte ∷ found) == adler32 file.bytes

  sp_part :
      (m : Machine) (stack : ℕ)
      → m.registers Register.sp ≡ stack
      → EndsAt p m (check_sp rest) (verdict (initial_sp == stack) sp_label sp_message rest)
  sp_part m stack h = rw h at (check_sp_lem p rest m finds.5)

  sum_part :
      (m : Machine) (stack : ℕ)
      → m.registers Register.sp ≡ stack
      → HasBytes m.memory file.load_address (byte ∷ found)
      → EndsAt p m (check_data file (check_sp rest)) (
          if sum_ok
          then verdict (initial_sp == stack) sp_label sp_message rest
          else verdict false sum_label sum_message (check_sp rest))
  sum_part m stack h has =
      after_check p _ (check_sp rest) _ m sum_ok sum_label sum_message
        (check_data_lem p (check_sp rest) m file byte found finds.1 finds.2 finds.3 finds.4 fits
          sized small has)
        (λ m' kept. sp_part m' stack (kept.stack_kept ∙ h))

  checks_lem :
      (m : Machine)
      → m.registers outp < 2 ^ 32
      → HasBytes m.memory file.load_address (byte ∷ found)
      → EndsAt p m (checks file rest) (
          outcome file rest
            (m.registers outp == file.load_address + length file.bytes)
            sum_ok
            (initial_sp == m.registers Register.sp))
  checks_lem m word has =
      after_check p _ (check_data file (check_sp rest)) _ m _ size_label size_message
        (check_size_lem p (check_data file (check_sp rest)) m file finds.0 fits word)
        (λ m' kept. sum_part m' _ kept.stack_kept (
          subst (λ (memory : ℕ → ℕ). HasBytes memory file.load_address (byte ∷ found))
            (sym kept.memory_kept) has))

module _ (code_in_header : Bool) (file : InputFile) (compressed : List ℕ) (m : Machine)
    (fits : file.load_address + length file.bytes < 2 ^ 32) (word : m.registers outp < 2 ^ 32) where
  -- In the program that is emitted with debug checks, the checks follow the restoring of `sp` when
  -- decompression is done. Let the data end below 2 ^ 32 and the output pointer be a word, and let
  -- there be as many bytes in memory from the load address on as in the program that was packed, one
  -- at least. Then the checks end behind the last of them if the output pointer is at the end of the
  -- data, the bytes in memory have the checksum of the program that was packed and `sp` has its initial
  -- value; otherwise at the panic with the message for the first of these that is not so. Memory and
  -- `sp` are unchanged.
  pub debug_checks_lem :
      (found : List ℕ)
      → 1 ≤ length found
      → length found ≡ length file.bytes
      → IsBytes found
      → HasBytes m.memory file.load_address found
      → (target (codes "donedecompressing") (program code_in_header file compressed)
          ≡ Call.mov Register.sp saved_sp ∷ checks file (after_checks file compressed))
        × EndsAt
            (program code_in_header file compressed)
            m
            (checks file (after_checks file compressed))
            (outcome file
              (after_checks file compressed)
              (m.registers outp == file.load_address + length file.bytes)
              (adler32 found == adler32 file.bytes)
              (initial_sp == m.registers Register.sp))
  debug_checks_lem [] some_found sized small has = absurd (omega arith)
  debug_checks_lem (byte ∷ found) some_found sized small has = (
    done_lem code_in_header file compressed,
    checks_lem (program code_in_header file compressed) (after_checks file compressed) file byte
        found (program-Finds code_in_header file compressed) fits sized small m word has,
  )

  -- Let the data end below 2 ^ 32 and the output pointer be at their end. If the memory has the program
  -- that was packed, but for one byte that is another, the checks end at the panic about the checksum,
  -- with memory and `sp` unchanged.
  pub debug_checks-wrong_byte :
      (i b : ℕ)
      → IsBytes file.bytes
      → IsByte b
      → i < length file.bytes
      → b ≢ get_or file.bytes i 0
      → HasBytes m.memory file.load_address (set file.bytes i b)
      → m.registers outp ≡ file.load_address + length file.bytes
      → EndsAt
          (program code_in_header file compressed)
          m
          (checks file (after_checks file compressed))
          (verdict false sum_label sum_message (check_sp (after_checks file compressed)))
  debug_checks-wrong_byte i b small wrong_small inside wrong has at_end =
      let sized : length (set file.bytes i b) ≡ length file.bytes = length-set file.bytes i b in
      let size_ok : (m.registers outp == file.load_address + length file.bytes) ≡ true =
        ground arith in
      let sum_wrong : (adler32 (set file.bytes i b) == adler32 file.bytes) ≡ false =
        ground (arith, adler32-set_ne file.bytes i b small wrong_small inside wrong) in
      rw (size_ok, sum_wrong) at
        (debug_checks_lem (set file.bytes i b) (omega arith) sized
          (IsBytes-set file.bytes i b small wrong_small) has).1
