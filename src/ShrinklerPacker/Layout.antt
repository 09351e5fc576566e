-- ===== src/ShrinklerPacker/Layout.antt =====
-- Where the depacker's code ends up: every check of `assemble` passes.
use shrinkler_gba.Assembler.{Assembler}
use shrinkler_gba.Assembler.Laws.{IsAssembler}
use shrinkler_gba.CartridgeAssembler.Layout.{
  plan, is_plain, fits, Passes, Passes-append, Passes-of_is_plain, Passes-of_plan, calls_of,
}
use shrinkler_gba.InputFile.{InputFile}
use shrinkler_gba.ShrinklerPacker.{header, decompression, statements}
use shrinkler_gba.ShrinklerPacker.Debug.{debug_emit_panic_routine}
use shrinkler_gba.Base.{
  [], Bool, ℕ, ◌≡◌, some, true, false, refl, List, ◌<◌, ltb-of_lt, ◌^◌, length,
}

-- The header and the code up to the entry point fit together, and end at a fixed offset.
abbrev pub header_end : Bool → ℕ
header_end true = 0xf4
header_end false = 0x110

pub header-plan :
    (code_in_header : Bool) → plan (header code_in_header) 0 ≡ some (header_end code_in_header)
header-plan true = refl
header-plan false = refl

decompression-is_plain :
    (debug_checks : Bool) (file : InputFile) → is_plain (decompression debug_checks file) ≡ true
decompression-is_plain true file = refl
decompression-is_plain false file = refl

pub debug_emit_panic_routine-is_plain :
    (debug_checks : Bool) → is_plain (debug_emit_panic_routine debug_checks) ≡ true
debug_emit_panic_routine-is_plain true = refl
debug_emit_panic_routine-is_plain false = refl

-- The addresses, and with debug checks the size, fit an `int32_t`.
abbrev pub FitsInt32 : Bool → InputFile → Type 0
FitsInt32 debug_checks file =
    (file.load_address < 2 ^ 31)
    × (file.entry < 2 ^ 31)
    × (debug_checks ≡ true → length file.bytes < 2 ^ 31)

pub statements-fits :
    (code_in_header debug_checks : Bool) (file : InputFile) (compressed_program : List ℕ)
    → FitsInt32 debug_checks file
    → fits (statements code_in_header debug_checks file compressed_program) ≡ true
unfolding statements
statements-fits true true file compressed_program (load, entry, size) =
    rw (ltb-of_lt _ _ load) (rw (ltb-of_lt _ _ entry) (rw (ltb-of_lt _ _ (size refl)) refl))
statements-fits true false file compressed_program (load, entry, size) =
    rw (ltb-of_lt _ _ load) (rw (ltb-of_lt _ _ entry) refl)
statements-fits false true file compressed_program (load, entry, size) =
    rw (ltb-of_lt _ _ load) (rw (ltb-of_lt _ _ entry) (rw (ltb-of_lt _ _ (size refl)) refl))
statements-fits false false file compressed_program (load, entry, size) =
    rw (ltb-of_lt _ _ load) (rw (ltb-of_lt _ _ entry) refl)

module _ (a : Assembler) (w : IsAssembler a) where
  -- Every check of `assemble` passes.
  pub statements-Passes :
      (code_in_header debug_checks : Bool) (file : InputFile) (compressed_program : List ℕ)
      → Passes a (statements code_in_header debug_checks file compressed_program) []
  unfolding statements
  statements-Passes code_in_header debug_checks file compressed_program =
      Passes-append a (header code_in_header) _ []
        (Passes-of_plan a w (header code_in_header) 0 (header_end code_in_header) [] w.lc_start
          (header-plan code_in_header)).0
        (Passes-append a (decompression debug_checks file) _ (calls_of (header code_in_header) [])
          (Passes-of_is_plain a (decompression debug_checks file) _
            (decompression-is_plain debug_checks file))
          (Passes-of_is_plain a (debug_emit_panic_routine debug_checks) _
            (debug_emit_panic_routine-is_plain debug_checks)))
