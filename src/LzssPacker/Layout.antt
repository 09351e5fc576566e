-- ===== src/LzssPacker/Layout.antt =====
-- Where the code of the LZSS depacker ends up: every check of `assemble` passes.
use shrinkler_gba.Assembler.Laws.{IsAssembler, has_literal}
use shrinkler_gba.CartridgeAssembler.Layout.{
  plan, fits, Passes, Passes-append, Passes-of_plan, calls_of,
}
use shrinkler_gba.LzssPacker.{code, statements, Assembler, Bool, InputFile, ℕ, ◌%◌, Call}
use shrinkler_gba.Base.{
  ◌<◌, ◌≤◌, List, [], arith, true, ◌^◌, ◌≡◌, false, ltb-of_lt, some, refl, ◌∷◌, ap, ◌∙◌,
}
use shrinkler_gba.Gba.{gba_header_size}

-- Where the literal pool begins.
abbrev pub code_end : Bool → ℕ
code_end true = 0xbc
code_end false = 0xd8

pub code-plan :
    (code_in_header : Bool) (buffer : ℕ) (file : InputFile)
    → plan (code code_in_header buffer file) 0 ≡ some (code_end code_in_header)
code-plan true buffer file = refl
code-plan false buffer file = refl

pub code-has_literal :
    (code_in_header : Bool) (buffer : ℕ) (file : InputFile)
    → has_literal (calls_of (code code_in_header buffer file) []) ≡ true
code-has_literal true buffer file = refl
code-has_literal false buffer file = refl

code_end-ge : (code_in_header : Bool) → 0xbc ≤ code_end code_in_header
code_end-ge true = omega arith
code_end-ge false = omega arith

code_end_aligned : (code_in_header : Bool) → code_end code_in_header % 4 ≡ 0
code_end_aligned true = refl
code_end_aligned false = refl

-- The addresses fit an `int32_t`.
abbrev pub FitsInt32 : InputFile → Type 0
FitsInt32 file = (file.load_address < 2 ^ 31) × (file.entry < 2 ^ 31)

pub statements-fits :
    (code_in_header : Bool) (buffer : ℕ) (file : InputFile) (compressed_binary : List ℕ)
    → FitsInt32 file
    → fits (statements code_in_header buffer file compressed_binary) ≡ true
unfolding statements
statements-fits true buffer file compressed_binary (load, entry) =
    rw (ltb-of_lt _ _ load) (rw (ltb-of_lt _ _ entry) refl)
statements-fits false buffer file compressed_binary (load, entry) =
    rw (ltb-of_lt _ _ load) (rw (ltb-of_lt _ _ entry) refl)

module _ (a : Assembler) (w : IsAssembler a) (code_in_header : Bool) (buffer : ℕ) (file : InputFile)
    (compressed_binary : List ℕ) where
  abbrev before_pool : List Call
  before_pool = calls_of (code code_in_header buffer file) []

  code-Passes :
      Passes a (code code_in_header buffer file) []
      × (a.current_lc before_pool ≡ code_end code_in_header)
  code-Passes =
      Passes-of_plan a w (code code_in_header buffer file) 0 (code_end code_in_header) [] w.lc_start
        (code-plan code_in_header buffer file)

  pub pool_aligned : a.current_lc (Call.pool ∷ before_pool) % 4 ≡ 0
  pool_aligned =
      w.lc_pool_aligned before_pool
        (ap (λ (n : ℕ). n % 4) code-Passes.1 ∙ code_end_aligned code_in_header)

  -- The pool reaches behind the header.
  pub pool-ge : gba_header_size ≤ a.current_lc (Call.pool ∷ before_pool)
  pool-ge = omega (
    arith,
    code-Passes.1,
    code_end-ge code_in_header,
    w.lc_pool_literal before_pool (code-has_literal code_in_header buffer file),
  )

  pub statements-Passes : Passes a (statements code_in_header buffer file compressed_binary) []
  unfolding statements
  statements-Passes =
      Passes-append a (code code_in_header buffer file) _ [] code-Passes.0 (pool_aligned, tt)
