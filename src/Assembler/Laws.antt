-- ===== src/Assembler/Laws.antt =====
-- What the code relies on of lzasm: the sizes of what the calls emit, and where it ends up.
use shrinkler_gba.Assembler.{Register, Call, Assembler, List}
use shrinkler_gba.Base.{
  ℕ, Option, [], ◌^◌, some, ◌-◌, ◌≡◌, none, ◌%◌, ◌∷◌, length, ◌+◌, ◌≤◌, ok, IsByte, get_or, ◌++◌,
  ◌<◌, Bool, true, false,
}

-- The number of bytes that a call emits, where it does not depend on the calls before.
abbrev pub size_of : Call → Option ℕ
size_of (Call.label l) = some 0
size_of (Call.align n) = none
size_of (Call.byte bytes) = some (length bytes)
size_of (Call.hword n) = some 2
size_of (Call.asciz t) = some (length t + 1)
size_of (Call.incbin bytes) = some (length bytes)
size_of Call.pool = none
size_of (Call.arm_branch l) = some 4
size_of (Call.arm_to_thumb r) = some 8
size_of (Call.bl l) = some 4
size_of _ = some 2

abbrev pub register_number : Register → ℕ
register_number Register.r0 = 0
register_number Register.r1 = 1
register_number Register.r2 = 2
register_number Register.r3 = 3
register_number Register.r4 = 4
register_number Register.r5 = 5
register_number Register.r6 = 6
register_number Register.r7 = 7
register_number Register.r8 = 8
register_number Register.r9 = 9
register_number Register.sp = 13
register_number Register.lr = 14
register_number Register.pc = 15

-- The bytes that a call emits, for the calls whose bytes the code relies on: data, and the Thumb
-- instruction `mov rd, #imm`, whose low byte is the immediate value.
abbrev pub encoding : Call → Option (List ℕ)
encoding (Call.byte bytes) = some bytes
encoding (Call.incbin bytes) = some bytes
encoding (Call.mov_imm r n) = some (n ∷ (0x20 + register_number r) ∷ [])
encoding _ = none

-- The number of bytes up to the next multiple of `2 ^ n`.
abbrev pub padding : ℕ → ℕ → ℕ
padding n lc = (2 ^ n - lc % 2 ^ n) % 2 ^ n

-- A literal has been loaded since the last pool.
abbrev pub has_literal : List Call → Bool
has_literal [] = false
has_literal (Call.pool ∷ calls) = false
has_literal (Call.ldr_literal r n ∷ calls) = true
has_literal (c ∷ calls) = has_literal calls

pub record IsAssembler (a : Assembler) : Type 0 where
  pub lc_start : a.current_lc [] ≡ 0
  pub lc_call :
      (call : Call) (calls : List Call) (n : ℕ)
      → size_of call ≡ some n
      → a.current_lc (call ∷ calls) ≡ a.current_lc calls + n
  pub lc_align :
      (n : ℕ) (calls : List Call)
      → a.current_lc (Call.align n ∷ calls) ≡ a.current_lc calls + padding n (a.current_lc calls)
  -- A literal pool is made of words, of which there is one at least if a literal has been loaded.
  pub lc_pool_literal :
      (calls : List Call)
      → has_literal calls ≡ true
      → a.current_lc calls + 4 ≤ a.current_lc (Call.pool ∷ calls)
  pub lc_pool : (calls : List Call) → a.current_lc calls ≤ a.current_lc (Call.pool ∷ calls)
  pub lc_pool_aligned :
      (calls : List Call) → a.current_lc calls % 4 ≡ 0 → a.current_lc (Call.pool ∷ calls) % 4 ≡ 0
  pub link_length :
      (base : ℕ) (calls : List Call) (image : List ℕ)
      → a.link base calls ≡ ok image
      → length image ≡ a.current_lc calls
  -- The number of bytes is a `size_t`.
  pub link_size :
      (base : ℕ) (calls : List Call) (image : List ℕ)
      → a.link base calls ≡ ok image
      → length image < 2 ^ 64
  pub link_bytes :
      (base : ℕ) (calls : List Call) (image : List ℕ) (i : ℕ)
      → a.link base calls ≡ ok image
      → IsByte (get_or image i 0)
  pub link_encoding :
      (base : ℕ) (later : List Call) (call : Call) (earlier : List Call) (image bytes : List ℕ)
      (i : ℕ)
      → a.link base (later ++ call ∷ earlier) ≡ ok image
      → encoding call ≡ some bytes
      → i < length bytes
      → get_or image (a.current_lc earlier + i) 0 ≡ get_or bytes i 0
