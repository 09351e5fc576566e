-- ===== src/ShrinklerPacker/Construct.antt =====
-- The constructor of `shrinkler_cartridge_assembler`: it succeeds whenever the program can be linked.
use shrinkler_gba.Assembler.{Call, Assembler}
use shrinkler_gba.Assembler.Laws.{IsAssembler}
use shrinkler_gba.Gba.{
  ofs_fixed_byte, fixed_byte_value, gba_header_size, ofs_game_version, ofs_complement, rom_start,
}
use shrinkler_gba.CartridgeAssembler.{Statement, call, set_depacker_size, nothing, Assembly}
use shrinkler_gba.CartridgeAssembler.Layout.{
  calls_of, executed, Passes-of_plan, lc-le_calls_of, lc-le_call,
}
use shrinkler_gba.CartridgeAssembler.Calls.{
  calls_of-append, executed-append, executed-calls, executed-depacker_size,
}
use shrinkler_gba.CartridgeAssembler.Finish.{IsPatched}
use shrinkler_gba.InputFile.{InputFile}
use shrinkler_gba.ShrinklerPacker.{header, decompression, packed_intro, statements}
use shrinkler_gba.CartridgeAssembler.{Assembled}
use shrinkler_gba.ShrinklerPacker.Debug.{debug_emit_panic_routine}
use shrinkler_gba.ShrinklerPacker.Layout.{
  header-plan, header_end, debug_emit_panic_routine-is_plain,
}
use shrinkler_gba.Base.{
  ◌∷◌, [], ◌++◌, Bool, List, true, ℕ, ◌≡◌, drop, refl, ok, ◌<◌, get_or, length, ◌+◌, ◌%◌, ap, arith,
  codes, u64, ◌∙◌, ◌≤◌, ◌^◌, ◌≢◌, ◌-◌, sym, get_or-set_ne,
}
use mathlib.Core.List.{append_assoc}
use shrinkler_gba.CartridgeAssembler.Linked.{linked_bytes, lc-le_length}
use shrinkler_gba.ShrinklerPacker.FixedBytes.{
  fixed_byte_call, fixed_byte_split, fixed_byte-plan, before_fixed_byte, before_game_version,
  game_version_call, game_version_split, game_version-plan, patched_offset, fixed_bytes,
  fixed_bytes_lem, patched_offset_bounds, header_end-ge,
}

-- What is promised of the bytes of the cartridge and of `m_depacker_size`.
pub record IsCartridge (code_in_header : Bool) (image compressed_program : List ℕ) (c : Assembled)
    : Type 0 where
  -- One byte of the linked image is changed, the console accepts the header, and the fixed byte stands.
  pub patched : IsPatched (patched_offset code_in_header) image c.bytes
  -- The compressed program stands behind the depacker, at a multiple of four.
  pub packed :
      (i : ℕ)
      → i < length compressed_program
      → get_or c.bytes (gba_header_size + c.depacker_size + i) 0 ≡ get_or compressed_program i 0
  pub aligned : (gba_header_size + c.depacker_size) % 4 ≡ 0
  -- With code in the header, the complement is the opcode of `mov r2, #imm`.
  pub opcode_kept : code_in_header ≡ true → get_or c.bytes ofs_complement 0 ≡ 0x22

module _ (a : Assembler) (w : IsAssembler a) (code_in_header debug_checks : Bool) (file : InputFile)
    (compressed_program : List ℕ) where
  abbrev pub all_statements : List Statement
  all_statements = statements code_in_header debug_checks file compressed_program

  abbrev rest : List Statement
  rest = decompression debug_checks file ++ packed_intro debug_checks compressed_program

  abbrev before_intro : List Statement
  before_intro = header code_in_header ++ decompression debug_checks file

  abbrev before_incbin : List Statement
  before_incbin =
      before_intro
      ++ (call (Call.align 2) ∷ set_depacker_size ∷ call (Call.label (codes "packed_intro")) ∷ [])

  -- Where the compressed program begins.
  abbrev lc_intro : ℕ
  lc_intro = a.current_lc (Call.align 2 ∷ calls_of before_intro [])

  header_first : all_statements ≡ header code_in_header ++ rest
  unfolding statements
  header_first = refl

  incbin_split :
      all_statements
      ≡ before_incbin
        ++ (call (Call.incbin compressed_program) ∷ debug_emit_panic_routine debug_checks)
  unfolding statements
  incbin_split = simp append_assoc

  lc-before_incbin : a.current_lc (calls_of before_incbin []) ≡ lc_intro
  lc-before_incbin =
      ap a.current_lc (calls_of-append before_intro _ [])
      ∙ omega (
        arith,
        w.lc_call (Call.label (codes "packed_intro")) (Call.align 2 ∷ calls_of before_intro []) 0
            refl,
      )

  lc_header : a.current_lc (calls_of (header code_in_header) []) ≡ header_end code_in_header
  lc_header =
      (Passes-of_plan a w (header code_in_header) 0 (header_end code_in_header) [] w.lc_start
        (header-plan code_in_header)).1

  lc_intro-ge : gba_header_size ≤ lc_intro
  lc_intro-ge = omega (
    arith,
    lc_header,
    header_end-ge code_in_header,
    lc-le_call a w (Call.align 2) (calls_of before_intro []),
    lc-le_calls_of a w (decompression debug_checks file) (calls_of (header code_in_header) []),
    ap a.current_lc (calls_of-append (header code_in_header) (decompression debug_checks file) []),
  )

  lc_intro_aligned : lc_intro % 4 ≡ 0
  lc_intro_aligned = omega (arith, w.lc_align 2 (calls_of before_intro []))

  intro_split : all_statements ≡ before_intro ++ packed_intro debug_checks compressed_program
  unfolding statements
  intro_split = simp append_assoc

  -- `m_depacker_size`
  stored_size :
      (executed a all_statements nothing).depacker_size ≡ u64 (lc_intro + 2 ^ 64 - gba_header_size)
  stored_size =
      let st : Assembly = executed a before_intro nothing in
      ap (λ (s : Assembly). s.depacker_size)
        (ap (λ (l : List Statement). executed a l nothing) intro_split
          ∙ executed-append a before_intro (packed_intro debug_checks compressed_program) nothing)
      ∙ executed-depacker_size a (debug_emit_panic_routine debug_checks) _
          (debug_emit_panic_routine-is_plain debug_checks)
      ∙ ap (λ (l : List Call). u64 (a.current_lc (Call.align 2 ∷ l) + 2 ^ 64 - gba_header_size))
          (executed-calls a before_intro nothing)

  module _ (image : List ℕ)
      (linked : a.link rom_start (calls_of all_statements []) ≡ ok image) where
    pub fixed_byte_stands : get_or image ofs_fixed_byte 0 ≡ fixed_byte_value
    fixed_byte_stands =
        let (enc, some_bytes, first) = fixed_bytes_lem code_in_header in
        let split =
          header_first
          ∙ ap (λ (l : List Statement). l ++ rest) (fixed_byte_split code_in_header)
          ∙ append_assoc (before_fixed_byte code_in_header) _ rest in
        let lc =
          (Passes-of_plan a w (before_fixed_byte code_in_header) 0 ofs_fixed_byte [] w.lc_start
            (fixed_byte-plan code_in_header)).1 in
        let there =
          linked_bytes a w rom_start all_statements image linked (before_fixed_byte code_in_header)
            (fixed_byte_call code_in_header) _ (fixed_bytes code_in_header) 0 split enc
            some_bytes in
        ap (λ (n : ℕ). get_or image n 0)
          (let e : ofs_fixed_byte
                ≡ a.current_lc (calls_of (before_fixed_byte code_in_header) []) + 0 =
              omega (arith, lc) in
            e)
        ∙ there
        ∙ first

    pub image_long : gba_header_size ≤ length image
    image_long = omega (
      arith,
      lc_header,
      header_end-ge code_in_header,
      lc-le_length a w rom_start all_statements image linked (header code_in_header) rest
          header_first,
    )

    -- The location counter before the program fits a `size_t`.
    lc_intro-lt : lc_intro < 2 ^ 64
    lc_intro-lt = omega (
      arith,
      lc-before_incbin,
      lc-le_length a w rom_start all_statements image linked before_incbin _ incbin_split,
      w.link_size rom_start (calls_of all_statements []) image linked,
    )

    size_behind_header :
        gba_header_size + (executed a all_statements nothing).depacker_size ≡ lc_intro
    size_behind_header = omega (arith, stored_size, lc_intro-ge, lc_intro-lt)

    program_in_image :
        (i : ℕ)
        → i < length compressed_program
        → get_or image (lc_intro + i) 0 ≡ get_or compressed_program i 0
    program_in_image i inside =
        ap (λ (n : ℕ). get_or image (n + i) 0) (sym lc-before_incbin)
        ∙ linked_bytes a w rom_start all_statements image linked before_incbin
            (Call.incbin compressed_program) _ compressed_program i incbin_split refl inside

    unchanged :
        (bytes : List ℕ) (i : ℕ)
        → IsPatched (patched_offset code_in_header) image bytes
        → patched_offset code_in_header ≢ i
        → get_or bytes i 0 ≡ get_or image i 0
    unchanged bytes i p ne =
        ap (λ (l : List ℕ). get_or l i 0) p.bytes_eq ∙ get_or-set_ne image _ i p.value 0 ne

    opcode_in_image : code_in_header ≡ true → get_or image ofs_complement 0 ≡ 0x22
    opcode_in_image e =
        let split =
          header_first
          ∙ ap (λ (b : Bool). header b ++ rest) e
          ∙ ap (λ (l : List Statement). l ++ rest) game_version_split
          ∙ append_assoc before_game_version (call game_version_call ∷ drop 46 (header true))
              rest in
        let lc =
          (Passes-of_plan a w before_game_version 0 ofs_game_version [] w.lc_start
            game_version-plan).1 in
        let there =
          linked_bytes a w rom_start all_statements image linked before_game_version
            game_version_call (drop 46 (header true) ++ rest) (0x77 ∷ 0x22 ∷ []) 1 split refl
            (omega arith) in
        ap (λ (n : ℕ). get_or image (n + 1) 0) (sym lc) ∙ there

    pub IsCartridge-of_bytes :
        (bytes : List ℕ)
        → IsPatched (patched_offset code_in_header) image bytes
        → IsCartridge code_in_header image compressed_program (record {
          bytes = bytes;
          depacker_size = (executed a all_statements nothing).depacker_size;
        })
    IsCartridge-of_bytes bytes p = record {
      patched = p;
      packed = λ i inside.
          ap (λ (n : ℕ). get_or bytes (n + i) 0) size_behind_header
          ∙ unchanged bytes (lc_intro + i) p
              (omega (arith, lc_intro-ge, patched_offset_bounds code_in_header))
          ∙ program_in_image i inside;
      aligned = omega (arith, size_behind_header, lc_intro_aligned);
      opcode_kept = λ e.
          unchanged bytes ofs_complement p (
            let off : patched_offset code_in_header ≡ ofs_game_version = ap patched_offset e in
            omega arith)
          ∙ opcode_in_image e;
    }
