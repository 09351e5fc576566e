-- ===== src/LzssPacker/Construct.antt =====
-- The constructor of `lzss_cartridge_assembler`: what the linked program holds, and what becomes of it.
use shrinkler_gba.Assembler.{Assembler, Call}
use shrinkler_gba.Assembler.Laws.{IsAssembler}
use shrinkler_gba.CartridgeAssembler.{
  Statement, call, nothing, Assembled, throw_if_not_aligned, set_depacker_size, Assembly,
}
use shrinkler_gba.CartridgeAssembler.Finish.{IsPatched}
use shrinkler_gba.CartridgeAssembler.Layout.{executed, calls_of}
use shrinkler_gba.LzssPacker.{
  code, packed_intro, statements, Bool, ℕ, InputFile, List, fixed_byte_value, ofs_fixed_byte,
}
use shrinkler_gba.LzssPacker.Layout.{pool-ge, pool_aligned}
use shrinkler_gba.Base.{
  ◌≡◌, ◌≤◌, u64, ◌++◌, ◌<◌, ◌∷◌, [], length, refl, ◌+◌, ap, arith, get_or, ◌^◌, codes, ◌-◌, ◌%◌,
  ◌∙◌, ok, get_or-set_ne, sym,
}
use mathlib.Core.List.{append_assoc}
use shrinkler_gba.CartridgeAssembler.Calls.{calls_of-append, executed-append, executed-calls}
use shrinkler_gba.Gba.{gba_header_size, rom_start}
use shrinkler_gba.LzssPacker.FixedByte.{
  patched_offset, patched_offset_bounds, fixed_bytes, fixed_bytes_lem, fixed_byte_call,
  fixed_byte_split, fixed_byte-plan, before_fixed_byte, behind_fixed_byte,
}
use shrinkler_gba.CartridgeAssembler.Layout.{Passes-of_plan}
use shrinkler_gba.CartridgeAssembler.Linked.{linked_bytes, lc-le_length}

-- What is promised of `m_data` and `m_depacker_size`.
pub record IsCartridge (offset : ℕ) (image compressed_binary : List ℕ) (c : Assembled)
    : Type 0 where
  -- One byte of the linked image is changed, the console accepts the header, and the fixed byte stands.
  pub patched : IsPatched offset image c.bytes
  -- The compressed program stands behind the depacker, at a multiple of four.
  pub packed :
      (i : ℕ)
      → i < length compressed_binary
      → get_or c.bytes (gba_header_size + c.depacker_size + i) 0 ≡ get_or compressed_binary i 0
  pub aligned : (gba_header_size + c.depacker_size) % 4 ≡ 0

module _ (a : Assembler) (w : IsAssembler a) (code_in_header : Bool) (buffer : ℕ) (file : InputFile)
    (compressed_binary : List ℕ) where
  abbrev pub emitted : List Statement
  emitted = statements code_in_header buffer file compressed_binary

  abbrev before_intro : List Statement
  before_intro = code code_in_header buffer file ++ call Call.pool ∷ []

  abbrev before_incbin : List Statement
  before_incbin =
      before_intro
      ++ (throw_if_not_aligned 2
          ∷ set_depacker_size
          ∷ call (Call.label (codes "packed_intro"))
          ∷ [])

  -- Where the compressed program begins.
  abbrev lc_intro : ℕ
  lc_intro = a.current_lc (Call.pool ∷ calls_of (code code_in_header buffer file) [])

  intro_split : emitted ≡ before_intro ++ packed_intro compressed_binary
  unfolding statements
  intro_split = simp append_assoc

  incbin_split : emitted ≡ before_incbin ++ (call (Call.incbin compressed_binary) ∷ [])
  unfolding statements
  incbin_split = simp append_assoc

  lc-before_intro : a.current_lc (calls_of before_intro []) ≡ lc_intro
  lc-before_intro =
      ap a.current_lc (calls_of-append (code code_in_header buffer file) (call Call.pool ∷ []) [])

  lc-before_incbin : a.current_lc (calls_of before_incbin []) ≡ lc_intro
  lc-before_incbin =
      ap a.current_lc (calls_of-append before_intro _ [])
      ∙ omega (
        arith,
        lc-before_intro,
        w.lc_call (Call.label (codes "packed_intro")) (calls_of before_intro []) 0 refl,
      )

  -- `m_depacker_size`
  stored_size :
      (executed a emitted nothing).depacker_size ≡ u64 (lc_intro + 2 ^ 64 - gba_header_size)
  stored_size =
      ap (λ (s : Assembly). s.depacker_size)
        (ap (λ (l : List Statement). executed a l nothing) intro_split
          ∙ executed-append a before_intro (packed_intro compressed_binary) nothing)
      ∙ ap (λ (l : List Call). u64 (a.current_lc l + 2 ^ 64 - gba_header_size))
          (executed-calls a before_intro nothing)
      ∙ ap (λ (n : ℕ). u64 (n + 2 ^ 64 - gba_header_size)) lc-before_intro

  size_behind_header :
      lc_intro < 2 ^ 64 → gba_header_size + (executed a emitted nothing).depacker_size ≡ lc_intro
  size_behind_header small =
      omega (arith, stored_size, pool-ge a w code_in_header buffer file compressed_binary, small)

  module _ (image : List ℕ) (linked : a.link rom_start (calls_of emitted []) ≡ ok image) where
    pub fixed_byte_stands : get_or image ofs_fixed_byte 0 ≡ fixed_byte_value
    unfolding statements
    fixed_byte_stands =
        let (enc, some_bytes, first) = fixed_bytes_lem code_in_header in
        let before = before_fixed_byte buffer file code_in_header in
        let behind = behind_fixed_byte buffer file code_in_header in
        let rest = call Call.pool ∷ packed_intro compressed_binary in
        let split : emitted ≡ before ++ call (fixed_byte_call code_in_header) ∷ (behind ++ rest) =
          ap (λ (l : List Statement). l ++ rest) (fixed_byte_split buffer file code_in_header)
          ∙ append_assoc before (call (fixed_byte_call code_in_header) ∷ behind) rest in
        let lc : a.current_lc (calls_of before []) ≡ ofs_fixed_byte =
          (Passes-of_plan a w before 0 ofs_fixed_byte [] w.lc_start
            (fixed_byte-plan buffer file code_in_header)).1 in
        let there =
          linked_bytes a w rom_start emitted image linked before (fixed_byte_call code_in_header)
            (behind ++ rest) (fixed_bytes code_in_header) 0 split enc some_bytes in
        ap (λ (n : ℕ). get_or image n 0)
          (let e : ofs_fixed_byte ≡ a.current_lc (calls_of before []) + 0 = omega (arith, lc) in e)
        ∙ there
        ∙ first

    lc_intro-le : lc_intro ≤ length image
    lc_intro-le = omega (
      arith,
      lc-before_intro,
      lc-le_length a w rom_start emitted image linked before_intro _ intro_split,
    )

    pub image_long : gba_header_size ≤ length image
    image_long =
        omega (arith, lc_intro-le, pool-ge a w code_in_header buffer file compressed_binary)

    behind : gba_header_size + (executed a emitted nothing).depacker_size ≡ lc_intro
    behind =
        size_behind_header
          (omega (arith, lc_intro-le, w.link_size rom_start (calls_of emitted []) image linked))

    program_in_image :
        (i : ℕ)
        → i < length compressed_binary
        → get_or image (lc_intro + i) 0 ≡ get_or compressed_binary i 0
    program_in_image i inside =
        ap (λ (n : ℕ). get_or image (n + i) 0) (sym lc-before_incbin)
        ∙ linked_bytes a w rom_start emitted image linked before_incbin
            (Call.incbin compressed_binary) [] compressed_binary i incbin_split refl inside

    pub IsCartridge-of_bytes :
        (bytes : List ℕ)
        → IsPatched (patched_offset code_in_header) image bytes
        → IsCartridge
            (patched_offset code_in_header)
            image
            compressed_binary
            (record { bytes = bytes; depacker_size = (executed a emitted nothing).depacker_size })
    IsCartridge-of_bytes bytes p =
        let (_, to, _) = patched_offset_bounds code_in_header in
        let start = pool-ge a w code_in_header buffer file compressed_binary in
        record {
          patched = p;
          packed = λ i inside.
              ap (λ (n : ℕ). get_or bytes (n + i) 0) behind
              ∙ ap (λ (l : List ℕ). get_or l (lc_intro + i) 0) p.bytes_eq
              ∙ get_or-set_ne image (patched_offset code_in_header) (lc_intro + i) p.value 0
                  (omega (arith, start, to))
              ∙ program_in_image i inside;
          aligned =
              omega (arith, behind, pool_aligned a w code_in_header buffer file compressed_binary);
        }
