-- ===== src/LzssPacker/Correct.antt =====
-- The constructor of `lzss_cartridge_assembler` as a whole.
use shrinkler_gba.Assembler.{Assembler}
use shrinkler_gba.Assembler.Laws.{IsAssembler}
use shrinkler_gba.CartridgeAssembler.{run, nothing, Assembled, Statement}
use shrinkler_gba.CartridgeAssembler.Layout.{fits, run_lem, executed, calls_of}
use shrinkler_gba.LzssPacker.{
  PackerOptions, statements, assemble, lzss_cartridge_assembler, InputFile, List, ℕ, rom_start,
}
use shrinkler_gba.LzssPacker.Layout.{FitsInt32, statements-fits, statements-Passes}
use shrinkler_gba.LzssPacker.FixedByte.{patched_offset, patched_offset_bounds}
use shrinkler_gba.LzssPacker.Construct.{
  IsCartridge, IsCartridge-of_bytes, image_long, fixed_byte_stands,
}
use shrinkler_gba.Base.{
  Error, ◌≡◌, [], false, if◌then◌else◌, ok, true, Bool-cases, err, ◌>>=◌, inr, narrowing_error,
  refl, ok_ne_err, sym, ◌∙◌, inl, Result-cases, ok-injective,
}
use shrinkler_gba.CartridgeAssembler.Finish.{finish_lem}
use shrinkler_gba.CartridgeAssembler.Calls.{executed-calls}
use mathlib.Core.Path.{subst}

module _ (a : Assembler) (w : IsAssembler a) (file : InputFile) (compressed_binary : List ℕ)
    (options : PackerOptions) (buffer : ℕ) where
  abbrev all_statements : List Statement
  all_statements = statements options.code_in_header buffer file compressed_binary

  run_eq : run a all_statements nothing ≡ (
      if fits all_statements then ok (executed a all_statements nothing) else err narrowing_error)
  run_eq =
      run_lem a all_statements nothing
        (statements-Passes a w options.code_in_header buffer file compressed_binary)

  assembled_eq :
      fits all_statements ≡ true
      → assemble a file compressed_binary options buffer ≡ (
          a.link rom_start (calls_of all_statements []) >>= λ image. ok (record {
            bytes = image;
            depacker_size = (executed a all_statements nothing).depacker_size;
          }))
  unfolding assemble
  assembled_eq fit = rw run_eq (rw fit (rw (executed-calls a all_statements nothing) refl))

  returns :
      (image : List ℕ)
      → fits all_statements ≡ true
      → a.link rom_start (calls_of all_statements []) ≡ ok image
      → (c : Assembled) × (lzss_cartridge_assembler a file compressed_binary options buffer ≡ ok c)
        × IsCartridge (patched_offset options.code_in_header) image compressed_binary c
  unfolding lzss_cartridge_assembler
  returns image fit linked =
      let (from, to, ne) = patched_offset_bounds options.code_in_header in
      let (bytes, written, fixed, complement, patched) =
        finish_lem image (patched_offset options.code_in_header)
          (image_long a w options.code_in_header buffer file compressed_binary image linked)
          (λ i. w.link_bytes rom_start (calls_of all_statements []) image i linked)
          (fixed_byte_stands a w options.code_in_header buffer file compressed_binary image linked)
          from to ne in
      (
        _,
        rw (assembled_eq fit) (rw linked (rw written (rw fixed (rw complement refl)))),
        IsCartridge-of_bytes a w options.code_in_header buffer file compressed_binary image linked
            bytes patched,
      )

  -- If the two addresses fit an `int32_t`, the assembler behaves as documented and it can link the
  -- program, then the constructor succeeds. Its bytes are those of the linked program except for one;
  -- the console accepts the header; the compressed program stands unchanged behind the depacker, at a
  -- multiple of four.
  pub lzss_cartridge_assembler_lem :
      (image : List ℕ)
      → FitsInt32 file
      → a.link rom_start (calls_of all_statements []) ≡ ok image
      → (c : Assembled) × (lzss_cartridge_assembler a file compressed_binary options buffer ≡ ok c)
        × IsCartridge (patched_offset options.code_in_header) image compressed_binary c
  lzss_cartridge_assembler_lem image f =
      returns image (statements-fits options.code_in_header buffer file compressed_binary f)

  too_wide :
      fits all_statements ≡ false
      → lzss_cartridge_assembler a file compressed_binary options buffer ≡ err narrowing_error
  unfolding lzss_cartridge_assembler assemble
  too_wide wide = rw run_eq (rw wide refl)

  not_linked :
      (e : Error)
      → fits all_statements ≡ true
      → a.link rom_start (calls_of all_statements []) ≡ err e
      → lzss_cartridge_assembler a file compressed_binary options buffer ≡ err e
  unfolding lzss_cartridge_assembler
  not_linked e fit failed = rw (assembled_eq fit) (rw failed refl)

  -- Whatever the constructor returns comes from a linked program, of which it changes one byte.
  pub lzss_cartridge_assembler_ok :
      (c : Assembled)
      → lzss_cartridge_assembler a file compressed_binary options buffer ≡ ok c
      → (image : List ℕ) × (a.link rom_start (calls_of all_statements []) ≡ ok image)
        × IsCartridge (patched_offset options.code_in_header) image compressed_binary c
  lzss_cartridge_assembler_ok c h = elim (Bool-cases (fits all_statements)) [
    | inr wide ↦ absurd (ok_ne_err (sym h ∙ too_wide wide))
    | inl fit ↦ elim (Result-cases (a.link rom_start (calls_of all_statements []))) [
      | inr (e, failed) ↦ absurd (ok_ne_err (sym h ∙ not_linked e fit failed))
      | inl (image, linked) ↦
          (let (c', same, good) = returns image fit linked in
            (
              image,
              linked,
              subst
                  (λ (x : Assembled).
                    IsCartridge (patched_offset options.code_in_header) image compressed_binary x)
                  (ok-injective (sym same ∙ h)) good,
            ))
    ]
  ]
