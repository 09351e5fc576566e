-- ===== src/ShrinklerPacker/Correct.antt =====
-- The constructor of `shrinkler_cartridge_assembler` as a whole.
use shrinkler_gba.CartridgeAssembler.Finish.{finish_lem}
use shrinkler_gba.Assembler.{Assembler}
use shrinkler_gba.Assembler.Laws.{IsAssembler}
use shrinkler_gba.ShrinklerPacker.Construct.{
  IsCartridge, IsCartridge-of_bytes, image_long, fixed_byte_stands,
}
use shrinkler_gba.InputFile.{InputFile}
use shrinkler_gba.Base.{
  List, ℕ, Error, ◌≡◌, err, ok, [], ◌↔◌, ◌>>=◌, refl, ◌∙◌, Result-cases, inl, inr,
}
use shrinkler_gba.ShrinklerPacker.{
  PackerOptions, Assembly, Statement, assemble, run, shrinkler_cartridge_assembler, nothing,
  rom_start, statements,
}
use shrinkler_gba.CartridgeAssembler.{Assembled}
use shrinkler_gba.ShrinklerPacker.Layout.{FitsInt32, statements-Passes, statements-fits}
use shrinkler_gba.CartridgeAssembler.Layout.{executed, calls_of, run_lem}
use shrinkler_gba.CartridgeAssembler.Calls.{executed-calls}
use shrinkler_gba.ShrinklerPacker.FixedBytes.{patched_offset_bounds, patched_offset}
use shrinkler_gba.CartridgeAssembler.Finish.{finish_lem}

module _ {P : Type 0} (a : Assembler) (w : IsAssembler a) (file : InputFile)
    (compressed_program : List ℕ) (options : PackerOptions P)
    (f : FitsInt32 options.debug_checks file) where
  abbrev emitted : List Statement
  emitted = statements options.code_in_header options.debug_checks file compressed_program

  abbrev final_assembly : Assembly
  final_assembly = executed a emitted nothing

  run_eq : run a emitted nothing ≡ ok final_assembly
  run_eq =
      run_lem a emitted nothing
        (statements-Passes a w options.code_in_header options.debug_checks file compressed_program)
      ∙ rw (statements-fits options.code_in_header options.debug_checks file compressed_program f)

  -- No check of `assemble` throws, so that it fails only when `link` does.
  assembled_eq : assemble a file compressed_program options ≡ (
      a.link rom_start (calls_of emitted []) >>= λ image.
      ok (record { bytes = image; depacker_size = final_assembly.depacker_size }))
  unfolding assemble
  assembled_eq = rw run_eq (rw (executed-calls a emitted nothing) refl)

  -- If the addresses, and with debug checks the size of the data, fit an `int32_t`, and the
  -- assembler behaves as documented and can link the program, then the constructor succeeds. Its
  -- bytes are those of the linked program except for one; the console accepts the header; the
  -- compressed program stands unchanged behind the depacker, at a multiple of four; and with code in
  -- the header the byte of the complement is still the opcode of the instruction there.
  pub shrinkler_cartridge_assembler_lem :
      (image : List ℕ)
      → a.link rom_start (calls_of emitted []) ≡ ok image
      → (c : Assembled) × (shrinkler_cartridge_assembler a file compressed_program options ≡ ok c)
        × IsCartridge options.code_in_header image compressed_program c
  unfolding shrinkler_cartridge_assembler
  shrinkler_cartridge_assembler_lem image linked =
      let (from, to, ne) = patched_offset_bounds options.code_in_header in
      let (bytes, written, fixed, complement, patched) =
        finish_lem image (patched_offset options.code_in_header)
          (image_long a w options.code_in_header options.debug_checks file compressed_program image
            linked)
          (λ i. w.link_bytes rom_start (calls_of emitted []) image i linked)
          (fixed_byte_stands a w options.code_in_header options.debug_checks file compressed_program
            image linked)
          from to ne in
      (
        _,
        rw assembled_eq (rw linked (rw written (rw fixed (rw complement refl)))),
        IsCartridge-of_bytes a w options.code_in_header options.debug_checks file compressed_program
            image linked bytes patched,
      )

  thrown :
      (e : Error)
      → a.link rom_start (calls_of emitted []) ≡ err e
      → shrinkler_cartridge_assembler a file compressed_program options ≡ err e
  unfolding shrinkler_cartridge_assembler
  thrown e failed = rw assembled_eq (rw failed refl)

  -- If the addresses, and with debug checks the size of the data, fit an `int32_t`, and the
  -- assembler behaves as documented, then the constructor fails exactly if the program cannot be
  -- linked, with the error of `link`.
  pub shrinkler_cartridge_assembler_err :
      (e : Error)
      → (shrinkler_cartridge_assembler a file compressed_program options ≡ err e)
        ↔ (a.link rom_start (calls_of emitted []) ≡ err e)
  shrinkler_cartridge_assembler_err e = (
    λ h. elim (Result-cases (a.link rom_start (calls_of emitted []))) [
      | inl (image, linked) ↦
          (let (c, returns, _) = shrinkler_cartridge_assembler_lem image linked in cc)
      | inr (e', failed) ↦ (let same = thrown e' failed in cc)
    ],
    thrown e,
  )
