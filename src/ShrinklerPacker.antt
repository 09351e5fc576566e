-- ===== src/ShrinklerPacker.antt =====
-- src/shrinkler_gba/shrinkler_packer.cppm and shrinkler_packer.cpp: the assembler of a cartridge with
-- the Shrinkler depacker, and the packer. The children `Getbit`, `Main` and `Debug` hold the code
-- that is emitted.
mod Getbit
mod Main
mod Debug
mod Reduce
mod BitBuffer
pub mod Stream
pub mod ReadBit
mod Normalise
pub mod Interval
mod RangeDecoder
mod Decode
pub mod BitContract
mod BitRoutine
mod Range
mod Calls
mod Number
mod NumberLoops
mod NumberRoutine
mod Literal
mod LiteralRoutine
pub mod DepackerBits
pub mod DepackerLiteral
pub mod Kind
pub mod Checksum
pub mod Checked
pub mod DebugChecks
pub mod Layout
pub mod FixedBytes
pub mod Construct
pub mod Correct
mod Examples
mod BitsExamples
use shrinkler_gba.Assembler.{Call, Assembler}
use shrinkler_gba.Gba.{rom_start, ofs_game_version, ofs_complement}
use shrinkler_gba.CartridgeAssembler.{
  Statement, call, set_depacker_size, Assembly, nothing, run, emit_nintendo_logo,
  emit_remaining_header, Assembled, write_complement, throw_if_fixed_byte_wrong,
  throw_if_complement_wrong,
}
use shrinkler_gba.InputFile.{InputFile}
use shrinkler_gba.Options.{Options}
use shrinkler_gba.Cartridge.{Cartridge}
use Getbit.{
  getkind, getbit_readbit, getbit_fixed_byte, getbit_nonewword, getbit_game_version, getbit_decode,
}
use Main.{code_start, load_addresses, literal, reference, leave, getnumber}
use Debug.{
  debug_check_decompressed_data_size, debug_check_decompressed_data, debug_check_sp_on_exit,
  debug_emit_panic_routine,
}
use shrinkler_gba.Base.{
  ◌∷◌, [], ◌++◌, if◌then◌else◌, Bool, List, Result, codes, ℕ, ◌>>=◌, not, ok, ◌>>◌, length,
}

-- `shrinkler_packer_options`
pub record PackerOptions (P : Type 0) : Type 0 where
  pub code_in_header : Bool
  pub debug_checks : Bool
  pub encoder_parameters : P

-- The header, and the part of `getbit` that may stand in it.
abbrev pub header : Bool → List Statement
header code_in_header =
    call (Call.arm_branch (codes "code_start")) ∷ emit_nintendo_logo
    ++ ((if not code_in_header then emit_remaining_header else [])
        ++ (getkind
            ++ (getbit_readbit
                ++ ((if code_in_header then getbit_fixed_byte else [])
                    ++ (getbit_nonewword
                        ++ ((if code_in_header then getbit_game_version else [])
                            ++ (getbit_decode ++ code_start)))))))

abbrev pub packed_intro : Bool → List ℕ → List Statement
packed_intro debug_checks compressed_program =
    call (Call.align 2)
    ∷ set_depacker_size
    ∷ call (Call.label (codes "packed_intro"))
    ∷ call (Call.incbin compressed_program)
    ∷ debug_emit_panic_routine debug_checks

-- The code behind the entry point.
abbrev pub decompression : Bool → InputFile → List Statement
decompression debug_checks file =
    load_addresses file
    ++ (literal
        ++ (reference
            ++ (debug_check_decompressed_data_size debug_checks file
                ++ (debug_check_decompressed_data debug_checks file
                    ++ (debug_check_sp_on_exit debug_checks ++ (leave file ++ getnumber))))))

-- The statements of `assemble`, up to `link`.
pub statements : Bool → Bool → InputFile → List ℕ → List Statement
statements code_in_header debug_checks file compressed_program =
    header code_in_header
    ++ (decompression debug_checks file ++ packed_intro debug_checks compressed_program)

module _ {P : Type 0} (a : Assembler) where
  pub assemble : InputFile → List ℕ → PackerOptions P → Result Assembled
  assemble file compressed_program options = do
    assembly ←
        run a (statements options.code_in_header options.debug_checks file compressed_program)
          nothing
    bytes ← a.link rom_start assembly.calls
    ok (record { bytes = bytes; depacker_size = assembly.depacker_size })

  -- The constructor.
  pub shrinkler_cartridge_assembler : InputFile → List ℕ → PackerOptions P → Result Assembled
  shrinkler_cartridge_assembler file compressed_program options = do
    assembled ← assemble file compressed_program options
    bytes ←
        write_complement assembled.bytes
          (if options.code_in_header then ofs_game_version else ofs_complement)
    throw_if_fixed_byte_wrong bytes
    throw_if_complement_wrong bytes
    ok (record assembled { bytes = bytes })

  assemble_cartridge : InputFile → List ℕ → PackerOptions P → Result Cartridge
  assemble_cartridge file compressed_binary options = do
    assembled ← shrinkler_cartridge_assembler file compressed_binary options
    ok (record {
      packer = codes "Shrinkler";
      bytes = assembled.bytes;
      compressed_size = length compressed_binary;
      depacker_size = assembled.depacker_size;
      info = [];
    })

-- The library libshrinkler: the type of its parameters and their default, the setter of the
-- endianness, and the encoder, which also gives a hint about its reference buffer.
pub record Encoder : Type 1 where
  pub Parameters : Type 0
  pub default_parameters : Parameters
  pub little_endian : Parameters → Parameters
  pub encode : Parameters → List ℕ → Result (List ℕ × Bool)

module _ (a : Assembler) (e : Encoder) where
  compress : List ℕ → PackerOptions e.Parameters → Result (List ℕ × Bool)
  compress uncompressed_binary options =
      e.encode (e.little_endian options.encoder_parameters) uncompressed_binary

  -- `shrinkler_packer::pack`
  pub pack : InputFile → Options e.Parameters → Result Cartridge
  pack file options = do
    let packer_options : PackerOptions e.Parameters = record {
      code_in_header = options.code_in_header;
      debug_checks = options.debug_checks;
      encoder_parameters = options.shrinkler_parameters;
    }
    (compressed_binary, hint) ← compress file.bytes packer_options
    cartridge ← assemble_cartridge a file compressed_binary packer_options
    ok (
        if hint
        then record cartridge {
          info =
              cartridge.info
              ++ codes
                  "Shrinkler compression may benefit from a larger reference buffer (-r option)"
                ∷ [];
        }
        else cartridge)
