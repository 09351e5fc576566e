-- ===== src/LzssPacker.antt =====
-- src/shrinkler_gba/lzss_packer.cpp: the assembler of a cartridge that depacks itself by the BIOS,
-- and the packer. The codecs of agbpack are parameters.
pub mod Layout
pub mod FixedByte
pub mod Construct
pub mod Correct
pub mod Pack
pub mod Examples
use shrinkler_gba.Gba.{
  rom_start, ofs_game_version, ofs_complement, ofs_fixed_byte, fixed_byte_value, ewram_start,
  ewram_size, swi_huff_uncomp, swi_lz77_uncomp_wram,
}
use shrinkler_gba.CartridgeAssembler.{
  Statement, call, ldr_narrow, throw_if_wrong_lc, throw_if_not_aligned, set_depacker_size, nothing,
  run, emit_nintendo_logo, emit_remaining_header, Assembled, write_complement,
  throw_if_fixed_byte_wrong, throw_if_complement_wrong,
}
use shrinkler_gba.Assembler.{Assembler, Call, Register}
use shrinkler_gba.Base.{
  Bool, List, ℕ, Result, codes, u32, ◌-◌, ◌∷◌, Option, ◌++◌, ◌+◌, ◌>>=◌, [], if◌then◌else◌,
  narrow_u32, ok, ◌>>◌, ◌^◌, length, not, throw_if, text_eq, ◌%◌, internal, ◌==◌,
  huffman_verification_failed, lzss_buffer_not_aligned, lzss_verification_failed,
}
use shrinkler_gba.InputFile.{InputFile}
use shrinkler_gba.Cartridge.{Cartridge}
use shrinkler_gba.Options.{Options}

-- `lzss_packer_options`
pub record PackerOptions : Type 0 where
  pub code_in_header : Bool

abbrev pub ofs_complement_if_code_in_header : ℕ
ofs_complement_if_code_in_header = ofs_game_version - 2

-- The instruction that is the fixed byte.
abbrev emit_fixed_byte : List Statement
emit_fixed_byte =
    throw_if_wrong_lc ofs_fixed_byte (codes "fixed byte")
    ∷ call (Call.mov_imm Register.r2 fixed_byte_value)
    ∷ []

-- The halfword of which a byte is patched.
abbrev reserve_complement : List Statement
reserve_complement =
    throw_if_wrong_lc ofs_complement_if_code_in_header
      (codes "complement if depacker code is in ROM header")
    ∷ call (Call.hword 0xffff)
    ∷ throw_if_wrong_lc ofs_game_version (codes "game version")
    ∷ []

-- The statements of `assemble` up to the one before `pool`.
abbrev pub code : Bool → ℕ → InputFile → List Statement
code code_in_header lzss_depack_buffer file =
    call (Call.arm_branch (codes "code_start")) ∷ emit_nintendo_logo
    ++ ((if not code_in_header then emit_remaining_header else [])
        ++ (throw_if_not_aligned 2
            ∷ call (Call.align 2)
            ∷ call (Call.label (codes "code_start"))
            ∷ call (Call.arm_to_thumb Register.r0)
            ∷ call (Call.adr Register.r0 (codes "packed_intro"))
            ∷ call (Call.ldr_literal Register.r1 lzss_depack_buffer)
            ∷ call (Call.swi swi_huff_uncomp)
            ∷ call (Call.ldr_literal Register.r0 lzss_depack_buffer)
            ∷ ldr_narrow Register.r1 file.load_address
            ∷ ((if code_in_header then emit_fixed_byte else [])
                ++ (call (Call.swi swi_lz77_uncomp_wram)
                    ∷ ldr_narrow Register.r0 file.entry
                    ∷ call (Call.bx Register.r0)
                    ∷ ((if code_in_header then reserve_complement else [])
                        ++ throw_if_not_aligned 2 ∷ [])))))

abbrev pub packed_intro : List ℕ → List Statement
packed_intro compressed_binary =
    throw_if_not_aligned 2
    ∷ set_depacker_size
    ∷ call (Call.label (codes "packed_intro"))
    ∷ call (Call.incbin compressed_binary)
    ∷ []

unfoldable pub statements : Bool → ℕ → InputFile → List ℕ → List Statement
statements code_in_header lzss_depack_buffer file compressed_binary =
    code code_in_header lzss_depack_buffer file ++ call Call.pool ∷ packed_intro compressed_binary

-- Where the buffer for the LZSS data begins; the arithmetic is that of `uint32_t`.
abbrev pub depack_buffer : ℕ → ℕ
depack_buffer lzss_data_size = u32 (ewram_start + ewram_size + 2 ^ 32 - lzss_data_size)

module _ (a : Assembler) where
  pub assemble : InputFile → List ℕ → PackerOptions → ℕ → Result Assembled
  assemble file compressed_binary options lzss_depack_buffer = do
    assembly ←
        run a (statements options.code_in_header lzss_depack_buffer file compressed_binary) nothing
    bytes ← a.link rom_start assembly.calls
    ok (record { bytes = bytes; depacker_size = assembly.depacker_size })

  -- The constructor.
  pub lzss_cartridge_assembler : InputFile → List ℕ → PackerOptions → ℕ → Result Assembled
  lzss_cartridge_assembler file compressed_binary options lzss_depack_buffer = do
    assembled ← assemble file compressed_binary options lzss_depack_buffer
    bytes ←
        write_complement assembled.bytes
          (if options.code_in_header then ofs_complement_if_code_in_header else ofs_complement)
    throw_if_fixed_byte_wrong bytes
    throw_if_complement_wrong bytes
    ok (record assembled { bytes = bytes })

  pub assemble_cartridge : InputFile → List ℕ → PackerOptions → ℕ → Result Cartridge
  assemble_cartridge file compressed_binary options lzss_data_size = do
    let lzss_depack_buffer = depack_buffer lzss_data_size
    throw_if (not (lzss_depack_buffer % 4 == 0)) (internal lzss_buffer_not_aligned)
    assembled ← lzss_cartridge_assembler file compressed_binary options lzss_depack_buffer
    ok (record {
      packer = codes "LZSS-H4";
      bytes = assembled.bytes;
      compressed_size = length compressed_binary;
      depacker_size = assembled.depacker_size;
      info = [];
    })

-- What is used of agbpack: the optimal LZSS encoder and the decoder, both not safe for video memory,
-- the Huffman encoder for symbols of four bits, and its decoder. Each may throw.
pub record Codecs : Type 0 where
  pub lzss_encode : List ℕ → Result (List ℕ)
  pub lzss_decode : List ℕ → Result (List ℕ)
  pub huffman_encode : List ℕ → Result (List ℕ)
  pub huffman_decode : List ℕ → Result (List ℕ)

module _ (codecs : Codecs) where
  pub lzss_compress : List ℕ → Result (List ℕ)
  lzss_compress input = do
    output ← codecs.lzss_encode input
    verified ← codecs.lzss_decode output
    throw_if (not (text_eq verified input)) (internal lzss_verification_failed)
    ok output

  pub huffman_compress : List ℕ → Result (List ℕ)
  huffman_compress input = do
    output ← codecs.huffman_encode input
    verified ← codecs.huffman_decode output
    throw_if (not (text_eq verified input)) (internal huffman_verification_failed)
    ok output

  -- `lzss_packer::pack`
  pub pack : {P : Type 0} → Assembler → InputFile → Options P → Result Cartridge
  pack a file options = do
    let packer_options : PackerOptions = record { code_in_header = options.code_in_header }
    lzss_data ← lzss_compress file.bytes
    compressed_binary ← huffman_compress lzss_data
    lzss_data_size ← narrow_u32 (length lzss_data)
    assemble_cartridge a file compressed_binary packer_options lzss_data_size
