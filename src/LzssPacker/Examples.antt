-- ===== src/LzssPacker/Examples.antt =====
-- A small program packed, with codecs that write a tag before the data.
use shrinkler_gba.Assembler.Sample.{
  sample, bytes_of, sample-IsAssembler, sample_link, emit_behind, emit, align_or_pool, are_bytes,
}
use shrinkler_gba.LzssPacker.{
  Codecs, PackerOptions, pack, statements, lzss_cartridge_assembler, depack_buffer, Assembled,
  Cartridge, InputFile, List, ok, ℕ, Statement, rom_start, lzss_compress, huffman_compress,
  assemble_cartridge, assemble,
}
use shrinkler_gba.LzssPacker.Layout.{FitsInt32}
use shrinkler_gba.LzssPacker.Correct.{lzss_cartridge_assembler_lem}
use shrinkler_gba.LzssPacker.Pack.{IsPacked, pack-IsPacked, pack_lem}
use shrinkler_gba.Options.{Options, default_options}
use shrinkler_gba.Base.{
  arith, true, Result, ◌∷◌, ◌≡◌, [], err, refl, out_of_range, some, codes, set,
}
use shrinkler_gba.CartridgeAssembler.Layout.{calls_of}
use shrinkler_gba.LzssPacker.Construct.{IsCartridge}
use shrinkler_gba.CartridgeAssembler.{
  run, execute, write_complement, throw_if_fixed_byte_wrong, throw_if_complement_wrong,
}
use shrinkler_gba.Complement.{calculate_complement, calculate_header_complement}

untag : List ℕ → Result (List ℕ)
untag [] = err out_of_range
untag (tag ∷ bytes) = ok bytes

pub tagged : Codecs
tagged = record {
  lzss_encode = λ bytes. ok (0x10 ∷ bytes);
  lzss_decode = untag;
  huffman_encode = λ bytes. ok (0x24 ∷ bytes);
  huffman_decode = untag;
}

abbrev pub small_file : InputFile
small_file = record { entry = 0x8001; load_address = 0x8000; bytes = 1 ∷ 2 ∷ 3 ∷ [] }

small_FitsInt32 : FitsInt32 small_file
small_FitsInt32 = omega arith

abbrev small_options : PackerOptions
small_options = record { code_in_header = true }

abbrev lzss_data : List ℕ
lzss_data = 0x10 ∷ 1 ∷ 2 ∷ 3 ∷ []

abbrev huffman_data : List ℕ
huffman_data = 0x24 ∷ lzss_data

abbrev small_statements : List Statement
small_statements = statements true (depack_buffer 4) small_file huffman_data

abbrev small_image : List ℕ
small_image = bytes_of (calls_of small_statements [])

small_linked : sample.link rom_start (calls_of small_statements []) ≡ ok small_image
unfolding sample sample_link bytes_of emit_behind emit align_or_pool are_bytes statements
small_linked = refl

lzss_cartridge_assembler_lem_example :
    (c : Assembled) × (lzss_cartridge_assembler sample small_file huffman_data small_options
        (depack_buffer 4)
      ≡ ok c)
    × IsCartridge 0xba small_image huffman_data c
lzss_cartridge_assembler_lem_example =
    lzss_cartridge_assembler_lem sample sample-IsAssembler small_file huffman_data small_options
      (depack_buffer 4) small_image small_FitsInt32 small_linked

abbrev pub all_options : Options ℕ
all_options = record (default_options 0) {
  input_file = codes "small.elf";
  output_file = codes "small.gba";
  packer = some (codes "lzss-h4");
}

pack_lem_example :
    (c : Cartridge) × (pack tagged sample small_file all_options ≡ ok c)
    × IsPacked tagged small_file c
unfolding tagged untag
pack_lem_example =
    pack_lem sample sample-IsAssembler tagged small_file all_options lzss_data huffman_data
      small_image refl refl refl refl (omega arith) refl small_FitsInt32 small_linked

pub small_packed :
    (c : Cartridge) × (pack tagged sample small_file all_options ≡ ok c)
    × IsPacked tagged small_file c
unfolding tagged untag
small_packed =
    pack_lem sample sample-IsAssembler tagged small_file all_options lzss_data huffman_data
      small_image refl refl refl refl (omega arith) refl small_FitsInt32 small_linked

pack-IsPacked_example : IsPacked tagged small_file small_packed.0
pack-IsPacked_example =
    pack-IsPacked sample sample-IsAssembler tagged small_file all_options small_packed.0
      small_packed.1

-- The result of the run, byte for byte.
abbrev pub small_cartridge : Cartridge
small_cartridge = record {
  packer = codes "LZSS-H4";
  bytes = set small_image 0xba 47;
  compressed_size = 5;
  depacker_size = 0;
  info = [];
}

pub small_cartridge_packed : pack tagged sample small_file all_options ≡ ok small_cartridge
unfolding pack lzss_compress huffman_compress tagged untag assemble_cartridge
    lzss_cartridge_assembler assemble statements run execute sample sample_link bytes_of emit_behind
    emit align_or_pool are_bytes write_complement calculate_complement throw_if_fixed_byte_wrong
    throw_if_complement_wrong calculate_header_complement
small_cartridge_packed = refl
