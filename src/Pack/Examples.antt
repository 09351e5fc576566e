-- ===== src/Pack/Examples.antt =====
-- Cartridges that end in 0xff, cartridges of several sizes, and a run with one packer.
use shrinkler_gba.InputFile.Examples.{stable, small_elf, small_elf_read}
use shrinkler_gba.InputFile.{loaded_data_size, InputFile}
use shrinkler_gba.Assembler.Sample.{sample, bytes_of, emit_behind, emit, align_or_pool}
use shrinkler_gba.LzssPacker.{statements}
use shrinkler_gba.LzssPacker.Examples.{
  tagged, small_file, all_options, small_cartridge, small_cartridge_packed,
}
use shrinkler_gba.ShrinklerPacker.{Encoder}
use shrinkler_gba.Packer.{Libraries, lzss_packer, pack_with, Packer}
use shrinkler_gba.Cartridge.{Cartridge}
use shrinkler_gba.Console.{default_console, is_verbose_enabled}
use shrinkler_gba.ElfInfo.{display_elf_info}
use shrinkler_gba.Pack.{
  load_input_file, try_load, Environment, create_console, pack_one, pack_all, try_all_packers, pack,
  write_to_disk,
}
use shrinkler_gba.Pack.Choice.{
  fix_cartridge_for_ezf_advance, smallest_cartridge, get_packers, get_packer, packers_for,
}
use shrinkler_gba.Pack.Ezf.{
  strip, strip-fix_cartridge_for_ezf_advance, fix_cartridge_for_ezf_advance_lem,
}
use shrinkler_gba.Pack.Smallest.{IsSmallest, smallest_cartridge-IsSmallest}
use shrinkler_gba.Pack.TryAll.{IsKept, AreMade, try_all_packers_lem, try_all_packers-IsSmallest}
use shrinkler_gba.Pack.Load.{IsLoadedFrom, load_input_file-IsLoadedFrom}
use shrinkler_gba.Pack.Effects.{disk, opened, wrote, closed}
use shrinkler_gba.Pack.Quiet.{IsAlert, pack-IsAlert}
use shrinkler_gba.Pack.Disk.{IsOutcome, pack-ok, pack-IsOutcome}
use shrinkler_gba.Base.{
  List, inr, ℕ, ◌∷◌, ◌≡◌, [], codes, ok, false, refl, some, ◌++◌, none, ◌↔◌, All,
}

strip-fix_cartridge_for_ezf_advance_example :
    strip (fix_cartridge_for_ezf_advance (1 ∷ 0xff ∷ []))
    ≡ fix_cartridge_for_ezf_advance (1 ∷ 0xff ∷ [])
strip-fix_cartridge_for_ezf_advance_example = strip-fix_cartridge_for_ezf_advance (1 ∷ 0xff ∷ [])

fix_cartridge_for_ezf_advance_lem_example :
    ((rest : List ℕ) × (fix_cartridge_for_ezf_advance (1 ∷ 0xff ∷ []) ≡ (1 ∷ 0xff ∷ []) ++ rest))
    × ((fix_cartridge_for_ezf_advance (1 ∷ 0xff ∷ []) ≡ 1 ∷ 0xff ∷ [])
        ↔ (strip (1 ∷ 0xff ∷ []) ≡ 1 ∷ 0xff ∷ []))
fix_cartridge_for_ezf_advance_lem_example = fix_cartridge_for_ezf_advance_lem (1 ∷ 0xff ∷ [])

cartridge_of : List ℕ → Cartridge
cartridge_of bytes = record {
  packer = codes "LZSS-H4";
  bytes = bytes;
  compressed_size = 0;
  depacker_size = 0;
  info = [];
}

smallest_cartridge-IsSmallest_example :
    (s : Cartridge) × (smallest_cartridge (cartridge_of (1 ∷ 2 ∷ []) ∷ cartridge_of (3 ∷ []) ∷ [])
      ≡ some s)
    × IsSmallest s (cartridge_of (1 ∷ 2 ∷ []) ∷ cartridge_of (3 ∷ []) ∷ [])
smallest_cartridge-IsSmallest_example =
    smallest_cartridge-IsSmallest (cartridge_of (1 ∷ 2 ∷ [])) (cartridge_of (3 ∷ []) ∷ [])

abbrev pub encoder : Encoder
encoder = record {
  Parameters = ℕ;
  default_parameters = 0;
  little_endian = λ p. p;
  encode = λ p bytes. ok (0x55 ∷ bytes, false);
}

abbrev pub libraries : Libraries
libraries = record { assembler = sample; codecs = tagged; encoder = encoder }

chosen : get_packers all_options ≡ ok (lzss_packer ∷ [])
unfolding get_packers packers_for get_packer
chosen = refl

fixed : Cartridge
fixed = record small_cartridge { bytes = fix_cartridge_for_ezf_advance small_cartridge.bytes }

lzss_packed : pack_with libraries lzss_packer small_file all_options ≡ ok small_cartridge
unfolding pack_with
lzss_packed = small_cartridge_packed

fixed-AreMade :
    AreMade libraries small_file all_options default_console (lzss_packer ∷ []) (fixed ∷ [])
unfolding fixed
fixed-AreMade = ((small_cartridge, lzss_packed, refl), tt)

try_all_packers_lem_example :
    (c : Cartridge) × ((try_all_packers libraries small_file all_options default_console).1 ≡ ok c)
    × IsSmallest c (fixed ∷ [])
    × IsKept c
try_all_packers_lem_example =
    try_all_packers_lem libraries small_file all_options default_console (lzss_packer ∷ [])
      (fixed ∷ []) chosen fixed-AreMade

-- An environment in which every file holds a small program, and files can be written.
abbrev pub environment : Environment
environment = record {
  read_file = λ path. inr (0x7f ∷ []);
  load_elf = λ contents. some small_elf;
  open_output = λ path. none;
  write_output = λ path bytes. none;
  close_output = λ path bytes. none;
  remove_file = λ path. none;
  str_section_type = λ n. codes "PROGBITS";
}

-- Messages are not verbose.
example_loaded :
    (load_input_file environment stable all_options.input_file (create_console all_options)).1
    ≡ ok small_file
unfolding load_input_file try_load loaded_data_size create_console display_elf_info
    is_verbose_enabled
example_loaded = rw small_elf_read refl

load_input_file-IsLoadedFrom_example :
    IsLoadedFrom environment stable all_options.input_file small_file
load_input_file-IsLoadedFrom_example =
    load_input_file-IsLoadedFrom environment stable all_options.input_file
      (create_console all_options) small_file example_loaded

example_tried :
    (try_all_packers libraries small_file all_options (create_console all_options)).1 ≡ ok fixed
unfolding try_all_packers pack_all pack_one pack_with get_packers packers_for get_packer
    smallest_cartridge fixed
example_tried = rw small_cartridge_packed refl

try_all_packers-IsSmallest_example :
    (packers : List Packer) × (cs : List Cartridge) × (get_packers all_options ≡ ok packers)
    × AreMade libraries small_file all_options (create_console all_options) packers cs
    × IsSmallest fixed cs
    × IsKept fixed
try_all_packers-IsSmallest_example =
    try_all_packers-IsSmallest libraries small_file all_options (create_console all_options) fixed
      example_tried

pub example_packed : (pack libraries environment stable all_options).1 ≡ ok tt
unfolding pack write_to_disk fixed fix_cartridge_for_ezf_advance bytes_of emit_behind emit
    align_or_pool statements
example_packed = rw example_loaded (rw example_tried refl)

pack-ok_example :
    (file : InputFile) × (c : Cartridge) × IsLoadedFrom environment stable all_options.input_file
      file
    × ((try_all_packers libraries file all_options (create_console all_options)).1 ≡ ok c)
    × (disk (pack libraries environment stable all_options).0
        ≡ opened all_options.output_file
          ∷ wrote all_options.output_file c.bytes none
          ∷ closed all_options.output_file none
          ∷ [])
pack-ok_example = pack-ok libraries environment stable all_options example_packed

pack-IsOutcome_example :
    IsOutcome environment all_options.output_file
      (disk (pack libraries environment stable all_options).0)
      (pack libraries environment stable all_options).1
pack-IsOutcome_example = pack-IsOutcome libraries environment stable all_options

pack-IsAlert_example : All IsAlert (pack libraries environment stable all_options).0
pack-IsAlert_example = pack-IsAlert libraries environment stable all_options refl
