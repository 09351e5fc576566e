-- ===== src/Pack.antt =====
-- src/shrinkler_gba/pack.cpp: the program behind the command line.
pub mod Effects
pub mod Choice
pub mod Ezf
pub mod Smallest
pub mod TryAll
pub mod Load
pub mod Disk
pub mod Quiet
pub mod Examples
use Effects.{Trace, Action, ◌>>=◌, ◌>>◌, pure, say, opened, wrote, closed, removed}
use Choice.{back, fix_cartridge_for_ezf_advance, get_packers, smallest_cartridge}
use shrinkler_gba.Console.{Console, Line, default_console, verbose, warn, out}
use shrinkler_gba.Format.{to_hex, decimal, decimal_in}
use shrinkler_gba.ElfInfo.{display_elf_info}
use shrinkler_gba.Packer.{Packer, Libraries, pack_with}
use shrinkler_gba.InputFile.Sort.{SectionSort}
use shrinkler_gba.InputFile.{InputFile, input_file, loaded_data_size}
use shrinkler_gba.Elf.{Elfio}
use shrinkler_gba.Cartridge.{Cartridge}
use shrinkler_gba.Options.{Options}
use shrinkler_gba.Base.{
  List, Option, Text, codes, if◌then◌else◌, ok, ℕ, Bool, Result, [], none, some, ◌++◌, ◌^◌, ◌∷◌,
  ◌⊎◌, err, false, inl, length, ltb, throw_if, at_path, could_not_write, narrowing_error,
  no_packer_could_compress, not_valid_elf, system_error, ◌==◌, inr, too_small,
}

-- What the program uses of its environment: reading a file gives an error number or the contents;
-- ELFIO accepts or rejects them; opening an output file, writing to it, closing it, which writes out
-- what is still in the buffer, and removing it give an error number if they fail. ELFIO has names for
-- the types of sections.
pub record Environment : Type 0 where
  pub read_file : Text → ℕ ⊎ List ℕ
  pub load_elf : List ℕ → Option Elfio
  pub open_output : Text → Option ℕ
  pub write_output : Text → List ℕ → Option ℕ
  pub close_output : Text → List ℕ → Option ℕ
  pub remove_file : Text → Option ℕ
  pub str_section_type : ℕ → Text

-- An error number is thrown as a `system_error`.
abbrev pub of_errno : ℕ ⊎ List ℕ → Result (List ℕ)
of_errno (inl e) = err (system_error e)
of_errno (inr contents) = ok contents

abbrev pub of_elfio : Option Elfio → Result Elfio
of_elfio none = err not_valid_elf
of_elfio (some elfio) = ok elfio

-- Any exception gets the path in front of its message.
abbrev pub with_path : Text → Result InputFile → Result InputFile
with_path path (ok file) = ok file
with_path path (err e) = err (at_path path e)

abbrev pub rethrow : Text → Trace InputFile → Trace InputFile
rethrow path attempt = (attempt.0, with_path path attempt.1)

unfoldable pub create_console : {P : Type 0} → Options P → Console
create_console options =
    if options.verbose then default_console else record default_console { verbose_stream = none }

module _ (env : Environment) (sorter : SectionSort) (path : Text) (console : Console) where
  -- The `try` block of `load_input_file`.
  try_load : Trace InputFile
  try_load = do
    say (verbose console (codes "Loading: " ++ path))
    contents ← pure (of_errno (env.read_file path))
    elfio ← pure (of_elfio (env.load_elf contents))
    tables ← pure (display_elf_info env.str_section_type elfio console)
    say tables
    file ← pure (input_file sorter elfio)
    say (verbose console (codes "Entry: " ++ to_hex file.entry))
    say (verbose console (codes "Load address: " ++ to_hex file.load_address))
    size ← pure (loaded_data_size file)
    say (
        verbose console (
          codes "Total size of loaded data: "
          ++ (to_hex size ++ (codes " (" ++ (decimal size ++ codes ")")))))
    pure (throw_if (size == 0) too_small)
    pure (ok file)

  pub load_input_file : Trace InputFile
  unfolding try_load
  load_input_file = rethrow path try_load

-- What `fix_cartridge_for_ezf_advance` prints.
abbrev pub ends_in_0xff : List ℕ → Bool
ends_in_0xff [] = false
ends_in_0xff (b ∷ bytes) = back b bytes == 0xff

unfoldable pub ezf_advance_warning : Console → List ℕ → List Line
ezf_advance_warning console bytes =
    if ends_in_0xff bytes
    then warn console
        (codes "Last byte of cart was 0xff. Appended padding word to protect against EZF Advance")
    else []

notes : Console → List Text → List Line
notes console [] = []
notes console (info ∷ rest) = out console (codes "Note: " ++ info) ++ notes console rest

unfoldable pub display_sizes : Cartridge → Console → List Line
unfolding notes
display_sizes cartridge console =
    verbose console (codes "Packer                : " ++ cartridge.packer)
    ++ (verbose console (
          codes "Compressed binary size: "
          ++ (decimal_in 4 cartridge.compressed_size ++ codes " bytes"))
        ++ (verbose console (
              codes "Depacker size         : "
              ++ (decimal_in 4 cartridge.depacker_size
                  ++ codes " bytes (excluding code in cartridge header)"))
            ++ (verbose console (
                  codes "Cartridge size        : "
                  ++ (decimal_in 4 (length cartridge.bytes) ++ codes " bytes"))
                ++ notes console cartridge.info)))

module _ (l : Libraries) (file : InputFile) (options : Options l.encoder.Parameters)
    (console : Console) where
  -- The body of the loop.
  pub pack_one : Packer → Trace Cartridge
  pack_one packer = do
    cartridge ← pure (pack_with l packer file options)
    say (ezf_advance_warning console cartridge.bytes)
    let fixed : Cartridge = record cartridge {
      bytes = fix_cartridge_for_ezf_advance cartridge.bytes;
    }
    say (display_sizes fixed console)
    pure (ok fixed)

  -- The loop of `try_all_packers`.
  pub pack_all : List Packer → Trace (List Cartridge)
  pack_all [] = pure (ok [])
  pack_all (packer ∷ rest) = do
    cartridge ← pack_one packer
    cartridges ← pack_all rest
    pure (ok (cartridge ∷ cartridges))

  abbrev found : Option Cartridge → Result Cartridge
  found none = err no_packer_could_compress
  found (some smallest) = ok smallest

  pub try_all_packers : Trace Cartridge
  try_all_packers = do
    packers ← pure (get_packers options)
    cartridges ← pack_all packers
    pure (found (smallest_cartridge cartridges))

-- The `try` block of `write_to_disk`: `narrow<streamsize>` throws no `system_error`.
abbrev streamsize_max : ℕ
streamsize_max = 2 ^ 63

-- What follows a failed open or write: `remove_output_file`, which ignores errors.
abbrev failed : Environment → Text → ℕ → List Action → Trace (Unit {0})
failed env filename e actions = (
  actions ++ removed filename (env.remove_file filename) ∷ [],
  err (could_not_write filename (system_error e)),
)

-- The destructor closes the file if an exception is thrown. What `close` reports is not looked at.
abbrev pub written : Environment → Text → List ℕ → Option ℕ → Trace (Unit {0})
written env filename bytes (some e) = failed env filename e (
    opened filename
    ∷ wrote filename bytes (some e)
    ∷ closed filename (env.close_output filename bytes)
    ∷ [])
written env filename bytes none = (
  opened filename
      ∷ wrote filename bytes none
      ∷ closed filename (env.close_output filename bytes)
      ∷ [],
  ok tt,
)

abbrev pub write : Environment → Text → List ℕ → Option ℕ → Trace (Unit {0})
write env filename bytes (some e) = failed env filename e []
write env filename bytes none =
    if ltb (length bytes) streamsize_max
    then written env filename bytes (env.write_output filename bytes)
    else (
      opened filename ∷ closed filename (env.close_output filename []) ∷ [],
      err narrowing_error,
    )

pub write_to_disk : Environment → List ℕ → Text → Console → Trace (Unit {0})
write_to_disk env bytes filename console = do
  say (verbose console (codes "Writing: " ++ filename))
  write env filename bytes (env.open_output filename)

pub pack :
    (l : Libraries) → Environment → SectionSort → Options l.encoder.Parameters → Trace (Unit {0})
pack l env sorter options = do
  let console = create_console options
  file ← load_input_file env sorter options.input_file console
  cartridge ← try_all_packers l file options console
  say (
      verbose console (
        codes "Final size of cartridge produced by "
        ++ (cartridge.packer
            ++ (codes ": " ++ (decimal (length cartridge.bytes) ++ codes " bytes")))))
  write_to_disk env cartridge.bytes options.output_file console
