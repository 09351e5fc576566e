-- ===== src/CommandLine.antt =====
-- src/shrinkler_gba/command_line.cppm and command_line.cpp: the options on the command line. The
-- libraries argpppp and libshrinkler are parameters. The handlers of the options are called in the order
-- of the options; one that reports an error ends the parsing.
pub mod Paths
pub mod Laws
pub mod Summary
use Paths.{default_output_file}
use shrinkler_gba.Packer.{PackerInfo, all_info, find_info}
use shrinkler_gba.Options.{Options, default_options, has_output_file}
use shrinkler_gba.Base.{
  ℕ, List, Option, Text, if◌then◌else◌, ◌⊎◌, Result, codes, some, text_eq, ◌∷◌, inl, none, ok, true,
  ◌++◌, [], err, false, inr, out_of_range, Bool,
}

list_packers : List PackerInfo → Text
list_packers [] = []
list_packers (pi ∷ rest) = codes "\n  " ++ (pi.name ++ list_packers rest)

unfoldable pub packer_list : Text
unfolding list_packers
packer_list = codes "\n  best" ++ list_packers all_info

-- The options that set a parameter of the Shrinkler encoder, each to an `int`, which is given by its bit
-- pattern.
pub data ShrinklerOption : Type 0 where
  same_length effort iterations length_margin preset references skip_length : ShrinklerOption

-- What libshrinkler gives for them: the setters and the limits.
pub record Shrinkler (P : Type 0) : Type 0 where
  pub same_length : ℕ → P → P
  pub min_same_length : ℕ
  pub max_same_length : ℕ
  pub effort : ℕ → P → P
  pub min_effort : ℕ
  pub max_effort : ℕ
  pub iterations : ℕ → P → P
  pub min_iterations : ℕ
  pub max_iterations : ℕ
  pub length_margin : ℕ → P → P
  pub min_length_margin : ℕ
  pub max_length_margin : ℕ
  pub preset : ℕ → P → P
  pub min_preset : ℕ
  pub max_preset : ℕ
  pub references : ℕ → P → P
  pub min_references : ℕ
  pub max_references : ℕ
  pub skip_length : ℕ → P → P
  pub min_skip_length : ℕ
  pub max_skip_length : ℕ

-- `set<int>(setter).min(min).max(max)`
pub record IntHandler (P : Type 0) : Type 0 where
  pub setter : ℕ → P → P
  pub min : ℕ
  pub max : ℕ

unfoldable pub shrinkler_handler : {P : Type 0} → Shrinkler P → ShrinklerOption → IntHandler P
shrinkler_handler s ShrinklerOption.same_length = record {
  setter = s.same_length;
  min = s.min_same_length;
  max = s.max_same_length;
}
shrinkler_handler s ShrinklerOption.effort = record {
  setter = s.effort;
  min = s.min_effort;
  max = s.max_effort;
}
shrinkler_handler s ShrinklerOption.iterations = record {
  setter = s.iterations;
  min = s.min_iterations;
  max = s.max_iterations;
}
shrinkler_handler s ShrinklerOption.length_margin = record {
  setter = s.length_margin;
  min = s.min_length_margin;
  max = s.max_length_margin;
}
shrinkler_handler s ShrinklerOption.preset = record {
  setter = s.preset;
  min = s.min_preset;
  max = s.max_preset;
}
shrinkler_handler s ShrinklerOption.references = record {
  setter = s.references;
  min = s.min_references;
  max = s.max_references;
}
shrinkler_handler s ShrinklerOption.skip_length = record {
  setter = s.skip_length;
  min = s.min_skip_length;
  max = s.max_skip_length;
}

-- The options, with their values.
pub data Occurrence : Type 0 where
  output_file : Text → Occurrence
  verbose : Occurrence
  packer : Text → Occurrence
  no_code_in_header : Occurrence
  debug_checks : Occurrence
  shrinkler : ShrinklerOption → ℕ → Occurrence

-- `argpppp::pf`, of which the code uses two flags: with `no_exit` the parser returns an error instead
-- of ending the program, with `no_errs` it prints none.
pub record Flags : Type 0 where
  pub no_errs : Bool
  pub no_exit : Bool

-- `pf::none`, with which the program parses.
abbrev pub none_set : Flags
none_set = record { no_errs = false; no_exit = false }

-- How a parse ends whose options are all handled: the parser ends the program with a status, as for
-- `--help`, `--usage`, `--version` and wrong arguments; or it returns an error number; or it returns the
-- arguments that are no options.
pub data Ending : Type 0 where
  exited : ℕ → Ending
  failed : ℕ → Ending
  returned : List Text → Ending

-- The library argpppp: it finds the occurrences of options, in their order, and then an ending; it
-- says how a parse ends if a handler reports an error; and it tests an `int` against the limits of
-- its handler.
pub record Parser : Type 0 where
  pub parse : Flags → List Text → List Occurrence × Ending
  pub refuse : Flags → Ending
  pub accepts : ℕ → ℕ → ℕ → Bool

-- `parse_packer::handle_option`: an error is `none`, otherwise the new value of `m_packer`.
abbrev known : Text → Option PackerInfo → Option (Option Text)
known arg none = none
known arg (some pi) = some (some arg)

unfoldable pub parse_packer : Text → Option (Option Text)
parse_packer arg = if text_eq arg (codes "best") then some none else known arg (find_info arg)

abbrev set_packer : {P : Type 0} → Options P → Option (Option Text) → Option (Options P)
set_packer options none = none
set_packer options (some name) = some (record options { packer = name })

module _ {P : Type 0} (parser : Parser) (lib : Shrinkler P) where
  unfoldable pub handle_int : IntHandler P → ℕ → Options P → Option (Options P)
  handle_int h n options =
      if parser.accepts h.min h.max n
      then some (record options { shrinkler_parameters = h.setter n options.shrinkler_parameters })
      else none

  unfoldable pub handle_option : Occurrence → Options P → Option (Options P)
  unfolding parse_packer handle_int shrinkler_handler
  handle_option (output_file name) options = some (record options { output_file = name })
  handle_option verbose options = some (record options { verbose = true })
  handle_option (packer name) options = set_packer options (parse_packer name)
  handle_option no_code_in_header options = some (record options { code_in_header = false })
  handle_option debug_checks options = some (record options { debug_checks = true })
  handle_option (shrinkler o n) options = handle_int (shrinkler_handler lib o) n options

  unfoldable pub handle_options : List Occurrence → Options P → Option (Options P)
  handle_options [] options = some options
  handle_options (occurrence ∷ rest) options = elim (handle_option occurrence options) [
    | none ↦ none
    | some options' ↦ handle_options rest options'
  ]

-- `parse_command_line_result` (`none` without success) or an exception, if the parser has not ended the
-- program with a status.
pub data ParseResult (P : Type 0) : Type 0 where
  exits : ℕ → ParseResult P
  returns : Result (Option (Options P)) → ParseResult P

-- What follows a successful parse.
abbrev pub with_output_file : {P : Type 0} → Options P → Options P
with_output_file options =
    if has_output_file options
    then options
    else record options { output_file = default_output_file options.input_file }

abbrev pub complete : {P : Type 0} → Options P → Ending → ParseResult P
complete options (Ending.exited status) = exits status
complete options (Ending.failed errnum) = returns (ok none)
complete options (Ending.returned []) = returns (err out_of_range)
complete options (Ending.returned (arg ∷ args)) =
    returns (ok (some (with_output_file (record options { input_file = arg }))))

-- A handler that reports an error ends the parse, without success also if arguments are returned.
abbrev pub refused : {P : Type 0} → Ending → ParseResult P
refused (Ending.exited status) = exits status
refused (Ending.failed errnum) = returns (ok none)
refused (Ending.returned args) = returns (ok none)

module _ {P : Type 0} (parser : Parser) (lib : Shrinkler P) where
  abbrev pub parsed : Flags → Ending → Option (Options P) → ParseResult P
  parsed flags ending none = refused (parser.refuse flags)
  parsed flags ending (some options) = complete options ending

  unfoldable pub parse_command_line : P → Flags → List Text → ParseResult P
  unfolding handle_options
  parse_command_line parameters flags argv =
      let (occurrences, ending) = parser.parse flags argv in
      parsed flags ending (handle_options parser lib occurrences (default_options parameters))
