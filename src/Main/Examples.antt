-- ===== src/Main/Examples.antt =====
-- A run of the whole program, and of its parts on the command line.
use shrinkler_gba.InputFile.Examples.{stable}
use shrinkler_gba.LzssPacker.Examples.{all_options}
use shrinkler_gba.Pack.Examples.{libraries, environment, example_packed}
use shrinkler_gba.Options.{has_output_file, default_options}
use shrinkler_gba.CommandLine.{
  Parser, Occurrence, parse_command_line, handle_options, handle_option, parse_packer, Shrinkler,
  ShrinklerOption, none_set, Ending, returns,
}
use shrinkler_gba.CommandLine.Paths.{
  default_output_file, filename, replace_extension, stem, split_last, default_output_file_lem,
}
use shrinkler_gba.CommandLine.Laws.{IsComplete, parse_command_line-IsComplete}
use shrinkler_gba.Main.{main, exit_success, main-HasSucceeded, HasSucceeded}
use shrinkler_gba.Base.{
  List, codes, ℕ, ◌≡◌, Text, ok, ◌++◌, some, ◌∷◌, [], arith, refl, leb, ◌&&◌, ◌*◌, true,
  if◌then◌else◌, none,
}
use shrinkler_gba.CommandLine.Summary.{parse_command_line_lem}

parser : Parser
parser = record {
  accepts = λ min max n. leb min n && leb n max;
  refuse = λ flags. if flags.no_exit then Ending.failed 22 else Ending.exited 64;
  parse = λ flags argv.
      (Occurrence.packer (codes "lzss-h4") ∷ [], Ending.returned (codes "small.elf" ∷ []));
}

-- The parameters are the effort alone.
lib : Shrinkler ℕ
lib = record {
  same_length = λ n p. p;
  min_same_length = 1;
  max_same_length = 100;
  effort = λ n p. n;
  min_effort = 0;
  max_effort = 100;
  iterations = λ n p. p;
  min_iterations = 1;
  max_iterations = 9;
  length_margin = λ n p. p;
  min_length_margin = 0;
  max_length_margin = 100;
  preset = λ n p. 100 * n;
  min_preset = 1;
  max_preset = 9;
  references = λ n p. p;
  min_references = 1000;
  max_references = 100000;
  skip_length = λ n p. p;
  min_skip_length = 2;
  max_skip_length = 100000;
}

arguments : List Text
arguments = codes "--packer" ∷ codes "lzss-h4" ∷ codes "small.elf" ∷ []

command_line_parsed :
    parse_command_line parser lib 0 none_set arguments ≡ returns (ok (some all_options))
unfolding parse_command_line handle_options handle_option parse_packer parser has_output_file
    default_output_file filename replace_extension stem split_last
command_line_parsed = refl

parse_command_line-IsComplete_example : IsComplete all_options
parse_command_line-IsComplete_example =
    parse_command_line-IsComplete parser lib 0 none_set arguments all_options command_line_parsed

run_succeeds : (main libraries environment stable parser lib arguments).1 ≡ exit_success
unfolding main
run_succeeds = rw command_line_parsed (rw example_packed refl)

main-HasSucceeded_example : HasSucceeded libraries environment stable parser lib arguments
main-HasSucceeded_example =
    main-HasSucceeded libraries environment stable parser lib arguments run_succeeds

-- The file of the test, which has no directory.
default_output_file_lem_example :
    default_output_file (codes "file1" ++ b'.' ∷ codes "elf") ≡ codes "file1" ++ codes ".gba"
default_output_file_lem_example =
    default_output_file_lem none b'f' (codes "ile1") (some (codes "elf")) (omega arith)
      (omega arith) (λ e. cc)

-- Two options that set parameters, of which the second wins.
busy_parser : Parser
busy_parser = record {
  accepts = λ min max n. leb min n && leb n max;
  refuse = λ flags. if flags.no_exit then Ending.failed 22 else Ending.exited 64;
  parse = λ flags argv. (
    Occurrence.shrinkler ShrinklerOption.preset 3
        ∷ Occurrence.verbose
        ∷ Occurrence.shrinkler ShrinklerOption.effort 50
        ∷ [],
    Ending.returned (codes "small.elf" ∷ []),
  );
}

parse_command_line_lem_example :
    parse_command_line busy_parser lib 0 none_set arguments
    ≡ returns (
        ok (
          some (record (default_options 50) {
            verbose = true;
            input_file = codes "small.elf";
            output_file = codes "small.gba";
          })))
unfolding busy_parser lib default_output_file filename replace_extension stem split_last
parse_command_line_lem_example =
    parse_command_line_lem busy_parser lib 0 none_set arguments
      (Occurrence.shrinkler ShrinklerOption.preset 3
        ∷ Occurrence.verbose
        ∷ Occurrence.shrinkler ShrinklerOption.effort 50
        ∷ [])
      (codes "small.elf") [] refl
