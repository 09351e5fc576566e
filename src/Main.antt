-- ===== src/Main.antt =====
-- src/shrinkler_gba_console/main.cpp: the program. The text that an exception prints is left out.
mod Examples
use shrinkler_gba.CommandLine.{
  Shrinkler, Parser, ParseResult, parse_command_line, exits, none_set, returns,
}
use shrinkler_gba.CommandLine.Laws.{IsComplete, parse_command_line-IsComplete}
use shrinkler_gba.InputFile.Sort.{SectionSort}
use shrinkler_gba.Options.{Options}
use shrinkler_gba.Packer.{Libraries}
use shrinkler_gba.Pack.{Environment, pack}
use shrinkler_gba.Pack.Effects.{Action, Trace}
use shrinkler_gba.Base.{List, Result, ℕ, Text, err, ok, ◌≡◌, [], arith, some, none, refl, ◌∙◌, ap}

abbrev pub exit_success : ℕ
exit_success = 0

abbrev pub exit_failure : ℕ
exit_failure = 1

-- `catch`
abbrev exit_status : Result (Unit {0}) → ℕ
exit_status (ok done) = exit_success
exit_status (err e) = exit_failure

status_ok : (r : Result (Unit {0})) → exit_status r ≡ exit_success → r ≡ ok tt
status_ok (ok done) h = refl
status_ok (err e) h = absurd (omega (arith, h))

module _ (l : Libraries) (env : Environment) (sorter : SectionSort) (parser : Parser)
    (lib : Shrinkler l.encoder.Parameters) where
  -- A parser that ends the program has printed its messages itself.
  abbrev pub run_parsed : ParseResult l.encoder.Parameters → List Action × ℕ
  run_parsed (exits status) = ([], status)
  run_parsed (returns (err e)) = ([], exit_failure)
  run_parsed (returns (ok none)) = ([], exit_failure)
  run_parsed (returns (ok (some options))) =
      let (actions, result) = pack l env sorter options in (actions, exit_status result)

  unfoldable pub main : List Text → List Action × ℕ
  main argv = run_parsed (parse_command_line parser lib l.encoder.default_parameters none_set argv)

  -- Either the parser has ended the program, or the program has packed.
  pub data HasSucceeded (argv : List Text) : Type 0 where
    informed :
        parse_command_line parser lib l.encoder.default_parameters none_set argv
          ≡ exits exit_success
        → (main argv).0 ≡ []
        → HasSucceeded argv
    packed :
        (options : Options l.encoder.Parameters)
        → parse_command_line parser lib l.encoder.default_parameters none_set argv
          ≡ returns (ok (some options))
        → IsComplete options
        → (pack l env sorter options).1 ≡ ok tt
        → (main argv).0 ≡ (pack l env sorter options).0
        → HasSucceeded argv

  run_parsed-HasSucceeded :
      (argv : List Text) (r : ParseResult l.encoder.Parameters)
      → parse_command_line parser lib l.encoder.default_parameters none_set argv ≡ r
      → (run_parsed r).1 ≡ exit_success
      → HasSucceeded argv
  unfolding main
  run_parsed-HasSucceeded argv (exits status) e h =
      informed (e ∙ ap exits h) (ap (λ (x : ParseResult l.encoder.Parameters). (run_parsed x).0) e)
  run_parsed-HasSucceeded argv (returns (err x)) e h = absurd (omega (arith, h))
  run_parsed-HasSucceeded argv (returns (ok none)) e h = absurd (omega (arith, h))
  run_parsed-HasSucceeded argv (returns (ok (some options))) e h =
      packed options e
        (parse_command_line-IsComplete parser lib l.encoder.default_parameters none_set argv options
          e)
        (status_ok (pack l env sorter options).1 h)
        (ap (λ (x : ParseResult l.encoder.Parameters). (run_parsed x).0) e)

  -- If the program exits with success, then either the parser has ended it with that status, as for
  -- `--help`, and it does nothing itself; or the command line was parsed into complete options, `pack`
  -- succeeded with them, and the program does what `pack` does.
  pub main-HasSucceeded : (argv : List Text) → (main argv).1 ≡ exit_success → HasSucceeded argv
  unfolding main
  main-HasSucceeded argv h =
      run_parsed-HasSucceeded argv
        (parse_command_line parser lib l.encoder.default_parameters none_set argv) refl h
