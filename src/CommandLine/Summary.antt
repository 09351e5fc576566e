-- ===== src/CommandLine/Summary.antt =====
-- The options of a parse, each described by the occurrences that concern it.
use shrinkler_gba.CommandLine.{
  ShrinklerOption, Occurrence, Shrinkler, Parser, parse_packer, known, handle_option,
  handle_options, handle_int, shrinkler_handler, set_packer, parse_command_line, parsed,
  with_output_file, Flags, Ending, returns, ParseResult, refused,
}
use shrinkler_gba.Packer.{PackerInfo, find_info}
use shrinkler_gba.Options.{Options, default_options, has_output_file}
use shrinkler_gba.Base.{
  List, Option, Text, Bool, [], false, if◌then◌else◌, text_eq, true, ◌||◌, ◌∷◌, ◌≡◌, codes, not,
  refl, some, ◌&&◌, none, Bool-cases, ap, inr, inl, ok, ◌∙◌,
}
use shrinkler_gba.CommandLine.Paths.{default_output_file}

abbrev pub any : (Occurrence → Bool) → List Occurrence → Bool
any test [] = false
any test (o ∷ os) = test o || any test os

abbrev pub all : (Occurrence → Bool) → List Occurrence → Bool
all test [] = true
all test (o ∷ os) = test o && all test os

abbrev pub is_verbose : Occurrence → Bool
is_verbose Occurrence.verbose = true
is_verbose _ = false

abbrev pub is_debug_checks : Occurrence → Bool
is_debug_checks Occurrence.debug_checks = true
is_debug_checks _ = false

abbrev pub is_no_code_in_header : Occurrence → Bool
is_no_code_in_header Occurrence.no_code_in_header = true
is_no_code_in_header _ = false

-- The last packer, if it is not `best`.
abbrev pub last_packer : Option Text → List Occurrence → Option Text
last_packer p [] = p
last_packer p (Occurrence.packer name ∷ os) =
    last_packer (if text_eq name (codes "best") then none else some name) os
last_packer p (_ ∷ os) = last_packer p os

abbrev pub last_output_file : Text → List Occurrence → Text
last_output_file f [] = f
last_output_file f (Occurrence.output_file name ∷ os) = last_output_file name os
last_output_file f (_ ∷ os) = last_output_file f os

abbrev is_some : Option PackerInfo → Bool
is_some none = false
is_some (some pi) = true

or_true : (b : Bool) → (b || true) ≡ true
or_true true = refl
or_true false = refl

and_false : (b : Bool) → (b && false) ≡ false
and_false true = refl
and_false false = refl

module _ {P : Type 0} (parser : Parser) (lib : Shrinkler P) where
  -- The setters of the Shrinkler options, in their order.
  abbrev pub settings : P → List Occurrence → P
  settings p [] = p
  settings p (Occurrence.shrinkler ShrinklerOption.same_length n ∷ os) =
      settings (lib.same_length n p) os
  settings p (Occurrence.shrinkler ShrinklerOption.effort n ∷ os) = settings (lib.effort n p) os
  settings p (Occurrence.shrinkler ShrinklerOption.iterations n ∷ os) =
      settings (lib.iterations n p) os
  settings p (Occurrence.shrinkler ShrinklerOption.length_margin n ∷ os) =
      settings (lib.length_margin n p) os
  settings p (Occurrence.shrinkler ShrinklerOption.preset n ∷ os) = settings (lib.preset n p) os
  settings p (Occurrence.shrinkler ShrinklerOption.references n ∷ os) =
      settings (lib.references n p) os
  settings p (Occurrence.shrinkler ShrinklerOption.skip_length n ∷ os) =
      settings (lib.skip_length n p) os
  settings p (_ ∷ os) = settings p os

  -- A packer is known or `best`, and the values of the Shrinkler options are within their limits.
  abbrev pub is_accepted : Occurrence → Bool
  is_accepted (Occurrence.packer name) = text_eq name (codes "best") || is_some (find_info name)
  is_accepted (Occurrence.shrinkler ShrinklerOption.same_length n) =
      parser.accepts lib.min_same_length lib.max_same_length n
  is_accepted (Occurrence.shrinkler ShrinklerOption.effort n) =
      parser.accepts lib.min_effort lib.max_effort n
  is_accepted (Occurrence.shrinkler ShrinklerOption.iterations n) =
      parser.accepts lib.min_iterations lib.max_iterations n
  is_accepted (Occurrence.shrinkler ShrinklerOption.length_margin n) =
      parser.accepts lib.min_length_margin lib.max_length_margin n
  is_accepted (Occurrence.shrinkler ShrinklerOption.preset n) =
      parser.accepts lib.min_preset lib.max_preset n
  is_accepted (Occurrence.shrinkler ShrinklerOption.references n) =
      parser.accepts lib.min_references lib.max_references n
  is_accepted (Occurrence.shrinkler ShrinklerOption.skip_length n) =
      parser.accepts lib.min_skip_length lib.max_skip_length n
  is_accepted _ = true

  abbrev pub summary : List Occurrence → Options P → Options P
  summary os options = record options {
    verbose = any is_verbose os || options.verbose;
    debug_checks = any is_debug_checks os || options.debug_checks;
    code_in_header = not (any is_no_code_in_header os) && options.code_in_header;
    packer = last_packer options.packer os;
    output_file = last_output_file options.output_file os;
    shrinkler_parameters = settings options.shrinkler_parameters os;
  }

  abbrev outcome : Bool → Options P → Option (Options P)
  outcome accepted options = if accepted then some options else none

  packer_lem :
      (name : Text) (best : Bool) (found : Option PackerInfo) (options : Options P)
      → set_packer options (if best then some none else known name found)
        ≡ outcome
            (best || is_some found)
            (record options { packer = if best then none else some name })
  packer_lem name true found options = refl
  packer_lem name false none options = refl
  packer_lem name false (some pi) options = refl

  handle_option_lem :
      (o : Occurrence) (options : Options P)
      → handle_option parser lib o options ≡ outcome (is_accepted o) (summary (o ∷ []) options)
  unfolding handle_option parse_packer handle_int shrinkler_handler
  handle_option_lem (Occurrence.output_file name) options = refl
  handle_option_lem Occurrence.verbose options = refl
  handle_option_lem (Occurrence.packer name) options =
      packer_lem name (text_eq name (codes "best")) (find_info name) options
  handle_option_lem Occurrence.no_code_in_header options = refl
  handle_option_lem Occurrence.debug_checks options = refl
  handle_option_lem (Occurrence.shrinkler ShrinklerOption.same_length n) options = refl
  handle_option_lem (Occurrence.shrinkler ShrinklerOption.effort n) options = refl
  handle_option_lem (Occurrence.shrinkler ShrinklerOption.iterations n) options = refl
  handle_option_lem (Occurrence.shrinkler ShrinklerOption.length_margin n) options = refl
  handle_option_lem (Occurrence.shrinkler ShrinklerOption.preset n) options = refl
  handle_option_lem (Occurrence.shrinkler ShrinklerOption.references n) options = refl
  handle_option_lem (Occurrence.shrinkler ShrinklerOption.skip_length n) options = refl

  summary-summary :
      (o : Occurrence) (os : List Occurrence) (options : Options P)
      → summary os (summary (o ∷ []) options) ≡ summary (o ∷ os) options
  summary-summary (Occurrence.output_file name) os options = refl
  summary-summary Occurrence.verbose os options =
      ap (λ (b : Bool). record (summary (Occurrence.verbose ∷ os) options) { verbose = b })
        (or_true (any is_verbose os))
  summary-summary (Occurrence.packer name) os options = refl
  summary-summary Occurrence.no_code_in_header os options =
      ap
        (λ (b : Bool). record (summary (Occurrence.no_code_in_header ∷ os) options) {
          code_in_header = b;
        })
        (and_false (not (any is_no_code_in_header os)))
  summary-summary Occurrence.debug_checks os options =
      ap
        (λ (b : Bool). record (summary (Occurrence.debug_checks ∷ os) options) { debug_checks = b })
        (or_true (any is_debug_checks os))
  summary-summary (Occurrence.shrinkler ShrinklerOption.same_length n) os options = refl
  summary-summary (Occurrence.shrinkler ShrinklerOption.effort n) os options = refl
  summary-summary (Occurrence.shrinkler ShrinklerOption.iterations n) os options = refl
  summary-summary (Occurrence.shrinkler ShrinklerOption.length_margin n) os options = refl
  summary-summary (Occurrence.shrinkler ShrinklerOption.preset n) os options = refl
  summary-summary (Occurrence.shrinkler ShrinklerOption.references n) os options = refl
  summary-summary (Occurrence.shrinkler ShrinklerOption.skip_length n) os options = refl

  handle_options_lem :
      (os : List Occurrence) (options : Options P)
      → handle_options parser lib os options ≡ outcome (all is_accepted os) (summary os options)
  unfolding handle_options
  handle_options_lem [] options = refl
  handle_options_lem (o ∷ os) options = elim (Bool-cases (is_accepted o)) [
    | inl accepted ↦
        rw (handle_options, handle_option_lem o options, accepted)
          (handle_options_lem os (summary (o ∷ []) options)
            ∙ ap (outcome (all is_accepted os)) (summary-summary o os options))
    | inr rejected ↦ rw (handle_options, handle_option_lem o options, rejected) refl
  ]

  -- The output file that is given, or else one that is named after the input file.
  abbrev pub output_or : Text → Text → Text
  output_or file [] = default_output_file file
  output_or file (c ∷ name) = c ∷ name

  abbrev pub with_files : Text → Options P → Options P
  with_files file options = record options {
    input_file = file;
    output_file = output_or file options.output_file;
  }

  with_output_file_lem :
      (file name : Text) (options : Options P)
      → options.output_file ≡ name
      → with_output_file (record options { input_file = file })
        ≡ record options { input_file = file; output_file = output_or file name }
  unfolding has_output_file
  with_output_file_lem file [] options h = rw h refl
  with_output_file_lem file (c ∷ name) options h =
      let given : has_output_file (record options { input_file = file }) ≡ true = rw h refl in
      let same : with_output_file (record options { input_file = file })
          ≡ record options { input_file = file } =
        rw given refl in
      same ∙ ap (λ (x : Text). record options { input_file = file; output_file = x }) h

  abbrev pub result : Bool → Options P → Ending → ParseResult P
  result accepted options ending = if accepted then returns (ok (some options)) else refused ending

  completed :
      (flags : Flags) (file : Text) (args : List Text) (accepted : Bool) (options : Options P)
      → parsed parser lib flags (Ending.returned (file ∷ args)) (outcome accepted options)
        ≡ result accepted (with_files file options) (parser.refuse flags)
  completed flags file args true options =
      ap (λ (o : Options P). returns (ok (some o)))
        (with_output_file_lem file options.output_file options refl)
  completed flags file args false options = refl

  -- If argpppp finds options and a file name, the parse succeeds exactly if every packer is known or
  -- `best` and all values of Shrinkler options are within the limits of their options; if not, the
  -- parser ends the program or there is no success, as argpppp has it for an error of a handler. The
  -- result of a success has the file name, the last packer and output file (if there is none or an empty
  -- one, one named after the input file), the flags that occur, and the parameters after the setters of
  -- the Shrinkler options that occur, in their order.
  pub parse_command_line_lem :
      (parameters : P) (flags : Flags) (argv : List Text) (os : List Occurrence) (file : Text)
      (args : List Text)
      → parser.parse flags argv ≡ (os, Ending.returned (file ∷ args))
      → parse_command_line parser lib parameters flags argv
        ≡ result
            (all is_accepted os)
            (with_files file (summary os (default_options parameters)))
            (parser.refuse flags)
  unfolding parse_command_line
  parse_command_line_lem parameters flags argv os file args h =
      rw (h, handle_options_lem os (default_options parameters))
        (completed flags file args (all is_accepted os) (summary os (default_options parameters)))
