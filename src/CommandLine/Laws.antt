-- ===== src/CommandLine/Laws.antt =====
-- What a successful parse of the command line promises.
use shrinkler_gba.CommandLine.{
  Occurrence, parse_packer, handle_option, handle_options, set_packer, complete, parse_command_line,
  parsed, with_output_file, Parser, Shrinkler, handle_int, shrinkler_handler, IntHandler, Ending,
  Flags, ParseResult, exits, refused, returns,
}
use shrinkler_gba.Packer.{Packer, PackerInfo, find_info, create_all_packers}
use shrinkler_gba.Options.{Options, has_output_file, default_options, is_empty}
use shrinkler_gba.Pack.Choice.{get_packers, packers_for, get_packer}
use shrinkler_gba.Base.{
  List, Option, Text, ◌≡◌, ok, some, Bool-cases, none, none_ne_some, refl, true, ◌∷◌, Option-cases,
  some-injective, text_eq, codes, inl, sym, inr, [], ℕ, not, ok-injective, ok_ne_err, ◌++◌, Result,
  ◌≢◌,
}
use mathlib.Core.Path.{subst}
use shrinkler_gba.CommandLine.Paths.{default_output_file, replace_extension, stem, filename}

-- The packer is registered, if one is chosen.
abbrev pub IsRegistered : Option Text → Type 0
IsRegistered none = Unit
IsRegistered (some name) = (pi : PackerInfo) × (find_info name ≡ some pi)

parse_packer-IsRegistered :
    (arg : Text) (p : Option Text) → parse_packer arg ≡ some p → IsRegistered p
unfolding parse_packer
parse_packer-IsRegistered arg p h = elim (Bool-cases (text_eq arg (codes "best"))) [
  | inl best ↦ subst IsRegistered (some-injective (rw best at h)) tt
  | inr other ↦ elim (Option-cases (find_info arg)) [
    | inl missing ↦ absurd (none_ne_some (rw (other, missing) at h))
    | inr (pi, found) ↦ subst IsRegistered (some-injective (rw (other, found) at h)) (pi, found)
  ]
]

module _ {P : Type 0} (parser : Parser) (lib : Shrinkler P) where
  set_packer-IsRegistered :
      (options options' : Options P) (r : Option (Option Text))
      → ((p : Option Text) → r ≡ some p → IsRegistered p)
      → set_packer options r ≡ some options'
      → IsRegistered options'.packer
  set_packer-IsRegistered options options' none ok_packer h = absurd (none_ne_some h)
  set_packer-IsRegistered options options' (some p) ok_packer h =
      subst (λ (o : Options P). IsRegistered o.packer) (some-injective h) (ok_packer p refl)

  kept :
      (options next options' : Options P)
      → ◌≡◌ {A = Option (Options P)} (some next) (some options')
      → next.packer ≡ options.packer
      → IsRegistered options.packer
      → IsRegistered options'.packer
  kept options next options' h same registered =
      subst (λ (o : Options P). IsRegistered o.packer) (some-injective h)
        (subst IsRegistered (sym same) registered)

  handle_int-IsRegistered :
      (handler : IntHandler P) (n : ℕ) (options options' : Options P)
      → IsRegistered options.packer
      → handle_int parser lib handler n options ≡ some options'
      → IsRegistered options'.packer
  unfolding handle_int
  handle_int-IsRegistered handler n options options' r h =
      elim (Bool-cases (parser.accepts handler.min handler.max n)) [
        | inl accepted ↦ kept options _ options' (rw accepted at h) refl r
        | inr rejected ↦ absurd (none_ne_some (rw rejected at h))
      ]

  handle_option-IsRegistered :
      (o : Occurrence) (options options' : Options P)
      → IsRegistered options.packer
      → handle_option parser lib o options ≡ some options'
      → IsRegistered options'.packer
  unfolding handle_option
  handle_option-IsRegistered (Occurrence.packer name) options options' r h =
      set_packer-IsRegistered options options' (parse_packer name) (parse_packer-IsRegistered name)
        h
  handle_option-IsRegistered (Occurrence.output_file name) options options' r h =
      kept options _ options' h refl r
  handle_option-IsRegistered Occurrence.verbose options options' r h =
      kept options _ options' h refl r
  handle_option-IsRegistered Occurrence.no_code_in_header options options' r h =
      kept options _ options' h refl r
  handle_option-IsRegistered Occurrence.debug_checks options options' r h =
      kept options _ options' h refl r
  handle_option-IsRegistered (Occurrence.shrinkler o n) options options' r h =
      handle_int-IsRegistered (shrinkler_handler lib o) n options options' r h

  handle_options-IsRegistered :
      (os : List Occurrence) (options options' : Options P)
      → IsRegistered options.packer
      → handle_options parser lib os options ≡ some options'
      → IsRegistered options'.packer
  unfolding handle_options
  handle_options-IsRegistered [] options options' r h = kept options options options' h refl r
  handle_options-IsRegistered (o ∷ os) options options' r h =
      elim (Option-cases (handle_option parser lib o options)) [
        | inl failed ↦ absurd (none_ne_some (rw (failed, handle_options) at h))
        | inr (next, handled) ↦
            handle_options-IsRegistered os next options'
              (handle_option-IsRegistered o options next r handled)
              (rw (handled, handle_options) at h)
      ]

module _ {P : Type 0} where
  -- What holds of the options of a successful parse.
  pub record IsComplete (options : Options P) : Type 0 where
    pub registered : IsRegistered options.packer
    pub packers : (ps : List Packer) × (get_packers options ≡ ok ps)
    pub output : has_output_file options ≡ true

packers_for-ok : (o : Option Text) → IsRegistered o → (ps : List Packer) × (packers_for o ≡ ok ps)
unfolding packers_for get_packer
packers_for-ok none r = (create_all_packers, refl)
packers_for-ok (some name) (pi, found) = (pi.create ∷ [], rw found refl)

not_empty : (xs : Text) (y : ℕ) (ys : Text) → not (is_empty (xs ++ y ∷ ys)) ≡ true
not_empty [] y ys = refl
not_empty (x ∷ xs) y ys = refl

default_output_file-not_empty : (path : Text) → not (is_empty (default_output_file path)) ≡ true
unfolding default_output_file replace_extension
default_output_file-not_empty path = not_empty (stem (filename path)) b'.' (codes "gba")

module _ {P : Type 0} where
  exits_ne_returns :
      {status : ℕ} {r : Result (Option (Options P))}
      → ◌≢◌ {A = ParseResult P} (exits status) (returns r)
  exits_ne_returns h = cc

  pub returns-injective :
      {r r' : Result (Option (Options P))}
      → ◌≡◌ {A = ParseResult P} (returns r) (returns r')
      → r ≡ r'
  returns-injective {r} h = cc

module _ {P : Type 0} where
  IsComplete-of_IsRegistered :
      (options : Options P) → IsRegistered options.packer → IsComplete (with_output_file options)
  unfolding has_output_file get_packers
  IsComplete-of_IsRegistered options r = elim (Bool-cases (has_output_file options)) [
    | inl given ↦
        rw given
          (record { registered = r; packers = packers_for-ok options.packer r; output = given })
    | inr missing ↦ rw missing (record {
      registered = r;
      packers = packers_for-ok options.packer r;
      output = default_output_file-not_empty options.input_file;
    })
  ]

  complete-IsComplete :
      (handled options : Options P) (ending : Ending)
      → IsRegistered handled.packer
      → complete handled ending ≡ returns (ok (some options))
      → IsComplete options
  complete-IsComplete handled options (Ending.exited status) r h = absurd (exits_ne_returns h)
  complete-IsComplete handled options (Ending.failed errnum) r h =
      absurd (none_ne_some (ok-injective (returns-injective h)))
  complete-IsComplete handled options (Ending.returned []) r h =
      absurd (ok_ne_err (sym (returns-injective h)))
  complete-IsComplete handled options (Ending.returned (arg ∷ args)) r h =
      subst IsComplete (some-injective (ok-injective (returns-injective h)))
        (IsComplete-of_IsRegistered (record handled { input_file = arg }) r)

  refused-unsuccessful :
      (ending : Ending) (options : Options P) → refused ending ≢ returns (ok (some options))
  refused-unsuccessful (Ending.exited status) options h = exits_ne_returns h
  refused-unsuccessful (Ending.failed errnum) options h =
      none_ne_some (ok-injective (returns-injective h))
  refused-unsuccessful (Ending.returned args) options h =
      none_ne_some (ok-injective (returns-injective h))

module _ {P : Type 0} (parser : Parser) (lib : Shrinkler P) where
  parsed-IsComplete :
      (flags : Flags) (ending : Ending) (handled : Option (Options P)) (options : Options P)
      → ((o : Options P) → handled ≡ some o → IsRegistered o.packer)
      → parsed parser lib flags ending handled ≡ returns (ok (some options))
      → IsComplete options
  parsed-IsComplete flags ending none options r h =
      absurd (refused-unsuccessful (parser.refuse flags) options h)
  parsed-IsComplete flags ending (some o) options r h =
      complete-IsComplete o options ending (r o refl) h

  -- A successful parse gives options with an output file that is not empty and, whatever was given as
  -- packer, with packers to try: `get_packers` does not throw.
  pub parse_command_line-IsComplete :
      (parameters : P) (flags : Flags) (argv : List Text) (options : Options P)
      → parse_command_line parser lib parameters flags argv ≡ returns (ok (some options))
      → IsComplete options
  unfolding parse_command_line
  parse_command_line-IsComplete parameters flags argv options =
      let (occurrences, ending) = parser.parse flags argv in
      parsed-IsComplete flags ending
        (handle_options parser lib occurrences (default_options parameters)) options
        (λ o. handle_options-IsRegistered parser lib occurrences (default_options parameters) o tt)
