-- ===== src/Options.antt =====
-- src/shrinkler_gba/options.cppm. The type of the Shrinkler parameters belongs to libshrinkler.
use shrinkler_gba.Base.{Bool, Text, Option, false, not, true, [], ◌∷◌, none}

pub record Options (P : Type 0) : Type 0 where
  pub verbose : Bool
  pub input_file : Text
  pub output_file : Text
  pub code_in_header : Bool
  pub debug_checks : Bool
  pub packer : Option Text
  pub shrinkler_parameters : P

-- The values of a new object.
abbrev pub default_options : {P : Type 0} → P → Options P
default_options p = record {
  verbose = false;
  input_file = [];
  output_file = [];
  code_in_header = true;
  debug_checks = false;
  packer = none;
  shrinkler_parameters = p;
}

-- `path::empty()`
abbrev pub is_empty : Text → Bool
is_empty [] = true
is_empty (c ∷ s) = false

unfoldable pub has_output_file : {P : Type 0} → Options P → Bool
has_output_file options = not (is_empty options.output_file)
