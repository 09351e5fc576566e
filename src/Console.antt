-- ===== src/Console.antt =====
-- src/shrinkler_gba/console.cppm and console.cpp: where messages go. A stream is a number, which stands for the
-- address of a `std::ostream`; what is printed is the list of the lines that the streams receive.
use shrinkler_gba.Base.{ℕ, Bool, Option, Text, some, List, false, [], codes, true, none, ◌++◌, ◌∷◌}

abbrev pub Stream : Type 0
Stream = ℕ

abbrev pub cout : Stream
cout = 0

-- `none` is a null pointer.
pub record Console : Type 0 where
  pub out_stream : Option Stream
  pub warn_stream : Option Stream
  pub verbose_stream : Option Stream

-- The values of a new object.
abbrev pub default_console : Console
default_console = record {
  out_stream = some cout;
  warn_stream = some cout;
  verbose_stream = some cout;
}

-- A line, without its end, and the stream that it goes to.
pub record Line : Type 0 where
  pub stream : Stream
  pub text : Text

unfoldable pub println : Option Stream → Text → List Line
println none text = []
println (some stream) text = record { stream = stream; text = text } ∷ []

unfoldable pub out : Console → Text → List Line
unfolding println
out c text = println c.out_stream text

unfoldable pub warn : Console → Text → List Line
unfolding println
warn c text = println c.warn_stream (codes "Warning: " ++ text)

unfoldable pub verbose : Console → Text → List Line
unfolding println
verbose c text = println c.verbose_stream text

abbrev pub is_some : Option Stream → Bool
is_some none = false
is_some (some stream) = true

unfoldable pub is_verbose_enabled : Console → Bool
is_verbose_enabled c = is_some c.verbose_stream
