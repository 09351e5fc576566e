-- ===== src/TablePrinter.antt =====
-- src/shrinkler_gba/table_printer.cppm and table_printer.cpp: tables with aligned columns.
pub mod Laws
pub mod Aligned
use shrinkler_gba.Console.{Console, Line, verbose}
use shrinkler_gba.Base.{
  ℕ, List, Result, Text, [], if◌then◌else◌, codes, ltb, ok, replicate, u64, ◌++◌, ◌>>=◌, ◌∷◌, err,
  length, ◌+◌, undefined_behaviour, ◌^◌, ◌-◌,
}

pub record TablePrinter : Type 0 where
  pub table_indent : ℕ
  pub rows : List (List Text)
  pub column_widths : List ℕ

-- The values of a new object.
abbrev pub empty_table : TablePrinter
empty_table = record { table_indent = 0; rows = []; column_widths = [] }

abbrev pub max : ℕ → ℕ → ℕ
max a b = if ltb a b then b else a

-- The loop of `add_row`: a new column where `is_new_column`, a wider one otherwise.
pub widen : List Text → List ℕ → List ℕ
widen [] widths = widths
widen (text ∷ row) [] = length text ∷ widen row []
widen (text ∷ row) (width ∷ widths) = max (length text) width ∷ widen row widths

unfoldable pub add_row : List Text → TablePrinter → TablePrinter
unfolding widen
add_row row t = record t { rows = t.rows ++ row ∷ []; column_widths = widen row t.column_widths }

abbrev print_nchars : ℕ → ℕ → Text
print_nchars c n = replicate n c

-- The difference is that of `size_t`.
abbrev pub pad_column : Text → ℕ → Text
pad_column column_text column_width =
    print_nchars b' ' (u64 (column_width + 2 ^ 64 - length column_text))

abbrev pub column_separator : Text
column_separator = codes " "

-- The loop over the columns of a row, with the widths from the current column on. Past the last
-- width the access is undefined.
pub columns : List Text → List ℕ → Result Text
columns [] widths = ok []
columns (text ∷ []) widths = ok text
columns (text ∷ next ∷ row) [] = err undefined_behaviour
columns (text ∷ next ∷ row) (width ∷ widths) = columns (next ∷ row) widths >>= λ rest.
    ok (text ++ (pad_column text width ++ (column_separator ++ rest)))

pub format_row : TablePrinter → List Text → Result Text
unfolding columns
format_row t row =
    columns row t.column_widths >>= λ text. ok (print_nchars b' ' t.table_indent ++ text)

print_rows : Console → TablePrinter → List (List Text) → Result (List Line)
unfolding format_row
print_rows c t [] = ok []
print_rows c t (row ∷ rows) = do
  text ← format_row t row
  lines ← print_rows c t rows
  ok (verbose c text ++ lines)

unfoldable pub print : TablePrinter → Console → Result (List Line)
unfolding print_rows
print t c = print_rows c t t.rows
