-- ===== src/TablePrinter/Aligned.antt =====
-- `table_printer::print`: its rows are printed, and every column begins at one offset.
use shrinkler_gba.TablePrinter.{
  pad_column, columns, column_separator, TablePrinter, print, format_row, print_rows,
}
use shrinkler_gba.TablePrinter.Laws.{FitsColumns, IsWide}
use shrinkler_gba.Base.{
  List, Text, ℕ, All, length, suc, ◌++◌, ◌∷◌, ◌≡◌, ok, ◌+◌, ◌<◌, ◌>>=◌, ◌≤◌, [], zero, ◌^◌, arith,
  refl, sym, length-append, ok-injective, length-replicate, ◌∙◌, u64, >>=-eq-ok, ◌-◌, ap, replicate,
}
use mathlib.Core.List.{append-nil, append_assoc}
use shrinkler_gba.Console.{Console, Line, verbose}
use mathlib.Core.Path.{subst}

-- Where column `n` begins, behind the indent.
abbrev pub column_start : ℕ → List ℕ → ℕ
column_start zero widths = 0
column_start (suc n) [] = 0
column_start (suc n) (width ∷ widths) = width + 1 + column_start n widths

abbrev AreBounded : List ℕ → Type 0
AreBounded widths = All (λ (width : ℕ). width < 2 ^ 64) widths

-- Each cell of the row stands in the text at the offset of its column.
abbrev pub IsAligned : ℕ → List ℕ → List Text → Text → Type 0
IsAligned indent widths row text =
    (before : List Text) (cell : Text) (behind : List Text)
    → row ≡ before ++ cell ∷ behind
    → (front tail : Text) × (text ≡ front ++ (cell ++ tail))
      × (length front ≡ indent + column_start (length before) widths)

-- A cell with its padding and the separator.
abbrev padded : Text → ℕ → Text → Text
padded text width rest = text ++ (pad_column text width ++ (column_separator ++ rest))

-- The text up to the next column is as long as the column and its separator.
length-padded :
    (text : Text) (width : ℕ)
    → length text ≤ width
    → width < 2 ^ 64
    → length (text ++ (pad_column text width ++ column_separator)) ≡ width + 1
length-padded text width fit small = omega (
  arith,
  length-append text (pad_column text width ++ column_separator),
  length-append (pad_column text width) column_separator,
  length-replicate {A = ℕ} (u64 (width + 2 ^ 64 - length text)) b' ',
)

columns-cons :
    (text : Text) (before : List Text) (cell : Text) (behind : List Text) (width : ℕ)
    (widths : List ℕ)
    → columns (text ∷ (before ++ cell ∷ behind)) (width ∷ widths)
      ≡ (columns (before ++ cell ∷ behind) widths >>= λ rest. ok (padded text width rest))
unfolding columns
columns-cons text [] cell behind width widths = refl
columns-cons text (b ∷ before) cell behind width widths = refl

columns-ok :
    (row : List Text) (widths : List ℕ)
    → FitsColumns row widths
    → (text : Text) × (columns row widths ≡ ok text)
unfolding columns
columns-ok [] widths h = ([], refl)
columns-ok (text ∷ row) [] h = absurd h
columns-ok (text ∷ []) (width ∷ widths) h = (text, refl)
columns-ok (text ∷ next ∷ row) (width ∷ widths) (le, h) =
    let (rest, e) = columns-ok (next ∷ row) widths h in (padded text width rest, rw e refl)

columns-at :
    (before : List Text) (cell : Text) (behind : List Text) (widths : List ℕ) (text : Text)
    → FitsColumns (before ++ cell ∷ behind) widths
    → AreBounded widths
    → columns (before ++ cell ∷ behind) widths ≡ ok text
    → (front tail : Text) × (text ≡ front ++ (cell ++ tail))
      × (length front ≡ column_start (length before) widths)
unfolding columns
columns-at [] cell [] widths text h b e =
    ([], [], sym (ok-injective e) ∙ sym (append-nil cell), refl)
columns-at [] cell (next ∷ behind) [] text h b e = absurd h
columns-at [] cell (next ∷ behind) (width ∷ widths) text h b e =
    let (rest, _, e') = >>=-eq-ok (columns (next ∷ behind) widths) _ e in
    ([], pad_column cell width ++ (column_separator ++ rest), sym (ok-injective e'), refl)
columns-at (c ∷ before) cell behind [] text h b e = absurd h
columns-at (c ∷ before) cell behind (width ∷ widths) text (le, h) (lt, b) e =
    let (rest, printed, e') =
      >>=-eq-ok (columns (before ++ cell ∷ behind) widths) _
        (sym (columns-cons c before cell behind width widths) ∙ e) in
    let (front, tail, split, size) = columns-at before cell behind widths rest h b printed in
    let begin : Text = c ++ (pad_column c width ++ column_separator) in
    (
      begin ++ front,
      tail,
      sym (ok-injective e') ∙ ap (padded c width) split ∙ simp append_assoc,
      length-append begin front ∙ omega (arith, size, length-padded c width le lt),
    )

-- The texts that rows are printed as, one for each row.
abbrev pub AreAligned : ℕ → List ℕ → List (List Text) → List Text → Type 0
AreAligned indent widths [] [] = Unit
AreAligned indent widths (row ∷ rows) (text ∷ texts) =
    IsAligned indent widths row text × AreAligned indent widths rows texts
AreAligned indent widths _ _ = ⊥

abbrev pub verbose_all : Console → List Text → List Line
verbose_all c [] = []
verbose_all c (text ∷ texts) = verbose c text ++ verbose_all c texts

module _ (t : TablePrinter) (bounded : AreBounded t.column_widths) where
  format_row-IsAligned :
      (row : List Text)
      → FitsColumns row t.column_widths
      → (text : Text) × (format_row t row ≡ ok text)
        × IsAligned t.table_indent t.column_widths row text
  unfolding format_row
  format_row-IsAligned row fit =
      let (text, printed) = columns-ok row t.column_widths fit in
      let spaces : Text = replicate t.table_indent b' ' in
      (
        spaces ++ text,
        rw printed refl,
        λ before cell behind e.
            let fit' = subst (λ (r : List Text). FitsColumns r t.column_widths) e fit in
            let printed' = ap (λ (r : List Text). columns r t.column_widths) (sym e) ∙ printed in
            let (front, tail, split, size) =
              columns-at before cell behind t.column_widths text fit' bounded printed' in
            (
              spaces ++ front,
              tail,
              ap (λ (s : Text). spaces ++ s) split ∙ simp append_assoc,
              length-append spaces front
                  ∙ omega (arith, size, length-replicate {A = ℕ} t.table_indent b' '),
            ),
      )

  print_rows-AreAligned :
      (c : Console) (rows : List (List Text))
      → All (λ (row : List Text). FitsColumns row t.column_widths) rows
      → (texts : List Text) × (print_rows c t rows ≡ ok (verbose_all c texts))
        × AreAligned t.table_indent t.column_widths rows texts
  unfolding print_rows
  print_rows-AreAligned c [] h = ([], refl, tt)
  print_rows-AreAligned c (row ∷ rows) (fit, h) =
      let (text, printed, aligned) = format_row-IsAligned row fit in
      let (texts, others, rest) = print_rows-AreAligned c rows h in
      (text ∷ texts, rw printed (rw others refl), (aligned, rest))

-- A table with columns that are wide enough is printed, a line for each row, and column `n` begins
-- at one offset in all lines: behind the indent, the earlier columns and a separator for each.
pub print-AreAligned :
    (c : Console) (t : TablePrinter)
    → IsWide t
    → (texts : List Text) × (print t c ≡ ok (verbose_all c texts))
      × AreAligned t.table_indent t.column_widths t.rows texts
unfolding print
print-AreAligned c t wide = print_rows-AreAligned t wide.bounded c t.rows wide.fits
