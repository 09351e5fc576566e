-- ===== src/TablePrinter/Laws.antt =====
-- The columns of a table are wide enough, and so its rows can be printed and its columns are aligned.
use shrinkler_gba.TablePrinter.{TablePrinter, empty_table, widen, add_row}
use shrinkler_gba.Base.{All, List, ℕ, Text, length, ◌++◌, ◌∷◌, [], arith, ◌<◌, ◌≤◌, ◌^◌}

-- Every text fits its column. The widths come from `std::string`s, so they are less than 2 ^ 64.
abbrev pub FitsColumns : List Text → List ℕ → Type 0
FitsColumns [] widths = Unit
FitsColumns (text ∷ row) [] = ⊥
FitsColumns (text ∷ row) (width ∷ widths) = (length text ≤ width) × FitsColumns row widths

-- Texts that exist have a length that fits a `size_t`.
abbrev pub IsShort : List Text → Type 0
IsShort row = All (λ (text : Text). length text < 2 ^ 64) row

-- The widths of a table fit all of its rows, and a `size_t`.
pub record IsWide (t : TablePrinter) : Type 0 where
  pub fits : All (λ (row : List Text). FitsColumns row t.column_widths) t.rows
  pub bounded : All (λ (width : ℕ). width < 2 ^ 64) t.column_widths

widen-FitsColumns : (row : List Text) (widths : List ℕ) → FitsColumns row (widen row widths)
unfolding widen
widen-FitsColumns [] widths = tt
widen-FitsColumns (text ∷ row) [] = (omega arith, widen-FitsColumns row [])
widen-FitsColumns (text ∷ row) (width ∷ widths) = (ground arith, widen-FitsColumns row widths)

FitsColumns-widen :
    (old row : List Text) (widths : List ℕ)
    → FitsColumns old widths
    → FitsColumns old (widen row widths)
unfolding widen
FitsColumns-widen [] row widths h = tt
FitsColumns-widen (text ∷ old) row [] h = absurd h
FitsColumns-widen (text ∷ old) [] (width ∷ widths) h = h
FitsColumns-widen (text ∷ old) (new ∷ row) (width ∷ widths) (le, h) =
    (ground arith, FitsColumns-widen old row widths h)

All-widen :
    (rows : List (List Text)) (row : List Text) (widths : List ℕ)
    → All (λ (r : List Text). FitsColumns r widths) rows
    → All (λ (r : List Text). FitsColumns r (widen row widths)) (rows ++ row ∷ [])
All-widen [] row widths h = (widen-FitsColumns row widths, tt)
All-widen (r ∷ rows) row widths (first, rest) =
    (FitsColumns-widen r row widths first, All-widen rows row widths rest)

widen-bounded :
    (row : List Text) (widths : List ℕ)
    → IsShort row
    → All (λ (width : ℕ). width < 2 ^ 64) widths
    → All (λ (width : ℕ). width < 2 ^ 64) (widen row widths)
unfolding widen
widen-bounded [] widths short bounded = bounded
widen-bounded (text ∷ row) [] (first, short) bounded = (first, widen-bounded row [] short tt)
widen-bounded (text ∷ row) (width ∷ widths) (first, short) (lt, bounded) =
    (ground arith, widen-bounded row widths short bounded)

-- A new table has no rows and no columns.
pub empty_table-IsWide : IsWide empty_table
empty_table-IsWide = record { fits = tt; bounded = tt }

-- If every column is wide enough for the texts of all rows, then it is so after `add_row` too, for the new row as well, provided
-- that the lengths of its texts fit a `size_t`.
pub add_row-IsWide :
    (row : List Text) (t : TablePrinter) → IsShort row → IsWide t → IsWide (add_row row t)
unfolding add_row
add_row-IsWide row t short h = record {
  fits = All-widen t.rows row t.column_widths h.fits;
  bounded = widen-bounded row t.column_widths short h.bounded;
}
