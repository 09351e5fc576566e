-- ===== src/ElfInfo/Examples.antt =====
-- Formatted numbers, flags and tables.
use shrinkler_gba.Format.{to_hex, to_hex_padded}
use shrinkler_gba.Format.Laws.{of_hex, of_hex-to_hex}
use shrinkler_gba.Console.{default_console, Line, is_verbose_enabled}
use shrinkler_gba.TablePrinter.{TablePrinter, empty_table, add_row, print}
use shrinkler_gba.TablePrinter.Laws.{IsWide, add_row-IsWide, empty_table-IsWide}
use shrinkler_gba.TablePrinter.Aligned.{AreAligned, verbose_all, print-AreAligned}
use shrinkler_gba.InputFile.Examples.{small_elf}
use shrinkler_gba.ElfInfo.{get_section_flags, section_flags, get_segment_type, display_elf_info}
use shrinkler_gba.ElfInfo.Flags.{are_known, letters, get_section_flags_lem}
use shrinkler_gba.ElfInfo.Display.{display_elf_info-ok}
use shrinkler_gba.Base.{List, codes, ◌≡◌, Text, if◌then◌else◌, ok, refl, ℕ, ◌∷◌, [], arith, false}

padded_hex : to_hex_padded 0x2a 6 ≡ codes "0x00002a"
unfolding to_hex_padded
padded_hex = refl

unknown_type : get_segment_type 0x12 ≡ codes "? (0x000012)"
unfolding get_segment_type to_hex_padded
unknown_type = refl

of_hex-to_hex_example :
    (of_hex (to_hex 0x8000) ≡ 0x8000)
    × ((ndigits : ℕ) → of_hex (to_hex_padded 0x8000 ndigits) ≡ 0x8000)
of_hex-to_hex_example = of_hex-to_hex 0x8000 (omega arith)

get_section_flags_lem_example :
    get_section_flags 3 ≡ (if are_known 3 then letters section_flags 3 else to_hex 3)
get_section_flags_lem_example = get_section_flags_lem 3

table : TablePrinter
table =
    add_row (codes "12" ∷ codes "abc" ∷ []) (add_row (codes "Nr" ∷ codes "Type" ∷ []) empty_table)

table-IsWide : IsWide table
unfolding table
table-IsWide =
    add_row-IsWide (codes "12" ∷ codes "abc" ∷ []) _ (omega arith)
      (add_row-IsWide (codes "Nr" ∷ codes "Type" ∷ []) empty_table (omega arith) empty_table-IsWide)

add_row-IsWide_example : IsWide (add_row (codes "1234" ∷ []) table)
add_row-IsWide_example = add_row-IsWide (codes "1234" ∷ []) table (omega arith) table-IsWide

print-AreAligned_example :
    (texts : List Text) × (print table default_console ≡ ok (verbose_all default_console texts))
    × AreAligned table.table_indent table.column_widths table.rows texts
print-AreAligned_example = print-AreAligned default_console table table-IsWide

display_elf_info-ok_example :
    (lines : List Line) × (display_elf_info (λ n. codes "PROGBITS") small_elf default_console
      ≡ ok lines)
    × (is_verbose_enabled default_console ≡ false → lines ≡ [])
display_elf_info-ok_example =
    display_elf_info-ok (λ n. codes "PROGBITS") small_elf default_console (λ n. omega arith)
      (omega arith)
