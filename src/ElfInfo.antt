-- ===== src/ElfInfo.antt =====
-- src/shrinkler_gba/elf_info.cppm and elf_info.cpp: the tables of program and section headers. The names that
-- ELFIO has for section types are a parameter.
pub mod Flags
pub mod Display
mod Examples
use shrinkler_gba.Elf.{
  Elfio, Section, Segment, shf_write, shf_alloc, shf_execinstr, shf_merge, shf_strings,
  shf_info_link, shf_link_order,
}
use shrinkler_gba.Format.{decimal, to_hex, to_hex_padded}
use shrinkler_gba.Console.{Console, Line, verbose, is_verbose_enabled}
use shrinkler_gba.TablePrinter.{TablePrinter, empty_table, add_row, print}
use shrinkler_gba.InputFile.{is_section_included}
use shrinkler_gba.Base.{
  List, Result, ℕ, Text, if◌then◌else◌, take, ◌∷◌, [], bit_and, codes, length, ltb, not, ok, ◌+◌,
  ◌==◌, ◌>>=◌, get_or, ◌%◌, ◌++◌, ◌-◌, ◌^◌,
}

unfoldable pub create_table_printer : TablePrinter
create_table_printer = record empty_table { table_indent = 2 }

-- `table` of `get_section_flags`: each flag is a power of two.
abbrev pub section_flags : List (ℕ × ℕ)
section_flags =
    (shf_write, b'W')
    ∷ (shf_alloc, b'A')
    ∷ (shf_execinstr, b'X')
    ∷ (shf_merge, b'M')
    ∷ (shf_strings, b'S')
    ∷ (shf_info_link, b'I')
    ∷ (shf_link_order, b'L')
    ∷ []

-- The loop: the characters so far and the flags that are left. Without a flag that is set,
-- `flags & ~flag` is a difference.
abbrev pub flag_step : ℕ × ℕ → Text × ℕ → Text × ℕ
flag_step (flag, character) (result, flags) =
    if bit_and flags flag == 0 then (result, flags) else (result ++ character ∷ [], flags - flag)

abbrev pub flag_loop : List (ℕ × ℕ) → Text × ℕ → Text × ℕ
flag_loop [] state = state
flag_loop (entry ∷ table) state = flag_loop table (flag_step entry state)

unfoldable pub get_section_flags : ℕ → Text
get_section_flags flags =
    let (result, left) = flag_loop section_flags ([], flags) in
    if left == 0 then result else to_hex flags

abbrev pt_arm_exidx : ℕ
pt_arm_exidx = 0x70000001

unfoldable pub get_segment_type : ℕ → Text
get_segment_type n =
    if n == 0
    then codes "NULL"
    else if n == 1
    then codes "LOAD"
    else if n == 2
    then codes "DYNAMIC"
    else if n == 3
    then codes "INTERP"
    else if n == 4
    then codes "NOTE"
    else if n == 5
    then codes "SHLIB"
    else if n == 6
    then codes "PHDR"
    else if n == 7
    then codes "TLS"
    else if n == pt_arm_exidx
    then codes "ARM_EXIDX"
    else codes "? (" ++ (to_hex_padded n 6 ++ codes ")")

abbrev pub segment_flags : List Text
segment_flags =
    [] ∷ codes "X" ∷ codes "W" ∷ codes "WX" ∷ codes "R" ∷ codes "RX" ∷ codes "RW" ∷ codes "RWX" ∷ []

unfoldable pub get_segment_flags : ℕ → Text
get_segment_flags flags =
    if ltb flags (length segment_flags) then get_or segment_flags flags [] else to_hex flags

abbrev pub program_header_titles : List Text
program_header_titles =
    codes "Nr"
    ∷ codes "Type"
    ∷ codes "Offset"
    ∷ codes "VirtAddr"
    ∷ codes "PhysAddr"
    ∷ codes "FileSiz"
    ∷ codes "MemSiz"
    ∷ codes "Align"
    ∷ codes "Flg"
    ∷ []

pub segment_row : ℕ → Segment → List Text
unfolding get_segment_type get_segment_flags
segment_row i s =
    decimal i
    ∷ get_segment_type s.segment_type
    ∷ to_hex_padded s.offset 6
    ∷ to_hex_padded s.virtual_address 8
    ∷ to_hex_padded s.physical_address 8
    ∷ to_hex_padded s.file_size 5
    ∷ to_hex_padded s.memory_size 5
    ∷ to_hex_padded s.align 5
    ∷ get_segment_flags s.flags
    ∷ []

abbrev pub section_header_titles : List Text
section_header_titles =
    codes "Nr"
    ∷ codes "Name"
    ∷ codes "Type"
    ∷ codes "Addr"
    ∷ codes "Off"
    ∷ codes "Size"
    ∷ codes "ES"
    ∷ codes "Flg"
    ∷ codes "Lk"
    ∷ codes "Inf"
    ∷ codes "Al"
    ∷ codes "Inc"
    ∷ []

pub section_row : (ℕ → Text) → ℕ → Section → List Text
unfolding get_section_flags
section_row str_section_type i s =
    decimal i
    ∷ s.name
    ∷ str_section_type s.section_type
    ∷ to_hex_padded s.address 8
    ∷ to_hex_padded s.offset 6
    ∷ to_hex_padded s.size 6
    ∷ to_hex_padded s.entry_size 2
    ∷ get_section_flags s.flags
    ∷ to_hex_padded s.link 2
    ∷ to_hex_padded s.info 3
    ∷ to_hex_padded s.addr_align 2
    ∷ (if is_section_included s then codes "Y" else [])
    ∷ []

-- The loop over the headers, with the index of the first.
pub add_rows {ℓ} : {A : Type ℓ} → (ℕ → A → List Text) → ℕ → List A → TablePrinter → TablePrinter
add_rows row i [] t = t
add_rows row i (header ∷ headers) t = add_rows row (i + 1) headers (add_row (row i header) t)

-- The number of headers is an `Elf_Half`, of 16 bits.
abbrev pub counted {ℓ} : {A : Type ℓ} → List A → List A
counted headers = take (length headers % 2 ^ 16) headers

pub header_table {ℓ} : {A : Type ℓ} → (ℕ → A → List Text) → List Text → List A → TablePrinter
unfolding add_rows
header_table row titles headers = add_rows row 0 headers (add_row titles create_table_printer)

-- What both functions do with the headers that ELFIO has.
pub display_headers {ℓ} :
    {A : Type ℓ}
    → Console
    → (ℕ → A → List Text)
    → List Text
    → Text
    → Text
    → List A
    → Result (List Line)
unfolding header_table
display_headers console row titles title missing [] = ok (verbose console missing)
display_headers console row titles title missing (header ∷ headers) = do
  lines ← print (header_table row titles (header ∷ headers)) console
  ok (verbose console title ++ lines)

unfoldable pub display_program_headers : Elfio → Console → Result (List Line)
unfolding display_headers
display_program_headers reader console =
    if not (is_verbose_enabled console)
    then ok []
    else display_headers console segment_row program_header_titles (codes "Program headers")
        (codes "File has no program headers") (counted reader.segments)

unfoldable pub display_section_headers : (ℕ → Text) → Elfio → Console → Result (List Line)
unfolding display_headers
display_section_headers str_section_type reader console =
    if not (is_verbose_enabled console)
    then ok []
    else display_headers console (section_row str_section_type) section_header_titles
        (codes "Section headers") (codes "File has no section headers") (counted reader.sections)

unfoldable pub display_elf_info : (ℕ → Text) → Elfio → Console → Result (List Line)
unfolding display_program_headers display_section_headers
display_elf_info str_section_type reader console = do
  segments ← display_program_headers reader console
  sections ← display_section_headers str_section_type reader console
  ok (segments ++ sections)
