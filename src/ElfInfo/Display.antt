-- ===== src/ElfInfo/Display.antt =====
-- The tables of the headers can be printed.
use shrinkler_gba.Format.{to_hex_padded}
use shrinkler_gba.Format.Sizes.{length-decimal, length-to_hex, length-to_hex_padded-le}
use shrinkler_gba.Elf.{Segment, Section, Elfio}
use shrinkler_gba.TablePrinter.Laws.{IsShort, IsWide, add_row-IsWide}
use shrinkler_gba.ElfInfo.{
  segment_flags, get_segment_type, get_segment_flags, get_section_flags, segment_row, section_flags,
  add_rows, display_elf_info, display_headers, section_row, display_program_headers, header_table,
  create_table_printer, display_section_headers, program_header_titles, counted,
  section_header_titles,
}
use shrinkler_gba.ElfInfo.Flags.{get_section_flags_lem, are_known, letters}
use shrinkler_gba.Base.{
  List, zero, ℕ, arith, length, ◌<◌, ◌≤◌, ◌^◌, Bool-cases, codes, inl, ltb, ◌++◌, inr,
  length-append, Text, [], ◌∷◌, get_or, ◌/◌, suc, ◌%◌, ◌==◌, All, take, if◌then◌else◌, ◌+◌, ◌≡◌, ok,
  false, refl,
}
use shrinkler_gba.TablePrinter.{TablePrinter, add_row}
use shrinkler_gba.Console.{Console, Line, is_verbose_enabled, verbose}
use shrinkler_gba.InputFile.{is_section_included}
use shrinkler_gba.TablePrinter.Aligned.{print-AreAligned, verbose_all}

get_segment_type-short : (n : ℕ) → length (get_segment_type n) < 2 ^ 64
unfolding get_segment_type
get_segment_type-short n =
    let size : length (codes "? (" ++ (to_hex_padded n 6 ++ codes ")")) < 2 ^ 64 =
      omega (arith, length-append (to_hex_padded n 6) (codes ")"), length-to_hex_padded-le n 6) in
    ground arith

get_or-short : (texts : List Text) (i : ℕ) → IsShort texts → length (get_or texts i []) < 2 ^ 64
get_or-short [] i h = omega arith
get_or-short (text ∷ texts) zero (first, rest) = first
get_or-short (text ∷ texts) (suc i) (first, rest) = get_or-short texts i rest

get_segment_flags-short : (n : ℕ) → length (get_segment_flags n) < 2 ^ 64
unfolding get_segment_flags
get_segment_flags-short n = elim (Bool-cases (ltb n 8)) [
  | inl small ↦ rw small (get_or-short segment_flags n (omega arith))
  | inr large ↦ rw large (omega (arith, length-to_hex n))
]

letters-le : (table : List (ℕ × ℕ)) (flags : ℕ) → length (letters table flags) ≤ length table
letters-le [] flags = omega arith
letters-le ((flag, character) ∷ table) flags = elim (Bool-cases (flags / flag % 2 == 1)) [
  | inl set ↦ rw set (omega (arith, letters-le table flags))
  | inr clear ↦ rw clear (omega (arith, letters-le table flags))
]

get_section_flags-short : (n : ℕ) → length (get_section_flags n) < 2 ^ 64
get_section_flags-short n = rw (get_section_flags_lem n) (elim (Bool-cases (are_known n)) [
  | inl known ↦ rw known (omega (arith, letters-le section_flags n))
  | inr other ↦ rw other (omega (arith, length-to_hex n))
])

segment_row-IsShort : (i : ℕ) (s : Segment) → IsShort (segment_row i s)
unfolding segment_row
segment_row-IsShort i s = (
  omega (arith, length-decimal i),
  (
    get_segment_type-short s.segment_type,
    omega (
      arith,
      length-to_hex_padded-le s.offset 6,
      length-to_hex_padded-le s.virtual_address 8,
      length-to_hex_padded-le s.physical_address 8,
      length-to_hex_padded-le s.file_size 5,
      length-to_hex_padded-le s.memory_size 5,
      length-to_hex_padded-le s.align 5,
      get_segment_flags-short s.flags,
    ),
  ),
)

section_row-IsShort :
    (types : ℕ → Text) (i : ℕ) (s : Section)
    → length (types s.section_type) < 2 ^ 64
    → length s.name < 2 ^ 64
    → IsShort (section_row types i s)
unfolding section_row
section_row-IsShort types i s short name =
    let flags = get_section_flags-short s.flags in
    let included : length (if is_section_included s then codes "Y" else []) < 2 ^ 64 =
      ground arith in
    (
      omega (arith, length-decimal i),
      (
        name,
        (
          short,
          omega (
            arith,
            length-to_hex_padded-le s.address 8,
            length-to_hex_padded-le s.offset 6,
            length-to_hex_padded-le s.size 6,
            length-to_hex_padded-le s.entry_size 2,
            length-to_hex_padded-le s.link 2,
            length-to_hex_padded-le s.info 3,
            length-to_hex_padded-le s.addr_align 2,
          ),
        ),
      ),
    )

module _ {ℓ} {A : Type ℓ} (row : ℕ → A → List Text) where
  add_rows-IsWide :
      (i : ℕ) (headers : List A) (t : TablePrinter)
      → ((k : ℕ) → All (λ (h : A). IsShort (row k h)) headers)
      → IsWide t
      → IsWide (add_rows row i headers t)
  unfolding add_rows
  add_rows-IsWide i [] t short wide = wide
  add_rows-IsWide i (h ∷ headers) t short wide =
      add_rows-IsWide (i + 1) headers (add_row (row i h) t) (λ k. (short k).1)
        (add_row-IsWide (row i h) t (short i).0 wide)

  display_headers-ok :
      (c : Console) (titles : List Text) (title missing : Text) (headers : List A)
      → IsShort titles
      → ((k : ℕ) → All (λ (h : A). IsShort (row k h)) headers)
      → (lines : List Line) × (display_headers c row titles title missing headers ≡ ok lines)
  unfolding display_headers header_table create_table_printer
  display_headers-ok c titles title missing [] heads short = (verbose c missing, refl)
  display_headers-ok c titles title missing (h ∷ headers) heads short =
      let start : IsWide (add_row titles create_table_printer) =
        add_row-IsWide titles create_table_printer heads (record { fits = tt; bounded = tt }) in
      let (texts, printed, aligned) =
        print-AreAligned c (header_table row titles (h ∷ headers))
          (add_rows-IsWide 0 (h ∷ headers) (add_row titles create_table_printer) short start) in
      (verbose c title ++ verbose_all c texts, rw printed refl)

All-take {ℓ κ} : {A : Type ℓ} (P : A → Type κ) (n : ℕ) (xs : List A) → All P xs → All P (take n xs)
All-take P zero xs h = tt
All-take P (suc n) [] h = tt
All-take P (suc n) (x ∷ xs) (first, rest) = (first, All-take P n xs rest)

All-map {ℓ κ ι} :
    {A : Type ℓ} (P : A → Type κ) (Q : A → Type ι) (xs : List A)
    → ((x : A) → P x → Q x)
    → All P xs
    → All Q xs
All-map P Q [] f h = tt
All-map P Q (x ∷ xs) f (first, rest) = (f x first, All-map P Q xs f rest)

always {ℓ κ} : {A : Type ℓ} (P : A → Type κ) (xs : List A) → ((x : A) → P x) → All P xs
always P [] f = tt
always P (x ∷ xs) f = (f x, always P xs f)

-- If the names of sections and the names that ELFIO has for their types have lengths that fit a `size_t`, then
-- `display_elf_info` has defined behaviour, and it prints nothing unless messages are verbose.
pub display_elf_info-ok :
    (types : ℕ → Text) (reader : Elfio) (c : Console)
    → ((n : ℕ) → length (types n) < 2 ^ 64)
    → All (λ (s : Section). length s.name < 2 ^ 64) reader.sections
    → (lines : List Line) × (display_elf_info types reader c ≡ ok lines)
      × (is_verbose_enabled c ≡ false → lines ≡ [])
unfolding display_elf_info display_program_headers display_section_headers
display_elf_info-ok types reader c type_names names = elim (Bool-cases (is_verbose_enabled c)) [
  | inr quiet ↦ ([], rw quiet refl, λ e. refl)
  | inl enabled ↦
      (let (segments, s1) =
          display_headers-ok segment_row c program_header_titles (codes "Program headers")
            (codes "File has no program headers") (counted reader.segments) (omega arith)
            (λ k. always (λ (s : Segment). IsShort (segment_row k s)) _ (segment_row-IsShort k)) in
        let (sections, s2) =
          display_headers-ok (section_row types) c section_header_titles (codes "Section headers")
            (codes "File has no section headers") (counted reader.sections) (omega arith)
            (λ k.
              All-map (λ (s : Section). length s.name < 2 ^ 64)
                (λ (s : Section). IsShort (section_row types k s)) _
                (λ s name. section_row-IsShort types k s (type_names s.section_type) name)
                (All-take (λ (s : Section). length s.name < 2 ^ 64)
                  (length reader.sections % 2 ^ 16) reader.sections names)) in
        (segments ++ sections, rw enabled (rw s1 (rw s2 refl)), λ e. cc))
]
