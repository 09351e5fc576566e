-- ===== src/InputFile/Examples.antt =====
-- A file of three sections, two of which are included, out of order and with a hole between them;
-- and a sort that meets the laws.
use mathlib.Core.List.Perm
use mathlib.Core.List.Pairwise
use mathlib.Core.Logic.Or
use shrinkler_gba.Elf.{Section, Elfio}
use shrinkler_gba.InputFile.{
  InputFile, input_file, get_included_sections, is_section_included, check_header, load_binary,
}
use shrinkler_gba.InputFile.Sort.{SectionSort, AddressLe}
use shrinkler_gba.InputFile.Layout.{IsLoaded}
use shrinkler_gba.InputFile.Content.{Is32Bit, HasContent}
use shrinkler_gba.InputFile.Disjoint.{Disjoint}
use shrinkler_gba.InputFile.Header.{IsArmExecutable, check_header_iff}
use shrinkler_gba.InputFile.IsImage.{IsImage}
use shrinkler_gba.InputFile.Correct.{input_file-IsImage, input_file-ok_iff, input_file_overlap}
use shrinkler_gba.Base.{
  ℕ, Bool, List, ◌∷◌, Bool-cases, [], inl, inr, All, Text, arith, codes, leb, true, ◌≡◌, err, false,
  length, ok, ◌≤◌, refl, section_overlaps, ◌↔◌, ◌<◌, ◌^◌,
}
use mathlib.Core.List.{
  Perm, Pairwise, rel_of_Pairwise-cons, Pairwise-singleton, mem-cons_self, mem-cons,
}
use native.Mathlib.Bridge.{le_prop}

module _ (before : ℕ → ℕ → Bool) where
  abbrev insert : Section → List Section → List Section
  insert s [] = s ∷ []
  insert s (t ∷ l) = elim (before s.address t.address) [ true ↦ s ∷ t ∷ l | false ↦ t ∷ insert s l ]

  abbrev insertion_sort : List Section → List Section
  insertion_sort [] = []
  insertion_sort (s ∷ l) = insert s (insertion_sort l)

  insert-perm : (s : Section) (l : List Section) → Perm (insert s l) (s ∷ l)
  insert-perm s [] = Perm.rfl
  insert-perm s (t ∷ l) = elim (Bool-cases (before s.address t.address)) [
    | inl yes_before ↦ rw (yes_before, insert) Perm.rfl
    | inr not_before ↦
        rw (not_before, insert) (Perm.trans (Perm.cons t (insert-perm s l)) (Perm.swap s t l))
  ]

  pub insertion_sort-perm : (l : List Section) → Perm (insertion_sort l) l
  insertion_sort-perm [] = Perm.rfl
  insertion_sort-perm (s ∷ l) =
      Perm.trans (insert-perm s (insertion_sort l)) (Perm.cons s (insertion_sort-perm l))

module _ (before : ℕ → ℕ → Bool) (le_before : (a b : ℕ) → before a b ≡ true → a ≤ b)
    (le_after : (a b : ℕ) → before a b ≡ false → b ≤ a) where
  insert-Pairwise :
      (s : Section) (l : List Section)
      → Pairwise AddressLe l
      → Pairwise AddressLe (insert before s l)
  insert-Pairwise s [] h = Pairwise-singleton _ s
  insert-Pairwise s (t ∷ l) h = elim (Bool-cases (before s.address t.address)) [
    | inl first ↦
        let le = le_before s.address t.address first in
        rw (first, insert)
          (Pairwise.cons
            (λ u m.
              Or.elim le_prop (mem-cons.0 m) (λ (e : u ≡ t). rw e le)
                (λ m'. omega (arith, le, rel_of_Pairwise-cons h m')))
            h)
    | inr later ↦
        let le = le_after s.address t.address later in
        rw (later, insert)
          (Pairwise.cons
            (λ u m.
              Or.elim le_prop (mem-cons.0 ((Perm.mem_iff (insert-perm before s l)).0 m))
                (λ (e : u ≡ s). rw e le) (λ m'. rel_of_Pairwise-cons h m'))
            (insert-Pairwise s l (Pairwise.of_cons h)))
  ]

  pub insertion_sort-Pairwise : (l : List Section) → Pairwise AddressLe (insertion_sort before l)
  insertion_sort-Pairwise [] = Pairwise.nil
  insertion_sort-Pairwise (s ∷ l) =
      insert-Pairwise s (insertion_sort before l) (insertion_sort-Pairwise l)

  abbrev sorting : SectionSort
  sorting = record {
    sort = insertion_sort before;
    sort-perm = insertion_sort-perm before;
    sort-Pairwise = insertion_sort-Pairwise;
  }

pub leb_le : (a b : ℕ) → leb a b ≡ true → a ≤ b
leb_le a b h = ground arith

pub leb_after : (a b : ℕ) → leb a b ≡ false → b ≤ a
leb_after a b h = ground arith

abbrev pub stable : SectionSort
stable = sorting leb leb_le leb_after

abbrev section_at : Text → ℕ → ℕ → List ℕ → Section
section_at name section_type address content = record {
  name = name;
  section_type = section_type;
  flags = 6;
  address = address;
  offset = 0x1000;
  size = length content;
  entry_size = 0;
  link = 0;
  info = 0;
  addr_align = 4;
  content = content;
}

abbrev arm_file : List Section → Elfio
arm_file sections = record {
  class = 1;
  encoding = 1;
  elf_version = 1;
  os_abi = 0;
  abi_version = 0;
  file_type = 2;
  machine = 40;
  version = 1;
  entry = 0x8001;
  sections = sections;
  segments = [];
}

abbrev pub example_file : Elfio
example_file = arm_file (
    section_at (codes ".data") 1 0x8006 (7 ∷ 8 ∷ [])
    ∷ section_at (codes ".bss") 8 0x8008 (0 ∷ [])
    ∷ section_at (codes ".text") 1 0x8000 (1 ∷ 2 ∷ 3 ∷ 4 ∷ [])
    ∷ [])

abbrev overlapping_file : Elfio
overlapping_file = arm_file (
    section_at (codes ".data") 1 0x8002 (7 ∷ 8 ∷ [])
    ∷ section_at (codes ".text") 1 0x8000 (1 ∷ 2 ∷ 3 ∷ 4 ∷ [])
    ∷ [])

abbrev pub example_input : InputFile
example_input = record {
  entry = 0x8001;
  load_address = 0x8000;
  bytes = 1 ∷ 2 ∷ 3 ∷ 4 ∷ 0 ∷ 0 ∷ 7 ∷ 8 ∷ [];
}

pub example_file_read : input_file stable example_file ≡ ok example_input
unfolding input_file check_header load_binary is_section_included
example_file_read = refl

-- A program of three bytes.
abbrev pub small_elf : Elfio
small_elf = arm_file (section_at (codes ".text") 1 0x8000 (1 ∷ 2 ∷ 3 ∷ []) ∷ [])

pub small_elf_read :
    input_file stable small_elf
    ≡ ok (record { entry = 0x8001; load_address = 0x8000; bytes = 1 ∷ 2 ∷ 3 ∷ [] })
unfolding input_file check_header load_binary is_section_included
small_elf_read = refl

overlapping_file_refused :
    input_file stable overlapping_file ≡ err (section_overlaps (codes ".data") (codes ".text"))
unfolding input_file check_header load_binary is_section_included
overlapping_file_refused = refl

example-Are32Bit : All Is32Bit (get_included_sections example_file)
unfolding get_included_sections is_section_included
example-Are32Bit = omega arith

example-IsLoaded : All IsLoaded (get_included_sections example_file)
unfolding get_included_sections is_section_included
example-IsLoaded = omega arith

overlapping-IsLoaded : All IsLoaded (get_included_sections overlapping_file)
unfolding get_included_sections is_section_included
overlapping-IsLoaded = omega arith

overlapping-IsArmExecutable : IsArmExecutable overlapping_file
overlapping-IsArmExecutable = omega arith

overlapping_not-Disjoint : ¬ Pairwise Disjoint (get_included_sections overlapping_file)
unfolding get_included_sections is_section_included
overlapping_not-Disjoint h = rel_of_Pairwise-cons h mem-cons_self 0x8002 (omega arith) (omega arith)

input_file-IsImage_example :
    IsArmExecutable example_file
    × (example_input.entry ≡ 0x8001)
    × IsImage (get_included_sections example_file) 0x8000 example_input.bytes
input_file-IsImage_example =
    input_file-IsImage stable example_file example_input example-IsLoaded example_file_read

input_file-ok_iff_example : ((f : InputFile) × (input_file stable example_file ≡ ok f)) ↔ (
    IsArmExecutable example_file
    × (0x8001 < 2 ^ 32)
    × Pairwise Disjoint (get_included_sections example_file)
    × All HasContent (get_included_sections example_file))
input_file-ok_iff_example = input_file-ok_iff stable example_file example-Are32Bit

input_file_overlap_example :
    (s t : Text) × (input_file stable overlapping_file ≡ err (section_overlaps s t))
input_file_overlap_example =
    input_file_overlap stable overlapping_file overlapping-IsLoaded overlapping-IsArmExecutable
      (omega arith) overlapping_not-Disjoint

check_header_iff_example : (check_header example_file ≡ ok tt) ↔ IsArmExecutable example_file
check_header_iff_example = check_header_iff example_file
