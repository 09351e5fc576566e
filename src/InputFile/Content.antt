-- ===== src/InputFile/Content.antt =====
-- The constructor of `input_file` and sections whose contents are not completely in the file.
use shrinkler_gba.Elf.{Section, Elfio}
use shrinkler_gba.InputFile.{
  Loader, place, place_all, copy, section_bytes, initial, load_binary, get_included_sections,
  is_section_included, filter_by,
}
use shrinkler_gba.InputFile.Layout.{IsLoaded}
use shrinkler_gba.InputFile.Sort.{SectionSort}
use mathlib.Core.List.Perm
use native.Mathlib.Bridge.{le_prop}
use shrinkler_gba.InputFile.Constructor.{All-perm}
use shrinkler_gba.Base.{
  All, List, ◌<◌, ◌≡◌, ◌≤◌, length, ok, true, ℕ, ◌^◌, ◌∷◌, >>=-eq-ok, Bool-cases, [], arith, inl,
  leb, inr, ok_ne_err, sym,
}

-- The fields of the header of a section in a 32-bit file.
pub record Is32Bit (s : Section) : Type 0 where
  pub address_lt : s.address < 2 ^ 32
  pub size_lt : s.size < 2 ^ 32

-- ELFIO has as many bytes of contents as the header says.
abbrev pub HasContent : Section → Type 0
HasContent s = s.size ≤ length s.content

section_bytes-HasContent :
    (s : Section) (bytes : List ℕ) → section_bytes s ≡ ok bytes → HasContent s
unfolding section_bytes
section_bytes-HasContent s bytes h = elim (Bool-cases (leb s.size (length s.content))) [
  | inl enough ↦ ground arith
  | inr missing ↦ absurd (ok_ne_err (sym (rw missing at h)))
]

place-HasContent : (s : Section) (st st' : Loader) → place s st ≡ ok st' → HasContent s
unfolding place copy
place-HasContent s st st' h =
    let (st1, padded, copied) = >>=-eq-ok _ (copy s) h in
    let (bytes, got, rest) = >>=-eq-ok (section_bytes s) _ copied in
    section_bytes-HasContent s bytes got

place_all-HasContent :
    (ss : List Section) (st st' : Loader) → place_all ss st ≡ ok st' → All HasContent ss
unfolding place_all
place_all-HasContent [] st st' h = tt
place_all-HasContent (s ∷ ss) st st' h =
    let (st1, placed, more) = >>=-eq-ok (place s st) (place_all ss) h in
    (place-HasContent s st st1 placed, place_all-HasContent ss st1 st' more)

included-size_pos : (s : Section) → is_section_included s ≡ true → 0 < s.size
unfolding is_section_included
included-size_pos s h = ground arith

included-positive :
    (ss : List Section) → All (λ (s : Section). 0 < s.size) (filter_by is_section_included ss)
included-positive [] = tt
included-positive (s ∷ ss) = elim (Bool-cases (is_section_included s)) [
  | inl yes_included ↦ rw yes_included (included-size_pos s yes_included, included-positive ss)
  | inr left_out ↦ rw left_out (included-positive ss)
]

IsLoaded-of :
    (ss : List Section)
    → All Is32Bit ss
    → All (λ (s : Section). 0 < s.size) ss
    → All HasContent ss
    → All IsLoaded ss
IsLoaded-of [] h p c = tt
IsLoaded-of (s ∷ ss) (h, hs) (p, ps) (c, cs) = (
  record { address_lt = h.address_lt; size_lt = h.size_lt; size_pos = p; all_content = c },
  IsLoaded-of ss hs ps cs,
)

module _ (e : Elfio) where
  pub All-IsLoaded :
      All Is32Bit (get_included_sections e)
      → All HasContent (get_included_sections e)
      → All IsLoaded (get_included_sections e)
  unfolding get_included_sections
  All-IsLoaded fields contents =
      IsLoaded-of (filter_by is_section_included e.sections) fields (included-positive e.sections)
        contents

  pub load_binary-HasContent :
      (sorter : SectionSort) (st : Loader)
      → load_binary sorter e ≡ ok st
      → All HasContent (get_included_sections e)
  unfolding load_binary
  load_binary-HasContent sorter st h =
      All-perm HasContent (λ s. le_prop) (Perm.symm (sorter.sort-perm (get_included_sections e)))
        (place_all-HasContent (sorter.sort (get_included_sections e)) initial st h)
