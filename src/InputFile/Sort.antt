-- ===== src/InputFile/Sort.antt =====
-- `sort_sections_by_address`. `std::ranges::sort` rearranges the sections so that their addresses
-- ascend; it is free in how it orders sections of equal address, so it is a parameter with these laws.
use shrinkler_gba.Elf.{Section}
use shrinkler_gba.Base.{List, ◌≤◌}
use mathlib.Core.List.{Perm, Pairwise}

abbrev pub AddressLe : Section → Section → Type 0
AddressLe s t = s.address ≤ t.address

pub record SectionSort : Type 0 where
  pub sort : List Section → List Section
  pub sort-perm : (l : List Section) → Perm (sort l) l
  pub sort-Pairwise : (l : List Section) → Pairwise AddressLe (sort l)
