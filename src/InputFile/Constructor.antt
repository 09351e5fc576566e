-- ===== src/InputFile/Constructor.antt =====
-- The constructor of `input_file` against a description of the memory image, address by address.
use mathlib.Core.Logic.Or
use mathlib.Core.List.Perm
use shrinkler_gba.Elf.{Section, Elfio}
use shrinkler_gba.InputFile.{Loader, initial, place_all, load_binary, get_included_sections}
use shrinkler_gba.InputFile.Sort.{SectionSort, AddressLe}
use shrinkler_gba.InputFile.Layout.{IsLoaded, IsAscending, layout, first_placed, place_first}
use shrinkler_gba.InputFile.Loading.{
  Outcome, place_all-Outcome, loaded, overlap, first_placed-IsStarted,
}
use shrinkler_gba.InputFile.Disjoint.{
  Disjoint, AllFrom, Disjoint-of_IsAscending, IsAscending-of_Disjoint,
}
use shrinkler_gba.Base.{
  ℕ, List, All, Result, ◌∷◌, [], ◌++◌, ◌≡◌, ok, ◌+◌, Text, ◌-◌, arith, err, section_overlaps, ◌∙◌,
  refl, ◌↔◌,
}
use mathlib.Core.HLevel.{Π_prop, ⊥_prop}
use mathlib.Core.List.{
  Mem, Pairwise, Perm, mem-cons_self, not-mem-nil, mem-cons, mem-cons_of_mem, rel_of_Pairwise-cons,
}
use native.Mathlib.Bridge.{le_prop}

-- The address of the first of the sorted sections.
abbrev pub first_address : List Section → ℕ
first_address [] = 0
first_address (s ∷ ss) = s.address

-- The loop, from its initial state.
pub data Run (ss : List Section) : Result Loader → Type 0 where
  succeeds :
      {r : Result Loader} (st : Loader)
      → r ≡ ok st
      → IsAscending (first_address ss) ss
      → st.load_address ≡ first_address ss
      → st.bytes ≡ layout (first_address ss) ss
      → Run ss r
  fails :
      {r : Result Loader} (s t : Text)
      → r ≡ err (section_overlaps s t)
      → ¬ IsAscending (first_address ss) ss
      → Run ss r

Run-cons :
    (s : Section) (ss : List Section) {r : Result Loader}
    → Outcome ss (first_placed s) r
    → Run (s ∷ ss) r
Run-cons s ss (loaded st e up load bytes) = succeeds st e (omega arith, up) load (bytes ∙ hole)
  where
    hole : (first_placed s).bytes ++ layout (s.address + s.size) ss ≡ layout s.address (s ∷ ss)
    hole = let z : s.address - s.address ≡ 0 = omega arith in rw z
Run-cons s ss (overlap a b e no_way) = fails a b e (λ up. no_way up.1)

place_all-Run : (ss : List Section) → All IsLoaded ss → Run ss (place_all ss initial)
unfolding place_all
place_all-Run [] l = succeeds initial refl tt refl refl
place_all-Run (s ∷ ss) (l, ls) =
    rw (place_first s l)
      (Run-cons s ss (place_all-Outcome ss (first_placed s) ls (first_placed-IsStarted s l)))

module _ (P : Section → Type 0) (P-IsProp : (s : Section) → IsProp (P s)) where
  All-elem : (l : List Section) → All P l → (s : Section) → Mem s l → P s
  All-elem [] h s m = absurd (not-mem-nil m)
  All-elem (t ∷ l) (h, hs) s m =
      Or.elim (P-IsProp s) (mem-cons.0 m) (λ (e : s ≡ t). rw e h) (All-elem l hs s)

  All-of_mem : (l : List Section) → ((s : Section) → Mem s l → P s) → All P l
  All-of_mem [] h = tt
  All-of_mem (s ∷ l) h = (h s mem-cons_self, All-of_mem l (λ t m. h t (mem-cons_of_mem s m)))

  -- What holds of all elements does so in any order.
  pub All-perm : {l l' : List Section} → Perm l' l → All P l → All P l'
  All-perm {l} {l'} p h = All-of_mem l' (λ s m. All-elem l h s ((Perm.mem_iff p).0 m))

Disjoint-prop : (s t : Section) → IsProp (Disjoint s t)
Disjoint-prop s t = Π_prop λ a. Π_prop λ c. Π_prop λ d. ⊥_prop

Disjoint-symm : (s t : Section) → Disjoint s t → Disjoint t s
Disjoint-symm s t h a c d = h a d c

AllFrom-first_address : (ss : List Section) → Pairwise AddressLe ss → AllFrom (first_address ss) ss
AllFrom-first_address [] h t m = absurd (not-mem-nil m)
AllFrom-first_address (s ∷ ss) h t m =
    Or.elim le_prop (mem-cons.0 m) (λ (e : t ≡ s). rw e (omega arith))
      (λ m'. rel_of_Pairwise-cons h m')

abbrev pub sorted : SectionSort → Elfio → List Section
sorted sorter e = sorter.sort (get_included_sections e)

module _ (sorter : SectionSort) (e : Elfio) (l : All IsLoaded (get_included_sections e)) where
  pub sorted-IsLoaded : All IsLoaded (sorted sorter e)
  sorted-IsLoaded =
      All-perm IsLoaded (λ s. hlevel le_prop) (sorter.sort-perm (get_included_sections e)) l

  pub load_binary-Run : Run (sorted sorter e) (load_binary sorter e)
  unfolding load_binary
  load_binary-Run = place_all-Run (sorted sorter e) sorted-IsLoaded

  -- The included sections do not overlap exactly when they ascend once they are (sorted sorter e).
  pub Disjoint-iff_IsAscending :
      Pairwise Disjoint (get_included_sections e)
      ↔ IsAscending (first_address (sorted sorter e)) (sorted sorter e)
  Disjoint-iff_IsAscending = (
    (λ h.
        IsAscending-of_Disjoint (first_address (sorted sorter e)) (sorted sorter e) sorted-IsLoaded
          (AllFrom-first_address (sorted sorter e) (sorter.sort-Pairwise (get_included_sections e)))
          (sorter.sort-Pairwise (get_included_sections e))
          ((Perm.Pairwise-iff Disjoint-prop Disjoint-symm
              (Perm.symm (sorter.sort-perm (get_included_sections e)))).0
            h)),
    λ h.
        (Perm.Pairwise-iff Disjoint-prop Disjoint-symm
            (sorter.sort-perm (get_included_sections e))).0
          (Disjoint-of_IsAscending (first_address (sorted sorter e)) (sorted sorter e) h),
  )
