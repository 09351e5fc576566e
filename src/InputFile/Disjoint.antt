-- ===== src/InputFile/Disjoint.antt =====
-- Sections in the order of their addresses ascend exactly when no two of them overlap.
use mathlib.Core.Logic.Or
use mathlib.Core.List.Pairwise
use shrinkler_gba.Elf.{Section}
use shrinkler_gba.InputFile.Sort.{AddressLe}
use shrinkler_gba.InputFile.Layout.{IsLoaded, IsAscending}
use shrinkler_gba.Base.{ℕ, List, ◌≤◌, All, arith, ◌+◌, ◌<◌, ◌∷◌, [], ◌≡◌}
use mathlib.Core.List.{
  Mem, Pairwise, not-mem-nil, mem-cons_self, mem-cons, mem-cons_of_mem, rel_of_Pairwise-cons,
}
use native.Mathlib.Bridge.{le_prop}
use native.Mathlib.Decide.{dec_le}

-- Address `a` belongs to the section.
abbrev pub Covers : Section → ℕ → Type 0
Covers s a = (s.address ≤ a) × (a < s.address + s.size)

-- No address belongs to both.
abbrev pub Disjoint : Section → Section → Type 0
Disjoint s t = (a : ℕ) → Covers s a → Covers t a → ⊥

-- Every section begins at or after the address.
abbrev pub AllFrom : ℕ → List Section → Type 0
AllFrom out ss = (t : Section) → Mem t ss → out ≤ t.address

AllFrom-cons :
    (out : ℕ) (s : Section) (ss : List Section)
    → out ≤ s.address
    → AllFrom out ss
    → AllFrom out (s ∷ ss)
AllFrom-cons out s ss h hs t m = Or.elim le_prop (mem-cons.0 m) (λ (e : t ≡ s). rw e h) (hs t)

AllFrom-le : {out out' : ℕ} (ss : List Section) → out ≤ out' → AllFrom out' ss → AllFrom out ss
AllFrom-le ss h hs t m = omega (arith, hs t m)

pub AllFrom-of_IsAscending : (out : ℕ) (ss : List Section) → IsAscending out ss → AllFrom out ss
AllFrom-of_IsAscending out [] h = λ t m. absurd (not-mem-nil m)
AllFrom-of_IsAscending out (s ∷ ss) (h, hs) =
    AllFrom-cons out s ss h
      (AllFrom-le ss (omega arith) (AllFrom-of_IsAscending (s.address + s.size) ss hs))

pub Disjoint-of_IsAscending :
    (out : ℕ) (ss : List Section) → IsAscending out ss → Pairwise Disjoint ss
Disjoint-of_IsAscending out [] h = Pairwise.nil
Disjoint-of_IsAscending out (s ∷ ss) (h, hs) =
    let behind = AllFrom-of_IsAscending (s.address + s.size) ss hs in
    Pairwise.cons (λ t m a c d. omega (arith, behind t m, c, d))
      (Disjoint-of_IsAscending (s.address + s.size) ss hs)

-- A section that begins no earlier and does not overlap begins behind the end.
behind_of_Disjoint :
    (s t : Section)
    → IsLoaded t
    → s.address ≤ t.address
    → Disjoint s t
    → s.address + s.size ≤ t.address
behind_of_Disjoint s t l h d = elim (dec_le (s.address + s.size) t.address) [
  | yes p ↦ p
  | no p ↦ absurd (d t.address (h, omega arith) (omega arith, omega (arith, l.size_pos)))
]

pub IsAscending-of_Disjoint :
    (out : ℕ) (ss : List Section)
    → All IsLoaded ss
    → AllFrom out ss
    → Pairwise AddressLe ss
    → Pairwise Disjoint ss
    → IsAscending out ss
IsAscending-of_Disjoint out [] l first sorted apart = tt
IsAscending-of_Disjoint out (s ∷ ss) (l, ls) first sorted apart = (
  first s mem-cons_self,
  IsAscending-of_Disjoint (s.address + s.size) ss ls
      (behind ss ls (λ t m. rel_of_Pairwise-cons sorted m) (λ t m. rel_of_Pairwise-cons apart m))
      (Pairwise.of_cons sorted) (Pairwise.of_cons apart),
)
  where
    behind :
        (ts : List Section)
        → All IsLoaded ts
        → ((t : Section) → Mem t ts → AddressLe s t)
        → ((t : Section) → Mem t ts → Disjoint s t)
        → AllFrom (s.address + s.size) ts
    behind [] l h d = λ t m. absurd (not-mem-nil m)
    behind (t ∷ ts) (l, ls) h d =
        AllFrom-cons _ t ts (behind_of_Disjoint s t l (h t mem-cons_self) (d t mem-cons_self))
          (behind ts ls (λ u m. h u (mem-cons_of_mem t m)) (λ u m. d u (mem-cons_of_mem t m)))
