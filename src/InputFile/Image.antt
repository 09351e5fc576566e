-- ===== src/InputFile/Image.antt =====
-- What the appended bytes are, address by address.
use mathlib.Core.Logic.Or
use shrinkler_gba.Elf.{Section}
use shrinkler_gba.InputFile.Layout.{IsLoaded, IsAscending, layout, end_address, length-take}
use shrinkler_gba.InputFile.Disjoint.{Covers, AllFrom-of_IsAscending}
use shrinkler_gba.Base.{
  ℕ, List, All, ◌<◌, ◌≤◌, arith, get_or, ◌+◌, length, take, ◌-◌, ◌∷◌, [], ◌≡◌, get_or-append_left,
  length-append, replicate, suc, length-replicate, zero, ◌++◌, ◌∙◌, get_or-append_right,
  get_or-replicate, refl,
}
use mathlib.Core.List.{Mem, not-mem-nil, mem-cons, mem-cons_self, mem-cons_of_mem}
use native.Mathlib.Bridge.{le_prop}
use native.Mathlib.Decide.{dec_lt}
use native.Mathlib.Nat.{ℕ_set}

pub end_address-ge : (out : ℕ) (ss : List Section) → IsAscending out ss → out ≤ end_address out ss
end_address-ge out [] h = omega arith
end_address-ge out (s ∷ ss) (h, hs) = omega (arith, end_address-ge (s.address + s.size) ss hs)

pub length-layout :
    (out : ℕ) (ss : List Section)
    → All IsLoaded ss
    → IsAscending out ss
    → out + length (layout out ss) ≡ end_address out ss
length-layout out [] l h = omega arith
length-layout out (s ∷ ss) (l, ls) (h, hs) = omega (
  arith,
  length-append (replicate (s.address - out) 0)
      (take s.size s.content ++ layout (s.address + s.size) ss),
  length-append (take s.size s.content) (layout (s.address + s.size) ss),
  length-take s.size s.content l.all_content,
  length-replicate {A = ℕ} (s.address - out) 0,
  length-layout (s.address + s.size) ss ls hs,
)

-- Every covered address lies below the end.
pub covered-lt-end_address :
    (out : ℕ) (ss : List Section) (s : Section) (a : ℕ)
    → IsAscending out ss
    → Mem s ss
    → Covers s a
    → a < end_address out ss
covered-lt-end_address out [] s a h m c = absurd (not-mem-nil m)
covered-lt-end_address out (t ∷ ss) s a (h, hs) m c =
    Or.elim le_prop (mem-cons.0 m)
      (λ (e : s ≡ t).
        let c' : Covers t a = rw e at c in
        omega (arith, c', end_address-ge (t.address + t.size) ss hs))
      (λ m'. covered-lt-end_address (t.address + t.size) ss s a hs m' c)

get_or-take : (n : ℕ) (xs : List ℕ) (i : ℕ) → i < n → get_or (take n xs) i 0 ≡ get_or xs i 0
get_or-take zero xs i h = absurd (omega arith)
get_or-take (suc n) [] i h = refl
get_or-take (suc n) (x ∷ xs) zero h = refl
get_or-take (suc n) (x ∷ xs) (suc i) h = get_or-take n xs i (omega arith)

module _ (out : ℕ) (s : Section) (ss : List Section) (l : IsLoaded s) (h : out ≤ s.address)
    (a : ℕ) where
  -- Before the section there are zeros.
  layout-hole : out ≤ a → a < s.address → get_or (layout out (s ∷ ss)) (a - out) 0 ≡ 0
  layout-hole le lt =
      get_or-append_left (replicate (s.address - out) 0) _ (a - out) 0
        (omega (arith, length-replicate {A = ℕ} (s.address - out) 0))
      ∙ get_or-replicate (s.address - out) 0 (a - out)

  -- Then its bytes.
  layout-head :
      Covers s a → get_or (layout out (s ∷ ss)) (a - out) 0 ≡ get_or s.content (a - s.address) 0
  layout-head c =
      let i : a - out ≡ length (replicate {A = ℕ} (s.address - out) 0) + (a - s.address) =
        omega (arith, length-replicate {A = ℕ} (s.address - out) 0, c) in
      rw i (
        get_or-append_right (replicate (s.address - out) 0) _ (a - s.address) 0
        ∙ get_or-append_left (take s.size s.content) _ (a - s.address) 0
            (omega (arith, length-take s.size s.content l.all_content, c))
        ∙ get_or-take s.size s.content (a - s.address) (omega (arith, c)))

  -- Then those of the sections behind it.
  layout-tail :
      s.address + s.size ≤ a
      → get_or (layout out (s ∷ ss)) (a - out) 0
        ≡ get_or (layout (s.address + s.size) ss) (a - (s.address + s.size)) 0
  layout-tail behind =
      let i : a - out
          ≡ length (replicate {A = ℕ} (s.address - out) 0)
            + (length (take s.size s.content) + (a - (s.address + s.size))) =
        omega (
          arith,
          length-replicate {A = ℕ} (s.address - out) 0,
          length-take s.size s.content l.all_content,
        ) in
      rw i (
        get_or-append_right (replicate (s.address - out) 0) _ _ 0
        ∙ get_or-append_right (take s.size s.content) _ (a - (s.address + s.size)) 0)

-- At a covered address stands the byte of the section that covers it.
pub layout-covered :
    (out : ℕ) (ss : List Section) (s : Section) (a : ℕ)
    → All IsLoaded ss
    → IsAscending out ss
    → Mem s ss
    → Covers s a
    → get_or (layout out ss) (a - out) 0 ≡ get_or s.content (a - s.address) 0
layout-covered out [] s a l h m c = absurd (not-mem-nil m)
layout-covered out (t ∷ ss) s a (l, ls) (h, hs) m c =
    Or.elim (ℕ_set _ _) (mem-cons.0 m)
      (λ (e : s ≡ t). rw e (layout-head out t ss l h a (rw e at c)))
      (λ m'.
        layout-tail out t ss l h a
          (omega (arith, AllFrom-of_IsAscending (t.address + t.size) ss hs s m', c))
        ∙ layout-covered (t.address + t.size) ss s a ls hs m' c)

-- Anywhere else stands a zero.
pub layout-uncovered :
    (out : ℕ) (ss : List Section) (a : ℕ)
    → All IsLoaded ss
    → IsAscending out ss
    → out ≤ a
    → ((s : Section) → Mem s ss → ¬ Covers s a)
    → get_or (layout out ss) (a - out) 0 ≡ 0
layout-uncovered out [] a l h le none_covers = refl
layout-uncovered out (s ∷ ss) a (l, ls) (h, hs) le none_covers = elim (dec_lt a s.address) [
  | yes before ↦ layout-hole out s ss l h a le before
  | no after ↦
      let not_in = none_covers s mem-cons_self in
      let behind : s.address + s.size ≤ a = ground arith in
      layout-tail out s ss l h a behind
      ∙ layout-uncovered (s.address + s.size) ss a ls hs behind
          (λ t m. none_covers t (mem-cons_of_mem s m))
]
