-- ===== src/InputFile/IsImage.antt =====
-- The memory image that the constructor of `input_file` builds: what it holds, when it is built,
-- and that there is only one.
use mathlib.Core.Logic.Or
use mathlib.Core.List.Perm
use shrinkler_gba.Elf.{Section}
use shrinkler_gba.InputFile.Layout.{IsLoaded, IsAscending, layout, end_address}
use shrinkler_gba.InputFile.Disjoint.{Covers, AllFrom-of_IsAscending}
use shrinkler_gba.InputFile.Image.{
  length-layout, covered-lt-end_address, layout-covered, layout-uncovered, end_address-ge,
}
use shrinkler_gba.InputFile.Constructor.{first_address}
use shrinkler_gba.Base.{
  ℕ, List, All, ◌<◌, ◌≤◌, ◌+◌, ◌-◌, arith, length, get_or, ◌∷◌, ◌≡◌, [], refl, ◌⊎◌, inl, inr, suc,
  ◌∙◌, sym,
}
use mathlib.Core.List.{Mem, mem-cons_self, Perm, mem-cons_of_mem, not-mem-nil, mem-cons}
use mathlib.Core.Logic.{∥∥₁_map, ∥∥₁_elim}
use mathlib.Core.Path.{ap₂}
use native.Mathlib.Decide.{dec_le, dec_lt}
use native.Mathlib.Bridge.{le_prop}
use mathlib.Core.HLevel.{⊥_prop}

-- The bytes are the memory from the load address to the end of the last section: at each address
-- the byte of the section that covers it, and zero where none does.
pub record IsImage (sections : List Section) (load_address : ℕ) (bytes : List ℕ) : Type 0 where
  pub covered :
      (s : Section) (a : ℕ)
      → Mem s sections
      → Covers s a
      → (load_address ≤ a)
        × (a < load_address + length bytes)
        × (get_or bytes (a - load_address) 0 ≡ get_or s.content (a - s.address) 0)
  pub uncovered :
      (a : ℕ)
      → load_address ≤ a
      → ((s : Section) → Mem s sections → ¬ Covers s a)
      → get_or bytes (a - load_address) 0 ≡ 0
  -- The first and the last byte belong to sections.
  pub first_covered :
      0 < length bytes → ∥ ((s : Section) × Mem s sections × Covers s load_address) ∥₁
  pub last_covered :
      0 < length bytes
      → ∥ ((s : Section) × Mem s sections × Covers s (load_address + length bytes - 1)) ∥₁
  pub zero_if_empty : length bytes ≡ 0 → load_address ≡ 0

-- The last section reaches to the end.
last-Covers :
    (s : Section) (out : ℕ) (ss : List Section)
    → All IsLoaded (s ∷ ss)
    → IsAscending out (s ∷ ss)
    → (t : Section) × Mem t (s ∷ ss) × Covers t (end_address out (s ∷ ss) - 1)
last-Covers s out [] (l, ls) h = (s, mem-cons_self, omega (arith, l.size_pos))
last-Covers s out (t ∷ ss) (l, ls) (h, hs) =
    let (u, m, c) = last-Covers t (s.address + s.size) ss ls hs in (u, mem-cons_of_mem s m, c)

pub IsImage-of_layout :
    (ss : List Section)
    → All IsLoaded ss
    → IsAscending (first_address ss) ss
    → IsImage ss (first_address ss) (layout (first_address ss) ss)
IsImage-of_layout [] l up = record {
  covered = λ s a m c. absurd (not-mem-nil m);
  uncovered = λ a le h. refl;
  first_covered = λ h. absurd (omega arith);
  last_covered = λ h. absurd (omega arith);
  zero_if_empty = λ h. refl;
}
IsImage-of_layout (s ∷ ss) (l, ls) up =
    let size = length-layout s.address (s ∷ ss) (l, ls) up in
    let whole : 0 < end_address s.address (s ∷ ss) - s.address =
      omega (arith, end_address-ge (s.address + s.size) ss up.1, l.size_pos) in
    record {
      covered = λ t a m c. (
        omega (arith, AllFrom-of_IsAscending s.address (s ∷ ss) up t m, c),
        omega (arith, size, covered-lt-end_address s.address (s ∷ ss) t a up m c),
        layout-covered s.address (s ∷ ss) t a (l, ls) up m c,
      );
      uncovered = λ a le h. layout-uncovered s.address (s ∷ ss) a (l, ls) up le h;
      first_covered = λ h. ∣ (s, mem-cons_self, omega (arith, l.size_pos)) ∣₁;
      last_covered =
          λ h. let (t, m, c) = last-Covers s s.address ss (l, ls) up in ∣ (t, m, rw size c) ∣₁;
      zero_if_empty = λ h. absurd (omega (arith, size));
    }

pub IsImage-perm :
    {ss ss' : List Section} {load_address : ℕ} {bytes : List ℕ}
    → Perm ss ss'
    → IsImage ss load_address bytes
    → IsImage ss' load_address bytes
IsImage-perm p i = record {
  covered = λ s a m c. i.covered s a ((Perm.mem_iff p).1 m) c;
  uncovered = λ a le h. i.uncovered a le (λ s m. h s ((Perm.mem_iff p).0 m));
  first_covered = λ h. ∥∥₁_map (i.first_covered h) (λ (s, m, c). (s, (Perm.mem_iff p).0 m, c));
  last_covered = λ h. ∥∥₁_map (i.last_covered h) (λ (s, m, c). (s, (Perm.mem_iff p).0 m, c));
  zero_if_empty = i.zero_if_empty;
}

covers_dec : (s : Section) (a : ℕ) → Dec (Covers s a)
covers_dec s a = elim (dec_le s.address a) [
  | yes p ↦ elim (dec_lt a (s.address + s.size)) [ yes q ↦ yes (p, q) | no q ↦ no (λ c. q c.1) ]
  | no p ↦ no (λ c. p c.0)
]

-- Whether a section covers the address.
find_cover :
    (ss : List Section) (a : ℕ)
    → ((s : Section) × Mem s ss × Covers s a) ⊎ ((s : Section) → Mem s ss → ¬ Covers s a)
find_cover [] a = inr (λ s m. absurd (not-mem-nil m))
find_cover (s ∷ ss) a = elim (covers_dec s a) [
  | yes c ↦ inl (s, mem-cons_self, c)
  | no here ↦ elim (find_cover ss a) [
    | inl (t, m, c) ↦ inl (t, mem-cons_of_mem s m, c)
    | inr there ↦ inr (λ t m c.
        Or.elim ⊥_prop (mem-cons.0 m) (λ (e : t ≡ s). here (rw e at c)) (λ m'. there t m' c))
  ]
]

module _ {ss : List Section} {x y : ℕ} {bytes others : List ℕ} (i : IsImage ss x bytes)
    (j : IsImage ss y others) where
  load_address-le : 0 < length others → x ≤ y
  load_address-le h = ∥∥₁_elim (j.first_covered h) le_prop (λ (s, m, c). (i.covered s y m c).0)

  end-le : 0 < length others → y + length others ≤ x + length bytes
  end-le h =
      ∥∥₁_elim (j.last_covered h) le_prop
        (λ (s, m, c). omega (arith, i.covered s (y + length others - 1) m c))

  some-le : 0 < length others → 0 < length bytes
  some-le h = ∥∥₁_elim (j.first_covered h) le_prop (λ (s, m, c). omega (arith, i.covered s y m c))

get_or_ext :
    (xs ys : List ℕ)
    → length xs ≡ length ys
    → ((i : ℕ) → i < length xs → get_or xs i 0 ≡ get_or ys i 0)
    → xs ≡ ys
get_or_ext [] [] e h = refl
get_or_ext [] (y ∷ ys) e h = absurd (omega arith)
get_or_ext (x ∷ xs) [] e h = absurd (omega arith)
get_or_ext (x ∷ xs) (y ∷ ys) e h =
    ap₂ ◌∷◌ (h 0 (omega arith)) (get_or_ext xs ys (omega arith) (λ i p. h (suc i) (omega arith)))

-- The description leaves no choice: it determines the load address and the bytes.
pub IsImage-unique :
    {ss : List Section} {x y : ℕ} {bytes others : List ℕ}
    → IsImage ss x bytes
    → IsImage ss y others
    → (x ≡ y) × (bytes ≡ others)
IsImage-unique {ss} {x} {y} {bytes} {others} i j = (same, get_or_ext bytes others lengths agree)
  where
    same : x ≡ y
    same = elim (dec_lt 0 (length bytes)) [
      | yes p ↦ omega (arith, load_address-le i j (some-le j i p), load_address-le j i p)
      | no p ↦ elim (dec_lt 0 (length others)) [
        | yes q ↦ absurd (omega (arith, some-le i j q))
        | no q ↦ omega (arith, i.zero_if_empty (omega arith), j.zero_if_empty (omega arith))
      ]
    ]

    lengths : length bytes ≡ length others
    lengths = elim (dec_lt 0 (length bytes)) [
      | yes p ↦ omega (arith, same, end-le i j (some-le j i p), end-le j i p)
      | no p ↦ elim (dec_lt 0 (length others)) [
        | yes q ↦ absurd (omega (arith, some-le i j q))
        | no q ↦ omega arith
      ]
    ]

    agree : (n : ℕ) → n < length bytes → get_or bytes n 0 ≡ get_or others n 0
    agree n h =
        let left : x + n - x ≡ n = omega arith in
        let right : x + n - y ≡ n = omega (arith, same) in
        elim (find_cover ss (x + n)) [
          | inl (s, m, c) ↦
              (rw left at (i.covered s (x + n) m c).2)
              ∙ sym (rw right at (j.covered s (x + n) m c).2)
          | inr no_cover ↦
              (rw left at (i.uncovered (x + n) (omega arith) no_cover))
              ∙ sym (rw right at (j.uncovered (x + n) (omega (arith, same)) no_cover))
        ]
