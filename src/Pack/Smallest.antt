-- ===== src/Pack/Smallest.antt =====
-- `smallest_cartridge`
use shrinkler_gba.Pack.Choice.{smallest_from, smallest_cartridge}
use shrinkler_gba.Base.{
  ◌≡◌, ◌≤◌, Bool-cases, some, true, ◌++◌, All, arith, inl, ◌<◌, ap, refl, [], inr, ℕ, List, length,
  ltb, ◌∷◌, le_of_ltb,
}
use mathlib.Core.Path.{ap₂}
use shrinkler_gba.Cartridge.{Cartridge}

abbrev size : Cartridge → ℕ
size c = length c.bytes

-- The first of the smallest cartridges of the list.
pub record IsSmallest (c : Cartridge) (cartridges : List Cartridge) : Type 0 where
  pub before : List Cartridge
  pub behind : List Cartridge
  pub split : cartridges ≡ before ++ c ∷ behind
  pub earlier : All (λ (d : Cartridge). length c.bytes < length d.bytes) before
  pub later : All (λ (d : Cartridge). length c.bytes ≤ length d.bytes) behind

cons-injective_head :
    {c d : Cartridge} {cs ds : List Cartridge} → ◌≡◌ {A = List Cartridge} (c ∷ cs) (d ∷ ds) → c ≡ d
cons-injective_head h = cc

cons-injective_tail :
    {c d : Cartridge} {cs ds : List Cartridge}
    → ◌≡◌ {A = List Cartridge} (c ∷ cs) (d ∷ ds)
    → cs ≡ ds
cons-injective_tail h = cc

lt_of_ltb : (a b : ℕ) → ltb a b ≡ true → a < b
lt_of_ltb a b h = ground arith

-- It is not larger than the first.
le_first :
    (s c : Cartridge) (before cs behind : List Cartridge)
    → c ∷ cs ≡ before ++ s ∷ behind
    → All (λ (d : Cartridge). size s < size d) before
    → size s ≤ size c
le_first s c [] cs behind e all =
    let same : c ≡ s = cons-injective_head e in omega (arith, ap size same)
le_first s c (b ∷ before) cs behind e (less, all) =
    let same : c ≡ b = cons-injective_head e in omega (arith, ap size same)

-- A cartridge behind the first that is not smaller changes nothing.
put_second :
    (s best c : Cartridge) (cs before behind : List Cartridge)
    → size best ≤ size c
    → best ∷ cs ≡ before ++ s ∷ behind
    → All (λ (d : Cartridge). size s < size d) before
    → All (λ (d : Cartridge). size s ≤ size d) behind
    → IsSmallest s (best ∷ c ∷ cs)
put_second s best c cs [] behind le e earlier later =
    let same : best ≡ s = cons-injective_head e in
    let rest : cs ≡ behind = cons-injective_tail e in
    record {
      before = [];
      behind = c ∷ behind;
      split = ap₂ (λ (x : Cartridge) (xs : List Cartridge). x ∷ c ∷ xs) same rest;
      earlier = tt;
      later = (omega (arith, ap size same), later);
    }
put_second s best c cs (b ∷ before) behind le e (less, earlier) later =
    let same : best ≡ b = cons-injective_head e in
    let rest : cs ≡ before ++ s ∷ behind = cons-injective_tail e in
    record {
      before = b ∷ c ∷ before;
      behind = behind;
      split = ap₂ (λ (x : Cartridge) (xs : List Cartridge). x ∷ c ∷ xs) same rest;
      earlier = (less, (omega (arith, ap size same), earlier));
      later = later;
    }

smallest_from-IsSmallest :
    (best : Cartridge) (cs : List Cartridge) → IsSmallest (smallest_from best cs) (best ∷ cs)
smallest_from-IsSmallest best [] = record {
  before = [];
  behind = [];
  split = refl;
  earlier = tt;
  later = tt;
}
smallest_from-IsSmallest best (c ∷ cs) = elim (Bool-cases (ltb (size c) (size best))) [
  | inl smaller ↦ rw smaller (
      let s = smallest_from-IsSmallest c cs in
      let le = le_first (smallest_from c cs) c s.before cs s.behind s.split s.earlier in
      record {
        before = best ∷ s.before;
        behind = s.behind;
        split = ap (λ (l : List Cartridge). best ∷ l) s.split;
        earlier = (omega (arith, le, lt_of_ltb (size c) (size best) smaller), s.earlier);
        later = s.later;
      })
  | inr larger ↦ rw larger (
      let s = smallest_from-IsSmallest best cs in
      put_second (smallest_from best cs) best c cs s.before s.behind
        (le_of_ltb (size c) (size best) larger) s.split s.earlier s.later)
]

-- `smallest_cartridge` finds the first of the smallest cartridges, if there is one.
pub smallest_cartridge-IsSmallest :
    (c : Cartridge) (cs : List Cartridge)
    → (s : Cartridge) × (smallest_cartridge (c ∷ cs) ≡ some s) × IsSmallest s (c ∷ cs)
unfolding smallest_cartridge
smallest_cartridge-IsSmallest c cs = (smallest_from c cs, refl, smallest_from-IsSmallest c cs)
