-- ===== src/Complement/Sum.antt =====
-- What the loop of `calculate_complement` computes: the sum of the area's bytes but one, modulo 256.
use shrinkler_gba.Base.{
  ℕ, zero, suc, ◌+◌, ◌%◌, ◌≤◌, ◌<◌, ◌≡◌, ◌≢◌, refl, List, ◌==◌, ==_iff, Bool-cases, inl, inr,
  if◌then◌else◌, ltb, leb, ◌&&◌, ok, arith, length, get_or, set, get_elem?-eq-get_or, get_or-set_ne,
  get_or-set_self,
}
use shrinkler_gba.Complement.{sum_loop, add_unless_variable}

-- The sum of `left` bytes from index `i` on.
abbrev pub sum_from : List ℕ → ℕ → ℕ → ℕ
sum_from area zero i = 0
sum_from area (suc left) i = get_or area i 0 + sum_from area left (i + 1)

-- The part of that sum that the loop skips.
abbrev pub skipped : List ℕ → ℕ → ℕ → ℕ → ℕ
skipped area v left i = if leb i v && ltb v (i + left) then get_or area v 0 else 0

add_unless_variable_lem :
    (area : List ℕ) (v i sum : ℕ)
    → i < length area
    → add_unless_variable area v i sum ≡ ok (if i == v then sum else (sum + get_or area i 0) % 256)
unfolding add_unless_variable
add_unless_variable_lem area v i sum h = ground (arith, get_elem?-eq-get_or area i 0)

-- The loop returns, and its result is the start value and the bytes, but for the skipped one.
pub sum_loop_lem :
    (area : List ℕ) (v left i sum : ℕ)
    → i + left ≤ length area
    → sum < 256
    → (r : ℕ) × (sum_loop area v left i sum ≡ ok r)
      × (r < 256)
      × ((r + skipped area v left i) % 256 ≡ (sum + sum_from area left i) % 256)
unfolding sum_loop
sum_loop_lem area v zero i sum fits small = (sum, refl, small, ground arith)
sum_loop_lem area v (suc left) i sum fits small =
    let next : ℕ = if i == v then sum else (sum + get_or area i 0) % 256 in
    let (r, returns, below, total) =
      sum_loop_lem area v left (i + 1) next (omega arith) (ground arith) in
    (r, ground (arith, add_unless_variable_lem area v i sum), below, ground arith)

pub sum_from-set_outside :
    (area : List ℕ) (j b left i : ℕ) → j < i → sum_from (set area j b) left i ≡ sum_from area left i
sum_from-set_outside area j b zero i h = refl
sum_from-set_outside area j b (suc left) i h = omega (
  arith,
  sum_from-set_outside area j b left (i + 1) (omega arith),
  get_or-set_ne area j i b 0 (omega arith),
)

-- Writing one byte of the range changes the sum by that byte.
pub sum_from-set :
    (area : List ℕ) (j b left i : ℕ)
    → j < length area
    → i ≤ j
    → j < i + left
    → sum_from (set area j b) left i + get_or area j 0 ≡ sum_from area left i + b
sum_from-set area j b zero i fits lo hi = absurd (omega arith)
sum_from-set area j b (suc left) i fits lo hi = elim (Bool-cases (i == j)) [
  | inl same ↦
      let e : i ≡ j = (==_iff i j).0 same in
      rw e (
        omega (
          arith,
          get_or-set_self area j b 0 fits,
          sum_from-set_outside area j b left (j + 1) (omega arith),
        ))
  | inr other ↦
      let ne : i ≢ j = ground arith in
      omega (
        arith,
        get_or-set_ne area j i b 0 (omega arith),
        sum_from-set area j b left (i + 1) fits (omega arith) (omega arith),
      )
]
