-- ===== src/Complement/Laws.antt =====
-- `calculate_complement` against the definition of the checksum: the BIOS of the console accepts a
-- header whose checksum area, with 0x19 added, sums to zero modulo 256.
use shrinkler_gba.Base.{
  ℕ, ◌+◌, ◌-◌, ◌%◌, ◌≤◌, ◌<◌, ◌≡◌, ◌↔◌, ◌∙◌, sym, List, ok, arith, length, get_or, set, Result,
  IsByte, ap,
}
use shrinkler_gba.Complement.{
  calculate_complement, calculate_header_complement, complement_index, checksum_area_size,
}
use shrinkler_gba.Complement.Sum.{sum_from, sum_from-set, sum_loop_lem}

-- The sum of the checksum area, from its start value.
abbrev pub checksum : List ℕ → ℕ
checksum area = (0x19 + sum_from area checksum_area_size 0) % 256

-- The area sums to zero.
abbrev pub IsAccepted : List ℕ → Type 0
IsAccepted area = checksum area ≡ 0

-- The complement byte is the one that `calculate_complement` gives.
abbrev pub HasComplement : List ℕ → Type 0
HasComplement area = calculate_header_complement area ≡ ok (get_or area complement_index 0)

ok-injective : {a b : ℕ} → ◌≡◌ {A = Result ℕ} (ok a) (ok b) → a ≡ b
ok-injective h = cc

-- On an area that is long enough, `calculate_complement` returns the byte that brings the sum of
-- the other bytes to zero.
pub calculate_complement_lem :
    (area : List ℕ) (v : ℕ)
    → checksum_area_size ≤ length area
    → v < checksum_area_size
    → (c : ℕ) × (calculate_complement area v ≡ ok c)
      × IsByte c
      × ((c + 0x19 + sum_from area checksum_area_size 0) % 256 ≡ get_or area v 0 % 256)
unfolding calculate_complement
calculate_complement_lem area v long inside =
    let (r, returns, below, total) =
      sum_loop_lem area v checksum_area_size 0 0x19 (omega arith) (omega arith) in
    ((256 - r) % 256, rw returns, omega arith, ground arith)

-- The complement byte is right exactly when the console accepts the header.
pub HasComplement-iff_IsAccepted :
    (area : List ℕ)
    → checksum_area_size ≤ length area
    → IsByte (get_or area complement_index 0)
    → HasComplement area ↔ IsAccepted area
unfolding calculate_header_complement
HasComplement-iff_IsAccepted area long byte =
    let (c, returns, below, total) =
      calculate_complement_lem area complement_index long (omega arith) in
    (
      (λ h. let e = ok-injective (sym returns ∙ h) in omega arith),
      λ h. returns ∙ ap ok (let e : c ≡ get_or area complement_index 0 = omega arith in e),
    )

-- Whichever byte of the area is chosen to be the variable one, exactly one value of it makes the
-- console accept the header, and that is the value that `calculate_complement` gives for it.
pub calculate_complement_unique :
    (area : List ℕ) (v b : ℕ)
    → checksum_area_size ≤ length area
    → v < checksum_area_size
    → IsByte (get_or area v 0)
    → IsByte b
    → IsAccepted (set area v b) ↔ (calculate_complement area v ≡ ok b)
calculate_complement_unique area v b long inside old new =
    let (c, returns, below, total) = calculate_complement_lem area v long inside in
    let moved =
      sum_from-set area v b checksum_area_size 0 (omega arith) (omega arith) (omega arith) in
    (
      (λ h. returns ∙ ap ok (let e : c ≡ b = omega arith in e)),
      λ h. let e = ok-injective (sym returns ∙ h) in omega arith,
    )
