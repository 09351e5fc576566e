-- ===== src/ElfInfo/Flags.antt =====
-- What `get_section_flags` writes.
use shrinkler_gba.Base.{◌∷◌}
use shrinkler_gba.ElfInfo.{section_flags, flag_step, flag_loop, get_section_flags}
use shrinkler_gba.Format.{to_hex}
use shrinkler_gba.Base.{
  List, Text, text_eq, ℕ, Bool, if◌then◌else◌, ◌<◌, ◌≡◌, ◌≤◌, Bool-cases, [], ltb, true, ◌+◌, ◌==◌,
  arith, bit_and, false, inl, refl, suc, ◌&&◌, ==_iff, eq-of-text_eq, inr, zero, ◌/◌, ◌%◌,
}

-- The characters of the flags whose bits are set.
abbrev pub letters : List (ℕ × ℕ) → ℕ → Text
letters [] flags = []
letters ((flag, character) ∷ table) flags =
    let rest = letters table flags in if flags / flag % 2 == 1 then character ∷ rest else rest

-- No bit is set that is not in the table: the table has the bits 0 to 7, but not 3.
abbrev pub are_known : ℕ → Bool
are_known flags = ltb flags 256 && (flags / 8 % 2 == 0)

-- A test of all numbers below a bound.
holds_below : ℕ → (ℕ → Bool) → Bool
holds_below zero test = true
holds_below (suc n) test = holds_below n test && test n

test-of_holds_below :
    (n : ℕ) (test : ℕ → Bool) (x : ℕ) → holds_below n test ≡ true → x < n → test x ≡ true
unfolding holds_below
test-of_holds_below zero test x h lt = absurd (omega arith)
test-of_holds_below (suc n) test x h lt = elim (Bool-cases (x == n)) [
  | inl same ↦ rw ((==_iff x n).0 same) (ground arith)
  | inr other ↦ test-of_holds_below n test x (ground arith) (ground arith)
]

abbrev described : ℕ → Text
described flags = if are_known flags then letters section_flags flags else to_hex flags

described_below :
    holds_below 256 (λ flags. text_eq (get_section_flags flags) (described flags)) ≡ true
unfolding holds_below get_section_flags to_hex
described_below = refl

abbrev total : List (ℕ × ℕ) → ℕ
total [] = 0
total ((flag, character) ∷ table) = flag + total table

flag_step-le :
    (flag character : ℕ) (result : Text) (flags : ℕ)
    → flags ≤ flag + (flag_step (flag, character) (result, flags)).1
flag_step-le flag character result flags = elim (Bool-cases (bit_and flags flag == 0)) [
  | inl clear ↦ rw clear (omega arith)
  | inr set ↦ rw set (omega arith)
]

-- The loop takes away no more than the flags of the table.
flag_loop-le :
    (table : List (ℕ × ℕ)) (state : Text × ℕ) → state.1 ≤ total table + (flag_loop table state).1
flag_loop-le [] state = omega arith
flag_loop-le ((flag, character) ∷ table) (result, flags) = omega (
  arith,
  flag_step-le flag character result flags,
  flag_loop-le table (flag_step (flag, character) (result, flags)),
)

not_zero : (n : ℕ) → 0 < n → (n == 0) ≡ false
not_zero n h = ground arith

left_over : (flags : ℕ) → 256 ≤ flags → ((flag_loop section_flags ([], flags)).1 == 0) ≡ false
left_over flags h =
    not_zero (flag_loop section_flags ([], flags)).1
      (omega (arith, flag_loop-le section_flags ([], flags)))

large_lem : (flags : ℕ) → 256 ≤ flags → get_section_flags flags ≡ to_hex flags
unfolding get_section_flags
large_lem flags h = rw (left_over flags h) refl

-- Flags that are all in the table are written as their characters, in the order of the table; any
-- other number is written in hexadecimal, as it was given.
pub get_section_flags_lem :
    (flags : ℕ)
    → get_section_flags flags
      ≡ (if are_known flags then letters section_flags flags else to_hex flags)
get_section_flags_lem flags = elim (Bool-cases (ltb flags 256)) [
  | inl small ↦
      eq-of-text_eq (get_section_flags flags) (described flags)
        (test-of_holds_below 256 _ flags described_below (ground arith))
  | inr large ↦ rw large (large_lem flags (ground arith))
]
