-- ===== src/Base/Words.antt =====
-- The fixed-width words of C++ as natural numbers, and the checked conversions of the GSL.
use mathlib.Core.Path.{◌≡◌}
use Prim.Native.Nat.{ℕ, zero, suc, ◌*◌, ◌/◌, ◌%◌, ◌^◌, ◌<◌}
use mathlib.Core.List.{List, [], ◌∷◌}
use mathlib.Core.Option.{Option, none, some}
use shrinkler_gba.Base.Tests.{ltb, if◌then◌else◌}
use shrinkler_gba.Base.Lists.{set, get_elem?, All, length, get_or, get_elem?-eq-get_or}
use shrinkler_gba.Base.Errors.{Result, ok, err, narrowing_error, out_of_range, undefined_behaviour}

abbrev pub u8 : ℕ → ℕ
u8 n = n % 2 ^ 8

abbrev pub u32 : ℕ → ℕ
u32 n = n % 2 ^ 32

abbrev pub u64 : ℕ → ℕ
u64 n = n % 2 ^ 64

infixl 75 ◌<<<◌ ◌>>>◌
abbrev pub ◌<<<◌ : ℕ → ℕ → ℕ
x <<< k = x * 2 ^ k

abbrev pub ◌>>>◌ : ℕ → ℕ → ℕ
x >>> k = x / 2 ^ k

abbrev pub IsByte : ℕ → Type 0
IsByte n = n < 256

abbrev pub IsBytes : List ℕ → Type 0
IsBytes = All IsByte

-- `gsl::narrow<uint32_t>` of an unsigned value.
abbrev pub narrow_u32 : ℕ → Result ℕ
narrow_u32 n = if ltb n (2 ^ 32) then ok n else err narrowing_error

-- `gsl::narrow<int32_t>` of an unsigned value.
abbrev pub narrow_i32 : ℕ → Result ℕ
narrow_i32 n = if ltb n (2 ^ 31) then ok n else err narrowing_error

abbrev of_option : Option ℕ → Result ℕ → Result ℕ
of_option none e = e
of_option (some n) e = ok n

-- `p[i]`, where `p` points to the first of the given bytes.
abbrev pub read : List ℕ → ℕ → Result ℕ
read xs i = of_option (get_elem? xs i) (err undefined_behaviour)

-- `v.at(i)`.
abbrev pub read_at : List ℕ → ℕ → Result ℕ
read_at xs i = of_option (get_elem? xs i) (err out_of_range)

pub read_at_lem : (xs : List ℕ) (i : ℕ) → i < length xs → read_at xs i ≡ ok (get_or xs i 0)
read_at_lem xs i h = rw (get_elem?-eq-get_or xs i 0 h)

pub IsByte-get_or-set :
    (xs : List ℕ) (i v j : ℕ) → IsByte v → IsByte (get_or xs j 0) → IsByte (get_or (set xs i v) j 0)
IsByte-get_or-set [] i v j h k = k
IsByte-get_or-set (x ∷ xs) zero v zero h k = h
IsByte-get_or-set (x ∷ xs) zero v (suc j) h k = k
IsByte-get_or-set (x ∷ xs) (suc i) v zero h k = k
IsByte-get_or-set (x ∷ xs) (suc i) v (suc j) h k = IsByte-get_or-set xs i v j h k
