-- ===== src/Base/Errors.antt =====
-- The exceptions that the code throws, with the values of their messages, and the monad of code
-- that may throw.
use Prim.Native.Nat.{ℕ}
use mathlib.Core.Path.{◌≡◌, refl}
use mathlib.Core.Logic.{◌⊎◌, inl, inr}
use mathlib.Core.Bool.{Bool, true, false}
use shrinkler_gba.Base.Tests.{Text}

-- What the messages of `internal_error` say.
pub data InternalError : Type 0 where
  wrong_lc : ℕ → Text → InternalError
  not_aligned : ℕ → InternalError
  wrong_fixed_byte : ℕ → InternalError
  wrong_complement : ℕ → ℕ → InternalError
  unknown_packer : Text → InternalError
  lzss_verification_failed : InternalError
  huffman_verification_failed : InternalError
  lzss_buffer_not_aligned : InternalError

-- One constructor for each `throw`, and one for what the standard and the third-party code throws.
-- `undefined_behaviour` stands for an access that C++ leaves undefined.
pub data Error : Type 0 where
  not_arm_executable : Error
  unknown_elf_version : ℕ → Error
  unknown_os_abi : ℕ → Error
  unknown_abi_version : ℕ → Error
  unknown_object_file_version : ℕ → Error
  section_overlaps : Text → Text → Error
  not_valid_elf : Error
  too_small : Error
  no_packer_could_compress : Error
  internal : InternalError → Error
  narrowing_error : Error
  out_of_range : Error
  system_error : ℕ → Error
  foreign_error : ℕ → Error
  at_path : Text → Error → Error
  could_not_write : Text → Error → Error
  undefined_behaviour : Error

-- What code that may throw gives back.
pub data Result {ℓ} (Value : Type ℓ) : Type ℓ where
  err : Error → Result Value
  ok : Value → Result Value

-- `if (test) { throw e; }`
abbrev pub throw_if : Bool → Error → Result (Unit {0})
throw_if false thrown = ok tt
throw_if true thrown = err thrown

infixl 5 ◌>>=◌ ◌>>◌
-- What follows is skipped after an exception.
abbrev pub ◌>>=◌ {ℓ κ} :
    {Value : Type ℓ} {Next : Type κ} → Result Value → (Value → Result Next) → Result Next
err thrown >>= next = err thrown
ok value >>= next = next value

abbrev pub ◌>>◌ {ℓ} : {Next : Type ℓ} → Result (Unit {0}) → Result Next → Result Next
first >> next = first >>= λ done. next

-- Both parts of code that succeeds have succeeded.
pub >>=-eq-ok {ℓ κ} :
    {Value : Type ℓ} {Next : Type κ} (first : Result Value) (next : Value → Result Next)
    {final : Next} (returned : (first >>= next) ≡ ok final)
    → (value : Value) × (first ≡ ok value) × (next value ≡ ok final)
>>=-eq-ok (err thrown) next returned = cc
>>=-eq-ok (ok value) next returned = (value, refl, returned)

pub Result-cases {ℓ} :
    {A : Type ℓ} (r : Result A) → ((a : A) × (r ≡ ok a)) ⊎ ((e : Error) × (r ≡ err e))
Result-cases (ok a) = inl (a, refl)
Result-cases (err e) = inr (e, refl)

pub ok_ne_err {ℓ} : {A : Type ℓ} {a : A} {e : Error} → ◌≡◌ {A = Result A} (ok a) (err e) → ⊥
ok_ne_err h = cc

pub ok-injective {ℓ} : {A : Type ℓ} {a b : A} → ◌≡◌ {A = Result A} (ok a) (ok b) → a ≡ b
ok-injective h = cc
