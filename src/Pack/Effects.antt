-- ===== src/Pack/Effects.antt =====
-- What the program does to its environment, in this order, and what it returns or throws in the end.
use shrinkler_gba.Console.{Line}
use shrinkler_gba.Base.{
  Option, List, Result, Text, ℕ, ok, err, ◌++◌, [], ◌∷◌, ◌≡◌, ap, ok_ne_err, refl, ◌∙◌, sym, All,
  Error,
}

-- A write, the closing and the removal of a file are listed with the error number if they fail.
pub data Action : Type 0 where
  printed : Line → Action
  opened : Text → Action
  wrote : Text → List ℕ → Option ℕ → Action
  closed : Text → Option ℕ → Action
  removed : Text → Option ℕ → Action

abbrev pub Trace {ℓ} : Type ℓ → Type ℓ
Trace A = List Action × Result A

-- The second part is not run after an exception.
abbrev pub continue {ℓ κ} :
    {A : Type ℓ} {B : Type κ} → List Action → Result A → (A → Trace B) → Trace B
continue earlier (err e) next = (earlier, err e)
continue earlier (ok a) next = (earlier ++ (next a).0, (next a).1)

infixl 5 ◌>>=◌ ◌>>◌
abbrev pub ◌>>=◌ {ℓ κ} : {A : Type ℓ} {B : Type κ} → Trace A → (A → Trace B) → Trace B
first >>= next = continue first.0 first.1 next

abbrev pub ◌>>◌ {ℓ} : {B : Type ℓ} → Trace (Unit {0}) → Trace B → Trace B
first >> next = first >>= λ done. next

-- Code that has no effect on the environment, but may throw.
abbrev pub pure {ℓ} : {A : Type ℓ} → Result A → Trace A
pure result = ([], result)

abbrev printed_all : List Line → List Action
printed_all [] = []
printed_all (line ∷ lines) = printed line ∷ printed_all lines

abbrev pub say : List Line → Trace (Unit {0})
say lines = (printed_all lines, ok tt)

-- What is done to the disk.
abbrev pub disk : List Action → List Action
disk [] = []
disk (printed line ∷ actions) = disk actions
disk (opened name ∷ actions) = opened name ∷ disk actions
disk (wrote name bytes e ∷ actions) = wrote name bytes e ∷ disk actions
disk (closed name e ∷ actions) = closed name e ∷ disk actions
disk (removed name e ∷ actions) = removed name e ∷ disk actions

pub disk-append : (xs ys : List Action) → disk (xs ++ ys) ≡ disk xs ++ disk ys
disk-append [] ys = refl
disk-append (printed line ∷ xs) ys = disk-append xs ys
disk-append (opened name ∷ xs) ys = ap (λ (l : List Action). opened name ∷ l) (disk-append xs ys)
disk-append (wrote name bytes e ∷ xs) ys =
    ap (λ (l : List Action). wrote name bytes e ∷ l) (disk-append xs ys)
disk-append (closed name e ∷ xs) ys =
    ap (λ (l : List Action). closed name e ∷ l) (disk-append xs ys)
disk-append (removed name e ∷ xs) ys =
    ap (λ (l : List Action). removed name e ∷ l) (disk-append xs ys)

pub disk-printed_all : (lines : List Line) → disk (printed_all lines) ≡ []
disk-printed_all [] = refl
disk-printed_all (line ∷ lines) = disk-printed_all lines

pub All-append :
    (P : Action → Type 0) (xs ys : List Action) → All P xs → All P ys → All P (xs ++ ys)
All-append P [] ys hx hy = hy
All-append P (x ∷ xs) ys (first, rest) hy = (first, All-append P xs ys rest hy)

module _ {ℓ κ} {A : Type ℓ} {B : Type κ} where
  continue-All :
      (P : Action → Type 0) (earlier : List Action) (r : Result A) (next : A → Trace B)
      → All P earlier
      → ((a : A) → r ≡ ok a → All P (next a).0)
      → All P (continue earlier r next).0
  continue-All P earlier (err e) next h k = h
  continue-All P earlier (ok a) next h k = All-append P earlier (next a).0 h (k a refl)

  -- What holds of all actions of both parts.
  pub >>=-All :
      (P : Action → Type 0) (first : Trace A) (next : A → Trace B)
      → All P first.0
      → ((a : A) → first.1 ≡ ok a → All P (next a).0)
      → All P (first >>= next).0
  >>=-All P first next h k = continue-All P first.0 first.1 next h k

  continue-ok :
      (earlier : List Action) (r : Result A) (next : A → Trace B) {b : B}
      → (continue earlier r next).1 ≡ ok b
      → (a : A) × (r ≡ ok a) × ((next a).1 ≡ ok b)
  continue-ok earlier (err e) next h = absurd (ok_ne_err (sym h))
  continue-ok earlier (ok a) next h = (a, refl, h)

  -- Both parts of code that succeeds have succeeded.
  pub >>=-eq-ok :
      (first : Trace A) (next : A → Trace B) {b : B}
      → (first >>= next).1 ≡ ok b
      → (a : A) × (first.1 ≡ ok a) × ((next a).1 ≡ ok b)
  >>=-eq-ok first next h = continue-ok first.0 first.1 next h

  continue-disk :
      (earlier : List Action) (r : Result A) (next : A → Trace B)
      → disk earlier ≡ []
      → ((a : A) → disk (next a).0 ≡ [])
      → disk (continue earlier r next).0 ≡ []
  continue-disk earlier (err e) next h k = h
  continue-disk earlier (ok a) next h k = disk-append earlier (next a).0 ∙ rw h (k a)

  -- Code whose parts leave the disk alone does so.
  pub >>=-disk :
      (first : Trace A) (next : A → Trace B)
      → disk first.0 ≡ []
      → ((a : A) → disk (next a).0 ≡ [])
      → disk (first >>= next).0 ≡ []
  >>=-disk first next h k = continue-disk first.0 first.1 next h k

  -- What the second part does to the disk, after a first part that leaves it alone.
  pub >>=-disk_of_ok :
      (first : Trace A) (next : A → Trace B) (a : A)
      → first.1 ≡ ok a
      → disk first.0 ≡ []
      → (disk (first >>= next).0 ≡ disk (next a).0) × ((first >>= next).1 ≡ (next a).1)
  >>=-disk_of_ok first next a e h = (
    ap (λ (r : Result A). disk (continue first.0 r next).0) e
        ∙ disk-append first.0 (next a).0
        ∙ rw h refl,
    ap (λ (r : Result A). (continue first.0 r next).1) e,
  )

  -- Nothing follows an exception.
  pub >>=-disk_of_err :
      (first : Trace A) (next : A → Trace B) (e : Error)
      → first.1 ≡ err e
      → disk first.0 ≡ []
      → (disk (first >>= next).0 ≡ []) × ((first >>= next).1 ≡ err e)
  >>=-disk_of_err first next e failed h = (
    ap (λ (r : Result A). disk (continue first.0 r next).0) failed ∙ h,
    ap (λ (r : Result A). (continue first.0 r next).1) failed,
  )
