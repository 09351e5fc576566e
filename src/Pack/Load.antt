-- ===== src/Pack/Load.antt =====
-- `load_input_file`: what it returns, and what it leaves alone.
use shrinkler_gba.InputFile.Sort.{SectionSort}
use shrinkler_gba.InputFile.{InputFile, input_file, loaded_data_size}
use shrinkler_gba.Elf.{Elfio}
use shrinkler_gba.Console.{Console, verbose, Line}
use shrinkler_gba.ElfInfo.{display_elf_info}
use shrinkler_gba.Pack.{Environment, load_input_file, try_load, of_errno, of_elfio, with_path}
use shrinkler_gba.Pack.Effects
use shrinkler_gba.Pack.Effects.{Action, pure, say, >>=-All, All-append, disk, disk-append}
use mathlib.Core.Path.{subst}
use shrinkler_gba.Base.{
  Bool, Option, Text, ℕ, All, Error, List, Result, narrow_u32, ◌==◌, ◌≡◌, ◌⊎◌, false, inr, ok,
  throw_if, Bool-cases, err, inl, length, ok_ne_err, some, ◌<◌, arith, ltb, sym, too_small, ap,
  ok-injective, true, ◌^◌, none, refl, [], ◌∷◌, ◌∙◌,
}

-- Whatever `load_input_file` returns has been read from a valid ELF file by the constructor of `input_file`, and is not
-- empty.
pub record IsLoadedFrom (env : Environment) (sorter : SectionSort) (path : Text) (f : InputFile)
    : Type 0 where
  pub contents : List ℕ
  pub elfio : Elfio
  pub content_read : env.read_file path ≡ inr contents
  pub parsed : env.load_elf contents ≡ some elfio
  pub constructed : input_file sorter elfio ≡ ok f
  pub not_empty : 0 < length f.bytes

with_path-ok :
    (path : Text) (r : Result InputFile) (f : InputFile) → with_path path r ≡ ok f → r ≡ ok f
with_path-ok path (ok g) f h = h
with_path-ok path (err e) f h = absurd (ok_ne_err (sym h))

of_errno-ok : (r : ℕ ⊎ List ℕ) (c : List ℕ) → of_errno r ≡ ok c → r ≡ inr c
of_errno-ok (inl e) c h = absurd (ok_ne_err (sym h))
of_errno-ok (inr d) c h = ap inr (ok-injective h)

of_elfio-ok : (o : Option Elfio) (e : Elfio) → of_elfio o ≡ ok e → o ≡ some e
of_elfio-ok none e h = absurd (ok_ne_err (sym h))
of_elfio-ok (some f) e h = ap some (ok-injective h)

not_zero : (n : ℕ) → (n == 0) ≡ false → 0 < n
not_zero n h = ground arith

throw_if-ok : (b : Bool) (e : Error) (u : Unit {0}) → throw_if b e ≡ ok u → b ≡ false
throw_if-ok true e u h = absurd (ok_ne_err (sym h))
throw_if-ok false e u h = refl

narrow_u32-ok : (n m : ℕ) → narrow_u32 n ≡ ok m → m ≡ n
narrow_u32-ok n m h = elim (Bool-cases (ltb n (2 ^ 32))) [
  | inl small ↦ sym (ok-injective (rw small at h))
  | inr large ↦ absurd (ok_ne_err (sym (rw large at h)))
]

-- Whatever `load_input_file` returns is what the constructor of `input_file` makes of the contents of the file,
-- and there is at least one byte to compress.
pub load_input_file-IsLoadedFrom :
    (env : Environment) (sorter : SectionSort) (path : Text) (c : Console) (f : InputFile)
    → (load_input_file env sorter path c).1 ≡ ok f
    → IsLoadedFrom env sorter path f
unfolding load_input_file try_load loaded_data_size
load_input_file-IsLoadedFrom env sorter path c f h =
    let h0 = with_path-ok path _ f h in
    let (contents, read, h1) = Effects.>>=-eq-ok (pure (of_errno (env.read_file path))) _ h0 in
    let (elfio, parsed, h2) = Effects.>>=-eq-ok (pure (of_elfio (env.load_elf contents))) _ h1 in
    let (tables, _, h3) =
      Effects.>>=-eq-ok (pure (display_elf_info env.str_section_type elfio c)) _ h2 in
    let (g, constructed, h4) = Effects.>>=-eq-ok (pure (input_file sorter elfio)) _ h3 in
    let (size, narrowed, h5) = Effects.>>=-eq-ok (pure (narrow_u32 (length g.bytes))) _ h4 in
    let (unit, large, h6) = Effects.>>=-eq-ok (pure (throw_if (size == 0) too_small)) _ h5 in
    subst (IsLoadedFrom env sorter path) (ok-injective h6) (record {
      contents = contents;
      elfio = elfio;
      content_read = of_errno-ok (env.read_file path) contents read;
      parsed = of_elfio-ok (env.load_elf contents) elfio parsed;
      constructed = constructed;
      not_empty =
          subst (λ (n : ℕ). 0 < n) (narrow_u32-ok (length g.bytes) size narrowed)
            (not_zero size (throw_if-ok (size == 0) too_small unit large));
    })

-- Actions that `load_input_file` may do are those that satisfy what its messages do.
pub load_input_file-All :
    (P : Action → Type 0) (env : Environment) (sorter : SectionSort) (path : Text) (c : Console)
    → ((text : Text) → All P (say (verbose c text)).0)
    → ((types : ℕ → Text) (reader : Elfio) (lines : List Line)
        → display_elf_info types reader c ≡ ok lines
        → All P (say lines).0)
    → All P (load_input_file env sorter path c).0
unfolding load_input_file try_load
load_input_file-All P env sorter path c loud tables =
    let after = λ (text : Text). All-append P (say (verbose c text)).0 in
    after _ _ (loud _) (
      >>=-All P (pure (of_errno (env.read_file path))) _ tt λ contents e1.
        >>=-All P (pure (of_elfio (env.load_elf contents))) _ tt λ elfio e2.
          >>=-All P (pure (display_elf_info env.str_section_type elfio c)) _ tt λ lines e3.
            All-append P (say lines).0 _ (tables env.str_section_type elfio lines e3) (
              >>=-All P (pure (input_file sorter elfio)) _ tt λ file e4. after _ _ (loud _) (
                after _ _ (loud _) (
                  >>=-All P (pure (loaded_data_size file)) _ tt λ size e5.
                    after _ _ (loud _)
                      (>>=-All P (pure (throw_if (size == 0) too_small)) _ tt λ done e6. tt)))))

IsMessage-disk :
    (actions : List Action)
    → All (λ (act : Action). disk (act ∷ []) ≡ []) actions
    → disk actions ≡ []
IsMessage-disk [] h = refl
IsMessage-disk (act ∷ actions) (first, rest) =
    disk-append (act ∷ []) actions ∙ rw first (IsMessage-disk actions rest)

say-silent : (lines : List Line) → All (λ (act : Action). disk (act ∷ []) ≡ []) (say lines).0
say-silent [] = tt
say-silent (line ∷ lines) = (refl, say-silent lines)

pub load_input_file-disk :
    (env : Environment) (sorter : SectionSort) (path : Text) (c : Console)
    → disk (load_input_file env sorter path c).0 ≡ []
load_input_file-disk env sorter path c = IsMessage-disk (load_input_file env sorter path c).0 (
    load_input_file-All (λ act. disk (act ∷ []) ≡ []) env sorter path c
      (λ text. say-silent (verbose c text)) (λ types reader lines e. say-silent lines))
