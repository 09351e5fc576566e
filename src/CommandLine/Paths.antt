-- ===== src/CommandLine/Paths.antt =====
-- `default_output_file` of src/shrinkler_gba/command_line.cpp, with the parts of std::filesystem::path that it
-- uses, for paths in the POSIX format.
use shrinkler_gba.Base.{
  ℕ, Text, All, Option, codes, if◌then◌else◌, ◌++◌, ◌∷◌, ◌≡◌, none, some, text_eq, ◌≢◌, ==_refl, [],
  arith, ◌==◌, refl, false, Bool-cases, inl, eq-of-text_eq, inr,
}

-- The texts before and behind the last occurrence of a character.
unfoldable pub split_last : ℕ → Text → Option (Text × Text)
split_last c [] = none
split_last c (d ∷ text) = elim (split_last c text) [
  | some (before, behind) ↦ some (d ∷ before, behind)
  | none ↦ if d == c then some ([], text) else none
]

abbrev behind_last : Text → Option (Text × Text) → Text
behind_last text none = text
behind_last text (some (before, behind)) = behind

-- `filename()`: what stands behind the last slash.
unfoldable pub filename : Text → Text
unfolding split_last
filename path = behind_last path (split_last b'/' path)

-- A leading dot is no part of an extension.
abbrev without_extension : Text → Option (Text × Text) → Text
without_extension name none = name
without_extension name (some ([], behind)) = name
without_extension name (some (c ∷ before, behind)) = c ∷ before

-- `stem()` of a file name.
unfoldable pub stem : Text → Text
unfolding split_last
stem name =
    if text_eq name (codes "..") then name else without_extension name (split_last b'.' name)

-- `replace_extension`, which puts a dot in front of the extension.
unfoldable pub replace_extension : Text → Text → Text
unfolding stem
replace_extension name extension = stem name ++ (codes "." ++ extension)

unfoldable pub default_output_file : Text → Text
unfolding filename replace_extension
default_output_file input_file = replace_extension (filename input_file) (codes "gba")

-- The character does not occur.
abbrev pub IsWithout : ℕ → Text → Type 0
IsWithout c = All (λ (d : ℕ). d ≢ c)

split_last-without : (c : ℕ) (text : Text) → IsWithout c text → split_last c text ≡ none
unfolding split_last
split_last-without c [] h = refl
split_last-without c (d ∷ text) (ne, h) = rw (split_last-without c text h) (ground arith)

split_last-append :
    (c : ℕ) (before behind : Text)
    → IsWithout c behind
    → split_last c (before ++ c ∷ behind) ≡ some (before, behind)
unfolding split_last
split_last-append c [] behind h = rw (split_last-without c behind h) (rw (==_refl c) refl)
split_last-append c (d ∷ before) behind h = rw (split_last-append c before behind h) refl

text_eq-of_ne : (s t : Text) → s ≢ t → text_eq s t ≡ false
text_eq-of_ne s t ne = elim (Bool-cases (text_eq s t)) [
  | inl same ↦ absurd (ne (eq-of-text_eq s t same))
  | inr other ↦ other
]

split_last-behind :
    (c d : ℕ) (text : Text)
    → IsWithout c text
    → split_last c (d ∷ text) ≡ (if d == c then some ([], text) else none)
unfolding split_last
split_last-behind c d text h = rw (split_last-without c text h) refl

-- A directory, if there is one, and an extension, if there is one.
abbrev pub in_directory : Option Text → Text → Text
in_directory none file = file
in_directory (some directory) file = directory ++ b'/' ∷ file

abbrev pub with_extension : Text → Option Text → Text
with_extension name none = name
with_extension name (some extension) = name ++ b'.' ∷ extension

-- Without an extension, no dot occurs behind the first character; one with an extension has no dots.
abbrev pub IsExtended : Text → Option Text → Type 0
IsExtended name none = IsWithout b'.' name
IsExtended name (some extension) = IsWithout b'.' extension

filename-in_directory :
    (directory : Option Text) (file : Text)
    → IsWithout b'/' file
    → filename (in_directory directory file) ≡ file
unfolding filename
filename-in_directory none file h = rw (split_last-without b'/' file h) refl
filename-in_directory (some directory) file h = rw (split_last-append b'/' directory file h) refl

stem-with_extension :
    (c : ℕ) (name : Text) (extension : Option Text)
    → IsExtended name extension
    → (with_extension (c ∷ name) extension ≢ codes "..")
    → stem (with_extension (c ∷ name) extension) ≡ c ∷ name
unfolding stem
stem-with_extension c name none h ne = elim (Bool-cases (c == b'.')) [
  | inl dot ↦
      rw (text_eq-of_ne (c ∷ name) (codes "..") ne, split_last-behind b'.' c name h, dot) refl
  | inr other ↦
      rw (text_eq-of_ne (c ∷ name) (codes "..") ne, split_last-behind b'.' c name h, other) refl
]
stem-with_extension c name (some extension) h ne =
    rw
      (
        text_eq-of_ne (c ∷ name ++ b'.' ∷ extension) (codes "..") ne,
        split_last-append b'.' (c ∷ name) extension h,
      )
      refl

-- The output file of an input file whose name is neither empty nor `..`, in a directory or not: it has
-- the name, with the extension replaced if there is one (a leading dot begins none) and added if not, and
-- lies in the current directory.
pub default_output_file_lem :
    (directory : Option Text) (c : ℕ) (name : Text) (extension : Option Text)
    → IsWithout b'/' (with_extension (c ∷ name) extension)
    → IsExtended name extension
    → (with_extension (c ∷ name) extension ≢ codes "..")
    → default_output_file (in_directory directory (with_extension (c ∷ name) extension))
      ≡ c ∷ name ++ codes ".gba"
unfolding default_output_file replace_extension
default_output_file_lem directory c name extension slashes dots ne =
    let file : Text = with_extension (c ∷ name) extension in
    rw (filename-in_directory directory file slashes, stem-with_extension c name extension dots ne)
      refl
