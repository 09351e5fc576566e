-- ===== src/Pack/Quiet.antt =====
-- What `pack` prints if messages are not verbose.
use shrinkler_gba.InputFile.Sort.{SectionSort}
use shrinkler_gba.InputFile.{InputFile}
use shrinkler_gba.Packer.{Packer, Libraries, pack_with}
use shrinkler_gba.Options.{Options}
use shrinkler_gba.Cartridge.{Cartridge}
use shrinkler_gba.Console.{
  default_console, Console, Line, Stream, println, verbose, warn, out, is_verbose_enabled, is_some,
}
use shrinkler_gba.ElfInfo.{display_elf_info, display_program_headers, display_section_headers}
use shrinkler_gba.Pack.{
  Environment, load_input_file, ezf_advance_warning, display_sizes, notes, pack_one, pack_all,
  try_all_packers, write, write_to_disk, pack, create_console, ends_in_0xff,
}
use shrinkler_gba.Pack.Choice.{get_packers}
use shrinkler_gba.Pack.Effects.{Action, printed, pure, say, All-append, >>=-All}
use shrinkler_gba.Pack.Load.{load_input_file-All}
use shrinkler_gba.Base.{
  List, Option, Text, ◌≡◌, All, codes, false, none, ◌++◌, [], ap, some, ℕ, ◌∷◌, ◌⊎◌, Bool-cases,
  Option-cases, inl, inr, ltb, ok, refl, length, ok-injective, ◌^◌, Bool, arith, if◌then◌else◌,
}
use shrinkler_gba.Elf.{Elfio}
use mathlib.Core.Path.{subst}

-- A message is a warning or a note.
abbrev pub IsAlert : Action → Type 0
IsAlert (printed line) =
    (rest : Text) × ((line.text ≡ codes "Warning: " ++ rest) ⊎ (line.text ≡ codes "Note: " ++ rest))
IsAlert _ = Unit

abbrev AreAlerts : List Line → Type 0
AreAlerts lines = All IsAlert (say lines).0

AreAlerts-append : (xs ys : List Line) → AreAlerts xs → AreAlerts ys → AreAlerts (xs ++ ys)
AreAlerts-append [] ys hx hy = hy
AreAlerts-append (x ∷ xs) ys (first, rest) hy = (first, AreAlerts-append xs ys rest hy)

println-warning :
    (stream : Option Stream) (text : Text) → AreAlerts (println stream (codes "Warning: " ++ text))
unfolding println
println-warning none text = tt
println-warning (some stream) text = ((text, inl refl), tt)

println-note :
    (stream : Option Stream) (text : Text) → AreAlerts (println stream (codes "Note: " ++ text))
unfolding println
println-note none text = tt
println-note (some stream) text = ((text, inr refl), tt)

module _ (c : Console) (quiet : c.verbose_stream ≡ none) where
  verbose-eq-nil : (text : Text) → verbose c text ≡ []
  unfolding verbose println
  verbose-eq-nil text = ap (λ (s : Option Stream). println s text) quiet

  verbose-AreAlerts : (text : Text) → AreAlerts (verbose c text)
  verbose-AreAlerts text = rw (verbose-eq-nil text) tt

  disabled : is_verbose_enabled c ≡ false
  unfolding is_verbose_enabled
  disabled = ap is_some quiet

  tables-AreAlerts :
      (types : ℕ → Text) (reader : Elfio) (lines : List Line)
      → display_elf_info types reader c ≡ ok lines
      → AreAlerts lines
  unfolding display_elf_info display_program_headers display_section_headers
  tables-AreAlerts types reader lines h =
      let e : [] ≡ lines = ok-injective (rw disabled at h) in subst AreAlerts e tt

  warning-AreAlerts : (bytes : List ℕ) → AreAlerts (ezf_advance_warning c bytes)
  unfolding ezf_advance_warning warn
  warning-AreAlerts bytes = elim (Bool-cases (ends_in_0xff bytes)) [
    | inl padded ↦ rw padded (println-warning c.warn_stream _)
    | inr other ↦ rw other tt
  ]

  notes-AreAlerts : (infos : List Text) → AreAlerts (notes c infos)
  unfolding notes out
  notes-AreAlerts [] = tt
  notes-AreAlerts (info ∷ infos) =
      AreAlerts-append (out c (codes "Note: " ++ info)) (notes c infos)
        (println-note c.out_stream info) (notes-AreAlerts infos)

  sizes-AreAlerts : (cartridge : Cartridge) → AreAlerts (display_sizes cartridge c)
  unfolding display_sizes
  sizes-AreAlerts cartridge = simp verbose-eq-nil (notes-AreAlerts cartridge.info)

  module _ (l : Libraries) (file : InputFile) (options : Options l.encoder.Parameters) where
    pack_one-All : (p : Packer) → All IsAlert (pack_one l file options c p).0
    unfolding pack_one
    pack_one-All p = >>=-All IsAlert (pure (pack_with l p file options)) _ tt λ made e.
        All-append IsAlert (say (ezf_advance_warning c made.bytes)).0 _
          (warning-AreAlerts made.bytes)
          (All-append IsAlert (say (display_sizes _ c)).0 _ (sizes-AreAlerts _) tt)

    pack_all-All : (packers : List Packer) → All IsAlert (pack_all l file options c packers).0
    unfolding pack_all
    pack_all-All [] = tt
    pack_all-All (p ∷ packers) =
        >>=-All IsAlert (pack_one l file options c p) _ (pack_one-All p) λ made e.
          >>=-All IsAlert (pack_all l file options c packers) _ (pack_all-All packers) λ cs e'. tt

    try_all_packers-All : All IsAlert (try_all_packers l file options c).0
    unfolding try_all_packers
    try_all_packers-All = >>=-All IsAlert (pure (get_packers options)) _ tt λ packers e.
        >>=-All IsAlert (pack_all l file options c packers) _ (pack_all-All packers) λ cs e'. tt

  write-All :
      (env : Environment) (filename : Text) (bytes : List ℕ)
      → All IsAlert (write env filename bytes (env.open_output filename)).0
  write-All env filename bytes = elim (Option-cases (env.open_output filename)) [
    | inr (e, failed) ↦ rw failed (ground arith)
    | inl success ↦ elim (Bool-cases (ltb (length bytes) (2 ^ 63))) [
      | inr large ↦ rw success (rw large (ground arith))
      | inl small ↦ elim (Option-cases (env.write_output filename bytes)) [
        | inr (e, failed) ↦ rw success (rw small (rw failed (ground arith)))
        | inl success' ↦ rw success (rw small (rw success' (ground arith)))
      ]
    ]
  ]

  write_to_disk-All :
      (env : Environment) (filename : Text) (bytes : List ℕ)
      → All IsAlert (write_to_disk env bytes filename c).0
  unfolding write_to_disk
  write_to_disk-All env filename bytes =
      All-append IsAlert (say (verbose c _)).0 _ (verbose-AreAlerts _)
        (write-All env filename bytes)

quiet_console :
    {P : Type 0} (options : Options P)
    → options.verbose ≡ false
    → (create_console options).verbose_stream ≡ none
unfolding create_console
quiet_console options h =
    ap
      (λ (b : Bool).
        (if b
          then default_console
          else record default_console { verbose_stream = none }).verbose_stream)
      h

-- If messages are not verbose, then `pack` prints nothing but warnings and notes.
pub pack-IsAlert :
    (l : Libraries) (env : Environment) (sorter : SectionSort)
    (options : Options l.encoder.Parameters)
    → options.verbose ≡ false
    → All IsAlert (pack l env sorter options).0
unfolding pack
pack-IsAlert l env sorter options h =
    let c = create_console options in
    let quiet = quiet_console options h in
    >>=-All IsAlert (load_input_file env sorter options.input_file c) _
      (load_input_file-All IsAlert env sorter options.input_file c (verbose-AreAlerts c quiet)
        (tables-AreAlerts c quiet))
      λ file e.
        >>=-All IsAlert (try_all_packers l file options c) _
          (try_all_packers-All c quiet l file options)
          λ made e'.
            All-append IsAlert (say (verbose c _)).0 _ (verbose-AreAlerts c quiet _)
              (write_to_disk-All c quiet env options.output_file made.bytes)
