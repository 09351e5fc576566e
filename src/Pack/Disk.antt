-- ===== src/Pack/Disk.antt =====
-- `write_to_disk` and `pack`: what happens to the output file.
use shrinkler_gba.InputFile.Sort.{SectionSort}
use shrinkler_gba.InputFile.{InputFile}
use shrinkler_gba.Packer.{Libraries}
use shrinkler_gba.Options.{Options}
use shrinkler_gba.Cartridge.{Cartridge}
use shrinkler_gba.Console.{Console}
use shrinkler_gba.Pack.{
  Environment, load_input_file, write, write_to_disk, try_all_packers, pack, create_console,
}
use shrinkler_gba.Pack.Effects
use shrinkler_gba.Pack.Effects.{
  Action, opened, wrote, closed, removed, disk, Trace, disk-append, disk-printed_all,
}
use shrinkler_gba.Pack.Load.{IsLoadedFrom, load_input_file-IsLoadedFrom, load_input_file-disk}
use shrinkler_gba.Pack.TryAll.{try_all_packers-disk}
use shrinkler_gba.Base.{
  Result, Option, could_not_write, system_error, narrowing_error, none, some, Error, List,
  Result-cases, Text, ◌≡◌, [], err, inr, ok, ℕ, Option-cases, inl, refl, ◌∙◌, ◌∷◌, Bool-cases,
  ok_ne_err, sym, ◌++◌, ltb, ◌^◌, length, ◌≤◌, le_of_ltb,
}

abbrev pub one_write : Environment → Text → List ℕ → Option ℕ → List Action
one_write env filename bytes e =
    opened filename
    ∷ wrote filename bytes e
    ∷ closed filename (env.close_output filename bytes)
    ∷ []

abbrev pub one_removal : Environment → Text → List Action
one_removal env filename = removed filename (env.remove_file filename) ∷ []

-- What `pack` does to the disk, and its result.
pub data IsOutcome (env : Environment) (filename : Text) (actions : List Action)
    (result : Result (Unit {0})) : Type 0 where
  untouched : (e : Error) → actions ≡ [] → result ≡ err e → IsOutcome env filename actions result
  complete :
      (bytes : List ℕ)
      → env.close_output filename bytes ≡ none
      → actions ≡ opened filename ∷ wrote filename bytes none ∷ closed filename none ∷ []
      → result ≡ ok tt
      → IsOutcome env filename actions result
  lost :
      (bytes : List ℕ) (e : ℕ)
      → env.close_output filename bytes ≡ some e
      → actions ≡ opened filename ∷ wrote filename bytes none ∷ closed filename (some e) ∷ []
      → result ≡ ok tt
      → IsOutcome env filename actions result
  not_opened :
      (e : ℕ)
      → env.open_output filename ≡ some e
      → actions ≡ one_removal env filename
      → result ≡ err (could_not_write filename (system_error e))
      → IsOutcome env filename actions result
  not_written :
      (bytes : List ℕ) (e : ℕ)
      → env.write_output filename bytes ≡ some e
      → actions ≡ one_write env filename bytes (some e) ++ one_removal env filename
      → result ≡ err (could_not_write filename (system_error e))
      → IsOutcome env filename actions result
  too_large :
      (bytes : List ℕ)
      → 2 ^ 63 ≤ length bytes
      → actions ≡ opened filename ∷ closed filename (env.close_output filename []) ∷ []
      → result ≡ err narrowing_error
      → IsOutcome env filename actions result

module _ (env : Environment) (bytes : List ℕ) (filename : Text) (console : Console) where
  abbrev writing : Trace (Unit {0})
  writing = write env filename bytes (env.open_output filename)

  write-IsOutcome : IsOutcome env filename (disk writing.0) writing.1
  write-IsOutcome = elim (Option-cases (env.open_output filename)) [
    | inr (e, failed) ↦ rw failed (not_opened e failed refl refl)
    | inl success ↦ elim (Bool-cases (ltb (length bytes) (2 ^ 63))) [
      | inr large ↦
          rw success
            (rw large (too_large bytes (le_of_ltb (length bytes) (2 ^ 63) large) refl refl))
      | inl small ↦ elim (Option-cases (env.write_output filename bytes)) [
        | inr (e, failed) ↦ rw success (rw small (rw failed (not_written bytes e failed refl refl)))
        | inl success' ↦ elim (Option-cases (env.close_output filename bytes)) [
          | inl flushed ↦
              rw success (rw small (rw success' (complete bytes flushed (rw flushed refl) refl)))
          | inr (e, failed) ↦
              rw success (rw small (rw success' (lost bytes e failed (rw failed refl) refl)))
        ]
      ]
    ]
  ]

  write-ok : writing.1 ≡ ok tt → disk writing.0 ≡ one_write env filename bytes none
  write-ok h = elim (Option-cases (env.open_output filename)) [
    | inr (e, failed) ↦ absurd (ok_ne_err (sym (rw failed at h)))
    | inl success ↦ elim (Bool-cases (ltb (length bytes) (2 ^ 63))) [
      | inr large ↦ absurd (ok_ne_err (sym (rw (success, large) at h)))
      | inl small ↦ elim (Option-cases (env.write_output filename bytes)) [
        | inr (e, failed) ↦ absurd (ok_ne_err (sym (rw (success, small, failed) at h)))
        | inl success' ↦ rw (success, small, success') refl
      ]
    ]
  ]

  write_to_disk-disk :
      disk (write_to_disk env bytes filename console).0
      ≡ disk (write env filename bytes (env.open_output filename)).0
  unfolding write_to_disk
  write_to_disk-disk = rw disk-append (rw disk-printed_all refl)

  write_to_disk-result :
      (write_to_disk env bytes filename console).1
      ≡ (write env filename bytes (env.open_output filename)).1
  unfolding write_to_disk
  write_to_disk-result = refl

module _ (l : Libraries) (env : Environment) (sorter : SectionSort)
    (options : Options l.encoder.Parameters) where
  abbrev console : Console
  console = create_console options

  abbrev loading : Trace InputFile
  loading = load_input_file env sorter options.input_file console

  abbrev last_part : Cartridge → Trace (Unit {0})
  last_part c = write_to_disk env c.bytes options.output_file console

  loading-disk : disk loading.0 ≡ []
  loading-disk = load_input_file-disk env sorter options.input_file console

  -- After loading and packing, only `write_to_disk` touches the disk.
  pack-parts :
      (file : InputFile) (c : Cartridge)
      → loading.1 ≡ ok file
      → (try_all_packers l file options console).1 ≡ ok c
      → (disk (pack l env sorter options).0 ≡ disk (last_part c).0)
        × ((pack l env sorter options).1 ≡ (last_part c).1)
  unfolding pack
  pack-parts file c loaded tried =
      let (d1, r1) = Effects.>>=-disk_of_ok loading _ file loaded loading-disk in
      let (d2, r2) =
        Effects.>>=-disk_of_ok (try_all_packers l file options console) _ c tried
          (try_all_packers-disk l file options console) in
      (d1 ∙ d2 ∙ rw disk-append (rw disk-printed_all refl), r1 ∙ r2)

  -- If `pack` succeeds, then it has loaded the program in the input file, `try_all_packers` has
  -- returned a cartridge for it, and what is done to the disk is that the output file is opened, all
  -- bytes of this cartridge are written to it without an error, and it is closed. Closing the file may
  -- have failed to write out the buffer.
  pub pack-ok :
      (pack l env sorter options).1 ≡ ok tt
      → (file : InputFile) × (c : Cartridge) × IsLoadedFrom env sorter options.input_file file
        × ((try_all_packers l file options (create_console options)).1 ≡ ok c)
        × (disk (pack l env sorter options).0
            ≡ opened options.output_file
              ∷ wrote options.output_file c.bytes none
              ∷ closed options.output_file (env.close_output options.output_file c.bytes)
              ∷ [])
  unfolding pack
  pack-ok h =
      let (file, loaded, h1) = Effects.>>=-eq-ok loading _ h in
      let (c, tried, h2) = Effects.>>=-eq-ok (try_all_packers l file options console) _ h1 in
      let (actions, result) = pack-parts file c loaded tried in
      (
        file,
        c,
        load_input_file-IsLoadedFrom env sorter options.input_file console file loaded,
        tried,
        actions
            ∙ write_to_disk-disk env c.bytes options.output_file console
            ∙ write-ok env c.bytes options.output_file console (
                sym (write_to_disk-result env c.bytes options.output_file console)
                ∙ sym result
                ∙ h),
      )

  nothing_done :
      (file : InputFile) (e : Error)
      → loading.1 ≡ ok file
      → (try_all_packers l file options console).1 ≡ err e
      → (disk (pack l env sorter options).0 ≡ []) × ((pack l env sorter options).1 ≡ err e)
  unfolding pack
  nothing_done file e loaded failed =
      let (d, r) = Effects.>>=-disk_of_ok loading _ file loaded loading-disk in
      let (d', r') =
        Effects.>>=-disk_of_err (try_all_packers l file options console) _ e failed
          (try_all_packers-disk l file options console) in
      (d ∙ d', r ∙ r')

  not_loaded :
      (e : Error)
      → loading.1 ≡ err e
      → (disk (pack l env sorter options).0 ≡ []) × ((pack l env sorter options).1 ≡ err e)
  unfolding pack
  not_loaded e failed = Effects.>>=-disk_of_err loading _ e failed loading-disk

  -- What `pack` does to the disk and its result are one of these: nothing, and an error; or the output
  -- file is opened, written without an error and closed, and `pack` succeeds, whether closing it fails,
  -- so that data may be lost, or not; or the file cannot be opened or written, `pack` tries once to
  -- remove it and fails with the error number of the open or write; or the data do not fit a
  -- `streamsize`, and a file without data is left and a narrowing error thrown.
  pub pack-IsOutcome :
      IsOutcome env options.output_file
        (disk (pack l env sorter options).0)
        (pack l env sorter options).1
  pack-IsOutcome = elim (Result-cases loading.1) [
    | inr (e, failed) ↦ let (d, r) = not_loaded e failed in untouched e d r
    | inl (file, loaded) ↦ elim (Result-cases (try_all_packers l file options console).1) [
      | inr (e, failed) ↦ let (d, r) = nothing_done file e loaded failed in untouched e d r
      | inl (c, tried) ↦
          let (d, r) = pack-parts file c loaded tried in
          let done = d ∙ write_to_disk-disk env c.bytes options.output_file console in
          let result = r ∙ write_to_disk-result env c.bytes options.output_file console in
          rw (done, result) (write-IsOutcome env c.bytes options.output_file console)
    ]
  ]
