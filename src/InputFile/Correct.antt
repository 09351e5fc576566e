-- ===== src/InputFile/Correct.antt =====
-- The constructor of `input_file`: its result, and when it has one.
use shrinkler_gba.Elf.{Elfio}
use shrinkler_gba.InputFile.{
  InputFile, Loader, load_binary, input_file, get_included_sections, check_header,
}
use shrinkler_gba.InputFile.Sort.{SectionSort}
use shrinkler_gba.InputFile.Layout.{IsLoaded}
use shrinkler_gba.InputFile.Disjoint.{Disjoint}
use shrinkler_gba.InputFile.Content.{Is32Bit, HasContent, All-IsLoaded, load_binary-HasContent}
use shrinkler_gba.InputFile.Header.{IsArmExecutable, check_header_iff}
use shrinkler_gba.InputFile.IsImage.{IsImage, IsImage-perm, IsImage-of_layout}
use shrinkler_gba.InputFile.Constructor.{
  Run, succeeds, fails, sorted, sorted-IsLoaded, load_binary-Run, Disjoint-iff_IsAscending,
}
use shrinkler_gba.Base.{
  ◌≡◌, ok, ◌<◌, ◌^◌, >>=-eq-ok, All, arith, Result, ap, narrow_u32, ◌↔◌, ◌∙◌, Text, sym, err,
  section_overlaps,
}
use mathlib.Core.List.{Pairwise}

-- The three parts of the constructor.
record Parts (sorter : SectionSort) (e : Elfio) (f : InputFile) : Type 0 where
  header : check_header e ≡ ok tt
  entry_lt : e.entry < 2 ^ 32
  state : Loader
  state_eq : load_binary sorter e ≡ ok state
  file_eq : f ≡ record { entry = e.entry; load_address = state.load_address; bytes = state.bytes }

Parts-of :
    (sorter : SectionSort) (e : Elfio) (f : InputFile)
    → input_file sorter e ≡ ok f
    → Parts sorter e f
unfolding input_file
Parts-of sorter e f h =
    let (u, header, h') = >>=-eq-ok (check_header e) _ h in
    let (n, narrowed, h'') = >>=-eq-ok (narrow_u32 e.entry) _ h' in
    let (st, state, built) = >>=-eq-ok (load_binary sorter e) _ h'' in
    let entry : (e.entry < 2 ^ 32) × (n ≡ e.entry) = ground arith in
    record {
      header = header;
      entry_lt = entry.0;
      state = st;
      state_eq = state;
      file_eq = ground arith;
    }

of_parts :
    (sorter : SectionSort) (e : Elfio) (st : Loader)
    → check_header e ≡ ok tt
    → e.entry < 2 ^ 32
    → load_binary sorter e ≡ ok st
    → input_file sorter e
      ≡ ok (record { entry = e.entry; load_address = st.load_address; bytes = st.bytes })
unfolding input_file
of_parts sorter e st h k r = ground arith

IsImage-of_Run :
    (sorter : SectionSort) (e : Elfio)
    → All IsLoaded (get_included_sections e)
    → {r : Result Loader} (st : Loader) → Run (sorted sorter e) r
    → r ≡ ok st
    → IsImage (get_included_sections e) st.load_address st.bytes
IsImage-of_Run sorter e l st (succeeds st' q up load bytes) h =
    let same : st' ≡ st = cc in
    rw (sym (ap (λ (x : Loader). x.load_address) same) ∙ load) (
      rw (sym (ap (λ (x : Loader). x.bytes) same) ∙ bytes) (
        IsImage-perm (sorter.sort-perm (get_included_sections e))
          (IsImage-of_layout (sorted sorter e) (sorted-IsLoaded sorter e l) up)))
IsImage-of_Run sorter e l st (fails s t q no_way) h = absurd (cc)

-- A file that is read, whose included sections have 32-bit addresses and sizes and complete
-- contents, was an executable for the ARM whose entry point fits 32 bits, and its bytes are the
-- memory image of the included sections.
pub input_file-IsImage :
    (sorter : SectionSort) (e : Elfio) (f : InputFile)
    → All IsLoaded (get_included_sections e)
    → input_file sorter e ≡ ok f
    → IsArmExecutable e
      × (f.entry ≡ e.entry)
      × IsImage (get_included_sections e) f.load_address f.bytes
input_file-IsImage sorter e f l h =
    let p = Parts-of sorter e f h in
    (
      (check_header_iff e).0 p.header,
      ap (λ (x : InputFile). x.entry) p.file_eq,
      rw p.file_eq (IsImage-of_Run sorter e l p.state (load_binary-Run sorter e l) p.state_eq),
    )

Disjoint-of_Run :
    (sorter : SectionSort) (e : Elfio)
    → All IsLoaded (get_included_sections e)
    → {r : Result Loader} (st : Loader) → Run (sorted sorter e) r
    → r ≡ ok st
    → Pairwise Disjoint (get_included_sections e)
Disjoint-of_Run sorter e l st (succeeds st' q up load bytes) h =
    (Disjoint-iff_IsAscending sorter e l).1 up
Disjoint-of_Run sorter e l st (fails s t q no_way) h = absurd (cc)

state_of_Run :
    (sorter : SectionSort) (e : Elfio)
    → All IsLoaded (get_included_sections e)
    → Pairwise Disjoint (get_included_sections e)
    → {r : Result Loader} → Run (sorted sorter e) r
    → (st : Loader) × (r ≡ ok st)
state_of_Run sorter e l d (succeeds st q up load bytes) = (st, q)
state_of_Run sorter e l d (fails s t q no_way) =
    absurd (no_way ((Disjoint-iff_IsAscending sorter e l).0 d))

-- A file, whose section headers have the 32-bit fields of a 32-bit file, is read exactly when it is an
-- executable for the ARM, its entry point fits 32 bits, no two of its included sections overlap, and
-- the contents of each of them are complete.
pub input_file-ok_iff :
    (sorter : SectionSort) (e : Elfio)
    → All Is32Bit (get_included_sections e)
    → ((f : InputFile) × (input_file sorter e ≡ ok f)) ↔ (
        IsArmExecutable e
        × (e.entry < 2 ^ 32)
        × Pairwise Disjoint (get_included_sections e)
        × All HasContent (get_included_sections e))
input_file-ok_iff sorter e fields = (
  (λ (f, h).
      let p = Parts-of sorter e f h in
      let contents = load_binary-HasContent e sorter p.state p.state_eq in
      let l = All-IsLoaded e fields contents in
      (
        (check_header_iff e).0 p.header,
        p.entry_lt,
        Disjoint-of_Run sorter e l p.state (load_binary-Run sorter e l) p.state_eq,
        contents,
      )),
  λ (arm, fits, d, contents).
      let l = All-IsLoaded e fields contents in
      let (st, q) = state_of_Run sorter e l d (load_binary-Run sorter e l) in
      (_, of_parts sorter e st ((check_header_iff e).1 arm) fits q),
)

overlap_of_Run :
    (sorter : SectionSort) (e : Elfio)
    → All IsLoaded (get_included_sections e)
    → ¬ Pairwise Disjoint (get_included_sections e)
    → {r : Result Loader} → Run (sorted sorter e) r
    → (s t : Text) × (r ≡ err (section_overlaps s t))
overlap_of_Run sorter e l d (succeeds st q up load bytes) =
    absurd (d ((Disjoint-iff_IsAscending sorter e l).1 up))
overlap_of_Run sorter e l d (fails s t q no_way) = (s, t, q)

-- If included sections, which have 32-bit addresses and sizes and complete contents, overlap, the
-- error of an otherwise correct file says so.
pub input_file_overlap :
    (sorter : SectionSort) (e : Elfio)
    → All IsLoaded (get_included_sections e)
    → IsArmExecutable e
    → e.entry < 2 ^ 32
    → ¬ Pairwise Disjoint (get_included_sections e)
    → (s t : Text) × (input_file sorter e ≡ err (section_overlaps s t))
unfolding input_file
input_file_overlap sorter e l arm fits d =
    let (s, t, q) = overlap_of_Run sorter e l d (load_binary-Run sorter e l) in
    (s, t, ground (arith, (check_header_iff e).1 arm))
