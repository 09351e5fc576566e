-- ===== src/InputFile/Loading.antt =====
-- The loop of `load_binary` over a list of sections: it succeeds exactly when they ascend, and then
-- it has appended their layout.
use shrinkler_gba.Elf.{Section}
use shrinkler_gba.InputFile.{Loader, place_all}
use shrinkler_gba.InputFile.Layout.{
  IsLoaded, IsStarted, IsAscending, layout, place_behind, place_overlap, placed, first_placed,
  length-take,
}
use shrinkler_gba.Base.{
  List, arith, All, Result, length-append, refl, ◌≤◌, sym, ◌++◌, ◌∷◌, ◌≡◌, ok, replicate, ◌∙◌, Text,
  ◌-◌, err, section_overlaps, [], take,
}
use mathlib.Core.List.{append_assoc, append-nil}
use native.Mathlib.Decide.{dec_le}

-- What the loop does from a state on.
pub data Outcome (ss : List Section) (st : Loader) : Result Loader → Type 0 where
  loaded :
      {r : Result Loader} (st' : Loader)
      → r ≡ ok st'
      → IsAscending st.output_address ss
      → st'.load_address ≡ st.load_address
      → st'.bytes ≡ st.bytes ++ layout st.output_address ss
      → Outcome ss st r
  overlap :
      {r : Result Loader} (s t : Text)
      → r ≡ err (section_overlaps s t)
      → ¬ IsAscending st.output_address ss
      → Outcome ss st r

placed-IsStarted : (s : Section) (st : Loader) → IsLoaded s → IsStarted (placed s st)
placed-IsStarted s st l = record {
  some_bytes = omega (
    arith,
    length-append (st.bytes ++ replicate (s.address - st.output_address) 0) (take s.size s.content),
    length-take s.size s.content l.all_content,
    l.size_pos,
  );
  previous = s;
  previous_eq = refl;
  address_lt = omega (arith, l.address_lt, l.size_lt);
}

pub first_placed-IsStarted : (s : Section) → IsLoaded s → IsStarted (first_placed s)
first_placed-IsStarted s l = record {
  some_bytes = omega (arith, length-take s.size s.content l.all_content, l.size_pos);
  previous = s;
  previous_eq = refl;
  address_lt = omega (arith, l.address_lt, l.size_lt);
}

Outcome-cons :
    (s : Section) (rest : List Section) (st : Loader)
    → st.output_address ≤ s.address
    → {r : Result Loader} → Outcome rest (placed s st) r
    → Outcome (s ∷ rest) st r
Outcome-cons s rest st h (loaded st' e up load bytes) =
    loaded st' e (h, up) load (bytes ∙ simp append_assoc)
Outcome-cons s rest st h (overlap a b e no_way) = overlap a b e (λ up. no_way up.1)

pub place_all-Outcome :
    (ss : List Section) (st : Loader)
    → All IsLoaded ss
    → IsStarted st
    → Outcome ss st (place_all ss st)
unfolding place_all
place_all-Outcome [] st l i = loaded st refl tt refl (sym (append-nil st.bytes))
place_all-Outcome (s ∷ rest) st (l, ls) i = elim (dec_le st.output_address s.address) [
  | yes h ↦
      rw (place_behind s st l i h) (
        Outcome-cons s rest st h
          (place_all-Outcome rest (placed s st) ls (placed-IsStarted s st l)))
  | no h ↦
      overlap s.name i.previous.name (rw (place_overlap s st i (omega arith)) refl) (λ up. h up.0)
]
