-- ===== src/InputFile/Layout.antt =====
-- The bytes that the loop of `load_binary` appends for a list of sections, and when it succeeds.
use shrinkler_gba.Elf.{Section}
use shrinkler_gba.InputFile.{Loader, place, pad, copy, start, initial}
use shrinkler_gba.Base.{
  ℕ, List, take, ◌<◌, ◌≡◌, ◌≤◌, err, length, ok, ◌^◌, ◌∷◌, arith, replicate, section_overlaps, some,
  Bool-cases, ◌++◌, ◌+◌, ◌-◌, ltb, inl, inr, ap, [], refl, suc, zero,
}
use mathlib.Core.List.{append-nil}

-- What a section of a 32-bit ELF file is like once it is read; the size of an included section is
-- not zero.
pub record IsLoaded (s : Section) : Type 0 where
  pub address_lt : s.address < 2 ^ 32
  pub size_lt : s.size < 2 ^ 32
  pub size_pos : 0 < s.size
  pub all_content : s.size ≤ length s.content

-- The bytes from address `out` on: the hole, the section, and so on.
abbrev pub layout : ℕ → List Section → List ℕ
layout out [] = []
layout out (s ∷ rest) =
    replicate (s.address - out) 0 ++ (take s.size s.content ++ layout (s.address + s.size) rest)

-- Each section begins where the one before it ends, or later.
abbrev pub IsAscending : ℕ → List Section → Type 0
IsAscending out [] = Unit
IsAscending out (s ∷ rest) = (out ≤ s.address) × IsAscending (s.address + s.size) rest

-- The address behind the last section.
abbrev pub end_address : ℕ → List Section → ℕ
end_address out [] = out
end_address out (s ∷ rest) = end_address (s.address + s.size) rest

-- A state of the loop in which a section has been copied.
pub record IsStarted (st : Loader) : Type 0 where
  pub some_bytes : 0 < length st.bytes
  pub previous : Section
  pub previous_eq : st.previous_section ≡ some previous
  pub address_lt : st.output_address < 2 ^ 33

-- The state after a section is placed behind others.
abbrev pub placed : Section → Loader → Loader
placed s st = record {
  load_address = st.load_address;
  bytes = (st.bytes ++ replicate (s.address - st.output_address) 0) ++ take s.size s.content;
  output_address = s.address + s.size;
  previous_section = some s;
}

-- The state after the first section.
abbrev pub first_placed : Section → Loader
first_placed s = record {
  load_address = s.address;
  bytes = take s.size s.content;
  output_address = s.address + s.size;
  previous_section = some s;
}

copy_lem :
    (s : Section) (st : Loader)
    → IsLoaded s
    → st.output_address ≡ s.address
    → copy s st
      ≡ ok (record {
        load_address = st.load_address;
        bytes = st.bytes ++ take s.size s.content;
        output_address = s.address + s.size;
        previous_section = some s;
      })
unfolding copy
copy_lem s st l e = ground arith

-- The state after the hole is filled.
abbrev padded : Section → Loader → Loader
padded s st = record st {
  bytes = st.bytes ++ replicate (s.address - st.output_address) 0;
  output_address = s.address;
}

pad_lem :
    (s : Section) (st : Loader)
    → IsLoaded s
    → IsStarted st
    → st.output_address ≤ s.address
    → pad s st ≡ ok (padded s st)
unfolding pad
pad_lem s st l started h = elim (Bool-cases (ltb 0 (s.address - st.output_address))) [
  | inl hole ↦ ground arith
  | inr none_left ↦
      let same : s.address - st.output_address ≡ 0 = ground arith in
      ground (arith, append-nil st.bytes, ap (λ (n : ℕ). replicate {A = ℕ} n 0) same)
]

pub place_behind :
    (s : Section) (st : Loader)
    → IsLoaded s
    → IsStarted st
    → st.output_address ≤ s.address
    → place s st ≡ ok (placed s st)
unfolding place
place_behind s st l started h =
    ground (arith, pad_lem s st l started h, copy_lem s (padded s st) l refl)

pub place_overlap :
    (s : Section) (st : Loader) (i : IsStarted st)
    → s.address < st.output_address
    → place s st ≡ err (section_overlaps s.name i.previous.name)
unfolding place pad
place_overlap s st i h = ground arith

pub place_first : (s : Section) → IsLoaded s → place s initial ≡ ok (first_placed s)
unfolding place start copy
place_first s l = ground arith

pub length-take : (n : ℕ) (xs : List ℕ) → n ≤ length xs → length (take n xs) ≡ n
length-take zero xs h = refl
length-take (suc n) [] h = absurd (omega arith)
length-take (suc n) (x ∷ xs) h = ap suc (length-take n xs (omega arith))
