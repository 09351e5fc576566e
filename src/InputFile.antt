-- ===== src/InputFile.antt =====
-- src/shrinkler_gba/input_file.cppm and input_file.cpp: the checks of an ELF file's header, and the
-- memory image that is built from its sections. `size_t` has 64 bits.
pub mod Header
pub mod Constructor
pub mod IsImage
pub mod Correct
pub mod Content
pub mod Examples
pub mod Sort
pub mod Layout
pub mod Loading
pub mod Disjoint
pub mod Image
use shrinkler_gba.Elf
use shrinkler_gba.Elf.{Section, Elfio}
use shrinkler_gba.InputFile.Sort.{SectionSort}
use shrinkler_gba.Base.{
  ℕ, Bool, List, Option, Result, [], Text, if◌then◌else◌, narrow_u32, none, not, ok, throw_if,
  ◌>>=◌, ◌∷◌, bit_and, err, leb, length, ltb, ◌++◌, ◌==◌, section_overlaps, take, u64,
  undefined_behaviour, unknown_abi_version, unknown_elf_version, unknown_object_file_version,
  unknown_os_abi, ◌-◌, ◌||◌, false, not_arm_executable, replicate, some, ◌+◌, true, ◌>>◌,
}

-- The members of `class input_file`.
pub record InputFile : Type 0 where
  pub entry : ℕ
  pub load_address : ℕ
  pub bytes : List ℕ

pub check_executable_type : Elfio → Result (Unit {0})
check_executable_type elfio =
    throw_if
      (not (elfio.class == Elf.elfclass32)
        || not (elfio.encoding == Elf.elfdata2lsb)
        || not (elfio.file_type == Elf.et_exec)
        || not (elfio.machine == Elf.em_arm))
      not_arm_executable

pub check_elf_version : Elfio → Result (Unit {0})
check_elf_version elfio =
    throw_if (not (elfio.elf_version == 1)) (unknown_elf_version elfio.elf_version)

pub check_os_abi : Elfio → Result (Unit {0})
check_os_abi elfio =
    throw_if (not (elfio.os_abi == Elf.elfosabi_none)) (unknown_os_abi elfio.os_abi)

pub check_abi_version : Elfio → Result (Unit {0})
check_abi_version elfio =
    throw_if (not (elfio.abi_version == 0)) (unknown_abi_version elfio.abi_version)

pub check_object_file_version : Elfio → Result (Unit {0})
check_object_file_version elfio =
    throw_if (not (elfio.version == 1)) (unknown_object_file_version elfio.version)

pub check_header : Elfio → Result (Unit {0})
unfolding check_executable_type check_elf_version check_os_abi check_abi_version
    check_object_file_version
check_header elfio = do
  check_executable_type elfio
  check_elf_version elfio
  check_os_abi elfio
  check_abi_version elfio
  check_object_file_version elfio

unfoldable pub is_section_included : Section → Bool
is_section_included s =
    if (s.section_type == Elf.sht_null) || (s.section_type == Elf.sht_nobits)
    then false
    else if s.address == 0
    then false
    else if s.size == 0
    then false
    else if bit_and s.flags Elf.shf_alloc == 0
    then false
    else true

-- `std::views::filter`.
abbrev pub filter_by {ℓ} : {A : Type ℓ} → (A → Bool) → List A → List A
filter_by p [] = []
filter_by p (x ∷ xs) = let rest = filter_by p xs in if p x then x ∷ rest else rest

pub get_included_sections : Elfio → List Section
get_included_sections elfio = filter_by is_section_included elfio.sections

-- The members that `load_binary` writes, and its local variables.
pub record Loader : Type 0 where
  pub load_address : ℕ
  pub bytes : List ℕ
  pub output_address : ℕ
  pub previous_section : Option Section

-- `previous_section->get_name()`
pub previous_name : Option Section → Result Text
previous_name none = err undefined_behaviour
previous_name (some s) = ok s.name

pub throw_overlap : Section → Loader → Result Loader
throw_overlap s st =
    previous_name st.previous_section >>= λ name. err (section_overlaps s.name name)

-- Bytes are there already: fill the hole before the section.
pub pad : Section → Loader → Result Loader
unfolding throw_overlap previous_name
pad s st =
    if ltb s.address st.output_address
    then throw_overlap s st
    else let npadding_bytes = s.address - st.output_address in
      if ltb 0 npadding_bytes
      then ok (record st {
        bytes = st.bytes ++ replicate npadding_bytes 0;
        output_address = u64 (st.output_address + npadding_bytes);
      })
      else ok st

-- No bytes are there yet: record the addresses.
pub start : Section → Loader → Result Loader
start s st = do
  load_address ← narrow_u32 s.address
  ok (record st { load_address = load_address; output_address = s.address })

-- The bytes of `[get_data(), get_data() + get_size())`.
pub section_bytes : Section → Result (List ℕ)
section_bytes s =
    if leb s.size (length s.content) then ok (take s.size s.content) else err undefined_behaviour

-- Append the bytes of the section.
pub copy : Section → Loader → Result Loader
unfolding section_bytes
copy s st = do
  bytes ← section_bytes s
  ok (record st {
    bytes = st.bytes ++ bytes;
    output_address = u64 (st.output_address + s.size);
    previous_section = some s;
  })

-- The body of the loop.
pub place : Section → Loader → Result Loader
place s st = (if ltb 0 (length st.bytes) then pad s st else start s st) >>= copy s

pub place_all : List Section → Loader → Result Loader
place_all [] st = ok st
place_all (s ∷ rest) st = place s st >>= place_all rest

-- The state before the loop.
abbrev pub initial : Loader
initial = record { load_address = 0; bytes = []; output_address = 0; previous_section = none }

module _ (sorter : SectionSort) where
  pub load_binary : Elfio → Result Loader
  unfolding place_all place pad start copy get_included_sections
  load_binary elfio = place_all (sorter.sort (get_included_sections elfio)) initial

  -- The constructor of `input_file`.
  unfoldable pub input_file : Elfio → Result InputFile
  input_file elfio = do
    check_header elfio
    entry ← narrow_u32 elfio.entry
    loaded ← load_binary elfio
    ok (record { entry = entry; load_address = loaded.load_address; bytes = loaded.bytes })

-- `loaded_data_size()`
unfoldable pub loaded_data_size : InputFile → Result ℕ
loaded_data_size f = narrow_u32 (length f.bytes)

-- `is_thumb_entry()`
unfoldable pub is_thumb_entry : InputFile → Bool
is_thumb_entry f = not (bit_and f.entry 1 == 0)
