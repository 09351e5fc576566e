-- ===== src/Elf.antt =====
-- What the code reads of an ELF file through the ELFIO library (a parameter: a value of each type
-- stands for what the getters of a loaded `elfio`, `section` or `segment` object return), and the
-- constants of the ELF format.
use shrinkler_gba.Base.{ℕ, List, Text}

pub record Section : Type 0 where
  pub name : Text
  pub section_type : ℕ
  pub flags : ℕ
  pub address : ℕ
  pub offset : ℕ
  pub size : ℕ
  pub entry_size : ℕ
  pub link : ℕ
  pub info : ℕ
  pub addr_align : ℕ
  -- The bytes from `get_data()` on.
  pub content : List ℕ

pub record Segment : Type 0 where
  pub segment_type : ℕ
  pub offset : ℕ
  pub virtual_address : ℕ
  pub physical_address : ℕ
  pub file_size : ℕ
  pub memory_size : ℕ
  pub align : ℕ
  pub flags : ℕ

pub record Elfio : Type 0 where
  pub class : ℕ
  pub encoding : ℕ
  pub elf_version : ℕ
  pub os_abi : ℕ
  pub abi_version : ℕ
  pub file_type : ℕ
  pub machine : ℕ
  pub version : ℕ
  pub entry : ℕ
  pub sections : List Section
  pub segments : List Segment

abbrev pub elfclass32 : ℕ
elfclass32 = 1

abbrev pub elfdata2lsb : ℕ
elfdata2lsb = 1

abbrev pub elfosabi_none : ℕ
elfosabi_none = 0

abbrev pub et_exec : ℕ
et_exec = 2

abbrev pub em_arm : ℕ
em_arm = 40

abbrev pub sht_null : ℕ
sht_null = 0

abbrev pub sht_nobits : ℕ
sht_nobits = 8

abbrev pub shf_write : ℕ
shf_write = 1

abbrev pub shf_alloc : ℕ
shf_alloc = 2

abbrev pub shf_execinstr : ℕ
shf_execinstr = 4

abbrev pub shf_merge : ℕ
shf_merge = 0x10

abbrev pub shf_strings : ℕ
shf_strings = 0x20

abbrev pub shf_info_link : ℕ
shf_info_link = 0x40

abbrev pub shf_link_order : ℕ
shf_link_order = 0x80
