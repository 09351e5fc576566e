-- ===== src/LzssPacker/FixedByte.antt =====
-- Where the fixed byte and the complement stand among the code of the LZSS depacker.
use shrinkler_gba.Assembler.{Call, Register}
use shrinkler_gba.Assembler.Laws.{encoding}
use shrinkler_gba.CartridgeAssembler.{Statement, call}
use shrinkler_gba.CartridgeAssembler.Layout.{plan}
use shrinkler_gba.LzssPacker.{
  code, Bool, ℕ, InputFile, List, if◌then◌else◌, fixed_byte_value, ofs_complement,
  ofs_complement_if_code_in_header, ofs_fixed_byte,
}
use shrinkler_gba.Base.{
  true, ◌≡◌, ◌≤◌, drop, false, some, take, ◌++◌, ◌<◌, ◌∷◌, [], length, refl, suc, ◌≢◌, arith,
  get_or,
}

-- The statements before the one that emits the fixed byte.
abbrev pub fixed_byte_index : Bool → ℕ
fixed_byte_index true = 31
fixed_byte_index false = 27

abbrev pub fixed_byte_call : Bool → Call
fixed_byte_call true = Call.mov_imm Register.r2 fixed_byte_value
fixed_byte_call false = Call.byte (fixed_byte_value ∷ [])

abbrev pub fixed_bytes : Bool → List ℕ
fixed_bytes true = fixed_byte_value ∷ 0x22 ∷ []
fixed_bytes false = fixed_byte_value ∷ []

pub fixed_bytes_lem :
    (c : Bool)
    → (encoding (fixed_byte_call c) ≡ some (fixed_bytes c))
      × (0 < length (fixed_bytes c))
      × (get_or (fixed_bytes c) 0 0 ≡ fixed_byte_value)
fixed_bytes_lem true = (refl, omega arith, refl)
fixed_bytes_lem false = (refl, omega arith, refl)

-- Which byte the constructor changes.
abbrev pub patched_offset : Bool → ℕ
patched_offset code_in_header =
    if code_in_header then ofs_complement_if_code_in_header else ofs_complement

pub patched_offset_bounds :
    (c : Bool)
    → (0xa0 ≤ patched_offset c)
      × (patched_offset c ≤ ofs_complement)
      × (patched_offset c ≢ ofs_fixed_byte)
patched_offset_bounds true = omega arith
patched_offset_bounds false = omega arith

module _ (buffer : ℕ) (file : InputFile) where
  abbrev pub before_fixed_byte : Bool → List Statement
  before_fixed_byte c = take (fixed_byte_index c) (code c buffer file)

  abbrev pub behind_fixed_byte : Bool → List Statement
  behind_fixed_byte c = drop (suc (fixed_byte_index c)) (code c buffer file)

  pub fixed_byte_split :
      (c : Bool)
      → code c buffer file ≡ before_fixed_byte c ++ (call (fixed_byte_call c) ∷ behind_fixed_byte c)
  fixed_byte_split true = refl
  fixed_byte_split false = refl

  pub fixed_byte-plan : (c : Bool) → plan (before_fixed_byte c) 0 ≡ some ofs_fixed_byte
  fixed_byte-plan true = refl
  fixed_byte-plan false = refl
