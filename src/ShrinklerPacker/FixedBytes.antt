-- ===== src/ShrinklerPacker/FixedBytes.antt =====
-- Where the header's fixed byte, game version and complement stand among the emitted code.
use shrinkler_gba.Assembler.{Register, Call}
use shrinkler_gba.Assembler.Laws.{encoding}
use shrinkler_gba.Gba.{
  ofs_fixed_byte, fixed_byte_value, gba_header_size, ofs_game_version, ofs_complement,
}
use shrinkler_gba.CartridgeAssembler.{Statement, call}
use shrinkler_gba.CartridgeAssembler.Layout.{plan}
use shrinkler_gba.ShrinklerPacker.{header}
use shrinkler_gba.ShrinklerPacker.Layout.{header_end}
use shrinkler_gba.Base.{
  ◌∷◌, [], ◌++◌, Bool, List, true, ℕ, ◌≡◌, drop, false, some, take, refl, suc, if◌then◌else◌, ◌<◌,
  get_or, length, arith, ◌≤◌, ◌≢◌,
}

-- The statements before the one that emits the fixed byte.
abbrev pub fixed_byte_index : Bool → ℕ
fixed_byte_index true = 37
fixed_byte_index false = 27

abbrev pub fixed_byte_call : Bool → Call
fixed_byte_call true = Call.mov_imm Register.r2 fixed_byte_value
fixed_byte_call false = Call.byte (fixed_byte_value ∷ [])

abbrev pub before_fixed_byte : Bool → List Statement
before_fixed_byte c = take (fixed_byte_index c) (header c)

pub fixed_byte_split :
    (c : Bool)
    → header c
      ≡ before_fixed_byte c
        ++ (call (fixed_byte_call c) ∷ drop (suc (fixed_byte_index c)) (header c))
fixed_byte_split true = refl
fixed_byte_split false = refl

pub fixed_byte-plan : (c : Bool) → plan (before_fixed_byte c) 0 ≡ some ofs_fixed_byte
fixed_byte-plan true = refl
fixed_byte-plan false = refl

-- With code in the header, the statement that emits the bytes of game version and complement.
abbrev pub before_game_version : List Statement
before_game_version = take 45 (header true)

abbrev pub game_version_call : Call
game_version_call = Call.mov_imm Register.r2 0x77

pub game_version_split :
    header true ≡ before_game_version ++ (call game_version_call ∷ drop 46 (header true))
game_version_split = refl

pub game_version-plan : plan before_game_version 0 ≡ some ofs_game_version
game_version-plan = refl

-- Which byte the constructor changes.
abbrev pub patched_offset : Bool → ℕ
patched_offset code_in_header = if code_in_header then ofs_game_version else ofs_complement

pub fixed_bytes : Bool → List ℕ
fixed_bytes true = fixed_byte_value ∷ 0x22 ∷ []
fixed_bytes false = fixed_byte_value ∷ []

pub fixed_bytes_lem :
    (c : Bool)
    → (encoding (fixed_byte_call c) ≡ some (fixed_bytes c))
      × (0 < length (fixed_bytes c))
      × (get_or (fixed_bytes c) 0 0 ≡ fixed_byte_value)
unfolding fixed_bytes
fixed_bytes_lem true = (refl, omega arith, refl)
fixed_bytes_lem false = (refl, omega arith, refl)

pub patched_offset_bounds :
    (c : Bool)
    → (0xa0 ≤ patched_offset c)
      × (patched_offset c ≤ ofs_complement)
      × (patched_offset c ≢ ofs_fixed_byte)
patched_offset_bounds true = omega arith
patched_offset_bounds false = omega arith

pub header_end-ge : (c : Bool) → gba_header_size ≤ header_end c
header_end-ge true = omega arith
header_end-ge false = omega arith
