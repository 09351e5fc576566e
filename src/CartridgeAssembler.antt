-- ===== src/CartridgeAssembler.antt =====
-- src/shrinkler_gba/cartridge_assembler.cppm and cartridge_assembler.cpp: the parts that the
-- assemblers of both packers share. A method that emits code is the list of its statements, and
-- `run` executes such a list.
pub mod Layout
pub mod Calls
pub mod Linked
pub mod Finish
use shrinkler_gba.Assembler.{Register, Call, Assembler}
use shrinkler_gba.Complement.{calculate_complement, calculate_header_complement}
use shrinkler_gba.Gba.{
  gba_header_size, ofs_game_title, ofs_fixed_byte, ofs_device_type, ofs_game_version,
  ofs_complement, ofs_reserved2, fixed_byte_value,
}
use shrinkler_gba.Base.{
  ℕ, List, Result, Text, [], replicate, codes, if◌then◌else◌, ok, ◌-◌, ◌>>=◌, ◌∷◌, drop, ltb,
  narrow_i32, read_at, length, throw_if, ◌+◌, ◌>>◌, not, set, err, ◌==◌, internal,
  undefined_behaviour, wrong_complement, wrong_fixed_byte, wrong_lc, ◌%◌, ◌<<<◌, not_aligned, u64,
  ◌^◌,
}

pub data Statement : Type 0 where
  -- a call of the assembler
  call : Call → Statement
  -- `ldr(register, gsl::narrow<int32_t>(value))`
  ldr_narrow : Register → ℕ → Statement
  throw_if_wrong_lc : ℕ → Text → Statement
  throw_if_not_aligned : ℕ → Statement
  -- `m_depacker_size = current_lc() - gba_header_size`
  set_depacker_size : Statement

-- The calls made so far, the latest first, and `m_depacker_size`.
pub record Assembly : Type 0 where
  pub calls : List Call
  pub depacker_size : ℕ

abbrev pub nothing : Assembly
nothing = record { calls = []; depacker_size = 0 }

-- What both assemblers keep: `m_data` and `m_depacker_size`.
pub record Assembled : Type 0 where
  pub bytes : List ℕ
  pub depacker_size : ℕ

module _ (a : Assembler) where
  abbrev pub current_lc : Assembly → ℕ
  current_lc s = a.current_lc s.calls

  unfoldable pub execute : Statement → Assembly → Result Assembly
  execute (call c) s = ok (record s { calls = c ∷ s.calls })
  execute (ldr_narrow r value) s = do
    literal ← narrow_i32 value
    ok (record s { calls = Call.ldr_literal r literal ∷ s.calls })
  execute (throw_if_wrong_lc expected_lc what) s = do
    throw_if (not (current_lc s == expected_lc)) (internal (wrong_lc expected_lc what))
    ok s
  execute (throw_if_not_aligned alignment) s = do
    throw_if (not (current_lc s % (1 <<< alignment) == 0))
        (internal (not_aligned (1 <<< alignment)))
    ok s
  execute set_depacker_size s =
      ok (record s { depacker_size = u64 (current_lc s + 2 ^ 64 - gba_header_size) })

  unfoldable pub run : List Statement → Assembly → Result Assembly
  run [] s = ok s
  run (statement ∷ rest) s = execute statement s >>= run rest

abbrev pub emit_nintendo_logo : List Statement
emit_nintendo_logo =
    call (Call.byte (0x24 ∷ 0xff ∷ 0xae ∷ 0x51 ∷ 0x69 ∷ 0x9a ∷ 0xa2 ∷ 0x21 ∷ []))
    ∷ call (Call.byte (0x3d ∷ 0x84 ∷ 0x82 ∷ 0x0a ∷ 0x84 ∷ 0xe4 ∷ 0x09 ∷ 0xad ∷ []))
    ∷ call (Call.byte (0x11 ∷ 0x24 ∷ 0x8b ∷ 0x98 ∷ 0xc0 ∷ 0x81 ∷ 0x7f ∷ 0x21 ∷ []))
    ∷ call (Call.byte (0xa3 ∷ 0x52 ∷ 0xbe ∷ 0x19 ∷ 0x93 ∷ 0x09 ∷ 0xce ∷ 0x20 ∷ []))
    ∷ call (Call.byte (0x10 ∷ 0x46 ∷ 0x4a ∷ 0x4a ∷ 0xf8 ∷ 0x27 ∷ 0x31 ∷ 0xec ∷ []))
    ∷ call (Call.byte (0x58 ∷ 0xc7 ∷ 0xe8 ∷ 0x33 ∷ 0x82 ∷ 0xe3 ∷ 0xce ∷ 0xbf ∷ []))
    ∷ call (Call.byte (0x85 ∷ 0xf4 ∷ 0xdf ∷ 0x94 ∷ 0xce ∷ 0x4b ∷ 0x09 ∷ 0xc1 ∷ []))
    ∷ call (Call.byte (0x94 ∷ 0x56 ∷ 0x8a ∷ 0xc0 ∷ 0x13 ∷ 0x72 ∷ 0xa7 ∷ 0xfc ∷ []))
    ∷ call (Call.byte (0x9f ∷ 0x84 ∷ 0x4d ∷ 0x73 ∷ 0xa3 ∷ 0xca ∷ 0x9a ∷ 0x61 ∷ []))
    ∷ call (Call.byte (0x58 ∷ 0x97 ∷ 0xa3 ∷ 0x27 ∷ 0xfc ∷ 0x03 ∷ 0x98 ∷ 0x76 ∷ []))
    ∷ call (Call.byte (0x23 ∷ 0x1d ∷ 0xc7 ∷ 0x61 ∷ 0x03 ∷ 0x04 ∷ 0xae ∷ 0x56 ∷ []))
    ∷ call (Call.byte (0xbf ∷ 0x38 ∷ 0x84 ∷ 0x00 ∷ 0x40 ∷ 0xa7 ∷ 0x0e ∷ 0xfd ∷ []))
    ∷ call (Call.byte (0xff ∷ 0x52 ∷ 0xfe ∷ 0x03 ∷ 0x6f ∷ 0x95 ∷ 0x30 ∷ 0xf1 ∷ []))
    ∷ call (Call.byte (0x97 ∷ 0xfb ∷ 0xc0 ∷ 0x85 ∷ 0x60 ∷ 0xd6 ∷ 0x80 ∷ 0x25 ∷ []))
    ∷ call (Call.byte (0xa9 ∷ 0x63 ∷ 0xbe ∷ 0x03 ∷ 0x01 ∷ 0x4e ∷ 0x38 ∷ 0xe2 ∷ []))
    ∷ call (Call.byte (0xf9 ∷ 0xa2 ∷ 0x34 ∷ 0xff ∷ 0xbb ∷ 0x3e ∷ 0x03 ∷ 0x44 ∷ []))
    ∷ call (Call.byte (0x78 ∷ 0x00 ∷ 0x90 ∷ 0xcb ∷ 0x88 ∷ 0x11 ∷ 0x3a ∷ 0x94 ∷ []))
    ∷ call (Call.byte (0x65 ∷ 0xc0 ∷ 0x7c ∷ 0x63 ∷ 0x87 ∷ 0xf0 ∷ 0x3c ∷ 0xaf ∷ []))
    ∷ call (Call.byte (0xd6 ∷ 0x25 ∷ 0xe4 ∷ 0x8b ∷ 0x38 ∷ 0x0a ∷ 0xac ∷ 0x72 ∷ []))
    ∷ call (Call.byte (0x21 ∷ 0xd4 ∷ 0xf8 ∷ 0x07 ∷ []))
    ∷ []

abbrev zeros : ℕ → Statement
zeros n = call (Call.byte (replicate n 0x00))

abbrev pub emit_remaining_header : List Statement
emit_remaining_header =
    throw_if_wrong_lc ofs_game_title (codes "game title")
    ∷ zeros 6
    ∷ zeros 6
    ∷ zeros 4
    ∷ zeros 2
    ∷ throw_if_wrong_lc ofs_fixed_byte (codes "fixed byte")
    ∷ call (Call.byte (fixed_byte_value ∷ []))
    ∷ zeros 1
    ∷ throw_if_wrong_lc ofs_device_type (codes "device type")
    ∷ zeros 1
    ∷ zeros 7
    ∷ throw_if_wrong_lc ofs_game_version (codes "game version")
    ∷ zeros 1
    ∷ throw_if_wrong_lc ofs_complement (codes "complement")
    ∷ zeros 1
    ∷ throw_if_wrong_lc ofs_reserved2 (codes "reserved area 2")
    ∷ zeros 2
    ∷ []

-- `v[i] = value`
write : List ℕ → ℕ → ℕ → Result (List ℕ)
write bytes i value =
    if ltb i (length bytes) then ok (set bytes i value) else err undefined_behaviour

unfoldable pub write_complement : List ℕ → ℕ → Result (List ℕ)
unfolding write
write_complement cartridge_data complement_byte_offset = do
  let complement_byte_index = complement_byte_offset - ofs_game_title
  complement ← calculate_complement (drop ofs_game_title cartridge_data) complement_byte_index
  write cartridge_data (ofs_game_title + complement_byte_index) complement

unfoldable pub throw_if_fixed_byte_wrong : List ℕ → Result (Unit {0})
throw_if_fixed_byte_wrong cartridge_data = do
  actual_byte ← read_at cartridge_data ofs_fixed_byte
  throw_if (not (actual_byte == fixed_byte_value)) (internal (wrong_fixed_byte actual_byte))

unfoldable pub throw_if_complement_wrong : List ℕ → Result (Unit {0})
throw_if_complement_wrong cartridge_data = do
  expected_complement ← calculate_header_complement (drop ofs_game_title cartridge_data)
  actual_complement ← read_at cartridge_data ofs_complement
  throw_if (not (actual_complement == expected_complement))
      (internal (wrong_complement expected_complement actual_complement))
