-- ===== src/Gba.antt =====
-- src/shrinkler_gba/gba.cppm: memory areas, offsets in the cartridge header, software interrupts.
use shrinkler_gba.Base.{ℕ}

abbrev pub ewram_start : ℕ
ewram_start = 0x02000000

abbrev pub ewram_size : ℕ
ewram_size = 0x40000

abbrev pub bg_palette_start : ℕ
bg_palette_start = 0x05000000

abbrev pub vram_start : ℕ
vram_start = 0x06000000

abbrev pub rom_start : ℕ
rom_start = 0x08000000

abbrev pub gba_header_size : ℕ
gba_header_size = 192

abbrev pub ofs_game_title : ℕ
ofs_game_title = 0xa0

abbrev pub ofs_fixed_byte : ℕ
ofs_fixed_byte = 0xb2

abbrev pub ofs_device_type : ℕ
ofs_device_type = 0xb4

abbrev pub ofs_game_version : ℕ
ofs_game_version = 0xbc

abbrev pub ofs_complement : ℕ
ofs_complement = 0xbd

abbrev pub ofs_reserved2 : ℕ
ofs_reserved2 = 0xbe

abbrev pub fixed_byte_value : ℕ
fixed_byte_value = 0x96

abbrev pub swi_lz77_uncomp_wram : ℕ
swi_lz77_uncomp_wram = 0x11

abbrev pub swi_huff_uncomp : ℕ
swi_huff_uncomp = 0x13
