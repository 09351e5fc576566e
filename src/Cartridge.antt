-- ===== src/Cartridge.antt =====
-- src/shrinkler_gba/packer.cppm: what a packer produces.
use shrinkler_gba.Base.{ℕ, List, Text}

pub record Cartridge : Type 0 where
  pub packer : Text
  pub bytes : List ℕ
  pub compressed_size : ℕ
  pub depacker_size : ℕ
  pub info : List Text
