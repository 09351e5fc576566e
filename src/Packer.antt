-- ===== src/Packer.antt =====
-- src/shrinkler_gba/packer.cpp: the registry of packers. A packer class is a constructor of `Packer`, and
-- its virtual method `pack` is chosen by `pack_with`.
use shrinkler_gba.LzssPacker.{Codecs, assemble}
use shrinkler_gba.LzssPacker as Lzss
use shrinkler_gba.ShrinklerPacker.{Encoder}
use shrinkler_gba.ShrinklerPacker as Shrinkler
use shrinkler_gba.Assembler.{Assembler}
use shrinkler_gba.Base.{
  List, Text, Option, codes, map, Result, none, ◌∷◌, [], if◌then◌else◌, text_eq, some,
}
use shrinkler_gba.InputFile.{InputFile}
use shrinkler_gba.Options.{Options}
use shrinkler_gba.Cartridge.{Cartridge}

pub data Packer : Type 0 where
  lzss_packer shrinkler_packer : Packer

-- `packer_info`: the function `create` is given by the packer that it makes.
pub record PackerInfo : Type 0 where
  pub name : Text
  pub create : Packer

-- `packers`, which `all_info` returns.
abbrev pub all_info : List PackerInfo
all_info =
    record { name = codes "lzss-h4"; create = lzss_packer }
    ∷ record { name = codes "shrinkler"; create = shrinkler_packer }
    ∷ []

abbrev pub find : Text → List PackerInfo → Option PackerInfo
find packer_name [] = none
find packer_name (pi ∷ rest) =
    let found = find packer_name rest in if text_eq pi.name packer_name then some pi else found

abbrev pub find_info : Text → Option PackerInfo
find_info packer_name = find packer_name all_info

unfoldable pub create_all_packers : List Packer
create_all_packers = map (λ (pi : PackerInfo). pi.create) all_info

-- The third-party code that the packers call.
pub record Libraries : Type 1 where
  pub assembler : Assembler
  pub codecs : Codecs
  pub encoder : Encoder

unfoldable pub pack_with :
    (l : Libraries) → Packer → InputFile → Options l.encoder.Parameters → Result Cartridge
pack_with l lzss_packer = Lzss.pack l.codecs l.assembler
pack_with l shrinkler_packer = Shrinkler.pack l.assembler l.encoder
