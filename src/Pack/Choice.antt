-- ===== src/Pack/Choice.antt =====
-- src/shrinkler_gba/pack.cpp: the choice of packers and of the smallest cartridge, and the protection from EZF Advance.
use shrinkler_gba.Packer.{Packer, PackerInfo, find_info, create_all_packers}
use shrinkler_gba.Cartridge.{Cartridge}
use shrinkler_gba.Options.{Options}
use shrinkler_gba.Base.{
  List, Option, Result, Text, ℕ, err, none, ok, ◌∷◌, [], if◌then◌else◌, internal, some, ltb,
  unknown_packer, ◌==◌, ◌>>=◌, length, ◌++◌, codes,
}

-- `back()`
abbrev pub back : ℕ → List ℕ → ℕ
back b [] = b
back b (c ∷ bytes) = back c bytes

unfoldable pub fix_cartridge_for_ezf_advance : List ℕ → List ℕ
fix_cartridge_for_ezf_advance [] = []
fix_cartridge_for_ezf_advance (b ∷ bytes) =
    if back b bytes == 0xff then (b ∷ bytes) ++ codes "Tom!" else b ∷ bytes

abbrev created : Text → Option PackerInfo → Result Packer
created name none = err (internal (unknown_packer name))
created name (some pi) = ok pi.create

unfoldable pub get_packer : Text → Result Packer
get_packer name = created name (find_info name)

unfoldable pub packers_for : Option Text → Result (List Packer)
unfolding get_packer
packers_for none = ok create_all_packers
packers_for (some name) = do packer ← get_packer name; ok (packer ∷ [])

unfoldable pub get_packers : {P : Type 0} → Options P → Result (List Packer)
get_packers options = packers_for options.packer

-- `min_element` by the size of the data: the first of the smallest.
abbrev pub smallest_from : Cartridge → List Cartridge → Cartridge
smallest_from best [] = best
smallest_from best (c ∷ rest) =
    smallest_from (if ltb (length c.bytes) (length best.bytes) then c else best) rest

unfoldable pub smallest_cartridge : List Cartridge → Option Cartridge
smallest_cartridge [] = none
smallest_cartridge (c ∷ rest) = some (smallest_from c rest)
