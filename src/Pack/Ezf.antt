-- ===== src/Pack/Ezf.antt =====
-- `fix_cartridge_for_ezf_advance`: what EZF Advance makes of a cartridge.
use shrinkler_gba.Pack.Choice.{back, fix_cartridge_for_ezf_advance}
use shrinkler_gba.Base.{
  ◌≡◌, ◌≢◌, Bool-cases, [], ap, false, true, ◌↔◌, inl, length, refl, arith, codes, inr,
  length-append, sym, List, ℕ, if◌then◌else◌, ◌++◌, ◌==◌, ◌∷◌,
}
use mathlib.Core.List.{append-nil}

abbrev put : ℕ → List ℕ → List ℕ
put b [] = if b == 0xff then [] else b ∷ []
put b (c ∷ rest) = b ∷ c ∷ rest

-- EZF Advance removes trailing bytes 0xff.
unfoldable pub strip : List ℕ → List ℕ
strip [] = []
strip (b ∷ bytes) = put b (strip bytes)

strip_of_back :
    (b : ℕ) (bytes : List ℕ) → (back b bytes == 0xff) ≡ false → strip (b ∷ bytes) ≡ b ∷ bytes
unfolding strip
strip_of_back b [] h = rw h refl
strip_of_back b (c ∷ bytes) h = ap (put b) (strip_of_back c bytes h)

back-append :
    (b : ℕ) (bytes : List ℕ) (c : ℕ) (rest : List ℕ) → back b (bytes ++ c ∷ rest) ≡ back c rest
back-append b [] c rest = refl
back-append b (d ∷ bytes) c rest = back-append d bytes c rest

put_ne : (b c : ℕ) (bytes rest : List ℕ) → rest ≢ c ∷ bytes → put b rest ≢ b ∷ c ∷ bytes
put_ne b c bytes [] h e = elim (Bool-cases (b == 0xff)) [
  | inl same ↦ (let e' = rw same at e in cc)
  | inr other ↦ (let e' = rw other at e in cc)
]
put_ne b c bytes (d ∷ rest) h e = h (cc)

strip_ne : (b : ℕ) (bytes : List ℕ) → (back b bytes == 0xff) ≡ true → strip (b ∷ bytes) ≢ b ∷ bytes
unfolding strip
strip_ne b [] h e = let e' = rw h at e in cc
strip_ne b (c ∷ bytes) h e = put_ne b c bytes (strip (c ∷ bytes)) (strip_ne c bytes h) e

-- EZF Advance does not change what `fix_cartridge_for_ezf_advance` returns.
pub strip-fix_cartridge_for_ezf_advance :
    (bytes : List ℕ)
    → strip (fix_cartridge_for_ezf_advance bytes) ≡ fix_cartridge_for_ezf_advance bytes
unfolding fix_cartridge_for_ezf_advance strip
strip-fix_cartridge_for_ezf_advance [] = refl
strip-fix_cartridge_for_ezf_advance (b ∷ bytes) = elim (Bool-cases (back b bytes == 0xff)) [
  | inl same ↦ rw same (
      strip_of_back b (bytes ++ codes "Tom!")
        (ap (λ (n : ℕ). n == 0xff) (back-append b bytes 0x54 (0x6f ∷ 0x6d ∷ 0x21 ∷ []))))
  | inr other ↦ rw other (strip_of_back b bytes other)
]

append_ne : (xs : List ℕ) (y : ℕ) (ys : List ℕ) → xs ++ y ∷ ys ≢ xs
append_ne xs y ys e = let size = ap length e in omega (arith, length-append xs (y ∷ ys), size)

-- The cartridge is kept in front of what is added; and there is nothing added exactly if EZF Advance
-- would not have removed anything.
pub fix_cartridge_for_ezf_advance_lem :
    (bytes : List ℕ)
    → ((rest : List ℕ) × (fix_cartridge_for_ezf_advance bytes ≡ bytes ++ rest))
      × ((fix_cartridge_for_ezf_advance bytes ≡ bytes) ↔ (strip bytes ≡ bytes))
unfolding fix_cartridge_for_ezf_advance strip
fix_cartridge_for_ezf_advance_lem [] = (([], refl), (λ h. refl, λ h. refl))
fix_cartridge_for_ezf_advance_lem (b ∷ bytes) = elim (Bool-cases (back b bytes == 0xff)) [
  | inl same ↦ rw same (
    (codes "Tom!", refl),
    (λ h. absurd (append_ne (b ∷ bytes) 0x54 _ h), λ h. absurd (strip_ne b bytes same h)),
  )
  | inr other ↦
      rw other (([], sym (append-nil (b ∷ bytes))), (λ h. strip_of_back b bytes other, λ h. refl))
]
