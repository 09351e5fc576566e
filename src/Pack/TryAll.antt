-- ===== src/Pack/TryAll.antt =====
-- `try_all_packers`
use shrinkler_gba.Packer.{Packer, Libraries, create_all_packers, pack_with}
use shrinkler_gba.Console.{Console}
use shrinkler_gba.InputFile.{InputFile}
use shrinkler_gba.Options.{Options}
use shrinkler_gba.Cartridge.{Cartridge}
use shrinkler_gba.Pack.{pack_one, pack_all, try_all_packers}
use shrinkler_gba.Pack.Choice.{
  fix_cartridge_for_ezf_advance, get_packers, get_packer, smallest_cartridge, packers_for,
}
use shrinkler_gba.Pack.Effects
use shrinkler_gba.Pack.Effects.{disk, >>=-disk, disk-printed_all, disk-append}
use shrinkler_gba.Pack.Ezf.{strip, strip-fix_cartridge_for_ezf_advance}
use shrinkler_gba.Pack.Smallest.{IsSmallest, smallest_cartridge-IsSmallest}
use mathlib.Core.Path.{subst}
use shrinkler_gba.Base.{
  List, ◌≡◌, All, [], ok, ◌++◌, ◌∷◌, ap, ok-injective, refl, sym, ◌∙◌, some, Option, Result-cases,
  Text, inl, >>=-eq-ok, inr, none,
}

-- EZF Advance leaves the cartridge as it is.
abbrev pub IsKept : Cartridge → Type 0
IsKept c = strip c.bytes ≡ c.bytes

All-at :
    (P : Cartridge → Type 0) (before : List Cartridge) (c : Cartridge) (behind : List Cartridge)
    → All P (before ++ c ∷ behind)
    → P c
All-at P [] c behind (first, rest) = first
All-at P (b ∷ before) c behind (first, rest) = All-at P before c behind rest

-- An element of a list in the middle.
All-middle :
    (P : Cartridge → Type 0) (before : List Cartridge) (c : Cartridge) (behind cs : List Cartridge)
    → cs ≡ before ++ c ∷ behind
    → All P cs
    → P c
All-middle P before c behind cs e all = All-at P before c behind (subst (All P) e all)

packers_for-cons :
    (o : Option Text) (ps : List Packer)
    → packers_for o ≡ ok ps
    → (p : Packer) × (rest : List Packer) × (ps ≡ p ∷ rest)
unfolding create_all_packers packers_for
packers_for-cons none ps h = (_, _, sym (ok-injective h))
packers_for-cons (some name) ps h =
    let (p, _, h1) = >>=-eq-ok (get_packer name) _ h in (p, [], sym (ok-injective h1))

module _ (l : Libraries) (file : InputFile) (options : Options l.encoder.Parameters)
    (console : Console) where
  pack_one-IsKept :
      (p : Packer) (c : Cartridge) → (pack_one l file options console p).1 ≡ ok c → IsKept c
  unfolding pack_one
  pack_one-IsKept p c h =
      let (made, _, h1) = Effects.>>=-eq-ok (Effects.pure (pack_with l p file options)) _ h in
      subst IsKept (ok-injective h1) (strip-fix_cartridge_for_ezf_advance made.bytes)

  pack_all-cons :
      (p : Packer) (packers : List Packer) (cs : List Cartridge)
      → (pack_all l file options console (p ∷ packers)).1 ≡ ok cs
      → (c : Cartridge) × (rest : List Cartridge) × (cs ≡ c ∷ rest)
        × ((pack_one l file options console p).1 ≡ ok c)
        × ((pack_all l file options console packers).1 ≡ ok rest)
  unfolding pack_all
  pack_all-cons p packers cs h =
      let (c, packed, h1) = Effects.>>=-eq-ok (pack_one l file options console p) _ h in
      let (rest, others, h2) = Effects.>>=-eq-ok (pack_all l file options console packers) _ h1 in
      (c, rest, sym (ok-injective h2), packed, others)

  pack_all-IsKept :
      (packers : List Packer) (cs : List Cartridge)
      → (pack_all l file options console packers).1 ≡ ok cs
      → All IsKept cs
  pack_all-IsKept [] cs h = unfold pack_all in subst (All IsKept) (ok-injective h) tt
  pack_all-IsKept (p ∷ packers) cs h =
      let (c, rest, e, packed, others) = pack_all-cons p packers cs h in
      subst (All IsKept) (sym e) (pack_one-IsKept p c packed, pack_all-IsKept packers rest others)

  -- There is a packer to try, whatever the options are.
  get_packers-cons :
      (packers : List Packer)
      → get_packers options ≡ ok packers
      → (p : Packer) × (rest : List Packer) × (packers ≡ p ∷ rest)
  unfolding get_packers
  get_packers-cons packers h = packers_for-cons options.packer packers h

  -- What a packer returns, protected from EZF Advance.
  abbrev pub IsMade : Packer → Cartridge → Type 0
  IsMade p c =
      (made : Cartridge) × (pack_with l p file options ≡ ok made)
      × (c ≡ record made { bytes = fix_cartridge_for_ezf_advance made.bytes })

  -- One cartridge for each packer, in their order.
  abbrev pub AreMade : List Packer → List Cartridge → Type 0
  AreMade [] [] = Unit
  AreMade [] (c ∷ cs) = ⊥
  AreMade (p ∷ packers) [] = ⊥
  AreMade (p ∷ packers) (c ∷ cs) = IsMade p c × AreMade packers cs

  pack_one-of_IsMade :
      (p : Packer) (c : Cartridge) → IsMade p c → (pack_one l file options console p).1 ≡ ok c
  unfolding pack_one
  pack_one-of_IsMade p c (made, e, same) = rw e (ap ok (sym same))

  pack_one-IsMade :
      (p : Packer) (c : Cartridge) → (pack_one l file options console p).1 ≡ ok c → IsMade p c
  unfolding pack_one
  pack_one-IsMade p c h =
      let (made, e, h1) = Effects.>>=-eq-ok (Effects.pure (pack_with l p file options)) _ h in
      (made, e, sym (ok-injective h1))

  pack_all-of_AreMade :
      (packers : List Packer) (cs : List Cartridge)
      → AreMade packers cs
      → (pack_all l file options console packers).1 ≡ ok cs
  unfolding pack_all
  pack_all-of_AreMade [] [] h = refl
  pack_all-of_AreMade [] (c ∷ cs) h = absurd h
  pack_all-of_AreMade (p ∷ packers) [] h = absurd h
  pack_all-of_AreMade (p ∷ packers) (c ∷ cs) (first, rest) =
      rw (pack_one-of_IsMade p c first) (rw (pack_all-of_AreMade packers cs rest) refl)

  pack_all-AreMade :
      (packers : List Packer) (cs : List Cartridge)
      → (pack_all l file options console packers).1 ≡ ok cs
      → AreMade packers cs
  pack_all-AreMade [] cs h = unfold pack_all in subst (AreMade []) (ok-injective h) tt
  pack_all-AreMade (p ∷ packers) cs h =
      let (c, rest, e, packed, others) = pack_all-cons p packers cs h in
      subst (AreMade (p ∷ packers)) (sym e)
        (pack_one-IsMade p c packed, pack_all-AreMade packers rest others)

  IsSmallest-of_packed :
      (packers : List Packer) (cs : List Cartridge)
      → get_packers options ≡ ok packers
      → (pack_all l file options console packers).1 ≡ ok cs
      → (c : Cartridge) × (smallest_cartridge cs ≡ some c) × IsSmallest c cs × IsKept c
  IsSmallest-of_packed packers cs chosen packed =
      let (p, others, e) = get_packers-cons packers chosen in
      let (first, rest, e', _, _) =
        pack_all-cons p others cs
          (ap (λ (ps : List Packer). (pack_all l file options console ps).1) (sym e) ∙ packed) in
      let (s, found, smallest) = smallest_cartridge-IsSmallest first rest in
      let smallest' : IsSmallest s cs = subst (IsSmallest s) (sym e') smallest in
      (
        s,
        ap smallest_cartridge e' ∙ found,
        smallest',
        All-middle IsKept smallest'.before s smallest'.behind cs smallest'.split
            (pack_all-IsKept packers cs packed),
      )

  -- If every packer that the options ask for returns a cartridge, then `try_all_packers` returns the
  -- first of the smallest of these, after all of them were protected from EZF Advance.
  pub try_all_packers_lem :
      (packers : List Packer) (cs : List Cartridge)
      → get_packers options ≡ ok packers
      → AreMade packers cs
      → (c : Cartridge) × ((try_all_packers l file options console).1 ≡ ok c)
        × IsSmallest c cs
        × IsKept c
  unfolding try_all_packers
  try_all_packers_lem packers cs chosen made =
      let packed = pack_all-of_AreMade packers cs made in
      let (c, found, smallest, is_kept) = IsSmallest-of_packed packers cs chosen packed in
      (c, rw chosen (rw packed (rw found refl)), smallest, is_kept)

  -- If `try_all_packers` returns a cartridge, then every packer that the options ask for has returned one,
  -- and it is the first of the smallest of these after they were protected from EZF Advance.
  pub try_all_packers-IsSmallest :
      (c : Cartridge)
      → (try_all_packers l file options console).1 ≡ ok c
      → (packers : List Packer) × (cs : List Cartridge) × (get_packers options ≡ ok packers)
        × AreMade packers cs
        × IsSmallest c cs
        × IsKept c
  unfolding try_all_packers
  try_all_packers-IsSmallest c h =
      let (packers, chosen, h1) = Effects.>>=-eq-ok (Effects.pure (get_packers options)) _ h in
      let (cs, packed, h2) = Effects.>>=-eq-ok (pack_all l file options console packers) _ h1 in
      let (s, found, smallest, is_kept) = IsSmallest-of_packed packers cs chosen packed in
      let e : s ≡ c = ok-injective (rw found at h2) in
      (
        packers,
        cs,
        chosen,
        pack_all-AreMade packers cs packed,
        subst (λ (x : Cartridge). IsSmallest x cs) e smallest,
        subst IsKept e is_kept,
      )

  pack_one-disk : (p : Packer) → disk (pack_one l file options console p).0 ≡ []
  unfolding pack_one
  pack_one-disk p = elim (Result-cases (pack_with l p file options)) [
    | inl (c, made) ↦ rw made (simp (disk-append, disk-printed_all))
    | inr (e, failed) ↦ rw failed refl
  ]

  pack_all-disk : (packers : List Packer) → disk (pack_all l file options console packers).0 ≡ []
  unfolding pack_all
  pack_all-disk [] = refl
  pack_all-disk (p ∷ packers) =
      >>=-disk (pack_one l file options console p) _ (pack_one-disk p)
        λ c. >>=-disk (pack_all l file options console packers) _ (pack_all-disk packers) λ cs. refl

  pub try_all_packers-disk : disk (try_all_packers l file options console).0 ≡ []
  unfolding try_all_packers
  try_all_packers-disk = >>=-disk (Effects.pure (get_packers options)) _ refl λ packers.
      >>=-disk (pack_all l file options console packers) _ (pack_all-disk packers) λ cs. refl
