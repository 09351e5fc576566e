-- ===== src/CartridgeAssembler/Linked.antt =====
-- The linked bytes of a list of statements.
use shrinkler_gba.Assembler.{Call, Assembler}
use shrinkler_gba.Assembler.Laws.{IsAssembler, encoding}
use shrinkler_gba.CartridgeAssembler.{Statement, call}
use shrinkler_gba.CartridgeAssembler.Layout.{calls_of, lc-le_calls_of}
use shrinkler_gba.CartridgeAssembler.Calls.{calls_of_split, calls_of-append}
use shrinkler_gba.Base.{
  ◌∷◌, [], ◌++◌, ℕ, List, ◌≡◌, ok, some, ◌≤◌, length, ◌<◌, arith, get_or, ap, ◌+◌, sym, ◌∙◌,
}

module _ (a : Assembler) (w : IsAssembler a) (base : ℕ) (ss : List Statement) (image : List ℕ)
    (linked : a.link base (calls_of ss []) ≡ ok image) where
  -- The bytes of a call stand at the location that the calls before it reach.
  pub linked_bytes :
      (xs : List Statement) (c : Call) (ys : List Statement) (bytes : List ℕ) (i : ℕ)
      → ss ≡ xs ++ call c ∷ ys
      → encoding c ≡ some bytes
      → i < length bytes
      → get_or image (a.current_lc (calls_of xs []) + i) 0 ≡ get_or bytes i 0
  linked_bytes xs c ys bytes i e enc inside =
      let (later, split) = calls_of_split xs c ys in
      w.link_encoding base later c (calls_of xs []) image bytes i
        (sym (
            ap (λ (l : List Call). a.link base l)
              (ap (λ (s : List Statement). calls_of s []) e ∙ split))
          ∙ linked)
        enc inside

  -- The image is at least as long as what a part at its start emits.
  pub lc-le_length :
      (xs ys : List Statement) → ss ≡ xs ++ ys → a.current_lc (calls_of xs []) ≤ length image
  lc-le_length xs ys e = omega (
    arith,
    w.link_length base (calls_of ss []) image linked,
    lc-le_calls_of a w ys (calls_of xs []),
    ap a.current_lc (ap (λ (s : List Statement). calls_of s []) e ∙ calls_of-append xs ys []),
  )
