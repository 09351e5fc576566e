-- ===== src/CartridgeAssembler/Calls.antt =====
-- The calls of lists that are joined, and of a call within a list.
use shrinkler_gba.Assembler.{Call, Assembler}
use shrinkler_gba.CartridgeAssembler.{
  Statement, call, ldr_narrow, throw_if_wrong_lc, throw_if_not_aligned, set_depacker_size, Assembly,
}
use shrinkler_gba.CartridgeAssembler.Layout.{calls_of, executed, is_plain}
use shrinkler_gba.Base.{◌∷◌, [], ◌++◌, List, ◌≡◌, refl, true, ◌∙◌, sym}
use mathlib.Core.List.{append_assoc}

pub calls_of-append :
    (xs ys : List Statement) (calls : List Call)
    → calls_of (xs ++ ys) calls ≡ calls_of ys (calls_of xs calls)
calls_of-append [] ys calls = refl
calls_of-append (call c ∷ xs) ys calls = calls_of-append xs ys (c ∷ calls)
calls_of-append (ldr_narrow r n ∷ xs) ys calls =
    calls_of-append xs ys (Call.ldr_literal r n ∷ calls)
calls_of-append (throw_if_wrong_lc n t ∷ xs) ys calls = calls_of-append xs ys calls
calls_of-append (throw_if_not_aligned n ∷ xs) ys calls = calls_of-append xs ys calls
calls_of-append (set_depacker_size ∷ xs) ys calls = calls_of-append xs ys calls

-- What is emitted later stands in front.
pub calls_of_later :
    (xs : List Statement) (calls : List Call)
    → (later : List Call) × (calls_of xs calls ≡ later ++ calls)
calls_of_later [] calls = ([], refl)
calls_of_later (call c ∷ xs) calls =
    let (later, e) = calls_of_later xs (c ∷ calls) in
    (later ++ c ∷ [], e ∙ sym (append_assoc later (c ∷ []) calls))
calls_of_later (ldr_narrow r n ∷ xs) calls =
    let (later, e) = calls_of_later xs (Call.ldr_literal r n ∷ calls) in
    (
      later ++ Call.ldr_literal r n ∷ [],
      e ∙ sym (append_assoc later (Call.ldr_literal r n ∷ []) calls),
    )
calls_of_later (throw_if_wrong_lc n t ∷ xs) calls = calls_of_later xs calls
calls_of_later (throw_if_not_aligned n ∷ xs) calls = calls_of_later xs calls
calls_of_later (set_depacker_size ∷ xs) calls = calls_of_later xs calls

-- A call within a list, and the calls before it.
pub calls_of_split :
    (xs : List Statement) (c : Call) (ys : List Statement)
    → (later : List Call) × (calls_of (xs ++ call c ∷ ys) [] ≡ later ++ c ∷ calls_of xs [])
calls_of_split xs c ys =
    let (later, e) = calls_of_later ys (c ∷ calls_of xs []) in
    (later, calls_of-append xs (call c ∷ ys) [] ∙ e)

module _ (a : Assembler) where
  pub executed-append :
      (xs ys : List Statement) (s : Assembly)
      → executed a (xs ++ ys) s ≡ executed a ys (executed a xs s)
  executed-append [] ys s = refl
  executed-append (call c ∷ xs) ys s = executed-append xs ys (record s { calls = c ∷ s.calls })
  executed-append (ldr_narrow r n ∷ xs) ys s =
      executed-append xs ys (record s { calls = Call.ldr_literal r n ∷ s.calls })
  executed-append (throw_if_wrong_lc n t ∷ xs) ys s = executed-append xs ys s
  executed-append (throw_if_not_aligned n ∷ xs) ys s = executed-append xs ys s
  executed-append (set_depacker_size ∷ xs) ys s = executed-append xs ys _

  pub executed-calls :
      (xs : List Statement) (s : Assembly) → (executed a xs s).calls ≡ calls_of xs s.calls
  executed-calls [] s = refl
  executed-calls (call c ∷ xs) s = executed-calls xs (record s { calls = c ∷ s.calls })
  executed-calls (ldr_narrow r n ∷ xs) s =
      executed-calls xs (record s { calls = Call.ldr_literal r n ∷ s.calls })
  executed-calls (throw_if_wrong_lc n t ∷ xs) s = executed-calls xs s
  executed-calls (throw_if_not_aligned n ∷ xs) s = executed-calls xs s
  executed-calls (set_depacker_size ∷ xs) s = executed-calls xs _

  -- Statements that do not store the location counter keep the size.
  pub executed-depacker_size :
      (xs : List Statement) (s : Assembly)
      → is_plain xs ≡ true
      → (executed a xs s).depacker_size ≡ s.depacker_size
  executed-depacker_size [] s h = refl
  executed-depacker_size (call c ∷ xs) s h =
      executed-depacker_size xs (record s { calls = c ∷ s.calls }) h
  executed-depacker_size (ldr_narrow r n ∷ xs) s h =
      executed-depacker_size xs (record s { calls = Call.ldr_literal r n ∷ s.calls }) h
  executed-depacker_size (throw_if_wrong_lc n t ∷ xs) s h = cc
  executed-depacker_size (throw_if_not_aligned n ∷ xs) s h = cc
  executed-depacker_size (set_depacker_size ∷ xs) s h = cc
