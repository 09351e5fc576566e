-- ===== src/CartridgeAssembler/Layout.antt =====
-- Execution of a list of statements under the laws of the assembler: where its code ends up, and
-- that its checks pass.
use shrinkler_gba.Assembler.{Call, Assembler}
use shrinkler_gba.Assembler.Laws.{IsAssembler, size_of, padding}
use shrinkler_gba.Gba.{gba_header_size}
use shrinkler_gba.CartridgeAssembler.{
  Statement, call, ldr_narrow, throw_if_wrong_lc, throw_if_not_aligned, set_depacker_size, Assembly,
  execute, run,
}
use shrinkler_gba.Base.{
  ◌∷◌, if◌then◌else◌, ◌++◌, ℕ, List, Bool, Option, [], u64, ◌++◌, ◌≡◌, some, true, ◌%◌, ◌+◌, arith,
  ltb, none, ◌<<<◌, ◌^◌, ◌&&◌, ◌-◌, ◌==◌, ◌∙◌, ap, Bool-cases, false, ok, err, inl, ==_iff,
  narrowing_error, inr, refl, sym, Option-cases, ◌≤◌,
}

-- The calls of a list of statements, on top of those before; the latest stands first.
abbrev pub calls_of : List Statement → List Call → List Call
calls_of [] calls = calls
calls_of (call c ∷ rest) calls = calls_of rest (c ∷ calls)
calls_of (ldr_narrow r n ∷ rest) calls = calls_of rest (Call.ldr_literal r n ∷ calls)
calls_of (throw_if_wrong_lc n t ∷ rest) calls = calls_of rest calls
calls_of (throw_if_not_aligned n ∷ rest) calls = calls_of rest calls
calls_of (set_depacker_size ∷ rest) calls = calls_of rest calls

-- The values that are narrowed fit.
abbrev pub fits : List Statement → Bool
fits [] = true
fits (ldr_narrow r n ∷ rest) = ltb n (2 ^ 31) && fits rest
fits (call c ∷ rest) = fits rest
fits (throw_if_wrong_lc n t ∷ rest) = fits rest
fits (throw_if_not_aligned n ∷ rest) = fits rest
fits (set_depacker_size ∷ rest) = fits rest

-- The number of bytes that a call emits at a location.
abbrev pub size_at : Call → ℕ → Option ℕ
size_at (Call.align n) lc = some (padding n lc)
size_at c lc = size_of c

-- The location counter after the statements, where it is known: `none` if a check fails on the way,
-- or if a literal pool is emitted.
abbrev pub plan : List Statement → ℕ → Option ℕ
plan [] lc = some lc
plan (call c ∷ rest) lc = elim (size_at c lc) [ none ↦ none | some n ↦ plan rest (lc + n) ]
plan (ldr_narrow r n ∷ rest) lc = plan rest (lc + 2)
plan (throw_if_wrong_lc n t ∷ rest) lc = elim (lc == n) [ true ↦ plan rest lc | false ↦ none ]
plan (throw_if_not_aligned n ∷ rest) lc = elim (lc % (1 <<< n) == 0) [
  | true ↦ plan rest lc
  | false ↦ none
]
plan (set_depacker_size ∷ rest) lc = plan rest lc

-- There is no check in the list, and nothing that stores the location counter.
abbrev pub is_plain : List Statement → Bool
is_plain [] = true
is_plain (call c ∷ rest) = is_plain rest
is_plain (ldr_narrow r n ∷ rest) = is_plain rest
is_plain (_ ∷ rest) = false

module _ (a : Assembler) where
  -- The state after the statements, if nothing throws.
  abbrev pub executed : List Statement → Assembly → Assembly
  executed [] s = s
  executed (call c ∷ rest) s = executed rest (record s { calls = c ∷ s.calls })
  executed (ldr_narrow r n ∷ rest) s =
      executed rest (record s { calls = Call.ldr_literal r n ∷ s.calls })
  executed (throw_if_wrong_lc n t ∷ rest) s = executed rest s
  executed (throw_if_not_aligned n ∷ rest) s = executed rest s
  executed (set_depacker_size ∷ rest) s =
      executed rest
        (record s { depacker_size = u64 (a.current_lc s.calls + 2 ^ 64 - gba_header_size) })

  -- The checks pass.
  abbrev pub Passes : List Statement → List Call → Type 0
  Passes [] calls = Unit
  Passes (call c ∷ rest) calls = Passes rest (c ∷ calls)
  Passes (ldr_narrow r n ∷ rest) calls = Passes rest (Call.ldr_literal r n ∷ calls)
  Passes (throw_if_wrong_lc n t ∷ rest) calls = (a.current_lc calls ≡ n) × Passes rest calls
  Passes (throw_if_not_aligned n ∷ rest) calls =
      (a.current_lc calls % (1 <<< n) ≡ 0) × Passes rest calls
  Passes (set_depacker_size ∷ rest) calls = Passes rest calls

  -- Where the checks pass, only a value that does not fit can stop the execution.
  pub run_lem :
      (ss : List Statement) (s : Assembly)
      → Passes ss s.calls
      → run a ss s ≡ (if fits ss then ok (executed ss s) else err narrowing_error)
  unfolding run execute
  run_lem [] s p = refl
  run_lem (call c ∷ rest) s p = run_lem rest (record s { calls = c ∷ s.calls }) p
  run_lem (ldr_narrow r n ∷ rest) s p =
      ground (arith, run_lem rest (record s { calls = Call.ldr_literal r n ∷ s.calls }) p)
  run_lem (throw_if_wrong_lc n t ∷ rest) s (e, p) = ground (arith, run_lem rest s p)
  run_lem (throw_if_not_aligned n ∷ rest) s (e, p) = ground (arith, run_lem rest s p)
  run_lem (set_depacker_size ∷ rest) s p =
      run_lem rest
        (record s { depacker_size = u64 (a.current_lc s.calls + 2 ^ 64 - gba_header_size) }) p

  pub Passes-append :
      (xs ys : List Statement) (calls : List Call)
      → Passes xs calls
      → Passes ys (calls_of xs calls)
      → Passes (xs ++ ys) calls
  Passes-append [] ys calls p q = q
  Passes-append (call c ∷ xs) ys calls p q = Passes-append xs ys (c ∷ calls) p q
  Passes-append (ldr_narrow r n ∷ xs) ys calls p q =
      Passes-append xs ys (Call.ldr_literal r n ∷ calls) p q
  Passes-append (throw_if_wrong_lc n t ∷ xs) ys calls (e, p) q = (e, Passes-append xs ys calls p q)
  Passes-append (throw_if_not_aligned n ∷ xs) ys calls (e, p) q = (e, Passes-append xs ys calls p q)
  Passes-append (set_depacker_size ∷ xs) ys calls p q = Passes-append xs ys calls p q

  pub Passes-of_is_plain :
      (ss : List Statement) (calls : List Call) → is_plain ss ≡ true → Passes ss calls
  Passes-of_is_plain [] calls h = tt
  Passes-of_is_plain (call c ∷ ss) calls h = Passes-of_is_plain ss (c ∷ calls) h
  Passes-of_is_plain (ldr_narrow r n ∷ ss) calls h =
      Passes-of_is_plain ss (Call.ldr_literal r n ∷ calls) h
  Passes-of_is_plain (throw_if_wrong_lc n t ∷ ss) calls h = cc
  Passes-of_is_plain (throw_if_not_aligned n ∷ ss) calls h = cc
  Passes-of_is_plain (set_depacker_size ∷ ss) calls h = cc

some-eq : {m n : ℕ} → ◌≡◌ {A = Option ℕ} (some m) (some n) → m ≡ n
some-eq h = cc

none_ne : (n : ℕ) → ◌≡◌ {A = Option ℕ} none (some n) → ⊥
none_ne n h = cc

module _ (a : Assembler) (w : IsAssembler a) where
  lc-size_at :
      (c : Call) (calls : List Call) (lc n : ℕ)
      → a.current_lc calls ≡ lc
      → size_at c lc ≡ some n
      → a.current_lc (c ∷ calls) ≡ lc + n
  lc-size_at (Call.align k) calls lc n e h =
      w.lc_align k calls ∙ ap (λ (x : ℕ). x + padding k x) e ∙ ap (λ (x : ℕ). lc + x) (some-eq h)
  lc-size_at c calls lc n e h = w.lc_call c calls n h ∙ ap (λ (x : ℕ). x + n) e

  -- A plan is what happens.
  pub Passes-of_plan :
      (ss : List Statement) (lc end : ℕ) (calls : List Call)
      → a.current_lc calls ≡ lc
      → plan ss lc ≡ some end
      → Passes a ss calls × (a.current_lc (calls_of ss calls) ≡ end)
  Passes-of_plan [] lc end calls e h = (tt, ground arith)
  Passes-of_plan (call c ∷ ss) lc end calls e h = elim (Option-cases (size_at c lc)) [
    | inl unknown ↦ absurd (none_ne end (sym (rw (unknown, plan)) ∙ h))
    | inr (n, known) ↦
        Passes-of_plan ss (lc + n) end (c ∷ calls) (lc-size_at c calls lc n e known)
          (rw (known, plan) at h)
  ]
  Passes-of_plan (ldr_narrow r n ∷ ss) lc end calls e h =
      Passes-of_plan ss (lc + 2) end (Call.ldr_literal r n ∷ calls)
        (w.lc_call (Call.ldr_literal r n) calls 2 refl ∙ ap (λ (x : ℕ). x + 2) e) h
  Passes-of_plan (throw_if_wrong_lc n t ∷ ss) lc end calls e h = elim (Bool-cases (lc == n)) [
    | inl same ↦
        let (p, q) = Passes-of_plan ss lc end calls e (rw (same, plan) at h) in
        ((e ∙ (==_iff lc n).0 same, p), q)
    | inr other ↦ absurd (none_ne end (sym (rw (other, plan)) ∙ h))
  ]
  Passes-of_plan (throw_if_not_aligned n ∷ ss) lc end calls e h =
      elim (Bool-cases (lc % (1 <<< n) == 0)) [
        | inl same ↦
            let (p, q) = Passes-of_plan ss lc end calls e (rw (same, plan) at h) in
            ((ap (λ (x : ℕ). x % (1 <<< n)) e ∙ (==_iff _ 0).0 same, p), q)
        | inr other ↦ absurd (none_ne end (sym (rw (other, plan)) ∙ h))
      ]
  Passes-of_plan (set_depacker_size ∷ ss) lc end calls e h = Passes-of_plan ss lc end calls e h

  -- The location counter never goes back.
  pub lc-le_call : (c : Call) (calls : List Call) → a.current_lc calls ≤ a.current_lc (c ∷ calls)
  lc-le_call (Call.align k) calls = omega (arith, w.lc_align k calls)
  lc-le_call Call.pool calls = w.lc_pool calls
  lc-le_call c calls = omega (arith, w.lc_call c calls _ refl)

  pub lc-le_calls_of :
      (ss : List Statement) (calls : List Call)
      → a.current_lc calls ≤ a.current_lc (calls_of ss calls)
  lc-le_calls_of [] calls = omega arith
  lc-le_calls_of (call c ∷ ss) calls =
      omega (arith, lc-le_call c calls, lc-le_calls_of ss (c ∷ calls))
  lc-le_calls_of (ldr_narrow r n ∷ ss) calls = omega (
    arith,
    lc-le_call (Call.ldr_literal r n) calls,
    lc-le_calls_of ss (Call.ldr_literal r n ∷ calls),
  )
  lc-le_calls_of (throw_if_wrong_lc n t ∷ ss) calls = lc-le_calls_of ss calls
  lc-le_calls_of (throw_if_not_aligned n ∷ ss) calls = lc-le_calls_of ss calls
  lc-le_calls_of (set_depacker_size ∷ ss) calls = lc-le_calls_of ss calls
