-- ===== src/Assembler/Sample.antt =====
-- A concrete assembler for the examples: it emits data as it is, and zeros for other code.
use shrinkler_gba.Assembler.{Call, Assembler, List, ℕ, Result}
use shrinkler_gba.Assembler.Laws.{IsAssembler, encoding, padding, size_of}
use shrinkler_gba.Base.{
  length, Bool, some, ◌++◌, ◌∷◌, ◌≡◌, [], if◌then◌else◌, replicate, true, ltb, none, ◌&&◌, ◌^◌, ok,
  err, undefined_behaviour, IsByte, Option-cases, ap, ◌<◌, Option, arith, get_or, inr, sym, suc,
  zero, refl, ◌∙◌, inl, length-replicate, length-append, ◌+◌, get_or-append_right,
  get_or-append_left,
}
use mathlib.Core.List.{append-nil, append_assoc}
use mathlib.Core.Path.{subst}

-- A pool is padded, and has a word.
unfoldable pub align_or_pool : Call → ℕ → ℕ
align_or_pool (Call.align n) lc = padding n lc
align_or_pool _ lc = padding 2 lc + 4

unfoldable pub emit : Call → ℕ → List ℕ
emit c lc = elim (encoding c) [
  | some bytes ↦ bytes
  | none ↦ elim (size_of c) [ some n ↦ replicate n 0 | none ↦ replicate (align_or_pool c lc) 0 ]
]

unfoldable pub emit_behind : Call → List ℕ → List ℕ
emit_behind c bytes = bytes ++ emit c (length bytes)

unfoldable pub bytes_of : List Call → List ℕ
bytes_of [] = []
bytes_of (c ∷ calls) = emit_behind c (bytes_of calls)

unfoldable pub are_bytes : List ℕ → Bool
are_bytes [] = true
are_bytes (b ∷ bytes) = ltb b 256 && are_bytes bytes

unfoldable pub sample_link : List ℕ → Result (List ℕ)
sample_link bytes =
    if are_bytes bytes && ltb (length bytes) (2 ^ 64) then ok bytes else err undefined_behaviour

unfoldable pub sample : Assembler
sample = record {
  current_lc = λ calls. length (bytes_of calls);
  link = λ base calls. sample_link (bytes_of calls);
}

measure : Option (List ℕ) → Option ℕ
measure none = none
measure (some bytes) = some (length bytes)

some-eq : {m n : ℕ} → ◌≡◌ {A = Option ℕ} (some m) (some n) → m ≡ n
some-eq h = cc

encoding_size :
    (c : Call) (bytes : List ℕ) → encoding c ≡ some bytes → size_of c ≡ some (length bytes)
unfolding measure
encoding_size (Call.byte b) bytes e = ap measure e
encoding_size (Call.incbin b) bytes e = ap measure e
encoding_size (Call.mov_imm r n) bytes e = ap measure e
encoding_size _ bytes e = cc

length-emit : (c : Call) (lc n : ℕ) → size_of c ≡ some n → length (emit c lc) ≡ n
unfolding emit
length-emit c lc n e = elim (Option-cases (encoding c)) [
  | inr (bytes, h) ↦ rw (h, emit) (some-eq (sym (encoding_size c bytes h) ∙ e))
  | inl h ↦ rw (h, e, emit) (length-replicate n 0)
]

emit_of_encoding :
    (c : Call) (bytes : List ℕ) (lc : ℕ) → encoding c ≡ some bytes → emit c lc ≡ bytes
unfolding emit
emit_of_encoding c bytes lc e = rw (e, emit) refl

bytes_of_split :
    (later : List Call) (c : Call) (earlier : List Call)
    → (rest : List ℕ) × (bytes_of (later ++ c ∷ earlier)
        ≡ bytes_of earlier ++ (emit c (length (bytes_of earlier)) ++ rest))
unfolding bytes_of emit_behind
bytes_of_split [] c earlier = (
  [],
  ap (λ (b : List ℕ). bytes_of earlier ++ b)
      (sym (append-nil (emit c (length (bytes_of earlier))))),
)
bytes_of_split (l ∷ later) c earlier =
    let (rest, e) = bytes_of_split later c earlier in
    (
      rest ++ emit l (length (bytes_of (later ++ c ∷ earlier))),
      ap (λ (b : List ℕ). b ++ emit l (length (bytes_of (later ++ c ∷ earlier)))) e
          ∙ simp append_assoc,
    )

sample_link_lem :
    (bytes image : List ℕ)
    → sample_link bytes ≡ ok image
    → (image ≡ bytes) × (are_bytes bytes ≡ true) × (length bytes < 2 ^ 64)
unfolding sample_link
sample_link_lem bytes image e = ground arith

IsByte-of_are_bytes : (bytes : List ℕ) (i : ℕ) → are_bytes bytes ≡ true → IsByte (get_or bytes i 0)
unfolding are_bytes
IsByte-of_are_bytes [] i e = omega arith
IsByte-of_are_bytes (b ∷ bytes) zero e = ground arith
IsByte-of_are_bytes (b ∷ bytes) (suc i) e = IsByte-of_are_bytes bytes i (ground arith)

-- It behaves as documented.
pub sample-IsAssembler : IsAssembler sample
unfolding sample bytes_of emit_behind align_or_pool emit
sample-IsAssembler = record {
  lc_start = refl;
  lc_call = λ c calls n e.
      length-append (bytes_of calls) (emit c (length (bytes_of calls)))
      ∙ ap (λ (k : ℕ). length (bytes_of calls) + k) (length-emit c (length (bytes_of calls)) n e);
  lc_align = λ n calls.
      length-append (bytes_of calls) (emit (Call.align n) (length (bytes_of calls)))
      ∙ ap (λ (k : ℕ). length (bytes_of calls) + k)
          (length-replicate {A = ℕ} (padding n (length (bytes_of calls))) 0);
  lc_pool_literal = λ calls e. omega (
    arith,
    length-append (bytes_of calls) (emit Call.pool (length (bytes_of calls))),
    length-replicate {A = ℕ} (padding 2 (length (bytes_of calls)) + 4) 0,
  );
  lc_pool = λ calls.
      omega (arith, length-append (bytes_of calls) (emit Call.pool (length (bytes_of calls))));
  lc_pool_aligned = λ calls e. omega (
    arith,
    e,
    length-append (bytes_of calls) (emit Call.pool (length (bytes_of calls))),
    length-replicate {A = ℕ} (padding 2 (length (bytes_of calls)) + 4) 0,
  );
  link_length = λ base calls image e. ap length (sample_link_lem (bytes_of calls) image e).0;
  link_size = λ base calls image e.
      let (same, _, small) = sample_link_lem (bytes_of calls) image e in
      subst (λ (b : List ℕ). length b < 2 ^ 64) (sym same) small;
  link_bytes = λ base calls image i e.
      let (same, all, _) = sample_link_lem (bytes_of calls) image e in
      subst (λ (b : List ℕ). IsByte (get_or b i 0)) (sym same)
        (IsByte-of_are_bytes (bytes_of calls) i all);
  link_encoding = λ base later c earlier image bytes i e known inside.
      let (rest, split) = bytes_of_split later c earlier in
      ap (λ (b : List ℕ). get_or b (length (bytes_of earlier) + i) 0)
        ((sample_link_lem (bytes_of (later ++ c ∷ earlier)) image e).0 ∙ split)
      ∙ get_or-append_right (bytes_of earlier) _ i 0
      ∙ ap (λ (b : List ℕ). get_or (b ++ rest) i 0)
          (emit_of_encoding c bytes (length (bytes_of earlier)) known)
      ∙ get_or-append_left bytes rest i 0 inside;
}
