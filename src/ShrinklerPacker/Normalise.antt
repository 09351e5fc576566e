-- ===== src/ShrinklerPacker/Normalise.antt =====
-- src/shrinkler_gba/shrinkler_packer.cpp: the loop of `getbit` that reads bits until the interval of
-- the range decoder has 16 bits.
use shrinkler_gba.Assembler.{Register, Condition, Call}
use shrinkler_gba.Thumb.{Code, Machine, step, run_steps, Reaches, target, emitted, put, same}
use shrinkler_gba.Thumb.Laws.{Reaches-trans, Reaches-taken, Reaches-not_taken}
use shrinkler_gba.ShrinklerPacker.Getbit.{rvalue, isize, tmp0, getbit_game_version, inp}
use shrinkler_gba.ShrinklerPacker.Stream.{HasStream, KeepsOthers, readbit, before_condition}
use shrinkler_gba.ShrinklerPacker.ReadBit.{readbit_lem}
use shrinkler_gba.ShrinklerPacker.RangeDecoder.{IsInterval}
use shrinkler_gba.ShrinklerPacker.BitBuffer.{AreBits}
use shrinkler_gba.Base.{
  ℕ, Bool, List, Option, codes, if◌then◌else◌, ◌^◌, ◌≡◌, [], leb, ◌>>>◌, ◌∷◌, ◌≤◌, ap, some, ◌%◌,
  ◌*◌, ◌++◌, length, none, ◌==◌, arith, true, ◌+◌, Bool-cases, false, inl, refl, inr, not, ◌<◌, ◌∙◌,
  some-injective, none_ne_some,
}
use native.Mathlib.Nat.{pow-suc}
use mathlib.Core.Path.{fun_ext, subst}

-- The size of the interval, the value in it, and the bits left; `none` if there are too few.
unfoldable pub normalise : List ℕ → ℕ → ℕ → Option (ℕ × ℕ × List ℕ)
normalise [] size value = if leb (2 ^ 15) size then some (size, value, []) else none
normalise (b ∷ stream) size value =
    let rest = normalise stream (2 * size) (2 * value + b) in
    if leb (2 ^ 15) size then some (size, value, b ∷ stream) else rest

-- Fifteen bits are enough.
pub normalise-total :
    (stream : List ℕ) (size value : ℕ)
    → 2 ^ 15 ≤ size * 2 ^ length stream
    → (result : ℕ × ℕ × List ℕ) × (normalise stream size value ≡ some result)
unfolding normalise
normalise-total [] size value enough = ((size, value, []), ground arith)
normalise-total (b ∷ stream) size value enough = elim (Bool-cases (leb (2 ^ 15) size)) [
  | inl done ↦ ((size, value, b ∷ stream), rw done refl)
  | inr more ↦
      let (result, total) =
        normalise-total stream (2 * size) (2 * value + b)
          (omega (arith, enough, ap (λ (x : ℕ). size * x) (pow-suc 2 (length stream)))) in
      (result, rw more total)
]

abbrev pub IsNormal : ℕ × ℕ × List ℕ → Type 0
IsNormal (size, value, stream) = (2 ^ 15 ≤ size) × IsInterval size value

at_end :
    (size value : ℕ)
    → IsInterval size value
    → leb (2 ^ 15) size ≡ true
    → (2 ^ 15 ≤ size) × IsInterval size value
at_end size value inside done = (ground arith, inside)

-- The value stays in the interval.
pub normalise-IsInterval :
    (stream : List ℕ) (size value : ℕ) (end : ℕ × ℕ × List ℕ)
    → AreBits stream
    → IsInterval size value
    → normalise stream size value ≡ some end
    → IsNormal end
unfolding normalise
normalise-IsInterval [] size value end bits inside total = elim (Bool-cases (leb (2 ^ 15) size)) [
  | inl done ↦ subst IsNormal (some-injective (rw done at total)) (at_end size value inside done)
  | inr more ↦ absurd (none_ne_some (rw more at total))
]
normalise-IsInterval (b ∷ stream) size value end (bit, bits) (inside, small) total =
    elim (Bool-cases (leb (2 ^ 15) size)) [
      | inl done ↦
          subst IsNormal (some-injective (rw done at total))
            (at_end size value (inside, small) done)
      | inr more ↦
          normalise-IsInterval stream (2 * size) (2 * value + b) end bits
            (omega arith, ground arith) (rw more at total)
    ]

-- The loop's condition, with the code behind the loop.
abbrev pub condition : Bool → Code → Code
condition code_in_header rest =
    emitted (if code_in_header then getbit_game_version else [])
    ++ (Call.lsr tmp0 isize 16 ∷ Call.b_if Condition.cc (codes "readbit") ∷ rest)

pub record IsNormalised (result : ℕ × ℕ × List ℕ) (m m' : Machine) : Type 0 where
  pub size_is : m'.registers isize ≡ result.0
  pub value_is : m'.registers rvalue ≡ result.1
  pub stream_is : HasStream m' result.2
  pub moved : m.registers inp ≤ m'.registers inp
  pub memory_kept : m'.memory ≡ m.memory
  pub others_kept : KeepsOthers m m'

-- A scratch register and the flags are changed.
abbrev clobber : ℕ → Bool → Bool → Machine → Machine
clobber n carry is_zero m = record (put tmp0 n m) { carry = carry; is_zero = is_zero }

HasStream-clobber :
    (n : ℕ) (carry is_zero : Bool) (m : Machine) (stream : List ℕ)
    → HasStream m stream
    → HasStream (clobber n carry is_zero m) stream
HasStream-clobber n carry is_zero m stream h = record {
  buffered = h.buffered;
  words = h.words;
  whole = h.whole;
  buffered_bits = h.buffered_bits;
  in_buffer = h.in_buffer;
  in_memory = h.in_memory;
  aligned = h.aligned;
  inside = h.inside;
}

-- The test of the highest of the 16 bits.
abbrev wide : ℕ → Bool
wide size = (size >>> 15) % 2 == 1

abbrev tested : Machine → Machine
tested m = let n : ℕ = m.registers isize >>> 16 in clobber n (wide (m.registers isize)) (n == 0) m

overwritten :
    (b : Bool) (x y z : ℕ) → (if b then x else (if b then y else z)) ≡ (if b then x else z)
overwritten true x y z = refl
overwritten false x y z = refl

test_step :
    (p rest : Code) (c : Bool) (m : Machine)
    → Reaches p (m, condition c rest) (tested m, Call.b_if Condition.cc (codes "readbit") ∷ rest)
unfolding run_steps step
test_step p rest true m = record {
  steps = 2;
  reached =
      ap
        (λ (f : Register → ℕ).
          some
            (record (tested m) { registers = f }, Call.b_if Condition.cc (codes "readbit") ∷ rest))
        (fun_ext (λ (r : Register).
          overwritten (same r tmp0) (m.registers isize >>> 16) 0x77 (m.registers r)));
}
test_step p rest false m = record { steps = 1; reached = refl }

wide-of_large : (size : ℕ) → size < 2 ^ 16 → leb (2 ^ 15) size ≡ true → wide size ≡ true
wide-of_large size h large = ground arith

wide-of_small : (size : ℕ) → leb (2 ^ 15) size ≡ false → wide size ≡ false
wide-of_small size h = ground arith

module _ (p rest : Code) (c : Bool)
    (nonewword_at : target (codes "nonewword") p ≡ before_condition (condition c rest))
    (readbit_at : target (codes "readbit") p ≡ readbit c (condition c rest)) where
  done :
      (stream : List ℕ) (size value : ℕ) (m : Machine)
      → HasStream m stream
      → m.registers isize ≡ size
      → m.registers rvalue ≡ value
      → wide size ≡ true
      → (m' : Machine) × Reaches p (m, condition c rest) (m', rest)
        × IsNormalised (size, value, stream) m m'
  done stream size value m h e v is_wide = (
    tested m,
    Reaches-trans p _ _ _ (test_step p rest c m) (
        Reaches-not_taken p (tested m) Condition.cc (codes "readbit") rest
          (ap (λ (x : ℕ). not (wide x)) e ∙ ap not is_wide)),
    record {
      size_is = e;
      value_is = v;
      stream_is = HasStream-clobber _ _ _ m stream h;
      moved = omega arith;
      memory_kept = refl;
      others_kept = λ r h0 h2 h4 h5 h6. rw h2 refl;
    },
  )

  -- The loop, with enough bits.
  pub normalise_lem :
      (stream : List ℕ) (size value : ℕ) (m : Machine) (end : ℕ × ℕ × List ℕ)
      → HasStream m stream
      → m.registers isize ≡ size
      → m.registers rvalue ≡ value
      → size < 2 ^ 16
      → value < size
      → normalise stream size value ≡ some end
      → (m' : Machine) × Reaches p (m, condition c rest) (m', rest) × IsNormalised end m m'
  unfolding normalise
  normalise_lem [] size value m end h e v small inside total =
      elim (Bool-cases (leb (2 ^ 15) size)) [
        | inl large ↦
            rw (some-injective (rw large at total)) at
              (done [] size value m h e v (wide-of_large size small large))
        | inr more ↦ absurd (none_ne_some (rw more at total))
      ]
  normalise_lem (b ∷ stream) size value m end h e v small inside total =
      elim (Bool-cases (leb (2 ^ 15) size)) [
        | inl large ↦
            rw (some-injective (rw large at total)) at
              (done (b ∷ stream) size value m h e v (wide-of_large size small large))
        | inr more ↦
            let few : size < 2 ^ 15 = ground arith in
            let h1 = HasStream-clobber _ _ _ m (b ∷ stream) h in
            let (m1, reached, is) =
              readbit_lem p (condition c rest) c nonewword_at (tested m) b stream h1 in
            let (m', reached', is') =
              normalise_lem stream (2 * size) (2 * value + b) m1 end is.left
                (omega (arith, is.size_doubled, e)) (omega (arith, is.value_read, v, is.is_bit))
                (omega arith) (omega (arith, is.is_bit)) (rw more at total) in
            (
              m',
              Reaches-trans p _ _ _ (test_step p rest c m) (
                  Reaches-trans p _ _ _
                    (Reaches-taken p (tested m) Condition.cc (codes "readbit") rest
                      (readbit c (condition c rest))
                      (ap (λ (x : ℕ). not (wide x)) e ∙ ap not (wide-of_small size more))
                      readbit_at)
                    (Reaches-trans p _ _ _ reached reached')),
              record {
                size_is = is'.size_is;
                value_is = is'.value_is;
                stream_is = is'.stream_is;
                moved = omega (arith, is.moved, is'.moved);
                memory_kept = is'.memory_kept ∙ is.memory_kept;
                others_kept = λ r h0 h2 h4 h5 h6.
                    is'.others_kept r h0 h2 h4 h5 h6 ∙ is.others_kept r h0 h2 h4 h5 h6 ∙ rw h2 refl;
              },
            )
      ]
