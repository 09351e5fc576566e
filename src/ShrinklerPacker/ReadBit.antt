-- ===== src/ShrinklerPacker/ReadBit.antt =====
-- src/shrinkler_gba/shrinkler_packer.cpp: how the emitted range decoder reads a bit of the compressed
-- data.
use shrinkler_gba.Assembler.{Condition, Call}
use shrinkler_gba.Thumb.{
  Code, Machine, step, run_steps, Reaches, target, result, word_at, sum, carry_of,
}
use shrinkler_gba.Thumb.Laws.{Reaches-trans, Reaches-taken, Reaches-ldr, Reaches-not_taken}
use shrinkler_gba.ShrinklerPacker.Getbit.{bitbuf, inp, rvalue, isize}
use shrinkler_gba.ShrinklerPacker.Stream.{
  HasWords, concat, HasStream, before_condition, readbit, KeepsOthers, HasRead,
}
use shrinkler_gba.ShrinklerPacker.BitBuffer.{AreBits, IsBuffer, shift_lem, word_lem}
use shrinkler_gba.Base.{
  ℕ, Bool, List, codes, ◌∷◌, ◌≡◌, true, u32, ◌%◌, ◌++◌, [], false, length, ◌*◌, ◌+◌, ◌<<<◌, refl,
  ◌<◌, ◌>>>◌, ◌==◌, ◌^◌, arith, bit_or, leb, sym, ◌∙◌, ap,
}
use mathlib.Core.Path.{subst}

carry_of-bit : (b : ℕ) → b < 2 → carry_of (b == 1) ≡ b
carry_of-bit b h = ground arith

module _ (p rest : Code) (code_in_header : Bool)
    (nonewword : target (codes "nonewword") p ≡ before_condition rest) (m : Machine) where
  abbrev n : ℕ
  n = m.registers bitbuf

  abbrev shifted : Machine
  shifted = record (result bitbuf (u32 (n <<< 1)) m) { carry = (n >>> 31) % 2 == 1 }

  abbrev Reads : ℕ → List ℕ → Type 0
  Reads b stream =
      (m' : Machine) × Reaches p (m, readbit code_in_header rest) (m', rest) × HasRead b stream m m'

  shift_step :
      (c : Bool)
      → (code : Code) × Reaches p
          (m, readbit c rest)
          (shifted, Call.b_if Condition.ne (codes "nonewword") ∷ code)
  unfolding run_steps step
  shift_step true = (_, record { steps = 1; reached = refl })
  shift_step false = (_, record { steps = 1; reached = refl })

  from_buffer :
      (b : ℕ) (bits : List ℕ) (words : List (List ℕ))
      → AreBits (b ∷ bits)
      → IsBuffer (b ∷ bits) n
      → HasWords m.memory (m.registers inp) words
      → m.registers inp % 4 ≡ 0
      → m.registers inp + 4 * length words < 2 ^ 32
      → Reads b (bits ++ concat words)
  unfolding run_steps step
  from_buffer b bits words (small, bits_small) is_buffer has_words is_aligned fits =
      let (is_buffer', top, some_left) = shift_lem b bits n (small, bits_small) is_buffer in
      let m2 =
        sum rvalue (shifted.registers rvalue) (shifted.registers rvalue + carry_of shifted.carry)
          shifted in
      let m3 = sum isize (m2.registers isize) (m2.registers isize) m2 in
      (
        m3,
        Reaches-trans p _ _ _ (shift_step code_in_header).1 (
            Reaches-trans p _ _ _
              (Reaches-taken p shifted Condition.ne (codes "nonewword") _ _ (ground arith)
                nonewword)
              (record { steps = 3; reached = refl })),
        record {
          is_bit = small;
          left = record {
            buffered = bits;
            words = words;
            whole = refl;
            buffered_bits = bits_small;
            in_buffer = is_buffer';
            in_memory = has_words;
            aligned = is_aligned;
            inside = fits;
          };
          value_read = ground (arith, top);
          size_doubled = omega arith;
          moved = omega arith;
          memory_kept = refl;
          others_kept = λ r h0 h2 h4 h5 h6. rw (h5, h4, h6) refl;
        },
      )

  -- A word is loaded, and shifted; the mark is set behind its bits.
  abbrev word : ℕ
  word = word_at m.memory (m.registers inp)

  record IsRefilled (m' : Machine) : Type 0 where
    buffer_is : m'.registers bitbuf ≡ bit_or (u32 (word + word)) 1
    next_is : m'.registers inp ≡ u32 (m.registers inp + 4)
    value_is :
        m'.registers rvalue
        ≡ u32 (m.registers rvalue + (m.registers rvalue + carry_of (leb (2 ^ 32) (word + word))))
    size_is : m'.registers isize ≡ u32 (m.registers isize + m.registers isize)
    memory_is : m'.memory ≡ m.memory
    others_are : KeepsOthers m m'

  refill :
      (c : Bool)
      → m.registers inp < 2 ^ 32
      → m.registers inp % 4 ≡ 0
      → (m' : Machine) × Reaches p (shifted, target (codes "newword") (readbit c rest)) (m', rest)
        × IsRefilled m'
  unfolding run_steps step
  refill true fits is_aligned = (
    _,
    Reaches-trans p _ _ _
        (Reaches-ldr p shifted bitbuf inp 0 (m.registers inp) _ (omega arith) fits is_aligned)
        (record { steps = 9; reached = refl }),
    record {
      buffer_is = refl;
      next_is = refl;
      value_is = refl;
      size_is = refl;
      memory_is = refl;
      others_are = λ r h0 h2 h4 h5 h6. rw (h0, h5, h4, h6, h2) refl;
    },
  )
  refill false fits is_aligned = (
    _,
    Reaches-trans p _ _ _
        (Reaches-ldr p shifted bitbuf inp 0 (m.registers inp) _ (omega arith) fits is_aligned)
        (record { steps = 8; reached = refl }),
    record {
      buffer_is = refl;
      next_is = refl;
      value_is = refl;
      size_is = refl;
      memory_is = refl;
      others_are = λ r h0 h2 h4 h5 h6. rw (h0, h5, h4, h6, h2) refl;
    },
  )

  to_newword :
      (c : Bool)
      → u32 (n <<< 1) ≡ 0
      → Reaches p (m, readbit c rest) (shifted, target (codes "newword") (readbit c rest))
  unfolding run_steps step
  to_newword true empty =
      Reaches-trans p _ _ _ (record { steps = 1; reached = refl })
        (Reaches-trans p _ _ _
          (Reaches-not_taken p shifted Condition.ne (codes "nonewword") _ (rw empty refl))
          (record { steps = 1; reached = refl }))
  to_newword false empty =
      Reaches-trans p _ _ _ (record { steps = 1; reached = refl })
        (Reaches-trans p _ _ _
          (Reaches-not_taken p shifted Condition.ne (codes "nonewword") _ (rw empty refl))
          (record { steps = 1; reached = refl }))

  from_word :
      (b : ℕ) (bits : List ℕ) (words : List (List ℕ))
      → IsBuffer [] n
      → HasWords m.memory (m.registers inp) ((b ∷ bits) ∷ words)
      → m.registers inp % 4 ≡ 0
      → m.registers inp + 4 * length ((b ∷ bits) ∷ words) < 2 ^ 32
      → Reads b (bits ++ concat words)
  from_word b bits words is_buffer (has_word, long, (small, bits_small), has_words) is_aligned
        fits =
      let empty : u32 (n <<< 1) ≡ 0 = omega (arith, is_buffer.at_top, is_buffer.value) in
      let (in_range, top, is_buffer') = word_lem b bits (small, bits_small) (omega (arith, long)) in
      let (m', reached, is) = refill code_in_header (omega arith) is_aligned in
      let next : u32 (m.registers inp + 4) ≡ m.registers inp + 4 = omega arith in
      let carry : carry_of (leb (2 ^ 32) (word + word)) ≡ b =
        ap carry_of (rw has_word top) ∙ carry_of-bit b small in
      (
        m',
        Reaches-trans p _ _ _ (to_newword code_in_header empty) reached,
        record {
          is_bit = small;
          left = record {
            buffered = bits;
            words = words;
            whole = refl;
            buffered_bits = bits_small;
            in_buffer =
                subst (IsBuffer bits)
                  (sym (is.buffer_is ∙ ap (λ (w : ℕ). bit_or (u32 (w + w)) 1) has_word)) is_buffer';
            in_memory =
                subst (λ (a : ℕ). HasWords m'.memory a words) (sym (is.next_is ∙ next))
                  (subst (λ (memory : ℕ → ℕ). HasWords memory (m.registers inp + 4) words)
                    (sym is.memory_is) has_words);
            aligned = omega (arith, is.next_is);
            inside = omega (arith, is.next_is);
          };
          value_read = omega (arith, is.value_is, carry);
          size_doubled = omega (arith, is.size_is);
          moved = omega (arith, is.next_is);
          memory_kept = is.memory_is;
          others_kept = is.others_are;
        },
      )

  by_parts :
      (b : ℕ) (stream buffered : List ℕ) (words : List (List ℕ))
      → b ∷ stream ≡ buffered ++ concat words
      → AreBits buffered
      → IsBuffer buffered n
      → HasWords m.memory (m.registers inp) words
      → m.registers inp % 4 ≡ 0
      → m.registers inp + 4 * length words < 2 ^ 32
      → Reads b stream
  by_parts b stream (b' ∷ bits) words whole are_bits is_buffer has_words is_aligned fits =
      let head : b' ≡ b = cc in
      let tail : bits ++ concat words ≡ stream = cc in
      rw (head, tail) at (from_buffer b' bits words are_bits is_buffer has_words is_aligned fits)
  by_parts b stream [] ((b' ∷ bits) ∷ words) whole are_bits is_buffer has_words is_aligned fits =
      let head : b' ≡ b = cc in
      let tail : bits ++ concat words ≡ stream = cc in
      rw (head, tail) at (from_word b' bits words is_buffer has_words is_aligned fits)
  by_parts b stream [] ([] ∷ words) whole are_bits is_buffer (has_word, long, nothing, more)
        is_aligned fits =
      absurd (omega (arith, long))
  by_parts b stream [] [] whole are_bits is_buffer has_words is_aligned fits = cc

  -- In one pass of its loop, the code reads the next bit.
  pub readbit_lem : (b : ℕ) (stream : List ℕ) → HasStream m (b ∷ stream) → Reads b stream
  readbit_lem b stream h =
      by_parts b stream h.buffered h.words h.whole h.buffered_bits h.in_buffer h.in_memory h.aligned
        h.inside
