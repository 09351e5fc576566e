-- ===== src/ShrinklerPacker/Stream.antt =====
-- src/shrinkler_gba/shrinkler_packer.cpp: the compressed data as a stream of bits, part of which is in
-- the bit buffer, and the code that reads a bit.
use shrinkler_gba.Assembler.{Register, Call}
use shrinkler_gba.Thumb.{Code, Machine, target, emitted, word_at, same}
use shrinkler_gba.ShrinklerPacker.Getbit.{
  bitbuf, inp, rvalue, isize, tmp0, getbit_readbit, getbit_fixed_byte, getbit_nonewword,
}
use shrinkler_gba.ShrinklerPacker.BitBuffer.{number, AreBits, IsBuffer}
use shrinkler_gba.Thumb.Memory.{AgreeFrom, word_at-AgreeFrom}
use mathlib.Core.Path.{subst}
use shrinkler_gba.Base.{
  ℕ, Bool, List, codes, ◌∷◌, ◌≡◌, u32, ◌%◌, ◌++◌, [], false, if◌then◌else◌, length, ◌*◌, ◌+◌, ◌<◌,
  ◌^◌, suc, sym, ◌≤◌, arith, ◌∙◌,
}

-- The words in memory that are not read yet, each with its bits.
abbrev pub HasWords : (ℕ → ℕ) → ℕ → List (List ℕ) → Type 0
HasWords memory address [] = Unit
HasWords memory address (word ∷ words) =
    (word_at memory address ≡ number word)
    × (length word ≡ 32)
    × AreBits word
    × HasWords memory (address + 4) words

abbrev pub concat : List (List ℕ) → List ℕ
concat [] = []
concat (word ∷ words) = word ++ concat words

-- The bits that are still to be read: those in the buffer, and those of the words from `inp` on.
pub record HasStream (m : Machine) (stream : List ℕ) : Type 0 where
  pub buffered : List ℕ
  pub words : List (List ℕ)
  pub whole : stream ≡ buffered ++ concat words
  pub buffered_bits : AreBits buffered
  pub in_buffer : IsBuffer buffered (m.registers bitbuf)
  pub in_memory : HasWords m.memory (m.registers inp) words
  pub aligned : m.registers inp % 4 ≡ 0
  pub inside : m.registers inp + 4 * length words < 2 ^ 32

-- The code from where a bit is read to the loop's condition.
abbrev pub before_condition : Code → Code
before_condition rest =
    Call.adc rvalue rvalue ∷ Call.add isize isize ∷ Call.label (codes "loop_condition") ∷ rest

abbrev pub readbit : Bool → Code → Code
readbit code_in_header rest = target (codes "readbit") (
    emitted
      (getbit_readbit ++ ((if code_in_header then getbit_fixed_byte else []) ++ getbit_nonewword))
    ++ rest)

abbrev pub KeepsOthers : Machine → Machine → Type 0
KeepsOthers m m' =
    (r : Register)
    → same r inp ≡ false
    → same r tmp0 ≡ false
    → same r rvalue ≡ false
    → same r isize ≡ false
    → same r bitbuf ≡ false
    → m'.registers r ≡ m.registers r

-- A bit has been read.
pub record HasRead (b : ℕ) (stream : List ℕ) (m m' : Machine) : Type 0 where
  pub is_bit : b < 2
  pub left : HasStream m' stream
  pub value_read : m'.registers rvalue ≡ u32 (2 * m.registers rvalue + b)
  pub size_doubled : m'.registers isize ≡ u32 (2 * m.registers isize)
  pub moved : m.registers inp ≤ m'.registers inp
  pub memory_kept : m'.memory ≡ m.memory
  pub others_kept : KeepsOthers m m'

-- The stream depends on two registers and on the memory from `inp` on.
HasWords-AgreeFrom :
    (words : List (List ℕ)) (address : ℕ) (memory memory' : ℕ → ℕ)
    → AgreeFrom address (address + 4 * length words) memory memory'
    → HasWords memory address words
    → HasWords memory' address words
HasWords-AgreeFrom [] address memory memory' agree has = tt
HasWords-AgreeFrom (word ∷ words) address memory memory' agree (value, long, bits, has) = (
  word_at-AgreeFrom address (address + 4 * suc (length words)) address memory memory' agree
        (omega arith) (omega arith)
      ∙ value,
  long,
  bits,
  HasWords-AgreeFrom words (address + 4) memory memory'
      (λ x low high. agree x (omega arith) (omega arith)) has,
)

pub HasStream-kept :
    (m m' : Machine) (stream : List ℕ)
    → m'.registers bitbuf ≡ m.registers bitbuf
    → m'.registers inp ≡ m.registers inp
    → AgreeFrom (m.registers inp) (2 ^ 32) m.memory m'.memory
    → HasStream m stream
    → HasStream m' stream
HasStream-kept m m' stream buffer next agree h = record {
  buffered = h.buffered;
  words = h.words;
  whole = h.whole;
  buffered_bits = h.buffered_bits;
  in_buffer = subst (IsBuffer h.buffered) (sym buffer) h.in_buffer;
  in_memory =
      subst (λ (a : ℕ). HasWords m'.memory a h.words) (sym next)
        (HasWords-AgreeFrom h.words (m.registers inp) m.memory m'.memory
          (λ x low high. agree x low (omega (arith, h.inside))) h.in_memory);
  aligned = omega (arith, next, h.aligned);
  inside = omega (arith, next, h.inside);
}

AreBits-append : (xs ys : List ℕ) → AreBits xs → AreBits ys → AreBits (xs ++ ys)
AreBits-append [] ys hx hy = hy
AreBits-append (x ∷ xs) ys (h, hx) hy = (h, AreBits-append xs ys hx hy)

concat-AreBits :
    (words : List (List ℕ)) (memory : ℕ → ℕ) (address : ℕ)
    → HasWords memory address words
    → AreBits (concat words)
concat-AreBits [] memory address has = tt
concat-AreBits (word ∷ words) memory address (value, long, bits, has) =
    AreBits-append word (concat words) bits (concat-AreBits words memory (address + 4) has)

pub HasStream-AreBits : (m : Machine) (stream : List ℕ) → HasStream m stream → AreBits stream
HasStream-AreBits m stream h = subst AreBits (sym h.whole) (
    AreBits-append h.buffered (concat h.words) h.buffered_bits
      (concat-AreBits h.words m.memory (m.registers inp) h.in_memory))
