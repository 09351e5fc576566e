-- ===== src/ShrinklerPacker/Range.antt =====
-- The range decoder of the Shrinkler format with its contexts, as a specification of the code that
-- src/shrinkler_gba/shrinkler_packer.cpp emits, and calls of `getbit` from that code.
use shrinkler_gba.Assembler.{Register}
use shrinkler_gba.Thumb.{Machine, half_at, carry_of}
use mathlib.Core.Option
use shrinkler_gba.Thumb.Memory
use shrinkler_gba.Thumb.Memory.{AgreeFrom, AreWords}
use shrinkler_gba.ShrinklerPacker.Getbit.{
  inp, outp, tmp0, tmp1, rvalue, isize, offset, saved_sp, bitbuf,
}
use shrinkler_gba.ShrinklerPacker.RangeDecoder.{decide, IsProbability, IsInterval, decide_bounds}
use shrinkler_gba.ShrinklerPacker.Stream.{HasStream, HasStream-AreBits, HasStream-kept}
use shrinkler_gba.ShrinklerPacker.Normalise.{normalise, normalise-IsInterval}
use shrinkler_gba.ShrinklerPacker.BitContract.{HasDecided}
use shrinkler_gba.Base.{
  ℕ, List, Option, if◌then◌else◌, ◌%◌, ◌<◌, ◌≡◌, ◌+◌, ◌==◌, ◌≤◌, some, ◌*◌, arith, false,
  Bool-cases, ltb, inl, inr, ap, ◌∙◌, ◌^◌,
}

pub record Range : Type 0 where
  pub size : ℕ
  pub value : ℕ
  pub stream : List ℕ
  pub contexts : ℕ → ℕ

-- The decision of a bit in a context, with the bits that are left.
abbrev pub decided : ℕ → Range → ℕ × ℕ × List ℕ → ℕ × Range
decided k r (size, value, left) =
    let d = decide (r.contexts k) size value in
    (
      d.bit,
      record {
        size = d.size;
        value = d.value;
        stream = left;
        contexts = λ j. if j == k then d.prob else r.contexts j;
      },
    )

-- A bit in a context; `none` if there are too few bits.
unfoldable pub get_bit : ℕ → Range → Option (ℕ × Range)
get_bit k r = Option.map (decided k r) (normalise r.stream r.size r.value)

-- The processor has the state of the range decoder, with the contexts from an address on.
pub record Decodes (base : ℕ) (m : Machine) (r : Range) : Type 0 where
  pub base_even : base % 2 ≡ 0
  pub below_data : base + 4096 ≤ m.registers inp
  pub size_is : m.registers isize ≡ r.size
  pub value_is : m.registers rvalue ≡ r.value
  pub inside : IsInterval r.size r.value
  pub streaming : HasStream m r.stream
  pub contexts_are :
      (k : ℕ)
      → k < 2048
      → (half_at m.memory (base + 2 * k) ≡ r.contexts k) × IsProbability (r.contexts k)

pub Decodes-kept :
    (base : ℕ) (m m' : Machine) (r : Range)
    → m'.registers isize ≡ m.registers isize
    → m'.registers rvalue ≡ m.registers rvalue
    → m'.registers bitbuf ≡ m.registers bitbuf
    → m'.registers inp ≡ m.registers inp
    → AgreeFrom base (2 ^ 32) m.memory m'.memory
    → Decodes base m r
    → Decodes base m' r
Decodes-kept base m m' r size value buffer next agree d = record {
  base_even = d.base_even;
  below_data = omega (arith, next, d.below_data);
  size_is = size ∙ d.size_is;
  value_is = value ∙ d.value_is;
  inside = d.inside;
  streaming =
      HasStream-kept m m' r.stream buffer next
        (λ x low high. agree x (omega (arith, low, d.below_data)) high) d.streaming;
  contexts_are = λ k few. (
    Memory.half_at-AgreeFrom base (2 ^ 32) (base + 2 * k) m.memory m'.memory agree (omega arith)
          (omega (arith, few, d.below_data, d.streaming.inside))
        ∙ (d.contexts_are k few).0,
    (d.contexts_are k few).1,
  );
}

-- What a call of `getbit` leaves.
pub record HasCalled (b base : ℕ) (m m' : Machine) : Type 0 where
  pub bit_is : carry_of m'.carry ≡ b
  pub outp_kept : m'.registers outp ≡ m.registers outp
  pub tmp0_kept : m'.registers tmp0 ≡ m.registers tmp0
  pub tmp1_kept : m'.registers tmp1 ≡ m.registers tmp1
  pub offset_kept : m'.registers offset ≡ m.registers offset
  pub saved_sp_kept : m'.registers saved_sp ≡ m.registers saved_sp
  pub sp_kept : m'.registers Register.sp ≡ m.registers Register.sp
  pub below_kept : (x : ℕ) → x + 16 < m.registers Register.sp → m'.memory x ≡ m.memory x
  pub stack_kept : AgreeFrom (m.registers Register.sp) base m.memory m'.memory

module _ (base k : ℕ) (m m' : Machine) (r : Range) (end : ℕ × ℕ × List ℕ) (few : k < 2048)
    (decodes : Decodes base m r) (low : m.registers Register.sp ≤ base)
    (total : normalise r.stream r.size r.value ≡ some end)
    (h : HasDecided (decide (r.contexts k) end.0 end.1) (base + 2 * k) m m')
    (streaming : HasStream m' end.2) where
  bounds :
      IsProbability (decide (r.contexts k) end.0 end.1).prob
      × IsInterval
          (decide (r.contexts k) end.0 end.1).size
          (decide (r.contexts k) end.0 end.1).value
  bounds =
      let (large, inside) =
        normalise-IsInterval r.stream r.size r.value end
          (HasStream-AreBits m r.stream decodes.streaming) decodes.inside total in
      decide_bounds (r.contexts k) end.0 end.1 (decodes.contexts_are k few).1 large inside

  other_context :
      (j : ℕ) → j < 2048 → (j == k) ≡ false → half_at m'.memory (base + 2 * j) ≡ r.contexts j
  other_context j inside other = elim (Bool-cases (ltb j k)) [
    | inl less ↦
        Memory.half_at-AgreeFrom (m.registers Register.sp) (base + 2 * k) (base + 2 * j) m.memory
          m'.memory h.stack_kept (omega (arith, low)) (ground arith)
        ∙ (decodes.contexts_are j inside).0
    | inr more ↦
        Memory.half_at-AgreeFrom (base + 2 * k + 2) (2 ^ 32) (base + 2 * j) m.memory m'.memory
          h.above_kept (ground arith) (omega (arith, decodes.below_data, decodes.streaming.inside))
        ∙ (decodes.contexts_are j inside).0
  ]

  abbrev IsContext : ℕ → Type 0
  IsContext j =
      (half_at m'.memory (base + 2 * j) ≡ (decided k r end).1.contexts j)
      × IsProbability ((decided k r end).1.contexts j)

  contexts_are : (j : ℕ) → j < 2048 → IsContext j
  contexts_are j inside = elim (Bool-cases (j == k)) [
    | inl same ↦
        let e : j ≡ k = ground arith in
        rw same (ap (λ (x : ℕ). half_at m'.memory (base + 2 * x)) e ∙ h.prob_is, bounds.0)
    | inr other ↦ rw other (other_context j inside other, (decodes.contexts_are j inside).1)
  ]

  pub decided-Decodes : Decodes base m' (decided k r end).1
  decided-Decodes = record {
    base_even = decodes.base_even;
    below_data = omega (arith, decodes.below_data, h.moved);
    size_is = h.size_is;
    value_is = h.value_is;
    inside = bounds.1;
    streaming = streaming;
    contexts_are = contexts_are;
  }
