-- ===== src/ShrinklerPacker/Literal.antt =====
-- src/shrinkler_gba/shrinkler_packer.cpp: the literals of the Shrinkler format, as a specification,
use shrinkler_gba.Thumb.{test}
-- and the loop of the code that is emitted for them.
use shrinkler_gba.Assembler.{Register, Condition, Call}
use shrinkler_gba.ShrinklerPacker.Number.{with_bit}
use mathlib.Core.Path.{ap₂}
use shrinkler_gba.Base.{
  ℕ, Bool, ◌%◌, Option, codes, ◌*◌, ◌∙◌, ◌∷◌, some, ◌^◌, ◌≡◌, suc, ◌+◌, ◌≤◌, length, ◌<◌, zero, leb,
  u32, ◌<<<◌, ◌>>>◌, ◌-◌, ◌==◌, bit_or, bit_or-shifted, arith, ap, not, ◌&&◌, refl,
}
use shrinkler_gba.Thumb.{
  Code, Machine, target, run_steps, code_at, step, Reaches, holds, result, sum, carry_of, test,
}
use shrinkler_gba.ShrinklerPacker.Getbit.{bitctx, tmp0, outp, tmp1, offset, saved_sp}
use shrinkler_gba.ShrinklerPacker.Range.{Range, Decodes, get_bit, Decodes-kept, HasCalled}
use shrinkler_gba.ShrinklerPacker.Calls.{bit_call}
use shrinkler_gba.ShrinklerPacker.BitContract.{HasGetbit}
use shrinkler_gba.ShrinklerPacker.NumberLoops.{carry_small}
use shrinkler_gba.Thumb.Laws.{Reaches-trans}

-- The context of a bit of a literal: the parity of the address and the bits before.
abbrev pub literal_slot : ℕ → ℕ → ℕ
literal_slot out t = out % 2 * 2 ^ 8 + t + 5

-- Bits, the highest first, behind those that have been read and a leading 1.
unfoldable pub read_literal : ℕ → ℕ → ℕ → Range → Option (ℕ × Range)
read_literal zero out t r = some (t, r)
read_literal (suc k) out t r =
    with_bit (get_bit (literal_slot out t) r) (λ b r'. read_literal k out (2 * t + b) r')

-- A byte.
unfoldable pub get_literal : ℕ → Range → Option (ℕ × Range)
unfolding read_literal
get_literal out r = with_bit (read_literal 8 out 1 r) (λ n r'. some (n - 2 ^ 8, r'))

-- The code, with what follows.
abbrev pub after_literal : Code → Code
after_literal rest =
    Call.strb_imm tmp0 outp 0 ∷ Call.add_imm outp 1 ∷ Call.label (codes "switch") ∷ rest

abbrev pub after_bit : Code → Code
after_bit rest =
    Call.adc tmp0 tmp0
    ∷ Call.cmp_imm tmp0 255
    ∷ Call.b_if Condition.ls (codes "getlit")
    ∷ after_literal rest

abbrev pub getlit : Code → Code
getlit rest =
    Call.lsl bitctx outp 31
    ∷ Call.lsr bitctx bitctx 23
    ∷ Call.orr bitctx tmp0
    ∷ Call.bl (codes "getbit")
    ∷ after_bit rest

pub record HasLiteral (p rest : Code) : Type 0 where
  pub literal_at :
      target (codes "literal") p ≡ Call.mov_imm tmp0 1 ∷ Call.label (codes "getlit") ∷ getlit rest
  pub getlit_at : target (codes "getlit") p ≡ getlit rest
  pub switch_at : target (codes "switch") p ≡ rest
  pub returns : code_at p (length (after_bit rest)) ≡ after_bit rest
  pub short : length (after_bit rest) < 2 ^ 32

-- Within the main loop, the contexts begin where the stack pointer is.
pub record InLiteral (base out t : ℕ) (m : Machine) (r : Range) : Type 0 where
  pub decodes : Decodes base m r
  pub base_aligned : base % 4 ≡ 0
  pub room : 16 ≤ base
  pub sp_is : m.registers Register.sp ≡ base
  pub out_is : m.registers outp ≡ out
  pub out_small : out < 2 ^ 32
  pub bits_are : m.registers tmp0 ≡ t
  pub number_small : m.registers tmp1 < 2 ^ 32

-- What a bit of a literal leaves alone.
pub record LiteralKeeps (base : ℕ) (m m' : Machine) : Type 0 where
  pub tmp1_kept : m'.registers tmp1 ≡ m.registers tmp1
  pub offset_kept : m'.registers offset ≡ m.registers offset
  pub saved_sp_kept : m'.registers saved_sp ≡ m.registers saved_sp
  pub below_kept : (x : ℕ) → x + 16 < base → m'.memory x ≡ m.memory x

pub LiteralKeeps-trans :
    (base : ℕ) (m m' m'' : Machine)
    → LiteralKeeps base m m'
    → LiteralKeeps base m' m''
    → LiteralKeeps base m m''
LiteralKeeps-trans base m m' m'' x y = record {
  tmp1_kept = y.tmp1_kept ∙ x.tmp1_kept;
  offset_kept = y.offset_kept ∙ x.offset_kept;
  saved_sp_kept = y.saved_sp_kept ∙ x.saved_sp_kept;
  below_kept = λ a low. y.below_kept a low ∙ x.below_kept a low;
}

pub parity_lem : (out : ℕ) → u32 (out <<< 31) >>> 23 ≡ out % 2 * 2 ^ 8
parity_lem out = omega arith

is_below : (x : ℕ) → not (leb 255 x && not (x == 255)) ≡ leb x 255
is_below x = ground arith

module _ (p : Code) (c : Bool) (after : Code) (has : HasGetbit p c after) (rest : Code)
    (literal : HasLiteral p rest) (base out : ℕ) where
  -- The call of `getbit`.
  literal_call :
      (m : Machine) (r r' : Range) (t b : ℕ)
      → InLiteral base out t m r
      → t < 2 ^ 8
      → get_bit (literal_slot out t) r ≡ some (b, r')
      → (m' : Machine) × Reaches p (m, getlit rest) (m', after_bit rest)
        × Decodes base m' r'
        × HasCalled b base m m'
  unfolding run_steps step
  literal_call m r r' t b is few h =
      let m1 : Machine = record (result bitctx (u32 (m.registers outp <<< 31)) m) {
        carry = (m.registers outp >>> (32 - 31)) % 2 == 1;
      } in
      let m2 : Machine = record (result bitctx (m1.registers bitctx >>> 23) m1) {
        carry = (m1.registers bitctx >>> (23 - 1)) % 2 == 1;
      } in
      let m3 : Machine = result bitctx (bit_or (m2.registers bitctx) (m2.registers tmp0)) m2 in
      let parity : m2.registers bitctx ≡ out % 2 * 2 ^ 8 =
        ap (λ (x : ℕ). u32 (x <<< 31) >>> 23) is.out_is ∙ parity_lem out in
      let context : m3.registers bitctx ≡ out % 2 * 2 ^ 8 + t =
        ap₂ bit_or parity is.bits_are ∙ bit_or-shifted 8 (out % 2) t few in
      let (m4, reached, decodes, called) =
        bit_call p c after has base (literal_slot out t) (omega (arith, few)) m3 r (after_bit rest)
          b r'
          (record {
            decodes = Decodes-kept base m m3 r refl refl refl refl (λ x low high. refl) is.decodes;
            stack_aligned = omega (arith, is.sp_is, is.base_aligned);
            stack_room = omega (arith, is.sp_is, is.room);
            stack_low = omega (arith, is.sp_is);
            words = (
              omega (arith, is.out_is, is.out_small),
              (omega (arith, is.bits_are, few), (is.number_small, tt)),
            );
            context_is = omega (
              arith, context, is.sp_is, few, is.room, is.decodes.below_data,
              is.decodes.streaming.inside,
            );
            returns = literal.returns;
            short = literal.short;
          })
          h in
      (
        m4,
        Reaches-trans p _ _ _ (record { steps = 3; reached = refl }) reached,
        decodes,
        record {
          bit_is = called.bit_is;
          outp_kept = called.outp_kept;
          tmp0_kept = called.tmp0_kept;
          tmp1_kept = called.tmp1_kept;
          offset_kept = called.offset_kept;
          saved_sp_kept = called.saved_sp_kept;
          sp_kept = called.sp_kept;
          below_kept = called.below_kept;
          stack_kept = called.stack_kept;
        },
      )

  -- A bit of the literal.
  pub literal_bit :
      (m : Machine) (r r' : Range) (t b : ℕ)
      → InLiteral base out t m r
      → t < 2 ^ 8
      → get_bit (literal_slot out t) r ≡ some (b, r')
      → (m' : Machine) × Reaches p
          (m, getlit rest)
          (m', Call.b_if Condition.ls (codes "getlit") ∷ after_literal rest)
        × InLiteral base out (2 * t + b) m' r'
        × (holds Condition.ls m' ≡ leb (2 * t + b) 255)
        × (b < 2)
        × LiteralKeeps base m m'
  unfolding run_steps step
  literal_bit m r r' t b is few h =
      let (m4, reached, decodes, called) = literal_call m r r' t b is few h in
      let small : b < 2 = omega (arith, called.bit_is, carry_small m4.carry) in
      let m5 = sum tmp0 (m4.registers tmp0) (m4.registers tmp0 + carry_of m4.carry) m4 in
      let m6 = test (m5.registers tmp0) 255 m5 in
      let bits : m6.registers tmp0 ≡ 2 * t + b =
        omega (arith, called.tmp0_kept, called.bit_is, is.bits_are, few, small) in
      (
        m6,
        Reaches-trans p _ _ _ reached (record { steps = 2; reached = refl }),
        record {
          decodes = Decodes-kept base m4 m6 r' refl refl refl refl (λ x low high. refl) decodes;
          base_aligned = is.base_aligned;
          room = is.room;
          sp_is = called.sp_kept ∙ is.sp_is;
          out_is = called.outp_kept ∙ is.out_is;
          out_small = is.out_small;
          bits_are = bits;
          number_small = omega (arith, called.tmp1_kept, is.number_small);
        },
        ap (λ (x : ℕ). not (leb 255 x && not (x == 255))) bits ∙ is_below (2 * t + b),
        small,
        record {
          tmp1_kept = called.tmp1_kept;
          offset_kept = called.offset_kept;
          saved_sp_kept = called.saved_sp_kept;
          below_kept = λ x low. called.below_kept x (omega (arith, is.sp_is, low));
        },
      )
