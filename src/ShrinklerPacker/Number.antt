-- ===== src/ShrinklerPacker/Number.antt =====
-- The numbers of the Shrinkler format, as a specification, and the loops of the code that
-- src/shrinkler_gba/shrinkler_packer.cpp emits for `getnumber`.
use shrinkler_gba.Assembler.{Register, Condition, Call}
use shrinkler_gba.Thumb.{
  Code, Machine, step, run_steps, Reaches, sum, result, carry_of, code_at, target, same,
}
use shrinkler_gba.Thumb.Memory.{AgreeFrom}
use shrinkler_gba.Thumb.Laws.{Reaches-trans}
use shrinkler_gba.ShrinklerPacker.Getbit.{
  outp, tmp0, tmp1, bitctx, offset, saved_sp, to_pop_list, getnumber_push_list, isize, rvalue,
  bitbuf, inp,
}
use shrinkler_gba.ShrinklerPacker.BitContract.{HasGetbit}
use shrinkler_gba.ShrinklerPacker.Range.{Range, Decodes, get_bit, Decodes-kept}
use shrinkler_gba.ShrinklerPacker.Calls.{bit_call}
use mathlib.Core.Path.{ap₂}
use shrinkler_gba.Base.{
  ℕ, Bool, codes, Option, ◌%◌, ◌*◌, ◌<◌, ◌∙◌, ◌∷◌, ◌≡◌, length, none, some, ◌+◌, ◌^◌, ◌≤◌, bit_or,
  suc, ◌-◌, arith, if◌then◌else◌, zero, refl, ◌==◌, bit_or-shifted, ap, false, none_ne_some,
}

-- The context of a bit of a number.
abbrev pub number_slot : ℕ → ℕ → ℕ
number_slot c i = c * 2 ^ 8 + i + 1

abbrev pub with_bit : {A : Type 0} → Option (ℕ × Range) → (ℕ → Range → Option A) → Option A
with_bit none f = none
with_bit (some (b, r)) f = f b r

pub with_bit-some :
    {A : Type 0} (o : Option (ℕ × Range)) (f : ℕ → Range → Option A) (y : A)
    → with_bit o f ≡ some y
    → (b : ℕ) × (r : Range) × (o ≡ some (b, r)) × (f b r ≡ some y)
with_bit-some none f y h = absurd (none_ne_some h)
with_bit-some (some (b, r)) f y h = (b, r, refl, h)

-- The number of bits behind the first, in unary; no number has more than 31.
unfoldable pub count_bits : ℕ → ℕ → ℕ → Range → Option (ℕ × Range)
count_bits zero c k r = none
count_bits (suc fuel) c k r =
    with_bit (get_bit (number_slot c (2 * k)) r)
      (λ b r'. let rest = count_bits fuel c (k + 1) r' in if b == 1 then rest else some (k, r'))

-- The bits, the highest first.
unfoldable pub read_bits : ℕ → ℕ → ℕ → Range → Option (ℕ × Range)
read_bits zero c n r = some (n, r)
read_bits (suc k) c n r =
    with_bit (get_bit (number_slot c (2 * k + 1)) r) (λ b r'. read_bits k c (2 * n + b) r')

unfoldable pub get_number : ℕ → Range → Option (ℕ × Range)
unfolding count_bits read_bits
get_number c r = with_bit (count_bits 31 c 1 r) (λ k r'. read_bits k c 1 r')

-- The code, with what follows the routine.
abbrev pub after_bits : Code → Code
after_bits rest =
    Call.adc tmp1 tmp1
    ∷ Call.sub_imm outp 2
    ∷ Call.b_if Condition.cs (codes "bitsloop")
    ∷ Call.pop (to_pop_list getnumber_push_list)
    ∷ rest

abbrev context_code : Code → Code
context_code code = Call.mov bitctx tmp0 ∷ Call.orr bitctx outp ∷ Call.bl (codes "getbit") ∷ code

abbrev pub bits_loop : Code → Code
bits_loop rest = context_code (after_bits rest)

abbrev pub after_count : Code → Code
after_count rest =
    Call.b_if Condition.cs (codes "numberloop")
    ∷ Call.mov_imm tmp1 1
    ∷ Call.sub_imm outp 1
    ∷ Call.label (codes "bitsloop")
    ∷ bits_loop rest

abbrev pub number_loop : Code → Code
number_loop rest = Call.add_imm outp 2 ∷ context_code (after_count rest)

pub record HasGetnumber (p rest : Code) : Type 0 where
  pub getnumber_at :
      target (codes "getnumber") p
      ≡ Call.push getnumber_push_list
        ∷ Call.lsl tmp0 tmp0 8
        ∷ Call.mov_imm outp 0
        ∷ Call.label (codes "numberloop")
        ∷ number_loop rest
  pub number_loop_at : target (codes "numberloop") p ≡ number_loop rest
  pub bits_loop_at : target (codes "bitsloop") p ≡ bits_loop rest
  pub count_returns : code_at p (length (after_count rest)) ≡ after_count rest
  pub bits_returns : code_at p (length (after_bits rest)) ≡ after_bits rest
  pub short : length (after_count rest) < 2 ^ 32
  pub bits_short : length (after_bits rest) < 2 ^ 32

-- Within the routine, for contexts of a group.
pub record InNumber (base c index : ℕ) (m : Machine) (r : Range) : Type 0 where
  pub decodes : Decodes base m r
  pub base_aligned : base % 4 ≡ 0
  pub room : 24 ≤ base
  pub group_small : c < 7
  pub sp_is : m.registers Register.sp ≡ base - 8
  pub group_is : m.registers tmp0 ≡ c * 2 ^ 8
  pub index_is : m.registers outp ≡ index
  pub number_small : m.registers tmp1 < 2 ^ 32

-- What the routine leaves alone.
pub record NumberKeeps (base : ℕ) (m m' : Machine) : Type 0 where
  pub offset_kept : m'.registers offset ≡ m.registers offset
  pub saved_sp_kept : m'.registers saved_sp ≡ m.registers saved_sp
  pub below_kept : (x : ℕ) → x + 24 < base → m'.memory x ≡ m.memory x
  pub stack_kept : AgreeFrom (base - 8) base m.memory m'.memory

pub NumberKeeps-trans :
    (base : ℕ) (m m' m'' : Machine)
    → NumberKeeps base m m'
    → NumberKeeps base m' m''
    → NumberKeeps base m m''
NumberKeeps-trans base m m' m'' x y = record {
  offset_kept = y.offset_kept ∙ x.offset_kept;
  saved_sp_kept = y.saved_sp_kept ∙ x.saved_sp_kept;
  below_kept = λ a low. y.below_kept a low ∙ x.below_kept a low;
  stack_kept = λ a low high. y.stack_kept a low high ∙ x.stack_kept a low high;
}

-- Instructions of the routine itself set the two registers of the number, and no memory.
pub record OnlyNumber (m m' : Machine) : Type 0 where
  pub memory_kept : m'.memory ≡ m.memory
  pub others_kept :
      (x : Register) → same x outp ≡ false → same x tmp1 ≡ false → m'.registers x ≡ m.registers x
  pub number_small : m'.registers tmp1 < 2 ^ 32

pub OnlyNumber-InNumber :
    (base c index : ℕ) (m m' : Machine) (r : Range)
    → OnlyNumber m m'
    → InNumber base c index m r
    → InNumber base c (m'.registers outp) m' r
OnlyNumber-InNumber base c index m m' r x is = record {
  decodes =
      Decodes-kept base m m' r (x.others_kept isize refl refl) (x.others_kept rvalue refl refl)
        (x.others_kept bitbuf refl refl) (x.others_kept inp refl refl)
        (λ a low high. ap (λ (f : ℕ → ℕ). f a) x.memory_kept) is.decodes;
  base_aligned = is.base_aligned;
  room = is.room;
  group_small = is.group_small;
  sp_is = x.others_kept Register.sp refl refl ∙ is.sp_is;
  group_is = x.others_kept tmp0 refl refl ∙ is.group_is;
  index_is = refl;
  number_small = x.number_small;
}

pub OnlyNumber-NumberKeeps : (base : ℕ) (m m' : Machine) → OnlyNumber m m' → NumberKeeps base m m'
OnlyNumber-NumberKeeps base m m' x = record {
  offset_kept = x.others_kept offset refl refl;
  saved_sp_kept = x.others_kept saved_sp refl refl;
  below_kept = λ a low. ap (λ (f : ℕ → ℕ). f a) x.memory_kept;
  stack_kept = λ a low high. ap (λ (f : ℕ → ℕ). f a) x.memory_kept;
}

module _ (p : Code) (c : Bool) (after : Code) (has : HasGetbit p c after) (base group : ℕ) where
  -- A bit of the number.
  pub context_call :
      (m : Machine) (r r' : Range) (index b : ℕ) (code : Code)
      → InNumber base group index m r
      → index < 2 ^ 8
      → code_at p (length code) ≡ code
      → length code < 2 ^ 32
      → get_bit (number_slot group index) r ≡ some (b, r')
      → (m' : Machine) × Reaches p (m, context_code code) (m', code)
        × InNumber base group index m' r'
        × (carry_of m'.carry ≡ b)
        × (m'.registers tmp1 ≡ m.registers tmp1)
        × NumberKeeps base m m'
  unfolding run_steps step
  context_call m r r' index b code is small returns short h =
      let m1 = sum bitctx (m.registers tmp0) 0 m in
      let m2 = result bitctx (bit_or (m1.registers bitctx) (m1.registers outp)) m1 in
      let moved : m1.registers bitctx ≡ group * 2 ^ 8 =
        omega (arith, is.group_is, is.group_small) in
      let context : m2.registers bitctx ≡ group * 2 ^ 8 + index =
        ap₂ bit_or moved is.index_is ∙ bit_or-shifted 8 group index small in
      let (m', reached, decodes, called) =
        bit_call p c after has base (number_slot group index) (omega (arith, is.group_small)) m2 r
          code b r'
          (record {
            decodes = Decodes-kept base m m2 r refl refl refl refl (λ x low high. refl) is.decodes;
            stack_aligned = omega (arith, is.sp_is, is.base_aligned);
            stack_room = omega (arith, is.sp_is, is.room);
            stack_low = omega (arith, is.sp_is);
            words = omega (arith, is.index_is, is.group_is, is.group_small, is.number_small);
            context_is = omega (
              arith, context, is.sp_is, is.room, is.group_small, is.decodes.below_data,
              is.decodes.streaming.inside,
            );
            returns = returns;
            short = short;
          })
          h in
      (
        m',
        Reaches-trans p _ _ _ (record { steps = 2; reached = refl }) reached,
        record {
          decodes = decodes;
          base_aligned = is.base_aligned;
          room = is.room;
          group_small = is.group_small;
          sp_is = called.sp_kept ∙ is.sp_is;
          group_is = called.tmp0_kept ∙ is.group_is;
          index_is = called.outp_kept ∙ is.index_is;
          number_small = omega (arith, called.tmp1_kept, is.number_small);
        },
        called.bit_is,
        called.tmp1_kept,
        record {
          offset_kept = called.offset_kept;
          saved_sp_kept = called.saved_sp_kept;
          below_kept = λ x low. called.below_kept x (omega (arith, is.sp_is, low));
          stack_kept = λ x low high. called.stack_kept x (omega (arith, is.sp_is, low)) high;
        },
      )
