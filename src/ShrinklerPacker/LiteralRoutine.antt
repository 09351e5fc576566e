-- ===== src/ShrinklerPacker/LiteralRoutine.antt =====
-- src/shrinkler_gba/shrinkler_packer.cpp: the loop over the bits of a literal, and its store.
use shrinkler_gba.Thumb.Memory
use shrinkler_gba.Assembler.{Register, Condition, Call}
use shrinkler_gba.ShrinklerPacker.Literal.{
  literal_slot, read_literal, get_literal, HasLiteral, InLiteral, getlit, after_literal,
  LiteralKeeps, literal_bit, LiteralKeeps-trans,
}
use shrinkler_gba.ShrinklerPacker.Number.{with_bit-some}
use shrinkler_gba.Thumb.{write_byte, Code, Machine, Reaches, target, run_steps, step, sum, result}
use native.Mathlib.Nat.{pow-suc, mul-le-mul_right, one-le-pow}
use shrinkler_gba.Base.{
  ℕ, Bool, ◌≡◌, ◌%◌, ◌<◌, some, ◌+◌, ◌^◌, ◌≤◌, codes, ◌*◌, suc, ◌≢◌, arith, leb, false,
  some-injective, ◌∙◌, true, ◌∷◌, zero, ap, ◌-◌, u32, refl, sym,
}
use shrinkler_gba.ShrinklerPacker.Getbit.{outp, tmp1, offset, saved_sp, tmp0}
use shrinkler_gba.ShrinklerPacker.Range.{Range, Decodes, get_bit, Decodes-kept}
use shrinkler_gba.ShrinklerPacker.BitContract.{HasGetbit}
use shrinkler_gba.Thumb.Laws.{Reaches-trans, Reaches-not_taken, Reaches-taken}
use mathlib.Core.Path.{subst}

-- The literal is in memory.
pub record HasLiteralByte (byte : ℕ) (m m' : Machine) : Type 0 where
  pub byte_is : m'.memory (m.registers outp) ≡ byte
  pub byte_small : byte < 2 ^ 8
  pub outp_is : m'.registers outp ≡ m.registers outp + 1
  pub tmp1_kept : m'.registers tmp1 ≡ m.registers tmp1
  pub offset_kept : m'.registers offset ≡ m.registers offset
  pub saved_sp_kept : m'.registers saved_sp ≡ m.registers saved_sp
  pub sp_kept : m'.registers Register.sp ≡ m.registers Register.sp
  pub below_kept :
      (x : ℕ) → x + 16 < m.registers Register.sp → x ≢ m.registers outp → m'.memory x ≡ m.memory x

-- What the program sees to before a literal: the output lies below the stack.
pub record CanLiteral (m : Machine) (r : Range) : Type 0 where
  pub decodes : Decodes (m.registers Register.sp) m r
  pub stack_aligned : m.registers Register.sp % 4 ≡ 0
  pub output_below : m.registers outp + 16 < m.registers Register.sp
  pub number_small : m.registers tmp1 < 2 ^ 32

doubled : (a k : ℕ) → a * 2 ^ suc k ≡ a * 2 * 2 ^ k
doubled a k = omega (arith, ap (λ (x : ℕ). a * x) (pow-suc 2 k))

module _ (p : Code) (c : Bool) (after : Code) (has : HasGetbit p c after) (rest : Code)
    (literal : HasLiteral p rest) (base out : ℕ) where
  abbrev LiteralIs : Machine → ℕ → Range → Type 0
  LiteralIs m n r =
      (m' : Machine) × Reaches p (m, getlit rest) (m', after_literal rest)
      × InLiteral base out n m' r
      × LiteralKeeps base m m'
      × (2 ^ 8 ≤ n)
      × (n < 2 ^ 9)

  literal_loop :
      (k t n : ℕ) (m : Machine) (r r' : Range)
      → InLiteral base out t m r
      → 2 ^ 8 ≤ t * 2 ^ suc k
      → (t + 1) * 2 ^ suc k ≤ 2 ^ 9
      → read_literal (suc k) out t r ≡ some (n, r')
      → LiteralIs m n r'
  unfolding read_literal
  literal_loop zero t n m r r' is low high h =
      let (b, r1, got, last) = with_bit-some (get_bit (literal_slot out t) r) _ (n, r') h in
      let (m1, reached, is1, holds_is, small, keeps) =
        literal_bit p c after has rest literal base out m r r1 t b is (omega (arith, high)) got in
      let complete : leb (2 * t + b) 255 ≡ false = ground (arith, low) in
      let at_end : LiteralIs m (2 * t + b) r1 = (
        m1,
        Reaches-trans p _ _ _ reached (
            Reaches-not_taken p m1 Condition.ls (codes "getlit") (after_literal rest)
              (holds_is ∙ complete)),
        is1,
        keeps,
        omega (arith, low),
        omega (arith, high, small),
      ) in
      let e : (2 * t + b, r1) ≡ (n, r') = some-injective last in
      subst (λ (x : ℕ × Range). LiteralIs m x.0 x.1) e at_end
  literal_loop (suc k) t n m r r' is low high h =
      let (b, r1, got, more) = with_bit-some (get_bit (literal_slot out t) r) _ (n, r') h in
      let power : 2 ≤ 2 ^ suc k = omega (arith, pow-suc 2 k, one-le-pow k 2 (omega arith)) in
      let double : (t + 1) * 2 ^ suc (suc k) ≡ (t + 1) * 2 * 2 ^ suc k = doubled (t + 1) (suc k) in
      let double' : t * 2 ^ suc (suc k) ≡ t * 2 * 2 ^ suc k = doubled t (suc k) in
      let few : t < 2 ^ 7 =
        omega (arith, high, double, mul-le-mul_right {m = 2} {n = 2 ^ suc k} ((t + 1) * 2) power) in
      let (m1, reached, is1, holds_is, small, keeps) =
        literal_bit p c after has rest literal base out m r r1 t b is (omega (arith, few)) got in
      let incomplete : leb (2 * t + b) 255 ≡ true = ground (arith, few, small) in
      let low' : 2 ^ 8 ≤ (2 * t + b) * 2 ^ suc k = omega (
        arith,
        low,
        double',
        mul-le-mul_right {m = t * 2} {n = 2 * t + b} (2 ^ suc k) (omega arith),
      ) in
      let high' : (2 * t + b + 1) * 2 ^ suc k ≤ 2 ^ 9 = omega (
        arith,
        high,
        double,
        mul-le-mul_right {m = 2 * t + b + 1} {n = (t + 1) * 2} (2 ^ suc k) (omega (arith, small)),
      ) in
      let (m2, reached2, is2, keeps2, large, bounded) =
        literal_loop k (2 * t + b) n m1 r1 r' is1 low' high' more in
      (
        m2,
        Reaches-trans p (m, getlit rest)
            (m1, Call.b_if Condition.ls (codes "getlit") ∷ after_literal rest)
            (m2, after_literal rest) reached
            (Reaches-trans p (m1, Call.b_if Condition.ls (codes "getlit") ∷ after_literal rest)
              (m1, getlit rest) (m2, after_literal rest)
              (Reaches-taken p m1 Condition.ls (codes "getlit") (after_literal rest) (getlit rest)
                (holds_is ∙ incomplete) literal.getlit_at)
              reached2),
        is2,
        LiteralKeeps-trans base m m1 m2 keeps keeps2,
        large,
        bounded,
      )

  -- The store.
  store_steps :
      (m : Machine) (r : Range) (n : ℕ)
      → InLiteral base out n m r
      → 2 ^ 8 ≤ n
      → n < 2 ^ 9
      → out + 16 < base
      → (m' : Machine) × Reaches p (m, after_literal rest) (m', rest)
        × Decodes base m' r
        × (m'.memory out ≡ n - 2 ^ 8)
        × (m'.registers outp ≡ out + 1)
        × (m'.registers Register.sp ≡ base)
        × ((x : ℕ) → x ≢ out → m'.memory x ≡ m.memory x)
        × (m'.registers tmp1 ≡ m.registers tmp1)
        × (m'.registers offset ≡ m.registers offset)
        × (m'.registers saved_sp ≡ m.registers saved_sp)
  unfolding run_steps step
  store_steps m r n is large small below =
      let m1 : Machine = record m {
        memory = write_byte (u32 (m.registers outp + 0)) (m.registers tmp0) m.memory;
      } in
      let m2 = sum outp (m1.registers outp) 1 m1 in
      let address : u32 (m.registers outp + 0) ≡ out = omega (arith, is.out_is, is.out_small) in
      let elsewhere : (x : ℕ) → x ≢ out → m2.memory x ≡ m.memory x = λ x other.
        Memory.write_byte-elsewhere (u32 (m.registers outp + 0)) (m.registers tmp0) x m.memory
          (λ e. other (e ∙ address)) in
      (
        m2,
        record { steps = 3; reached = refl },
        Decodes-kept base m m2 r refl refl refl refl
            (λ x low high. elsewhere x (λ e. omega (arith, low, below, e))) is.decodes,
        ap (λ (a : ℕ). m2.memory a) (sym address)
            ∙ Memory.write_byte-here (u32 (m.registers outp + 0)) (m.registers tmp0) m.memory
            ∙ omega (arith, is.bits_are, large, small),
        omega (arith, is.out_is, below, is.decodes.below_data, is.decodes.streaming.inside),
        is.sp_is,
        elsewhere,
        refl,
        refl,
        refl,
      )

module _ (p : Code) (c : Bool) (after : Code) (has : HasGetbit p c after) (rest : Code)
    (literal : HasLiteral p rest) where
  starts_literal :
      (m : Machine) (r : Range)
      → CanLiteral m r
      → (m' : Machine) × Reaches p (m, target (codes "literal") p) (m', getlit rest)
        × InLiteral (m.registers Register.sp) (m.registers outp) 1 m' r
        × LiteralKeeps (m.registers Register.sp) m m'
  unfolding run_steps step
  starts_literal m r can =
      let base = m.registers Register.sp in
      let out = m.registers outp in
      let entered : Machine = result tmp0 1 m in
      let enter : Reaches p (m, target (codes "literal") p) (entered, getlit rest) =
        subst (λ (code : Code). Reaches p (m, code) (entered, getlit rest)) (sym literal.literal_at)
          (record { steps = 2; reached = refl }) in
      let is : InLiteral base out 1 entered r = record {
        decodes =
            Decodes-kept base m entered r refl refl refl refl (λ x low high. refl) can.decodes;
        base_aligned = can.stack_aligned;
        room = omega (arith, can.output_below);
        sp_is = refl;
        out_is = refl;
        out_small =
            omega (arith, can.output_below, can.decodes.below_data, can.decodes.streaming.inside);
        bits_are = refl;
        number_small = can.number_small;
      } in
      (
        entered,
        enter,
        is,
        record {
          tmp1_kept = refl;
          offset_kept = refl;
          saved_sp_kept = refl;
          below_kept = λ x low. refl;
        },
      )

  pub literal_lem :
      (byte : ℕ) (m : Machine) (r r' : Range)
      → CanLiteral m r
      → get_literal (m.registers outp) r ≡ some (byte, r')
      → (m' : Machine) × Reaches p (m, target (codes "literal") p) (m', target (codes "switch") p)
        × Decodes (m.registers Register.sp) m' r'
        × HasLiteralByte byte m m'
  unfolding get_literal
  literal_lem byte m r r' can h =
      let base = m.registers Register.sp in
      let out = m.registers outp in
      let (entered, enter, is, keeps0) = starts_literal m r can in
      let (n, r1, read, byte_of) = with_bit-some (read_literal 8 out 1 r) _ (byte, r') h in
      let (m1, reached1, is1, keeps1, large, small) =
        literal_loop p c after has rest literal base out 7 1 n entered r r1 is (omega arith)
          (omega arith) read in
      let keeps = LiteralKeeps-trans base m entered m1 keeps0 keeps1 in
      let (
        m2, reached2, decodes, at_out, next, sp_kept, elsewhere, tmp1_kept, offset_kept,
        saved_sp_kept,
      ) =
        store_steps p c after has rest literal base out m1 r1 n is1 large small can.output_below in
      let e : (n - 2 ^ 8, r1) ≡ (byte, r') = some-injective byte_of in
      (
        m2,
        Reaches-trans p _ _ _ enter (
            Reaches-trans p _ _ _ reached1 (
              subst (λ (code : Code). Reaches p (m1, after_literal rest) (m2, code))
                (sym literal.switch_at) reached2)),
        subst (Decodes base m2) (ap (λ (x : ℕ × Range). x.1) e) decodes,
        record {
          byte_is = at_out ∙ ap (λ (x : ℕ × Range). x.0) e;
          byte_small = omega (arith, small, large, ap (λ (x : ℕ × Range). x.0) e);
          outp_is = next;
          tmp1_kept = tmp1_kept ∙ keeps.tmp1_kept;
          offset_kept = offset_kept ∙ keeps.offset_kept;
          saved_sp_kept = saved_sp_kept ∙ keeps.saved_sp_kept;
          sp_kept = sp_kept;
          below_kept = λ x low other. elsewhere x other ∙ keeps.below_kept x low;
        },
      )
