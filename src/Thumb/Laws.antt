-- ===== src/Thumb/Laws.antt =====
-- Runs of the processor one after another, and the branches.
use shrinkler_gba.Thumb.{
  Code, Machine, step, run_steps, Reaches, holds, target, put, word_at, half_at, write_half,
  is_ascending, load_words, after_pop, store_words,
}
use shrinkler_gba.Assembler.{Condition, Call, Register}
use shrinkler_gba.Base.{
  ℕ, Option, Text, ◌+◌, some, ◌≡◌, arith, ◌∷◌, refl, some-injective, suc, Option-cases, inl,
  none_ne_some, inr, zero, false, true, if◌then◌else◌, Bool, ◌<◌, ◌^◌, ◌%◌, u32, ◌==◌, List, ◌*◌,
  length, ◌≤◌, ◌-◌, ltb, leb,
}

run_steps-add :
    (p : Code) (n k : ℕ) (start middle : Machine × Code) (end : Option (Machine × Code))
    → run_steps p n start ≡ some middle
    → run_steps p k middle ≡ end
    → run_steps p (n + k) start ≡ end
unfolding run_steps
run_steps-add p zero k start middle end h later =
    let e : 0 + k ≡ k = omega arith in let s : start ≡ middle = some-injective h in rw (e, s) later
run_steps-add p (suc n) k (m, code) middle end h later =
    let e : suc n + k ≡ suc (n + k) = omega arith in
    rw e (elim (Option-cases (step p m code)) [
      | inl stuck ↦ absurd (none_ne_some (rw (stuck, run_steps) at h))
      | inr ((m', code'), next) ↦
          rw (next, run_steps)
            (run_steps-add p n k (m', code') middle end (rw (next, run_steps) at h) later)
    ])

pub Reaches-trans :
    (p : Code) (a b c : Machine × Code) → Reaches p a b → Reaches p b c → Reaches p a c
Reaches-trans p a b c x y = record {
  steps = x.steps + y.steps;
  reached = run_steps-add p x.steps y.steps a b (some c) x.reached y.reached;
}

module _ (p : Code) (m : Machine) (c : Condition) (l : Text) (code : Code) where
  pub Reaches-taken :
      (code' : Code)
      → holds c m ≡ true
      → target l p ≡ code'
      → Reaches p (m, Call.b_if c l ∷ code) (m, code')
  unfolding run_steps step
  Reaches-taken code' h at_label = record { steps = 1; reached = rw (h, at_label) refl }

  pub Reaches-not_taken : holds c m ≡ false → Reaches p (m, Call.b_if c l ∷ code) (m, code)
  unfolding run_steps step
  Reaches-not_taken h = record { steps = 1; reached = rw h refl }

  pub Reaches-b_if :
      (code' : Code) (passed : Bool)
      → target l p ≡ code'
      → holds c m ≡ passed
      → Reaches p (m, Call.b_if c l ∷ code) (m, if passed then code' else code)
  unfolding run_steps step
  Reaches-b_if code' passed at_label h = record { steps = 1; reached = rw (at_label, h) refl }

-- The load of a word.
pub Reaches-ldr :
    (p : Code) (m : Machine) (d s : Register) (n a : ℕ) (code : Code)
    → m.registers s + n ≡ a
    → a < 2 ^ 32
    → a % 4 ≡ 0
    → Reaches p (m, Call.ldr d s n ∷ code) (put d (word_at m.memory a) m, code)
unfolding run_steps step
Reaches-ldr p m d s n a code sum_is fits is_aligned =
    let address : u32 (m.registers s + n) ≡ a = omega arith in
    let test : (a % 4 == 0) ≡ true = ground arith in
    record { steps = 1; reached = rw (run_steps, address, test) refl }

module _ (p : Code) (m : Machine) (d s : Register) (n a : ℕ) (code : Code)
    (sum_is : u32 (m.registers s + n) ≡ a) (is_even : a % 2 ≡ 0) where
  pub Reaches-ldrh : Reaches p (m, Call.ldrh d s n ∷ code) (put d (half_at m.memory a) m, code)
  unfolding run_steps step
  Reaches-ldrh =
      let test : (a % 2 == 0) ≡ true = ground arith in
      record { steps = 1; reached = rw (run_steps, sum_is, test) refl }

  pub Reaches-strh :
      Reaches p
        (m, Call.strh d s n ∷ code)
        (record m { memory = write_half a (m.registers d) m.memory }, code)
  unfolding run_steps step
  Reaches-strh =
      let test : (a % 2 == 0) ≡ true = ground arith in
      record { steps = 1; reached = rw (run_steps, sum_is, test) refl }

module _ (p : Code) (m : Machine) (rs : List Register) (code : Code)
    (sorted : is_ascending rs ≡ true) (is_aligned : m.registers Register.sp % 4 ≡ 0) where
  pub Reaches-push :
      4 * length rs ≤ m.registers Register.sp
      → Reaches p
          (m, Call.push rs ∷ code)
          (
            put Register.sp
                (m.registers Register.sp - 4 * length rs)
                (store_words (m.registers Register.sp - 4 * length rs) rs m),
            code,
          )
  unfolding run_steps step
  Reaches-push fits =
      let test : (m.registers Register.sp % 4 == 0) ≡ true = ground arith in
      let test' : leb (4 * length rs) (m.registers Register.sp) ≡ true = ground arith in
      record { steps = 1; reached = rw (run_steps, sorted, test, test') refl }

  pub Reaches-pop :
      m.registers Register.sp + 4 * length rs < 2 ^ 32
      → Reaches p
          (m, Call.pop rs ∷ code)
          (
            put Register.sp
                (m.registers Register.sp + 4 * length rs)
                (load_words (m.registers Register.sp) rs m),
            after_pop p m.memory (m.registers Register.sp) rs code,
          )
  unfolding run_steps step
  Reaches-pop fits =
      let test : (m.registers Register.sp % 4 == 0) ≡ true = ground arith in
      let test' : ltb (m.registers Register.sp + 4 * length rs) (2 ^ 32) ≡ true = ground arith in
      record { steps = 1; reached = rw (run_steps, sorted, test, test') refl }
