-- ===== src/Thumb.antt =====
-- A processor in Thumb state, as the ARM Architecture Reference Manual describes it, for the
-- instructions that the depacker uses: what the code that src/shrinkler_gba emits does. The code is a
-- list of calls of the assembler; a label marks what follows it. The code computes nothing with
-- addresses of code, which `bl` saves and `pop` restores: such an address is given as the number of
-- calls from there on.
pub mod Laws
pub mod Memory
use shrinkler_gba.Assembler.{Register, Condition, Call}
use shrinkler_gba.Assembler.Laws.{register_number}
use shrinkler_gba.CartridgeAssembler.{Statement}
use shrinkler_gba.CartridgeAssembler.Layout.{calls_of}
use shrinkler_gba.Base.{
  ℕ, List, Bool, Option, Text, [], if◌then◌else◌, leb, not, u32, ◌==◌, ◌≡◌, none, some, text_eq,
  ◌&&◌, ◌+◌, suc, ◌<<<◌, ◌^◌, ◌∷◌, zero, ◌-◌, ◌>>>◌, ◌%◌, bit_or, true, ◌*◌, false, drop, length,
  ltb, ◌/◌,
}
use mathlib.Core.List.{reverse}

abbrev pub Code : Type 0
Code = List Call

-- What a list of statements emits, in its order.
abbrev pub emitted : List Statement → Code
emitted statements = reverse (calls_of statements [])

pub record Machine : Type 0 where
  pub registers : Register → ℕ
  pub carry : Bool
  pub is_zero : Bool
  -- The bytes at all addresses.
  pub memory : ℕ → ℕ
  -- What a multiplication leaves in the carry flag, which is unpredictable.
  pub mul_carry : ℕ → ℕ → Bool

abbrev pub same : Register → Register → Bool
same r s = register_number r == register_number s

abbrev pub put : Register → ℕ → Machine → Machine
put d n m = record m { registers = λ r. if same r d then n else m.registers r }

abbrev pub sum : Register → ℕ → ℕ → Machine → Machine
sum d x y m = record (put d (u32 (x + y)) m) {
  carry = leb (2 ^ 32) (x + y);
  is_zero = u32 (x + y) == 0;
}

abbrev pub is_low : Register → Bool
is_low r = ltb (register_number r) 8

-- An addition to or of a higher register leaves the flags alone.
abbrev pub addition : Register → Register → Machine → Machine
addition d s m =
    if is_low d && is_low s
    then sum d (m.registers d) (m.registers s) m
    else put d (u32 (m.registers d + m.registers s)) m

-- A move between lower registers is the addition of 0.
abbrev pub move : Register → Register → Machine → Machine
move d s m = if is_low d && is_low s then sum d (m.registers s) 0 m else put d (m.registers s) m

-- The carry is set if there is no borrow.
abbrev pub test : ℕ → ℕ → Machine → Machine
test x y m = record m { carry = leb y x; is_zero = x == y }

abbrev pub difference : Register → ℕ → ℕ → Machine → Machine
difference d x y m = test x y (put d (u32 (x + 2 ^ 32 - y)) m)

abbrev pub result : Register → ℕ → Machine → Machine
result d n m = record (put d n m) { is_zero = n == 0 }

abbrev pub holds : Condition → Machine → Bool
holds Condition.eq m = m.is_zero
holds Condition.ne m = not m.is_zero
holds Condition.cs m = m.carry
holds Condition.cc m = not m.carry
holds Condition.lo m = not m.carry
holds Condition.ls m = not (m.carry && not m.is_zero)

abbrev pub carry_of : Bool → ℕ
carry_of true = 1
carry_of false = 0

-- The four bytes from an address on, the lowest first.
abbrev pub word_at : (ℕ → ℕ) → ℕ → ℕ
word_at memory a =
    memory a + 2 ^ 8 * memory (a + 1) + 2 ^ 16 * memory (a + 2) + 2 ^ 24 * memory (a + 3)

-- A load of a word is described for addresses of words.
abbrev pub loaded : Register → ℕ → Machine → Code → Option (Machine × Code)
loaded d a m code = if a % 4 == 0 then some (put d (word_at m.memory a) m, code) else none

abbrev pub half_at : (ℕ → ℕ) → ℕ → ℕ
half_at memory a = memory a + 2 ^ 8 * memory (a + 1)

-- A load of a half word is described for even addresses, and so is a store.
abbrev pub loaded_half : Register → ℕ → Machine → Code → Option (Machine × Code)
loaded_half d a m code = if a % 2 == 0 then some (put d (half_at m.memory a) m, code) else none

abbrev pub write_byte : ℕ → ℕ → (ℕ → ℕ) → ℕ → ℕ
write_byte a v memory x = if x == a then v % 2 ^ 8 else memory x

unfoldable pub write_half : ℕ → ℕ → (ℕ → ℕ) → ℕ → ℕ
write_half a v memory x =
    if x == a then v % 2 ^ 8 else if x == a + 1 then v / 2 ^ 8 % 2 ^ 8 else memory x

unfoldable pub write_word : ℕ → ℕ → (ℕ → ℕ) → ℕ → ℕ
unfolding write_half
write_word a v memory = write_half (a + 2) (v / 2 ^ 16) (write_half a v memory)

abbrev pub stored_half : ℕ → ℕ → Machine → Code → Option (Machine × Code)
stored_half a v m code =
    if a % 2 == 0 then some (record m { memory = write_half a v m.memory }, code) else none

-- Registers are pushed and popped in the order of their numbers, the lowest at the lowest address. The
-- stack pointer is a multiple of 4, and the stack does not wrap around.
abbrev pub is_ascending : List Register → Bool
is_ascending [] = true
is_ascending (r ∷ []) = true
is_ascending (r ∷ s ∷ rs) = ltb (register_number r) (register_number s) && is_ascending (s ∷ rs)

abbrev pub store_words : ℕ → List Register → Machine → Machine
store_words a [] m = m
store_words a (r ∷ rs) m =
    store_words (a + 4) rs (record m { memory = write_word a (m.registers r) m.memory })

abbrev pub load_words : ℕ → List Register → Machine → Machine
load_words a [] m = m
load_words a (r ∷ rs) m = load_words (a + 4) rs (put r (word_at m.memory a) m)

abbrev pub pushed : List Register → Machine → Code → Option (Machine × Code)
pushed rs m code =
    let bottom : ℕ = m.registers Register.sp - 4 * length rs in
    if is_ascending rs
      && (m.registers Register.sp % 4 == 0)
      && leb (4 * length rs) (m.registers Register.sp)
    then some (put Register.sp bottom (store_words bottom rs m), code)
    else none

-- The code at an address.
abbrev pub code_at : Code → ℕ → Code
code_at program n = drop (length program - n) program

-- What follows a pop from an address: if the program counter is among the registers, the code at the
-- address that is popped.
abbrev pub after_pop : Code → (ℕ → ℕ) → ℕ → List Register → Code → Code
after_pop program memory a [] code = code
after_pop program memory a (Register.pc ∷ rs) code = code_at program (word_at memory a)
after_pop program memory a (r ∷ rs) code = after_pop program memory (a + 4) rs code

abbrev pub popped : Code → List Register → Machine → Code → Option (Machine × Code)
popped program rs m code =
    let bottom : ℕ = m.registers Register.sp in
    if is_ascending rs && (bottom % 4 == 0) && ltb (bottom + 4 * length rs) (2 ^ 32)
    then some (
      put Register.sp (bottom + 4 * length rs) (load_words bottom rs m),
      after_pop program m.memory bottom rs code,
    )
    else none

-- The code at a label.
abbrev pub target : Text → Code → Code
target l [] = []
target l (Call.label t ∷ code) = if text_eq t l then code else target l code
target l (c ∷ code) = target l code

-- One instruction, with registers r0 to r7 where the instruction has no others; `none` for calls that
-- are not among the instructions described here, and at the end of the code.
unfoldable pub step : Code → Machine → Code → Option (Machine × Code)
step program m [] = none
step program m (Call.label t ∷ code) = some (m, code)
step program m (Call.mov_imm d n ∷ code) = some (result d n m, code)
step program m (Call.ldr_literal d n ∷ code) = some (put d n m, code)
step program m (Call.ldrb_imm d s n ∷ code) =
    some (put d (m.memory (u32 (m.registers s + n))) m, code)
step program m (Call.ldr d s n ∷ code) = loaded d (u32 (m.registers s + n)) m code
step program m (Call.adc d s ∷ code) =
    some (sum d (m.registers d) (m.registers s + carry_of m.carry) m, code)
step program m (Call.add d s ∷ code) = some (addition d s m, code)
step program m (Call.mov d s ∷ code) = some (move d s m, code)
step program m (Call.add_registers d x y ∷ code) =
    some (sum d (m.registers x) (m.registers y) m, code)
step program m (Call.mul d s ∷ code) = some (
  record (result d (u32 (m.registers d * m.registers s)) m) {
    carry = m.mul_carry (m.registers d) (m.registers s);
  },
  code,
)
step program m (Call.ldrh d s n ∷ code) = loaded_half d (u32 (m.registers s + n)) m code
step program m (Call.strh d s n ∷ code) =
    stored_half (u32 (m.registers s + n)) (m.registers d) m code
step program m (Call.push rs ∷ code) = pushed rs m code
step program m (Call.pop rs ∷ code) = popped program rs m code
step program m (Call.bl l ∷ code) = some (put Register.lr (length code) m, target l program)
step program m (Call.add_imm d n ∷ code) = some (sum d (m.registers d) n m, code)
step program m (Call.sub_imm d n ∷ code) = some (difference d (m.registers d) n m, code)
step program m (Call.sub_registers d x y ∷ code) =
    some (difference d (m.registers x) (m.registers y) m, code)
step program m (Call.cmp x y ∷ code) = some (test (m.registers x) (m.registers y) m, code)
step program m (Call.cmp_imm x n ∷ code) = some (test (m.registers x) n m, code)
step program m (Call.strb_imm d s n ∷ code) =
    some (record m { memory = write_byte (u32 (m.registers s + n)) (m.registers d) m.memory }, code)
step program m (Call.lsl d s n ∷ code) = some (
  record (result d (u32 (m.registers s <<< n)) m) { carry = (m.registers s >>> (32 - n)) % 2 == 1 },
  code,
)
step program m (Call.lsr d s n ∷ code) = some (
  record (result d (m.registers s >>> n) m) { carry = (m.registers s >>> (n - 1)) % 2 == 1 },
  code,
)
step program m (Call.orr d s ∷ code) =
    some (result d (bit_or (m.registers d) (m.registers s)) m, code)
step program m (Call.b l ∷ code) = some (m, target l program)
step program m (Call.b_if c l ∷ code) = some (m, if holds c m then target l program else code)
step program m (_ ∷ code) = none

-- A number of steps.
unfoldable pub run_steps : Code → ℕ → Machine × Code → Option (Machine × Code)
unfolding step
run_steps program zero state = some state
run_steps program (suc n) (m, code) = elim (step program m code) [
  | none ↦ none
  | some state ↦ run_steps program n state
]

pub record Reaches (program : Code) (start end : Machine × Code) : Type 0 where
  pub steps : ℕ
  pub reached : run_steps program steps start ≡ some end
