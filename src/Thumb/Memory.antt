-- ===== src/Thumb/Memory.antt =====
-- Reading memory that has been written to.
use shrinkler_gba.Thumb.{word_at, half_at, write_half, write_word, Machine, store_words, write_byte}
use shrinkler_gba.Base.{
  ℕ, ◌+◌, ◌<◌, ◌≡◌, ◌≤◌, arith, ◌%◌, ◌/◌, ◌^◌, ◌∙◌, ap, sym, List, All, ◌*◌, ◌∷◌, [], length, refl,
  suc, ◌≢◌,
}
use shrinkler_gba.Assembler.{Register}

pub write_byte-here : (a v : ℕ) (memory : ℕ → ℕ) → write_byte a v memory a ≡ v % 2 ^ 8
write_byte-here a v memory = ground arith

pub write_byte-elsewhere : (a v x : ℕ) (memory : ℕ → ℕ) → x ≢ a → write_byte a v memory x ≡ memory x
write_byte-elsewhere a v x memory other = ground arith

pub write_half-below : (a v x : ℕ) (memory : ℕ → ℕ) → x < a → write_half a v memory x ≡ memory x
unfolding write_half
write_half-below a v x memory h = ground arith

pub write_half-above : (a v x : ℕ) (memory : ℕ → ℕ) → a + 2 ≤ x → write_half a v memory x ≡ memory x
unfolding write_half
write_half-above a v x memory h = ground arith

write_half-first : (a v : ℕ) (memory : ℕ → ℕ) → write_half a v memory a ≡ v % 2 ^ 8
unfolding write_half
write_half-first a v memory = ground arith

write_half-second : (a v : ℕ) (memory : ℕ → ℕ) → write_half a v memory (a + 1) ≡ v / 2 ^ 8 % 2 ^ 8
unfolding write_half
write_half-second a v memory = ground arith

pub half_at-write_half :
    (a v : ℕ) (memory : ℕ → ℕ) → v < 2 ^ 16 → half_at (write_half a v memory) a ≡ v
half_at-write_half a v memory h =
    omega (arith, write_half-first a v memory, write_half-second a v memory)

pub write_word-below : (a v x : ℕ) (memory : ℕ → ℕ) → x < a → write_word a v memory x ≡ memory x
unfolding write_word
write_word-below a v x memory h =
    write_half-below (a + 2) (v / 2 ^ 16) x (write_half a v memory) (omega arith)
    ∙ write_half-below a v x memory h

pub write_word-above : (a v x : ℕ) (memory : ℕ → ℕ) → a + 4 ≤ x → write_word a v memory x ≡ memory x
unfolding write_word
write_word-above a v x memory h =
    write_half-above (a + 2) (v / 2 ^ 16) x (write_half a v memory) (omega arith)
    ∙ write_half-above a v x memory (omega arith)

pub word_at-write_word :
    (a v : ℕ) (memory : ℕ → ℕ) → v < 2 ^ 32 → word_at (write_word a v memory) a ≡ v
unfolding write_word
word_at-write_word a v memory h =
    let low = write_half a v memory in
    let high = v / 2 ^ 16 in
    let next : a + 2 + 1 ≡ a + 3 = omega arith in
    let byte0 : write_word a v memory a ≡ v % 2 ^ 8 =
      write_half-below (a + 2) high a low (omega arith) ∙ write_half-first a v memory in
    let byte1 : write_word a v memory (a + 1) ≡ v / 2 ^ 8 % 2 ^ 8 =
      write_half-below (a + 2) high (a + 1) low (omega arith) ∙ write_half-second a v memory in
    let byte2 : write_word a v memory (a + 2) ≡ high % 2 ^ 8 = write_half-first (a + 2) high low in
    let byte3 : write_word a v memory (a + 3) ≡ high / 2 ^ 8 % 2 ^ 8 =
      ap (write_word a v memory) (sym next) ∙ write_half-second (a + 2) high low in
    omega (arith, byte0, byte1, byte2, byte3)

-- What two memories that agree on an interval have there.
abbrev pub AgreeFrom : ℕ → ℕ → (ℕ → ℕ) → (ℕ → ℕ) → Type 0
AgreeFrom a b memory memory' = (x : ℕ) → a ≤ x → x < b → memory' x ≡ memory x

pub word_at-AgreeFrom :
    (a b c : ℕ) (memory memory' : ℕ → ℕ)
    → AgreeFrom a b memory memory'
    → a ≤ c
    → c + 4 ≤ b
    → word_at memory' c ≡ word_at memory c
word_at-AgreeFrom a b c memory memory' h low high = omega (
  arith,
  h c low (omega arith),
  h (c + 1) (omega arith) (omega arith),
  h (c + 2) (omega arith) (omega arith),
  h (c + 3) (omega arith) (omega arith),
)

pub half_at-AgreeFrom :
    (a b c : ℕ) (memory memory' : ℕ → ℕ)
    → AgreeFrom a b memory memory'
    → a ≤ c
    → c + 2 ≤ b
    → half_at memory' c ≡ half_at memory c
half_at-AgreeFrom a b c memory memory' h low high =
    omega (arith, h c low (omega arith), h (c + 1) (omega arith) (omega arith))

-- The registers of a list have been stored from an address on.
abbrev pub HasFrame : (ℕ → ℕ) → ℕ → List Register → (Register → ℕ) → Type 0
HasFrame memory a [] registers = Unit
HasFrame memory a (r ∷ rs) registers =
    (word_at memory a ≡ registers r) × HasFrame memory (a + 4) rs registers

abbrev pub AreWords : List Register → (Register → ℕ) → Type 0
AreWords rs registers = All (λ (r : Register). registers r < 2 ^ 32) rs

pub store_words-below :
    (a x : ℕ) (rs : List Register) (m : Machine)
    → x < a
    → (store_words a rs m).memory x ≡ m.memory x
store_words-below a x [] m h = refl
store_words-below a x (r ∷ rs) m h =
    store_words-below (a + 4) x rs _ (omega arith) ∙ write_word-below a (m.registers r) x m.memory h

pub store_words-above :
    (a x : ℕ) (rs : List Register) (m : Machine)
    → a + 4 * length rs ≤ x
    → (store_words a rs m).memory x ≡ m.memory x
store_words-above a x [] m h = refl
store_words-above a x (r ∷ rs) m h =
    store_words-above (a + 4) x rs _ (omega arith)
    ∙ write_word-above a (m.registers r) x m.memory (omega arith)

pub store_words-HasFrame :
    (a : ℕ) (rs : List Register) (m : Machine)
    → AreWords rs m.registers
    → HasFrame (store_words a rs m).memory a rs m.registers
store_words-HasFrame a [] m words = tt
store_words-HasFrame a (r ∷ rs) m (word, words) =
    let m1 : Machine = record m { memory = write_word a (m.registers r) m.memory } in
    (
      word_at-AgreeFrom a (a + 4) a m1.memory (store_words (a + 4) rs m1).memory
            (λ x low high. store_words-below (a + 4) x rs m1 high) (omega arith) (omega arith)
          ∙ word_at-write_word a (m.registers r) m.memory word,
      store_words-HasFrame (a + 4) rs m1 words,
    )

pub store_words-registers :
    (a : ℕ) (rs : List Register) (m : Machine) → (store_words a rs m).registers ≡ m.registers
store_words-registers a [] m = refl
store_words-registers a (r ∷ rs) m = store_words-registers (a + 4) rs _

pub HasFrame-AgreeFrom :
    (a : ℕ) (rs : List Register) (registers : Register → ℕ) (memory memory' : ℕ → ℕ)
    → AgreeFrom a (a + 4 * length rs) memory memory'
    → HasFrame memory a rs registers
    → HasFrame memory' a rs registers
HasFrame-AgreeFrom a [] registers memory memory' agree frame = tt
HasFrame-AgreeFrom a (r ∷ rs) registers memory memory' agree (word, frame) = (
  word_at-AgreeFrom a (a + 4 * suc (length rs)) a memory memory' agree (omega arith) (omega arith)
      ∙ word,
  HasFrame-AgreeFrom (a + 4) rs registers memory memory'
      (λ x low high. agree x (omega arith) (omega arith)) frame,
)
