-- ===== src/Utility/Signed.antt =====
-- src/shrinkler_gba/utility.cppm: `to_signed`, with which literals are passed to the assembler.
use shrinkler_gba.Base.{ℕ, ltb, if◌then◌else◌, ◌^◌, ◌-◌}

-- `negsuc n` is -(n + 1).
pub data ℤ : Type 0 where
  pos : ℕ → ℤ
  negsuc : ℕ → ℤ

-- The conversion of a `uint32_t`.
unfoldable pub to_signed : ℕ → ℤ
to_signed u = if ltb u (2 ^ 31) then pos u else negsuc (2 ^ 32 - 1 - u)
