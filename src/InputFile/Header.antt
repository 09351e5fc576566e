-- ===== src/InputFile/Header.antt =====
-- `check_header`: which ELF files are accepted.
use shrinkler_gba.Elf
use shrinkler_gba.Elf.{Elfio}
use shrinkler_gba.InputFile.{check_header}
use shrinkler_gba.Base.{◌≡◌, ok, ◌↔◌, arith}

-- A 32-bit little endian ARM executable, in version 1 of the format, for no particular OS ABI.
pub record IsArmExecutable (e : Elfio) : Type 0 where
  pub class : e.class ≡ Elf.elfclass32
  pub encoding : e.encoding ≡ Elf.elfdata2lsb
  pub file_type : e.file_type ≡ Elf.et_exec
  pub machine : e.machine ≡ Elf.em_arm
  pub elf_version : e.elf_version ≡ 1
  pub os_abi : e.os_abi ≡ Elf.elfosabi_none
  pub abi_version : e.abi_version ≡ 0
  pub version : e.version ≡ 1

-- The checks pass exactly on 32-bit little endian ARM executables, in version 1 of the format, for no
-- particular OS ABI and in version 0 of it.
pub check_header_iff : (e : Elfio) → (check_header e ≡ ok tt) ↔ IsArmExecutable e
unfolding check_header
check_header_iff e = (λ h. ground arith, λ i. ground arith)
