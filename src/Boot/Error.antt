-- ===== src/Boot/Error.antt =====
-- crates/nova-boot/src/error.rs, with the panic of an index out of range as a value beside the errors.
use nova_vm.Common.{ℕ, ◌+◌, List, Result, ok, err, leb, if◌then◌else◌, length, slice, map_err}
use nova_vm.Common.Bytes.{from_le}
use nova_vm.Mem.Region.{MemError}

-- `BootError`; an `io::Error` inside is not looked at.
pub data BootError : Type 0 where
  io_error : BootError
  invalid_bzimage_magic old_boot_protocol : ℕ → BootError
  invalid_elf_magic : BootError
  not64_bit_elf not_executable_elf : ℕ → BootError
  no_loadable_segments invalid_pvh_note : BootError
  kernel_too_large : ℕ → ℕ → BootError
  initrd_too_large : ℕ → BootError
  cmdline_too_long : ℕ → ℕ → BootError
  memory : MemError → BootError

pub data Fault : Type 0 where
  failed : BootError → Fault
  panicked : Fault

-- `?` on a `MemError`.
abbrev pub from_mem {ℓ} : {A : Type ℓ} → Result MemError A → Result BootError A
from_mem r = map_err memory r

-- `from_le_bytes(image[offset..offset + k])` at a `u64` offset. A range that is out of the image, or
-- whose end wraps around and so comes before its start, panics.
unfoldable pub read_at : List ℕ → ℕ → ℕ → Result Fault ℕ
read_at image offset k =
    if leb (offset + k) (length image) then ok (from_le (slice image offset k)) else err panicked
