-- ===== src/Boot/Pvh.antt =====
-- crates/nova-boot/src/pvh.rs. Both structures are `repr(C)` without gaps between their fields.
use nova_vm.Common.{
  ℕ, ◌+◌, ◌*◌, ◌%◌, ◌^◌, List, [], ◌∷◌, ◌++◌, Result, ok, err, ◌>>=◌, ltb, if◌then◌else◌, length,
  map,
}
use nova_vm.Common.Bytes.{to_le}
use nova_vm.Mem.Memory.{Memory, write_slice}
use nova_vm.Boot.Error.{BootError, invalid_pvh_note, from_mem}
use nova_vm.Boot.Params.{E820Entry}
pub mod Found

pub record HvmStartInfo : Type 0 where
  pub magic : ℕ
  pub version : ℕ
  pub flags : ℕ
  pub nr_modules : ℕ
  pub modlist_paddr : ℕ
  pub cmdline_paddr : ℕ
  pub rsdp_paddr : ℕ
  pub memmap_paddr : ℕ
  pub memmap_entries : ℕ
  pub pad : ℕ

pub record HvmMemmapEntry : Type 0 where
  pub addr : ℕ
  pub size : ℕ
  pub type_ : ℕ
  pub reserved : ℕ

abbrev pub xen_hvm_start_magic : ℕ
xen_hvm_start_magic = 0x336EC578

abbrev pub pvh_start_info_addr : ℕ
pvh_start_info_addr = 0x6000

abbrev pub pvh_memmap_addr : ℕ
pvh_memmap_addr = 0x6100

-- The bytes of the two structures.
unfoldable pub entry_bytes : HvmMemmapEntry → List ℕ
entry_bytes e = to_le 8 e.addr ++ (to_le 8 e.size ++ (to_le 4 e.type_ ++ to_le 4 e.reserved))

unfoldable pub info_bytes : HvmStartInfo → List ℕ
info_bytes i =
    to_le 4 i.magic
    ++ (to_le 4 i.version
        ++ (to_le 4 i.flags
            ++ (to_le 4 i.nr_modules
                ++ (to_le 8 i.modlist_paddr
                    ++ (to_le 8 i.cmdline_paddr
                        ++ (to_le 8 i.rsdp_paddr
                            ++ (to_le 8 i.memmap_paddr
                                ++ (to_le 4 i.memmap_entries ++ to_le 4 i.pad))))))))

abbrev pub memmap_entry : E820Entry → HvmMemmapEntry
memmap_entry e = record { addr = e.addr; size = e.size; type_ = e.type_; reserved = 0 }

unfoldable pub memmap_bytes : List HvmMemmapEntry → List ℕ
memmap_bytes [] = []
memmap_bytes (e ∷ es) = entry_bytes e ++ memmap_bytes es

abbrev pub start_info : ℕ → ℕ → HvmStartInfo
start_info cmdline_addr count = record {
  magic = xen_hvm_start_magic;
  version = 1;
  flags = 0;
  nr_modules = 0;
  modlist_paddr = 0;
  cmdline_paddr = cmdline_addr;
  rsdp_paddr = 0;
  memmap_paddr = pvh_memmap_addr;
  memmap_entries = count % 2 ^ 32;
  pad = 0;
}

-- The address of the start info, for RBX, and the memory.
unfoldable pub setup_pvh_boot : Memory → ℕ → List E820Entry → Result BootError (ℕ × Memory)
setup_pvh_boot m cmdline_addr e820_entries =
    if ltb 128 (length e820_entries) then err invalid_pvh_note else (do
      m' ← from_mem (write_slice m pvh_memmap_addr (memmap_bytes (map memmap_entry e820_entries)))
      m'' ← from_mem (
          write_slice m' pvh_start_info_addr
            (info_bytes (start_info cmdline_addr (length e820_entries))))
      ok (pvh_start_info_addr, m''))
