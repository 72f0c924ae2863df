-- ===== src/Boot/LongMode.antt =====
-- crates/nova-boot/src/cpu_setup.rs: the page tables, the descriptor table and the registers with which
-- the kernel is entered in 64-bit mode; the registers are those of crates/nova-kvm/src/kvm_bindings.rs.
use Prim.Native.Nat.{bit_or}
use nova_vm.Common.{ℕ, zero, suc, ◌+◌, ◌-◌, ◌*◌, List, [], ◌∷◌, Result, ok, ◌>>=◌}
use nova_vm.Mem.Memory.{Memory, write_uint}
use nova_vm.Boot.Error.{BootError, from_mem}
pub mod Identity
pub mod Entry

abbrev pub page_table_addr : ℕ
page_table_addr = 0x9000

abbrev pub pdpt_addr : ℕ
pdpt_addr = 0xA000

abbrev pub pd_addr : ℕ
pd_addr = 0xB000

abbrev pub gdt_addr : ℕ
gdt_addr = 0x500

abbrev pub boot_stack_addr : ℕ
boot_stack_addr = 0x8000

abbrev pte_present : ℕ
pte_present = 1

abbrev pte_writable : ℕ
pte_writable = 2

abbrev pte_ps : ℕ
pte_ps = 128

-- An entry that points to the table below.
unfoldable pub table_entry : ℕ → ℕ
table_entry addr = bit_or (bit_or addr pte_present) pte_writable

unfoldable pub pd_entry : ℕ → ℕ
pd_entry i = bit_or (bit_or (bit_or (i * 0x200000) pte_present) pte_writable) pte_ps

-- The loop over the page directory, from entry `i` on.
unfoldable pub write_pd : ℕ → ℕ → Memory → Result BootError Memory
write_pd zero i m = ok m
write_pd (suc n) i m =
    from_mem (write_uint m (pd_addr + i * 8) 8 (pd_entry i)) >>= λ m'. write_pd n (suc i) m'

unfoldable pub setup_long_mode_page_tables : Memory → Result BootError Memory
setup_long_mode_page_tables m = do
  m' ← from_mem (write_uint m page_table_addr 8 (table_entry pdpt_addr))
  m'' ← from_mem (write_uint m' pdpt_addr 8 (table_entry pd_addr))
  write_pd 512 0 m''

abbrev pub gdt_entries : List ℕ
gdt_entries = 0 ∷ 0x00AF9A000000FFFF ∷ 0x00CF92000000FFFF ∷ []

unfoldable pub write_gdt : List ℕ → ℕ → Memory → Result BootError Memory
write_gdt [] i m = ok m
write_gdt (e ∷ es) i m =
    from_mem (write_uint m (gdt_addr + i * 8) 8 e) >>= λ m'. write_gdt es (suc i) m'

unfoldable pub setup_gdt : Memory → Result BootError Memory
setup_gdt m = write_gdt gdt_entries 0 m

-- `KvmSegment`
pub record KvmSegment : Type 0 where
  pub base : ℕ
  pub limit : ℕ
  pub selector : ℕ
  pub type_ : ℕ
  pub present : ℕ
  pub dpl : ℕ
  pub db : ℕ
  pub s : ℕ
  pub l : ℕ
  pub g : ℕ
  pub avl : ℕ
  pub unusable : ℕ
  pub padding : ℕ

-- `KvmDtable`
pub record KvmDtable : Type 0 where
  pub base : ℕ
  pub limit : ℕ
  pub padding : List ℕ

-- `KvmSregs`
pub record KvmSregs : Type 0 where
  pub cs : KvmSegment
  pub ds : KvmSegment
  pub es : KvmSegment
  pub fs : KvmSegment
  pub gs : KvmSegment
  pub ss : KvmSegment
  pub tr : KvmSegment
  pub ldt : KvmSegment
  pub gdt : KvmDtable
  pub idt : KvmDtable
  pub cr0 : ℕ
  pub cr2 : ℕ
  pub cr3 : ℕ
  pub cr4 : ℕ
  pub cr8 : ℕ
  pub efer : ℕ
  pub apic_base : ℕ
  pub interrupt_bitmap : List ℕ

abbrev code_seg : KvmSegment
code_seg = record {
  base = 0;
  limit = 0xFFFFFFFF;
  selector = 0x08;
  type_ = 11;
  present = 1;
  dpl = 0;
  db = 0;
  s = 1;
  l = 1;
  g = 1;
  avl = 0;
  unusable = 0;
  padding = 0;
}

abbrev data_seg : KvmSegment
data_seg = record {
  base = 0;
  limit = 0xFFFFFFFF;
  selector = 0x10;
  type_ = 3;
  present = 1;
  dpl = 0;
  db = 1;
  s = 1;
  l = 0;
  g = 1;
  avl = 0;
  unusable = 0;
  padding = 0;
}

unfoldable pub configure_64bit_sregs : KvmSregs → KvmSregs
configure_64bit_sregs r = record r {
  cr0 = bit_or 1 0x80000000;
  cr3 = page_table_addr;
  cr4 = 32;
  efer = bit_or (bit_or 256 1024) 1;
  gdt = record r.gdt { base = gdt_addr; limit = 3 * 8 - 1 };
  cs = code_seg;
  ds = data_seg;
  es = data_seg;
  ss = data_seg;
  fs = data_seg;
  gs = data_seg;
}

-- `KvmRegs`
pub record KvmRegs : Type 0 where
  pub rax : ℕ
  pub rbx : ℕ
  pub rcx : ℕ
  pub rdx : ℕ
  pub rsi : ℕ
  pub rdi : ℕ
  pub rsp : ℕ
  pub rbp : ℕ
  pub r8 : ℕ
  pub r9 : ℕ
  pub r10 : ℕ
  pub r11 : ℕ
  pub r12 : ℕ
  pub r13 : ℕ
  pub r14 : ℕ
  pub r15 : ℕ
  pub rip : ℕ
  pub rflags : ℕ

unfoldable pub configure_64bit_regs : ℕ → KvmRegs → KvmRegs
configure_64bit_regs entry r = record r { rip = entry; rsp = boot_stack_addr; rflags = 2 }
