-- ===== src/Tests/LongModeTests.antt =====
-- The set-up of a CPU for the 64-bit entry.
use nova_vm.Common.{◌≡◌, refl, [], ◌∷◌, ok, replicate, arith}
use nova_vm.Mem.Memory.{Memory, locate, write_slice, write_uint}
use nova_vm.Boot.LongMode.{
  KvmSegment, KvmSregs, KvmRegs, setup_gdt, write_gdt, setup_long_mode_page_tables, write_pd,
  pd_entry, table_entry, configure_64bit_regs, configure_64bit_sregs,
}
use nova_vm.Boot.LongMode.Entry.{Entered, long_mode_entry}
use nova_vm.Tests.BootTests.{region, value}

-- The tables, each in a region of its own.
abbrev table_memory : Memory
table_memory =
    region 0x500 (replicate 24 7)
    ∷ region 0x9000 (replicate 8 7)
    ∷ region 0xA000 (replicate 8 7)
    ∷ region 0xB000 (replicate 4096 7)
    ∷ []

with_gdt : Memory
with_gdt = value [] (setup_gdt table_memory)

with_tables : Memory
with_tables = value [] (setup_long_mode_page_tables with_gdt)

gdt_run : setup_gdt table_memory ≡ ok with_gdt
unfolding with_gdt setup_gdt write_gdt write_uint write_slice locate
gdt_run = refl

tables_run : setup_long_mode_page_tables with_gdt ≡ ok with_tables
unfolding with_tables with_gdt setup_gdt write_gdt setup_long_mode_page_tables write_pd pd_entry
    table_entry write_uint write_slice locate
tables_run = refl

abbrev segment : KvmSegment
segment = record {
  base = 0;
  limit = 0;
  selector = 0;
  type_ = 0;
  present = 0;
  dpl = 0;
  db = 0;
  s = 0;
  l = 0;
  g = 0;
  avl = 0;
  unusable = 0;
  padding = 0;
}

abbrev reset_sregs : KvmSregs
reset_sregs = record {
  cs = segment;
  ds = segment;
  es = segment;
  fs = segment;
  gs = segment;
  ss = segment;
  tr = segment;
  ldt = segment;
  gdt = record { base = 0; limit = 0; padding = [] };
  idt = record { base = 0; limit = 0; padding = [] };
  cr0 = 0;
  cr2 = 0;
  cr3 = 0;
  cr4 = 0;
  cr8 = 0;
  efer = 0;
  apic_base = 0;
  interrupt_bitmap = [];
}

abbrev reset_regs : KvmRegs
reset_regs = record {
  rax = 0;
  rbx = 0;
  rcx = 0;
  rdx = 0;
  rsi = 0;
  rdi = 0;
  rsp = 0;
  rbp = 0;
  r8 = 0;
  r9 = 0;
  r10 = 0;
  r11 = 0;
  r12 = 0;
  r13 = 0;
  r14 = 0;
  r15 = 0;
  rip = 0;
  rflags = 0;
}

long_mode_entry_example :
    Entered with_tables
      (configure_64bit_sregs reset_sregs)
      (configure_64bit_regs 0x1000000 reset_regs)
      0x1000000
long_mode_entry_example =
    long_mode_entry table_memory with_gdt with_tables reset_sregs reset_regs 0x1000000 gdt_run
      tables_run (omega arith)
