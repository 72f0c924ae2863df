-- ===== src/Boot/LongMode/Entry.antt =====
-- The registers of crates/nova-boot/src/cpu_setup.rs against the tables that it writes: the segment
-- registers hold what their selectors name in the descriptor table, and the mode is the 64-bit one.
use nova_vm.Common.{
  ℕ, suc, ◌+◌, ◌*◌, ◌/◌, ◌%◌, ◌^◌, ◌≤◌, ◌<◌, ◌≡◌, refl, sym, ap, ◌∙◌, inl, List, [], ◌∷◌, ok,
  if◌then◌else◌, ◌==◌, arith, >>=-eq-ok, map_err-eq-ok, ok-injective, some,
}
use nova_vm.Mem.Memory.{Memory, write_uint, read_uint}
use nova_vm.Mem.Access.{read_uint-write_uint, read_uint-write_uint_ne}
use nova_vm.Boot.LongMode.{
  gdt_addr, boot_stack_addr, write_gdt, setup_gdt, KvmSegment, KvmSregs, KvmRegs,
  configure_64bit_sregs, configure_64bit_regs, setup_long_mode_page_tables,
}
use nova_vm.Boot.LongMode.Identity.{translate, translate-identity, page_tables-below}

-- The fields of a segment descriptor, by the processor's layout of its 64 bits. With the granularity bit
-- the limit counts pages.
abbrev field : ℕ → ℕ → ℕ → ℕ
field d low width = d / 2 ^ low % 2 ^ width

abbrev descriptor_limit : ℕ → ℕ
descriptor_limit d =
    let pages = field d 0 16 + field d 48 4 * 2 ^ 16 in
    if field d 55 1 == 1 then pages * 4096 + 4095 else pages

-- A segment register holds the descriptor: all its fields, the type up to the accessed bit, which the
-- processor sets on loading.
pub record Holds (seg : KvmSegment) (d : ℕ) : Type 0 where
  pub base : seg.base ≡ field d 16 24 + field d 56 8 * 2 ^ 24
  pub limit : seg.limit ≡ descriptor_limit d
  pub type_ : seg.type_ ≡ field d 40 4 + 1
  pub s : seg.s ≡ field d 44 1
  pub dpl : seg.dpl ≡ field d 45 2
  pub present : seg.present ≡ field d 47 1
  pub avl : seg.avl ≡ field d 52 1
  pub l : seg.l ≡ field d 53 1
  pub db : seg.db ≡ field d 54 1
  pub g : seg.g ≡ field d 55 1

-- The descriptor that a selector names: within the limit of the table, in memory at its base.
abbrev pub Selected : Memory → KvmSregs → KvmSegment → Type 0
Selected m r seg =
    (d : ℕ) × (seg.selector + 7 ≤ r.gdt.limit)
    × (read_uint m (r.gdt.base + seg.selector) 8 ≡ ok d)
    × Holds seg d

write_gdt-others :
    (es : List ℕ) (i : ℕ) (m m' : Memory) (b : ℕ)
    → write_gdt es i m ≡ ok m'
    → b + 8 ≤ gdt_addr + i * 8
    → read_uint m' b 8 ≡ read_uint m b 8
unfolding write_gdt
write_gdt-others [] i m m' b h below = ap (λ x. read_uint x b 8) (sym (ok-injective h))
write_gdt-others (e ∷ es) i m m' b h below =
    let (m1, first, rest) = >>=-eq-ok _ _ h in
    write_gdt-others es (suc i) m1 m' b rest (omega arith)
    ∙ read_uint-write_uint_ne m (gdt_addr + i * 8) 8 e m1 b 8 (map_err-eq-ok _ _ first) (inl below)

write_gdt-step :
    (e : ℕ) (es : List ℕ) (i : ℕ) (m m' : Memory)
    → write_gdt (e ∷ es) i m ≡ ok m'
    → (m1 : Memory) × (write_uint m (gdt_addr + i * 8) 8 e ≡ ok m1)
      × (write_gdt es (suc i) m1 ≡ ok m')
unfolding write_gdt
write_gdt-step e es i m m' h =
    let (m1, first, rest) = >>=-eq-ok _ _ h in (m1, map_err-eq-ok _ _ first, rest)

-- The two descriptors behind the null one, in memory.
setup_gdt-read :
    (m m' : Memory)
    → setup_gdt m ≡ ok m'
    → (read_uint m' 0x508 8 ≡ ok 0x00AF9A000000FFFF)
      × (read_uint m' 0x510 8 ≡ ok 0x00CF92000000FFFF)
unfolding setup_gdt
setup_gdt-read m m' h =
    let (m1, null, h1) = write_gdt-step 0 _ 0 m m' h in
    let (m2, code, h2) = write_gdt-step _ _ 1 m1 m' h1 in
    let (m3, data_, h3) = write_gdt-step _ _ 2 m2 m' h2 in
    (
      write_gdt-others _ 2 m2 m' 0x508 h2 (omega arith)
          ∙ read_uint-write_uint m1 0x508 8 _ m2 (omega arith) code,
      write_gdt-others [] 3 m3 m' 0x510 h3 (omega arith)
          ∙ read_uint-write_uint m2 0x510 8 _ m3 (omega arith) data_,
    )

abbrev bit : ℕ → ℕ → ℕ
bit k n = n / 2 ^ k % 2

-- The state in which the kernel is entered.
pub record Entered (m : Memory) (r : KvmSregs) (regs : KvmRegs) (entry : ℕ) : Type 0 where
  pub cs_selected : Selected m r r.cs
  pub ds_selected : Selected m r r.ds
  pub ss_selected : Selected m r r.ss
  pub protection : bit 0 r.cr0 ≡ 1
  pub paging : bit 31 r.cr0 ≡ 1
  pub physical_extension : bit 5 r.cr4 ≡ 1
  pub long_mode : bit 8 r.efer ≡ 1
  pub long_mode_active : bit 10 r.efer ≡ 1
  pub long_code : r.cs.l ≡ 1
  pub rip_mapped : translate m r.cr3 regs.rip ≡ some entry
  pub stack_mapped : translate m r.cr3 regs.rsp ≡ some boot_stack_addr

-- Once the two tables are written and the registers configured, the code, data and stack segment registers
-- hold what their selectors name in the descriptor table; protection, paging, physical address extension
-- and long mode are on, with a 64-bit code segment; and through CR3 the instruction pointer is the
-- entry point, if that lies below 1 GiB, and the stack pointer the boot stack.
pub long_mode_entry :
    (m m1 m2 : Memory) (r : KvmSregs) (regs : KvmRegs) (entry : ℕ)
    → setup_gdt m ≡ ok m1
    → setup_long_mode_page_tables m1 ≡ ok m2
    → entry < 2 ^ 30
    → Entered m2 (configure_64bit_sregs r) (configure_64bit_regs entry regs) entry
unfolding configure_64bit_sregs configure_64bit_regs
long_mode_entry m m1 m2 r regs entry g t below =
    let (code, data_) = setup_gdt-read m m1 g in
    let code' = page_tables-below m1 m2 0x508 8 t (omega arith) ∙ code in
    let data' = page_tables-below m1 m2 0x510 8 t (omega arith) ∙ data_ in
    record {
      cs_selected = (0x00AF9A000000FFFF, omega arith, code', omega arith);
      ds_selected = (0x00CF92000000FFFF, omega arith, data', omega arith);
      ss_selected = (0x00CF92000000FFFF, omega arith, data', omega arith);
      protection = refl;
      paging = refl;
      physical_extension = refl;
      long_mode = refl;
      long_mode_active = refl;
      long_code = refl;
      rip_mapped = translate-identity m1 m2 entry t below;
      stack_mapped = translate-identity m1 m2 boot_stack_addr t (omega arith);
    }
