-- ===== src/Boot/Pvh/Found.antt =====
-- What a kernel entered by the PVH protocol finds: crates/nova-boot/src/pvh.rs.
use nova_vm.Common.{
  ℕ, zero, suc, ◌*◌, ◌%◌, ◌^◌, ◌≤◌, ◌<◌, ◌≡◌, refl, ap, ◌∙◌, inr, List, [], ◌∷◌, ◌++◌, ok, length,
  take, drop, map, arith, length-map, >>=-eq-ok, map_err-eq-ok, ok-injective, guarded-eq-ok, ltb→ge,
}
use nova_vm.Common.Bytes.{from_le, from_le-to_le}
use nova_vm.Mem.Memory.{Memory, write_slice, read_slice}
use nova_vm.Mem.Access.{read_slice-write_slice_self, read_slice-write_slice_ne}
use nova_vm.Boot.Params.{E820Entry}
use nova_vm.Boot.Params.Map.{Fits}
use nova_vm.Boot.Pvh.{
  HvmMemmapEntry, entry_bytes, info_bytes, memmap_bytes, memmap_entry, start_info, setup_pvh_boot,
  pvh_start_info_addr, pvh_memmap_addr, xen_hvm_start_magic,
}

-- The fields of the start info that the kernel reads, at their offsets.
abbrev pub int_at : ℕ → ℕ → List ℕ → ℕ
int_at offset width bs = from_le (take width (drop offset bs))

-- The memory map that the kernel makes of so many entries of 24 bytes.
unfoldable pub decode_memmap : ℕ → List ℕ → List E820Entry
decode_memmap zero bs = []
decode_memmap (suc n) bs =
    record { addr = int_at 0 8 bs; size = int_at 8 8 bs; type_ = int_at 16 4 bs }
    ∷ decode_memmap n (drop 24 bs)

abbrev pub AllFit : List E820Entry → Type 0
AllFit [] = Unit {0}
AllFit (e ∷ es) = Fits e × AllFit es

length-memmap_bytes : (es : List HvmMemmapEntry) → length (memmap_bytes es) ≡ length es * 24
unfolding memmap_bytes entry_bytes
length-memmap_bytes [] = refl
length-memmap_bytes (e ∷ es) = omega (arith, length-memmap_bytes es)

decode_one :
    (e : E820Entry) (bs : List ℕ)
    → Fits e
    → let all = entry_bytes (memmap_entry e) ++ bs in
      (int_at 0 8 all ≡ e.addr)
      × (int_at 8 8 all ≡ e.size)
      × (int_at 16 4 all ≡ e.type_)
      × (drop 24 all ≡ bs)
unfolding entry_bytes
decode_one e bs f = (
  from_le-to_le 8 e.addr f.addr_fits,
  from_le-to_le 8 e.size f.size_fits,
  from_le-to_le 4 e.type_ f.type_fits,
  refl,
)

decode_memmap-memmap_bytes :
    (es : List E820Entry)
    → AllFit es
    → decode_memmap (length es) (memmap_bytes (map memmap_entry es)) ≡ es
unfolding decode_memmap memmap_bytes
decode_memmap-memmap_bytes [] h = refl
decode_memmap-memmap_bytes (e ∷ es) h =
    let (a, b, c, d) = decode_one e (memmap_bytes (map memmap_entry es)) h.0 in
    ground (arith, a, b, c, d, decode_memmap-memmap_bytes es h.1)

-- What is found through the address in RBX.
pub record Found (m : Memory) (rbx cmdline_addr : ℕ) (es : List E820Entry) : Type 0 where
  pub info : List ℕ
  pub info_read : read_slice m rbx 56 ≡ ok info
  pub magic : int_at 0 4 info ≡ xen_hvm_start_magic
  pub version : int_at 4 4 info ≡ 1
  pub no_modules : int_at 12 4 info ≡ 0
  pub cmdline : int_at 24 8 info ≡ cmdline_addr
  pub entries : int_at 48 4 info ≡ length es
  pub memmap : List ℕ
  pub memmap_read : read_slice m (int_at 40 8 info) (int_at 48 4 info * 24) ≡ ok memmap
  pub memmap_decoded : decode_memmap (int_at 48 4 info) memmap ≡ es

-- The fields in the bytes of the start info, for a map of at most 128 entries.
record Info (cmdline_addr count : ℕ) (info : List ℕ) : Type 0 where
  size : length info ≡ 56
  info_magic : int_at 0 4 info ≡ xen_hvm_start_magic
  info_version : int_at 4 4 info ≡ 1
  info_modules : int_at 12 4 info ≡ 0
  info_cmdline : int_at 24 8 info ≡ cmdline_addr
  info_memmap : int_at 40 8 info ≡ pvh_memmap_addr
  info_entries : int_at 48 4 info ≡ count

info_bytes-Info :
    (cmdline_addr count : ℕ)
    → cmdline_addr < 2 ^ 64
    → count ≤ 128
    → Info cmdline_addr count (info_bytes (start_info cmdline_addr count))
unfolding info_bytes
info_bytes-Info cmdline_addr count a b = record {
  size = refl;
  info_magic = refl;
  info_version = refl;
  info_modules = refl;
  info_cmdline = from_le-to_le 8 cmdline_addr a;
  info_memmap = refl;
  info_entries = from_le-to_le 4 (count % 2 ^ 32) (omega arith) ∙ omega arith;
}

Found-from :
    (m m1 m2 : Memory) (cmdline_addr : ℕ) (es : List E820Entry)
    → length es ≤ 128
    → cmdline_addr < 2 ^ 64
    → AllFit es
    → write_slice m pvh_memmap_addr (memmap_bytes (map memmap_entry es)) ≡ ok m1
    → write_slice m1 pvh_start_info_addr (info_bytes (start_info cmdline_addr (length es))) ≡ ok m2
    → Found m2 pvh_start_info_addr cmdline_addr es
Found-from m m1 m2 cmdline_addr es few fits all map_written info_written =
    let info = info_bytes (start_info cmdline_addr (length es)) in
    let i = info_bytes-Info cmdline_addr (length es) fits few in
    let bytes = memmap_bytes (map memmap_entry es) in
    let size : length bytes ≡ length es * 24 =
      length-memmap_bytes (map memmap_entry es) ∙ ap (λ n. n * 24) (length-map es memmap_entry) in
    record {
      info = info;
      info_read =
          rw i.size at (read_slice-write_slice_self m1 pvh_start_info_addr info m2 info_written);
      magic = i.info_magic;
      version = i.info_version;
      no_modules = i.info_modules;
      cmdline = i.info_cmdline;
      entries = i.info_entries;
      memmap = bytes;
      memmap_read =
          rw (i.info_memmap, i.info_entries)
            (read_slice-write_slice_ne m1 pvh_start_info_addr info m2 pvh_memmap_addr
                (length es * 24) info_written (inr (omega (arith, i.size)))
              ∙ rw size at (read_slice-write_slice_self m pvh_memmap_addr bytes m1 map_written));
      memmap_decoded = rw i.info_entries (decode_memmap-memmap_bytes es all);
    }

-- After a successful `setup_pvh_boot`, which takes at most 128 entries, the kernel finds the start info at
-- the address returned: with the magic number, version 1, no modules and the command line's address, and
-- behind its pointer a memory map that is the given one, entry for entry.
pub setup_pvh_boot-Found :
    (m m' : Memory) (cmdline_addr rbx : ℕ) (es : List E820Entry)
    → setup_pvh_boot m cmdline_addr es ≡ ok (rbx, m')
    → cmdline_addr < 2 ^ 64
    → AllFit es
    → (length es ≤ 128) × Found m' rbx cmdline_addr es
unfolding setup_pvh_boot
setup_pvh_boot-Found m m' cmdline_addr rbx es h fits all =
    let (few, h0) = guarded-eq-ok _ _ _ h in
    let (m1, map_, h1) = >>=-eq-ok _ _ h0 in
    let (m2, info_, h2) = >>=-eq-ok _ _ h1 in
    let built = ok-injective h2 in
    let found =
      Found-from m m1 m2 cmdline_addr es (ltb→ge 128 (length es) few) fits all
        (map_err-eq-ok _ _ map_) (map_err-eq-ok _ _ info_) in
    (
      ltb→ge 128 (length es) few,
      rw (← ap (λ (x : ℕ × Memory). x.0) built, ← ap (λ (x : ℕ × Memory). x.1) built) found,
    )
