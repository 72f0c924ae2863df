-- ===== src/Mem/Memory.antt =====
-- crates/nova-mem/src/guest_memory.rs: guest memory as a list of regions. The methods take `&self`
-- and write through the mapping; here a write returns the new memory. A region is far smaller than
-- the address space of the host, so `offset + size` cannot wrap.
use nova_vm.Common.{
  ℕ, Bool, suc, ◌+◌, ◌-◌, Option, none, some, List, [], ◌∷◌, Result, ok, err, ◌>>=◌, leb, ltb, ◌&&◌,
  if◌then◌else◌, length, get_elem?, set, slice, splice, ok_or,
}
use mathlib.Core.Option
use nova_vm.Common.Bytes.{to_le, from_le}
use nova_vm.Mem.Address.{GuestAddress}
use nova_vm.Mem.Region.{
  MemError, out_of_bounds, no_region, MmapRegion, size, Mmap, map_region, FileMmap, map_file,
}

pub record GuestRegion : Type 0 where
  pub guest_base : GuestAddress
  pub mmap : MmapRegion

-- `GuestMemoryMmap`
abbrev pub Memory : Type 0
Memory = List GuestRegion

-- `addr >= guest_base` and the offset inside the region.
abbrev pub holds : GuestRegion → GuestAddress → Bool
holds r addr = leb r.guest_base addr && ltb (addr - r.guest_base) (size r.mmap)

-- The loop of `find_region`, at region `i`: the first region that holds the address, and the offset.
unfoldable pub find_from : ℕ → Memory → GuestAddress → Option (ℕ × ℕ)
find_from i [] addr = none
find_from i (r ∷ rs) addr =
    if holds r addr then some (i, addr - r.guest_base) else find_from (suc i) rs addr

unfoldable pub find_region : Memory → GuestAddress → Result MemError (ℕ × ℕ)
unfolding find_from
find_region m addr = ok_or (find_from 0 m addr) (no_region addr)

-- The region that holds `addr`, its index and the offset, where `n` bytes fit from there on. The
-- index is in range, so the second `ok_or` does not fail (`locate_lem`).
unfoldable pub locate : Memory → GuestAddress → ℕ → Result MemError (ℕ × ℕ × GuestRegion)
unfolding find_region
locate m addr n = do
  (i, offset) ← find_region m addr
  r ← ok_or (get_elem? m i) (no_region addr)
  if ltb (size r.mmap) (offset + n)
      then err (out_of_bounds offset n (size r.mmap))
      else ok (i, offset, r)

abbrev pub with_bytes : GuestRegion → List ℕ → GuestRegion
with_bytes r bs = record r { mmap = record r.mmap { bytes = bs } }

unfoldable pub write_slice : Memory → GuestAddress → List ℕ → Result MemError Memory
write_slice m addr bs = do
  (i, offset, r) ← locate m addr (length bs)
  ok (set m i (with_bytes r (splice r.mmap.bytes offset bs)))

unfoldable pub read_slice : Memory → GuestAddress → ℕ → Result MemError (List ℕ)
read_slice m addr n = do (i, offset, r) ← locate m addr n; ok (slice r.mmap.bytes offset n)

-- `write_obj` and `read_obj` at an unsigned integer of `k` bytes; the host is little-endian.
unfoldable pub write_uint : Memory → GuestAddress → ℕ → ℕ → Result MemError Memory
write_uint m addr k v = write_slice m addr (to_le k v)

unfoldable pub read_uint : Memory → GuestAddress → ℕ → Result MemError ℕ
read_uint m addr k = do bs ← read_slice m addr k; ok (from_le bs)

unfoldable pub num_regions : Memory → ℕ
num_regions m = length m

unfoldable pub total_size : Memory → ℕ
total_size [] = 0
total_size (r ∷ rs) = size r.mmap + total_size rs

unfoldable pub region_info : Memory → ℕ → Option (GuestAddress × ℕ)
region_info m i = Option.map (λ r. (r.guest_base, size r.mmap)) (get_elem? m i)

-- `sort_by_key`, which is stable.
unfoldable pub insert_by_base : GuestRegion → Memory → Memory
insert_by_base r [] = r ∷ []
insert_by_base r (x ∷ xs) =
    if ltb x.guest_base r.guest_base then x ∷ insert_by_base r xs else r ∷ x ∷ xs

unfoldable pub sort_by_base : Memory → Memory
unfolding insert_by_base
sort_by_base [] = []
sort_by_base (r ∷ rs) = insert_by_base r (sort_by_base rs)

module _ (mmap : Mmap) where
  -- The loop of `GuestMemoryMmap::new`.
  unfoldable pub map_all : List (GuestAddress × ℕ) → Bool → Result MemError Memory
  map_all [] hugetlb = ok []
  map_all ((base, n) ∷ rest) hugetlb = do
    r ← map_region mmap n hugetlb
    rs ← map_all rest hugetlb
    ok (record { guest_base = base; mmap = r } ∷ rs)

  -- `GuestMemoryMmap::new`
  unfoldable pub new : List (GuestAddress × ℕ) → Bool → Result MemError Memory
  unfolding map_all
  new regions hugetlb = do rs ← map_all regions hugetlb; ok (sort_by_base rs)

module _ (mmap : FileMmap) (file : List ℕ) where
  -- The loop of `GuestMemoryMmap::from_file`, over base, size and offset in the file.
  unfoldable pub map_files : List (GuestAddress × ℕ × ℕ) → Result MemError Memory
  map_files [] = ok []
  map_files ((base, n, offset) ∷ rest) = do
    r ← map_file mmap file n offset
    rs ← map_files rest
    ok (record { guest_base = base; mmap = r } ∷ rs)

  -- `GuestMemoryMmap::from_file`
  unfoldable pub from_file : List (GuestAddress × ℕ × ℕ) → Result MemError Memory
  unfolding map_files
  from_file regions = do rs ← map_files regions; ok (sort_by_base rs)
