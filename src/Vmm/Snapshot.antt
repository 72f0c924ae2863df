-- ===== src/Vmm/Snapshot.antt =====
-- crates/nova-vmm/src/snapshot.rs: the memory dump, the region table and the saved queues. What KVM
-- keeps (registers, clock, interrupt chips) passes through unchanged and is outside the model.
pub mod Restored
pub mod Loaded
use nova_vm.Common.{
  ℕ, zero, suc, ◌+◌, Bool, Option, none, some, List, [], ◌∷◌, ◌++◌, map, Result, ok, err, ◌>>=◌,
  map_err, ltb, if◌then◌else◌, length, take, drop, ok_or,
}
use nova_vm.Mem.Address.{GuestAddress}
use nova_vm.Mem.Region.{MemError, size}
use nova_vm.Mem.Memory.{Memory, read_slice, write_slice, num_regions, region_info}
use nova_vm.Virtio.Queue.{Queue}
use nova_vm.Virtio.Trait.{VirtioDevice}
use nova_vm.Vmm.Bus.{MmioBus, snapshot_virtio_queues, force_activate_device}

-- The errors, by their contexts: creating, writing and opening the dump, a read of the dump that finds
-- too few bytes for the region, and an access of guest memory, both with the region's base.
pub data SnapshotError : Type 0 where
  create_failed write_failed open_failed : SnapshotError
  too_short : GuestAddress → SnapshotError
  region_failed : GuestAddress → MemError → SnapshotError

-- The loop of `dump_guest_memory` over the regions of `mem`; `writes` says whether the file takes the
-- bytes. The result is what the file gets.
unfoldable pub dump_regions : (List ℕ → Bool) → Memory → Memory → Result SnapshotError (List ℕ)
dump_regions writes mem [] = ok []
dump_regions writes mem (r ∷ rs) = do
  buf ← map_err (region_failed r.guest_base) (read_slice mem r.guest_base (size r.mmap))
  if writes buf then (do rest ← dump_regions writes mem rs; ok (buf ++ rest)) else err write_failed

-- `dump_guest_memory`; `created` says whether the file could be created.
unfoldable pub dump_guest_memory : Bool → (List ℕ → Bool) → Memory → Result SnapshotError (List ℕ)
dump_guest_memory created writes mem =
    if created then dump_regions writes mem mem else err create_failed

-- The loop of `load_guest_memory` over the regions, with what is left of the file.
unfoldable pub load_regions : Memory → Memory → List ℕ → Result SnapshotError Memory
load_regions [] mem file = ok mem
load_regions (r ∷ rs) mem file =
    if ltb (length file) (size r.mmap) then err (too_short r.guest_base) else (do
      mem' ←
          map_err (region_failed r.guest_base)
            (write_slice mem r.guest_base (take (size r.mmap) file))
      load_regions rs mem' (drop (size r.mmap) file))

-- `load_guest_memory`, of a file that may fail to open.
unfoldable pub load_guest_memory : Memory → Option (List ℕ) → Result SnapshotError Memory
load_guest_memory mem file = do bytes ← ok_or file open_failed; load_regions mem mem bytes

-- `for i in 0..num_regions()` of `save_snapshot`, from index `i` on
unfoldable pub regions_from : Memory → ℕ → ℕ → List (ℕ × ℕ)
regions_from mem i zero = []
regions_from mem i (suc left) =
    let rest = regions_from mem (suc i) left in
    elim (region_info mem i) [ none ↦ rest | some info ↦ info ∷ rest ]

-- `memory_regions` of the snapshot
unfoldable pub memory_regions : Memory → List (ℕ × ℕ)
memory_regions mem = regions_from mem 0 (num_regions mem)

-- `file_regions` of `restore_snapshot`: the offsets accumulate.
unfoldable pub file_regions : ℕ → List (ℕ × ℕ) → List (GuestAddress × ℕ × ℕ)
file_regions file_offset [] = []
file_regions file_offset ((addr, n) ∷ rest) =
    (addr, n, file_offset) ∷ file_regions (file_offset + n) rest
