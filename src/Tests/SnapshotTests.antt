-- ===== src/Tests/SnapshotTests.antt =====
-- Two regions of memory that are dumped, mapped from the dump and loaded back.
use nova_vm.Common.{
  ℕ, zero, suc, ◌≤◌, ◌<◌, ◌≡◌, refl, ◌⊎◌, true, false, some, List, [], ◌∷◌, ok, err, arith, length,
}
use nova_vm.Mem.Region.{FileMmap, mmap_failed}
use nova_vm.Mem.Memory.{
  GuestRegion, Memory, read_slice, from_file, total_size, num_regions, region_info, locate,
}
use nova_vm.Vmm.Snapshot.{
  too_short, dump_guest_memory, dump_regions, load_guest_memory, memory_regions, file_regions,
  regions_from,
}
use nova_vm.Vmm.Snapshot.Restored.{Disjoint, Refused, restored_memory}
use nova_vm.Vmm.Snapshot.Loaded.{load_guest_memory_ends, loaded_memory}

abbrev at : ℕ → List ℕ → GuestRegion
at base bytes = record { guest_base = base; mmap = record { bytes = bytes; hugetlb = true } }

abbrev saved : Memory
saved = at 16 (1 ∷ 2 ∷ 3 ∷ []) ∷ at 32 (5 ∷ 6 ∷ []) ∷ []

abbrev blank : Memory
blank = at 16 (0 ∷ 0 ∷ 0 ∷ []) ∷ at 32 (0 ∷ 0 ∷ []) ∷ []

saved-Disjoint : Disjoint 0 saved
saved-Disjoint = (omega arith, omega arith, (omega arith, omega arith, tt))

blank-Disjoint : Disjoint 0 blank
blank-Disjoint = (omega arith, omega arith, (omega arith, omega arith, tt))

abbrev short : List ℕ
short = 7 ∷ 8 ∷ []

-- The host maps the first region of the dump only.
abbrev first_only : FileMmap
first_only n zero = true
first_only n (suc offset) = false

table : file_regions 0 (memory_regions saved) ≡ (16, 3, 0) ∷ (32, 2, 3) ∷ []
unfolding file_regions memory_regions regions_from num_regions region_info
table = refl

dumped : dump_guest_memory true (λ bytes. true) saved ≡ ok (1 ∷ 2 ∷ 3 ∷ 5 ∷ 6 ∷ [])
unfolding dump_guest_memory dump_regions read_slice locate
dumped = refl

restored_memory_example :
    (file : List ℕ) × (dump_guest_memory true (λ bytes. true) saved ≡ ok file)
    × (((m : Memory) × (from_file first_only file (file_regions 0 (memory_regions saved)) ≡ ok m)
          × ((a n : ℕ) → read_slice m a n ≡ read_slice saved a n))
        ⊎ ((from_file first_only file (file_regions 0 (memory_regions saved)) ≡ err mmap_failed)
            × Refused first_only (file_regions 0 (memory_regions saved))))
restored_memory_example =
    restored_memory first_only (λ bytes. true) saved (λ bytes. refl) saved-Disjoint

loaded_memory_example :
    (file : List ℕ) × (m : Memory) × (dump_guest_memory true (λ bytes. true) saved ≡ ok file)
    × (load_guest_memory blank (some file) ≡ ok m)
    × ((a n : ℕ) → read_slice m a n ≡ read_slice saved a n)
loaded_memory_example =
    loaded_memory (λ bytes. true) saved blank (λ bytes. refl) saved-Disjoint blank-Disjoint refl

load_guest_memory_ends_example :
    ((m : Memory) × (load_guest_memory blank (some short) ≡ ok m)
      × (total_size blank ≤ length short))
    ⊎ ((b : ℕ) × (load_guest_memory blank (some short) ≡ err (too_short b))
        × (length short < total_size blank))
load_guest_memory_ends_example = load_guest_memory_ends blank short blank-Disjoint
