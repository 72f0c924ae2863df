-- ===== src/Tests/MemTests.antt =====
-- Guest memory of two regions.
use nova_vm.Common.{ℕ, ◌≡◌, refl, ◌⊎◌, inr, true, false, List, [], ◌∷◌, ok, err, arith}
use nova_vm.Mem.Address.{GuestAddress}
use nova_vm.Mem.Region.{out_of_bounds, no_region, mmap_failed, Mmap, map_region}
use nova_vm.Mem.Memory.{GuestRegion, Memory, locate, read_slice, write_slice, new, sort_by_base}
use nova_vm.Mem.Access.{read_slice-write_slice_ne}
use nova_vm.Mem.Layout.{Fresh, Refused, new-Fresh}
use nova_vm.Mem.Dirty.{dirty_pages, bit_set}

abbrev region : ℕ → List ℕ → GuestRegion
region base bs = record { guest_base = base; mmap = record { bytes = bs; hugetlb = false } }

abbrev two_regions : Memory
two_regions = region 16 (1 ∷ 2 ∷ 3 ∷ 4 ∷ []) ∷ region 32 (5 ∷ 6 ∷ []) ∷ []

abbrev written : Memory
written = region 16 (1 ∷ 9 ∷ 8 ∷ 4 ∷ []) ∷ region 32 (5 ∷ 6 ∷ []) ∷ []

read_in_second : read_slice two_regions 32 2 ≡ ok (5 ∷ 6 ∷ [])
unfolding read_slice locate
read_in_second = refl

-- A range over the end of its region is refused, with the offset and the sizes.
read_over_end : read_slice two_regions 18 3 ≡ err (out_of_bounds 2 3 4)
unfolding read_slice locate
read_over_end = refl

read_between : read_slice two_regions 20 1 ≡ err (no_region 20)
unfolding read_slice locate
read_between = refl

two_regions-write : write_slice two_regions 17 (9 ∷ 8 ∷ []) ≡ ok written
unfolding write_slice locate
two_regions-write = refl

read_slice-write_slice_ne_example : read_slice written 32 2 ≡ read_slice two_regions 32 2
read_slice-write_slice_ne_example =
    read_slice-write_slice_ne two_regions 17 (9 ∷ 8 ∷ []) written 32 2 two_regions-write
      (inr (omega arith))

abbrev always : Mmap
always n hugetlb = true

abbrev asked : List (GuestAddress × ℕ)
asked = (32, 2) ∷ (16, 4) ∷ []

new_sorted :
    new always asked false ≡ ok (region 16 (0 ∷ 0 ∷ 0 ∷ 0 ∷ []) ∷ region 32 (0 ∷ 0 ∷ []) ∷ [])
unfolding new map_region sort_by_base
new_sorted = refl

new-Fresh_example :
    ((m : Memory) × (new always asked false ≡ ok m) × Fresh asked m)
    ⊎ ((new always asked false ≡ err mmap_failed) × Refused always asked)
new-Fresh_example = new-Fresh always false asked

dirty_run : dirty_pages (0 ∷ 5 ∷ []) ≡ 64 ∷ 66 ∷ []
unfolding dirty_pages bit_set
dirty_run = refl
