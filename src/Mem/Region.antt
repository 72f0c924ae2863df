-- ===== src/Mem/Region.antt =====
-- crates/nova-mem/src/mmap.rs and error.rs: one mapping of host memory, seen as its bytes. The host
-- address, `madvise` and `munmap` on drop are outside the model.
use nova_vm.Common.{
  ℕ, Bool, true, false, List, Result, ok, err, length, replicate, take, drop, ◌++◌, ◌≡◌, refl, ◌&&◌,
  if◌then◌else◌, ◌⊎◌, inl, inr, Bool-cases,
}

-- `MemError`; an `io::Error` or `KvmError` inside is not looked at.
pub data MemError : Type 0 where
  mmap_failed munmap_failed dirty_log_failed : MemError
  out_of_bounds : ℕ → ℕ → ℕ → MemError
  no_region : ℕ → MemError
  overflow : ℕ → ℕ → MemError

-- `MmapRegion`. Its size is the length of its bytes.
pub record MmapRegion : Type 0 where
  pub bytes : List ℕ
  pub hugetlb : Bool

abbrev pub size : MmapRegion → ℕ
size r = length r.bytes

-- Whether `mmap` of so many anonymous private bytes succeeds, without and with `MAP_HUGETLB`.
-- Anonymous memory reads as zeros.
abbrev pub Mmap : Type 0
Mmap = ℕ → Bool → Bool

abbrev mapped : ℕ → Bool → MmapRegion
mapped n hugetlb = record { bytes = replicate n 0; hugetlb = hugetlb }

module _ (mmap : Mmap) where
  -- The call with `hugetlb` off, which has no fallback.
  map_normal : ℕ → Result MemError MmapRegion
  map_normal n = if mmap n false then ok (mapped n false) else err mmap_failed

  -- `MmapRegion::new`, which calls itself once more, with `hugetlb` off.
  unfoldable pub map_region : ℕ → Bool → Result MemError MmapRegion
  unfolding map_normal
  map_region n true = if mmap n true then ok (mapped n true) else map_normal n
  map_region n false = map_normal n

-- Whether a private mapping of so many bytes at an offset of the file succeeds. It reads as the file
-- there; behind the end of the file the last page reads as zeros, and the host's fault at a touch of a
-- later page is not modelled.
abbrev pub FileMmap : Type 0
FileMmap = ℕ → ℕ → Bool

-- `MmapRegion::from_file`
unfoldable pub map_file : FileMmap → List ℕ → ℕ → ℕ → Result MemError MmapRegion
map_file mmap file n offset =
    if mmap n offset
    then ok (record { bytes = take n (drop offset file ++ replicate n 0); hugetlb = false })
    else err mmap_failed

-- What `MmapRegion::new` gives has the size that was asked for, all zeros, and is backed by huge
-- pages only if they were asked for. It fails only where `mmap` refuses normal pages.
pub map_region_lem :
    (mmap : Mmap) (n : ℕ) (hugetlb : Bool)
    → ((r : MmapRegion) × (map_region mmap n hugetlb ≡ ok r)
        × (r.bytes ≡ replicate n 0)
        × (r.hugetlb ≡ hugetlb && mmap n true))
      ⊎ ((map_region mmap n hugetlb ≡ err mmap_failed) × (mmap n false ≡ false))
unfolding map_region
map_region_lem mmap n true = elim (Bool-cases (mmap n true)) [
  | inl e ↦ inl (mapped n true, rw e, refl, rw e)
  | inr e ↦ elim (Bool-cases (mmap n false)) [
    | inl f ↦ inl (mapped n false, rw (e, f), refl, rw e)
    | inr f ↦ inr (rw (e, f), f)
  ]
]
map_region_lem mmap n false = elim (Bool-cases (mmap n false)) [
  | inl f ↦ inl (mapped n false, rw f, refl, refl)
  | inr f ↦ inr (rw f, f)
]
