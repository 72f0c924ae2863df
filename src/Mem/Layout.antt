-- ===== src/Mem/Layout.antt =====
-- `GuestMemoryMmap::new`: which regions it makes, in which order, and what they hold.
use mathlib.Core.List.{Perm}
use mathlib.Core.List.Perm
use nova_vm.Common.{
  ℕ, ◌+◌, ◌≤◌, ◌≡◌, refl, sym, subst, ◌∙◌, ap, ◌⊎◌, inl, inr, Bool, false, List, [], ◌∷◌, map, ok,
  err, replicate, arith, Bool-cases, ltb, length-replicate,
}
use nova_vm.Mem.Address.{GuestAddress}
use nova_vm.Mem.Region.{mmap_failed, Mmap, size, map_region_lem}
use nova_vm.Mem.Memory.{GuestRegion, Memory, insert_by_base, sort_by_base, map_all, new}

-- What a caller asks for, read off a region.
abbrev pub info : GuestRegion → GuestAddress × ℕ
info r = (r.guest_base, size r.mmap)

-- Regions in ascending order of base address, all of them from `lo` on.
abbrev pub Ascending : ℕ → Memory → Type 0
Ascending lo [] = Unit {0}
Ascending lo (r ∷ rs) = (lo ≤ r.guest_base) × Ascending r.guest_base rs

abbrev pub Zeroed : Memory → Type 0
Zeroed [] = Unit {0}
Zeroed (r ∷ rs) = (r.mmap.bytes ≡ replicate (size r.mmap) 0) × Zeroed rs

abbrev sum_sizes : List (GuestAddress × ℕ) → ℕ
sum_sizes [] = 0
sum_sizes ((base, n) ∷ rest) = n + sum_sizes rest

insert-perm : (r : GuestRegion) (m : Memory) → Perm (insert_by_base r m) (r ∷ m)
unfolding insert_by_base
insert-perm r [] = Perm.refl (r ∷ [])
insert-perm r (x ∷ xs) =
    let ih = insert-perm r xs in
    let moved = Perm.trans (Perm.cons x ih) (Perm.swap r x xs) in
    elim (Bool-cases (ltb x.guest_base r.guest_base)) [
      | inl e ↦ rw e moved
      | inr e ↦ rw e (Perm.refl (r ∷ x ∷ xs))
    ]

sort-perm : (m : Memory) → Perm (sort_by_base m) m
unfolding sort_by_base
sort-perm [] = Perm.refl []
sort-perm (r ∷ rs) = Perm.trans (insert-perm r (sort_by_base rs)) (Perm.cons r (sort-perm rs))

insert-Ascending :
    (lo : ℕ) (r : GuestRegion) (m : Memory)
    → lo ≤ r.guest_base
    → Ascending lo m
    → Ascending lo (insert_by_base r m)
unfolding insert_by_base
insert-Ascending lo r [] h a = (h, tt)
insert-Ascending lo r (x ∷ xs) h a = ground (arith, insert-Ascending x.guest_base r xs)

sort-Ascending : (m : Memory) → Ascending 0 (sort_by_base m)
unfolding sort_by_base
sort-Ascending [] = tt
sort-Ascending (r ∷ rs) = insert-Ascending 0 r (sort_by_base rs) (omega arith) (sort-Ascending rs)

insert-Zeroed :
    (r : GuestRegion) (m : Memory)
    → r.mmap.bytes ≡ replicate (size r.mmap) 0
    → Zeroed m
    → Zeroed (insert_by_base r m)
unfolding insert_by_base
insert-Zeroed r [] h z = (h, tt)
insert-Zeroed r (x ∷ xs) h z = ground (arith, insert-Zeroed r xs)

sort-Zeroed : (m : Memory) → Zeroed m → Zeroed (sort_by_base m)
unfolding sort_by_base
sort-Zeroed [] z = tt
sort-Zeroed (r ∷ rs) z = insert-Zeroed r (sort_by_base rs) z.0 (sort-Zeroed rs z.1)

-- What `GuestMemoryMmap::new` leaves: the asked regions, ascending, with zeros.
pub record Fresh (regions : List (GuestAddress × ℕ)) (m : Memory) : Type 0 where
  pub asked : Perm (map info m) regions
  pub ascending : Ascending 0 m
  pub zeroed : Zeroed m

-- Some asked region is refused by `mmap` even with normal pages.
abbrev pub Refused : Mmap → List (GuestAddress × ℕ) → Type 0
Refused mmap [] = ⊥
Refused mmap ((base, n) ∷ rest) = (mmap n false ≡ false) ⊎ Refused mmap rest

module _ (mmap : Mmap) (hugetlb : Bool) where
  map_all_lem :
      (regions : List (GuestAddress × ℕ))
      → ((m : Memory) × (map_all mmap regions hugetlb ≡ ok m) × (map info m ≡ regions) × Zeroed m)
        ⊎ ((map_all mmap regions hugetlb ≡ err mmap_failed) × Refused mmap regions)
  unfolding map_all
  map_all_lem [] = inl ([], refl, refl, tt)
  map_all_lem ((base, n) ∷ rest) = elim (map_region_lem mmap n hugetlb) [
    | inr (e, f) ↦ inr (rw e, inl f)
    | inl (r, e, bytes, _) ↦ elim (map_all_lem rest) [
      | inr (f, no_mem) ↦ inr (rw (e, f), inr no_mem)
      | inl (m, f, infos, zeros) ↦
          let len : size r ≡ n = rw (bytes) (length-replicate {A = ℕ} n 0) in
          inl (
            record { guest_base = base; mmap = r } ∷ m,
            rw (e, f),
            ground arith,
            (bytes ∙ ap (λ k. replicate k 0) (sym len), zeros),
          )
    ]
  ]

  -- `GuestMemoryMmap::new` makes exactly the asked regions, in ascending order of base, all zeros;
  -- it fails only with the error of `mmap`, and only where `mmap` refuses normal pages for one.
  pub new-Fresh :
      (regions : List (GuestAddress × ℕ))
      → ((m : Memory) × (new mmap regions hugetlb ≡ ok m) × Fresh regions m)
        ⊎ ((new mmap regions hugetlb ≡ err mmap_failed) × Refused mmap regions)
  unfolding new
  new-Fresh regions = elim (map_all_lem regions) [
    | inr (e, f) ↦ inr (rw e, f)
    | inl (m, e, infos, zeros) ↦ inl (
      sort_by_base m,
      rw e,
      record {
        asked = subst (λ t. Perm (map info (sort_by_base m)) t) infos (Perm.map info (sort-perm m));
        ascending = sort-Ascending m;
        zeroed = sort-Zeroed m zeros;
      },
    )
  ]
