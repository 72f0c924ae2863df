-- ===== src/Vmm/Snapshot/Restored.antt =====
-- crates/nova-vmm/src/snapshot.rs: what the dump of guest memory holds, and that the memory mapped from
-- it reads as the one that was saved.
use mathlib.Core.Option
use nova_vm.Common.{
  ℕ, zero, suc, ◌+◌, ◌≤◌, ◌<◌, ◌≡◌, refl, sym, subst, ap, ◌∙◌, ◌⊎◌, inl, inr, Bool, true, false,
  some, List, [], ◌∷◌, ◌++◌, map, ok, err, ltb, arith, length, get_elem?, take, drop, replicate,
  length-append, take-append, drop-append, Bool-cases, Option-cases,
}
use nova_vm.Mem.Region.{mmap_failed, size, FileMmap, map_file}
use nova_vm.Mem.Memory.{
  GuestRegion, Memory, find_from, find_region, locate, read_slice, region_info, num_regions,
  insert_by_base, sort_by_base, map_files, from_file,
}
use nova_vm.Mem.Access.{Located, locate_of_Located}
use nova_vm.Mem.Layout.{info}
use nova_vm.Vmm.Snapshot.{
  dump_regions, dump_guest_memory, regions_from, memory_regions, file_regions,
}

-- Regions in ascending order from `lo` on, none of them empty, and no two of them overlapping.
abbrev pub Disjoint : ℕ → Memory → Type 0
Disjoint lo [] = Unit {0}
Disjoint lo (r ∷ rs) =
    (lo ≤ r.guest_base) × (0 < size r.mmap) × Disjoint (r.guest_base + size r.mmap) rs

-- The bytes of the regions, one after the other.
abbrev pub contents : Memory → List ℕ
contents [] = []
contents (r ∷ rs) = r.mmap.bytes ++ contents rs

-- A region backed by normal pages
abbrev normal : GuestRegion → GuestRegion
normal r = record r { mmap = record r.mmap { hugetlb = false } }

-- The same memory, backed by normal pages
abbrev pub unhuge : Memory → Memory
unhuge m = map normal m

region_above :
    (lo : ℕ) (front : Memory) (r : GuestRegion) (rs : Memory)
    → Disjoint lo (front ++ (r ∷ rs))
    → lo ≤ r.guest_base
region_above lo [] r rs d = d.0
region_above lo (x ∷ front) r rs d =
    let above = region_above (x.guest_base + size x.mmap) front r rs d.2 in omega arith

find_from-base :
    (lo i : ℕ) (front : Memory) (r : GuestRegion) (rs : Memory)
    → Disjoint lo (front ++ (r ∷ rs))
    → find_from i (front ++ (r ∷ rs)) r.guest_base ≡ some (i + length front, 0)
unfolding find_from
find_from-base lo i [] r rs d = ground arith
find_from-base lo i (x ∷ front) r rs d =
    let above = region_above (x.guest_base + size x.mmap) front r rs d.2 in
    let later = find_from-base (x.guest_base + size x.mmap) (suc i) front r rs d.2 in ground arith

get_elem?-front :
    (front : Memory) (r : GuestRegion) (rs : Memory)
    → get_elem? (front ++ (r ∷ rs)) (length front) ≡ some r
get_elem?-front [] r rs = refl
get_elem?-front (x ∷ front) r rs = get_elem?-front front r rs

take-length : (xs : List ℕ) → take (length xs) xs ≡ xs
take-length [] = refl
take-length (x ∷ xs) = ap (λ t. x ∷ t) (take-length xs)

length-front :
    (front : Memory) (r : GuestRegion) (rs : Memory) → length front < length (front ++ (r ∷ rs))
length-front [] r rs = omega arith
length-front (x ∷ front) r rs = omega (arith, length-front front r rs)

-- A range of the size of a region, at its base, is the whole region.
pub region_at :
    (front : Memory) (r : GuestRegion) (rs : Memory) (n : ℕ)
    → Disjoint 0 (front ++ (r ∷ rs))
    → n ≡ size r.mmap
    → Located (front ++ (r ∷ rs)) r.guest_base n (length front) 0 r
region_at front r rs n d e = record {
  found = find_from-base 0 0 front r rs d ∙ ap (λ k. some (k, 0)) (omega arith);
  region = get_elem?-front front r rs;
  room = omega arith;
  index_in = length-front front r rs;
  base = omega arith;
}

-- A region is read back whole at its base.
read_slice-region :
    (front : Memory) (r : GuestRegion) (rs : Memory)
    → Disjoint 0 (front ++ (r ∷ rs))
    → read_slice (front ++ (r ∷ rs)) r.guest_base (size r.mmap) ≡ ok r.mmap.bytes
unfolding read_slice
read_slice-region front r rs d =
    let there = region_at front r rs (size r.mmap) d refl in
    rw (locate_of_Located (front ++ (r ∷ rs)) r.guest_base (size r.mmap) (length front) 0 r there)
      (ap ok (take-length r.mmap.bytes))

length_front_one :
    (front : Memory) (r : GuestRegion) → length (front ++ (r ∷ [])) ≡ suc (length front)
length_front_one [] r = refl
length_front_one (x ∷ front) r = ap suc (length_front_one front r)

pub append_one :
    (front : Memory) (r : GuestRegion) (rs : Memory) → (front ++ (r ∷ [])) ++ rs ≡ front ++ (r ∷ rs)
append_one [] r rs = refl
append_one (x ∷ front) r rs = ap (λ t. x ∷ t) (append_one front r rs)

pub dump_regions-contents :
    (writes : List ℕ → Bool)
    → ((bytes : List ℕ) → writes bytes ≡ true)
    → (front rs : Memory) → Disjoint 0 (front ++ rs)
    → dump_regions writes (front ++ rs) rs ≡ ok (contents rs)
unfolding dump_regions
dump_regions-contents writes w front [] d = refl
dump_regions-contents writes w front (r ∷ rs) d =
    let later =
      dump_regions-contents writes w (front ++ (r ∷ [])) rs
        (subst (λ m. Disjoint 0 m) (sym (append_one front r rs)) d) in
    let rest =
      subst (λ m. dump_regions writes m rs ≡ ok (contents rs)) (append_one front r rs) later in
    rw (read_slice-region front r rs d, w r.mmap.bytes, rest) refl

regions_from-infos :
    (i : ℕ) (front rs : Memory)
    → length front ≡ i
    → regions_from (front ++ rs) i (length rs) ≡ map info rs
unfolding regions_from region_info
regions_from-infos i front [] e = refl
regions_from-infos i front (r ∷ rs) e =
    let found : get_elem? (front ++ (r ∷ rs)) i ≡ some r =
      ap (λ k. get_elem? (front ++ (r ∷ rs)) k) (sym e) ∙ get_elem?-front front r rs in
    let longer : length (front ++ (r ∷ [])) ≡ suc i = length_front_one front r ∙ ap suc e in
    let later = regions_from-infos (suc i) (front ++ (r ∷ [])) rs longer in
    let rest =
      subst (λ m. regions_from m (suc i) (length rs) ≡ map info rs) (append_one front r rs) later in
    ground arith

append_assoc : (xs ys zs : List ℕ) → (xs ++ ys) ++ zs ≡ xs ++ (ys ++ zs)
append_assoc [] ys zs = refl
append_assoc (x ∷ xs) ys zs = ap (λ t. x ∷ t) (append_assoc xs ys zs)

-- The mapping succeeds at every region of a table.
abbrev pub Mapped : FileMmap → List (ℕ × ℕ × ℕ) → Type 0
Mapped mmap [] = Unit {0}
Mapped mmap ((base, n, offset) ∷ rest) = (mmap n offset ≡ true) × Mapped mmap rest

module _ (mmap : FileMmap) where
  map_files-unhuge :
      (before : List ℕ) (rs : Memory)
      → Mapped mmap (file_regions (length before) (map info rs))
      → map_files mmap (before ++ contents rs) (file_regions (length before) (map info rs))
        ≡ ok (unhuge rs)
  unfolding map_files map_file file_regions
  map_files-unhuge before [] h = refl
  map_files-unhuge before (r ∷ rs) h =
      let n = size r.mmap in
      let whole : take n (drop (length before) (before ++ contents (r ∷ rs)) ++ replicate n 0)
          ≡ r.mmap.bytes =
        ap (λ t. take n (t ++ replicate n 0)) (drop-append before (contents (r ∷ rs)))
        ∙ ap (λ t. take n t) (append_assoc r.mmap.bytes (contents rs) (replicate n 0))
        ∙ take-append r.mmap.bytes (contents rs ++ replicate n 0) in
      let step : length (before ++ r.mmap.bytes) ≡ length before + n =
        length-append before r.mmap.bytes in
      let later =
        map_files-unhuge (before ++ r.mmap.bytes) rs
          (subst (λ o. Mapped mmap (file_regions o (map info rs))) (sym step) h.1) in
      let rest : map_files mmap (before ++ contents (r ∷ rs))
            (file_regions (length before + n) (map info rs))
          ≡ ok (unhuge rs) =
        subst
          (λ o.
            map_files mmap (before ++ contents (r ∷ rs)) (file_regions o (map info rs))
            ≡ ok (unhuge rs))
          step
          (subst
            (λ f.
              map_files mmap f (file_regions (length (before ++ r.mmap.bytes)) (map info rs))
              ≡ ok (unhuge rs))
            (append_assoc before r.mmap.bytes (contents rs)) later) in
      rw (h.0, whole, rest) refl

  -- Some mapping of a table is refused.
  abbrev pub Refused : List (ℕ × ℕ × ℕ) → Type 0
  Refused [] = ⊥
  Refused ((base, n, offset) ∷ rest) = (mmap n offset ≡ false) ⊎ Refused rest

  Mapped-cases :
      (file : List ℕ) (table : List (ℕ × ℕ × ℕ))
      → Mapped mmap table ⊎ ((map_files mmap file table ≡ err mmap_failed) × Refused table)
  unfolding map_files map_file
  Mapped-cases file [] = inl tt
  Mapped-cases file ((base, n, offset) ∷ rest) = elim (Bool-cases (mmap n offset)) [
    | inr refused ↦ inr (rw refused refl, inl refused)
    | inl mapped ↦ elim (Mapped-cases file rest) [
      | inl all ↦ inl (mapped, all)
      | inr (e, f) ↦ inr (rw (mapped, e) refl, inr f)
    ]
  ]

sort-Disjoint : (lo : ℕ) (m : Memory) → Disjoint lo m → sort_by_base m ≡ m
unfolding sort_by_base insert_by_base
sort-Disjoint lo [] d = refl
sort-Disjoint lo (r ∷ []) d = refl
sort-Disjoint lo (r ∷ x ∷ rs) d =
    rw (sort-Disjoint (r.guest_base + size r.mmap) (x ∷ rs) d.2) (ground arith)

unhuge-Disjoint : (lo : ℕ) (m : Memory) → Disjoint lo m → Disjoint lo (unhuge m)
unhuge-Disjoint lo [] d = tt
unhuge-Disjoint lo (r ∷ rs) d = (d.0, d.1, unhuge-Disjoint (r.guest_base + size r.mmap) rs d.2)

find_from-unhuge : (i : ℕ) (m : Memory) (a : ℕ) → find_from i (unhuge m) a ≡ find_from i m a
unfolding find_from
find_from-unhuge i [] a = refl
find_from-unhuge i (r ∷ rs) a = rw (find_from-unhuge (suc i) rs a) refl

get_elem?-unhuge : (m : Memory) (i : ℕ) → get_elem? (unhuge m) i ≡ Option.map normal (get_elem? m i)
get_elem?-unhuge [] i = refl
get_elem?-unhuge (r ∷ rs) zero = refl
get_elem?-unhuge (r ∷ rs) (suc i) = get_elem?-unhuge rs i

-- The kind of pages does not change what is read.
pub read_slice-unhuge : (m : Memory) (a n : ℕ) → read_slice (unhuge m) a n ≡ read_slice m a n
unfolding read_slice locate find_region
read_slice-unhuge m a n = elim (Option-cases (find_from 0 m a)) [
  | inl e ↦ rw (find_from-unhuge 0 m a, e) refl
  | inr ((i, o), e) ↦ elim (Option-cases (get_elem? m i)) [
    | inl f ↦ rw (find_from-unhuge 0 m a, e, get_elem?-unhuge m i, f) refl
    | inr (r, f) ↦ elim (Bool-cases (ltb (size r.mmap) (o + n))) [
      | inl short ↦ rw (find_from-unhuge 0 m a, e, get_elem?-unhuge m i, f, short) refl
      | inr long ↦ rw (find_from-unhuge 0 m a, e, get_elem?-unhuge m i, f, long) refl
    ]
  ]
]

-- Memory without overlaps that is dumped, in a file that takes all writes, and then mapped from that
-- file over the region table of the snapshot, reads the same everywhere; the mapping fails only where
-- the host refuses one of the regions.
pub restored_memory :
    (mmap : FileMmap) (writes : List ℕ → Bool) (mem : Memory)
    → ((bytes : List ℕ) → writes bytes ≡ true)
    → Disjoint 0 mem
    → (file : List ℕ) × (dump_guest_memory true writes mem ≡ ok file)
      × (((m : Memory) × (from_file mmap file (file_regions 0 (memory_regions mem)) ≡ ok m)
            × ((a n : ℕ) → read_slice m a n ≡ read_slice mem a n))
          ⊎ ((from_file mmap file (file_regions 0 (memory_regions mem)) ≡ err mmap_failed)
              × Refused mmap (file_regions 0 (memory_regions mem))))
unfolding dump_guest_memory from_file memory_regions num_regions
restored_memory mmap writes mem w d =
    let infos : regions_from mem 0 (length mem) ≡ map info mem = regions_from-infos 0 [] mem refl in
    let dumped = dump_regions-contents writes w [] mem d in
    (
      contents mem,
      dumped,
      elim (Mapped-cases mmap (contents mem) (file_regions 0 (map info mem))) [
        | inl all ↦ inl (
          unhuge mem,
          rw (infos, map_files-unhuge mmap [] mem all)
              (ap ok (sort-Disjoint 0 (unhuge mem) (unhuge-Disjoint 0 mem d))),
          read_slice-unhuge mem,
        )
        | inr (e, f) ↦
            inr (rw (infos, e) refl, subst (λ t. Refused mmap (file_regions 0 t)) (sym infos) f)
      ],
    )
