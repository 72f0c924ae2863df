-- ===== src/Vmm/Snapshot/Loaded.antt =====
-- crates/nova-vmm/src/snapshot.rs: loading a dump into memory that is already mapped, of the layout
-- that was dumped or of another one.
use nova_vm.Common.{
  ℕ, ◌+◌, ◌≤◌, ◌<◌, ◌≡◌, refl, sym, subst, ap, ◌∙◌, ◌⊎◌, inl, inr, Bool, true, false, some, List,
  [], ◌∷◌, ◌++◌, map, ok, err, ltb, arith, length, splice, set, take, drop, take-append,
  drop-append, length-append, length-take, length-drop, ltb→ge, ltb→lt, Bool-cases,
}
use nova_vm.Mem.Region.{size}
use nova_vm.Mem.Memory.{GuestRegion, Memory, with_bytes, read_slice, write_slice, total_size}
use nova_vm.Mem.Access.{locate_of_Located}
use nova_vm.Mem.Layout.{info}
use nova_vm.Vmm.Snapshot.{too_short, load_regions, load_guest_memory, dump_guest_memory}
use nova_vm.Vmm.Snapshot.Restored.{
  Disjoint, contents, unhuge, region_at, append_one, dump_regions-contents, read_slice-unhuge,
}

-- The regions with their bytes taken from a file, one after the other.
abbrev refill : Memory → List ℕ → Memory
refill [] file = []
refill (r ∷ rs) file = with_bytes r (take (size r.mmap) file) ∷ refill rs (drop (size r.mmap) file)

overwrite_whole : (xs bs : List ℕ) → length bs ≡ length xs → splice xs 0 bs ≡ bs
overwrite_whole [] [] h = refl
overwrite_whole (x ∷ xs) [] h = absurd (omega arith)
overwrite_whole [] (b ∷ bs) h = absurd (omega arith)
overwrite_whole (x ∷ xs) (b ∷ bs) h = ap (λ t. b ∷ t) (overwrite_whole xs bs (omega arith))

set-front :
    (front : Memory) (r x : GuestRegion) (rs : Memory)
    → set (front ++ (r ∷ rs)) (length front) x ≡ (front ++ (x ∷ [])) ++ rs
set-front [] r x rs = refl
set-front (y ∷ front) r x rs = ap (λ t. y ∷ t) (set-front front r x rs)

write_slice-region :
    (front : Memory) (r : GuestRegion) (rs : Memory) (bs : List ℕ)
    → Disjoint 0 (front ++ (r ∷ rs))
    → length bs ≡ size r.mmap
    → write_slice (front ++ (r ∷ rs)) r.guest_base bs ≡ ok ((front ++ (with_bytes r bs ∷ [])) ++ rs)
unfolding write_slice
write_slice-region front r rs bs d e =
    let there = region_at front r rs (length bs) d e in
    rw
      (
        locate_of_Located (front ++ (r ∷ rs)) r.guest_base (length bs) (length front) 0 r there,
        overwrite_whole r.mmap.bytes bs e,
        set-front front r (with_bytes r bs) rs,
      )
      refl

-- The layout stays free of overlaps when a region's bytes are replaced.
replaced-Disjoint :
    (lo : ℕ) (front : Memory) (r : GuestRegion) (rs : Memory) (bs : List ℕ)
    → Disjoint lo (front ++ (r ∷ rs))
    → length bs ≡ size r.mmap
    → Disjoint lo ((front ++ (with_bytes r bs ∷ [])) ++ rs)
replaced-Disjoint lo [] r rs bs d e =
    (d.0, omega arith, subst (λ n. Disjoint (r.guest_base + n) rs) (sym e) d.2)
replaced-Disjoint lo (x ∷ front) r rs bs d e =
    (d.0, d.1, replaced-Disjoint (x.guest_base + size x.mmap) front r rs bs d.2 e)

length-take_enough : (n : ℕ) (xs : List ℕ) → n ≤ length xs → length (take n xs) ≡ n
length-take_enough n xs h = omega (arith, length-take n xs)

-- Enough bytes fill every region.
load_regions-refill :
    (front rs : Memory) (file : List ℕ)
    → Disjoint 0 (front ++ rs)
    → total_size rs ≤ length file
    → load_regions rs (front ++ rs) file ≡ ok (front ++ refill rs file)
unfolding load_regions total_size
load_regions-refill front [] file d h = refl
load_regions-refill front (r ∷ rs) file d h =
    let n = size r.mmap in
    let taken = length-take_enough n file (omega arith) in
    let x = with_bytes r (take n file) in
    let later =
      load_regions-refill (front ++ (x ∷ [])) rs (drop n file)
        (replaced-Disjoint 0 front r rs (take n file) d taken)
        (omega (arith, length-drop n file)) in
    let enough : ltb (length file) n ≡ false = ground arith in
    rw (enough, write_slice-region front r rs (take n file) d taken, later)
      (ap ok (append_one front x (refill rs (drop n file))))

-- Too few bytes are an error at some region.
load_regions_short :
    (front rs : Memory) (file : List ℕ)
    → Disjoint 0 (front ++ rs)
    → length file < total_size rs
    → (b : ℕ) × (load_regions rs (front ++ rs) file ≡ err (too_short b))
unfolding load_regions total_size
load_regions_short front [] file d h = absurd (omega arith)
load_regions_short front (r ∷ rs) file d h =
    let n = size r.mmap in
    elim (Bool-cases (ltb (length file) n)) [
      | inl short ↦ (r.guest_base, rw short refl)
      | inr enough ↦
          let taken = length-take_enough n file (ltb→ge _ _ enough) in
          let (b, later) =
            load_regions_short (front ++ (with_bytes r (take n file) ∷ [])) rs (drop n file)
              (replaced-Disjoint 0 front r rs (take n file) d taken)
              (omega (arith, length-drop n file, ltb→ge _ _ enough)) in
          (b, rw (enough, write_slice-region front r rs (take n file) d taken, later) refl)
    ]

-- What a region table says of two memories is the same, so the dump of one fills the other.
refill-contents :
    (mem target : Memory)
    → map info target ≡ map info mem
    → unhuge (refill target (contents mem)) ≡ unhuge mem
refill-contents [] [] e = refl
refill-contents (r ∷ rs) [] e = cc
refill-contents [] (t ∷ ts) e = cc
refill-contents (r ∷ rs) (t ∷ ts) e =
    let base : t.guest_base ≡ r.guest_base = cc in
    let same : size t.mmap ≡ size r.mmap = cc in
    let others : map info ts ≡ map info rs = cc in
    let bytes : take (size t.mmap) (contents (r ∷ rs)) ≡ r.mmap.bytes =
      ap (λ n. take n (contents (r ∷ rs))) same ∙ take-append r.mmap.bytes (contents rs) in
    let left : drop (size t.mmap) (contents (r ∷ rs)) ≡ contents rs =
      ap (λ n. drop n (contents (r ∷ rs))) same ∙ drop-append r.mmap.bytes (contents rs) in
    let rest = ap (λ f. unhuge (refill ts f)) left ∙ refill-contents rs ts others in
    rw (base, bytes, rest) refl

length-contents : (m : Memory) → length (contents m) ≡ total_size m
unfolding total_size
length-contents [] = refl
length-contents (r ∷ rs) =
    omega (arith, length-append r.mmap.bytes (contents rs), length-contents rs)

total_size-info : (m k : Memory) → map info m ≡ map info k → total_size m ≡ total_size k
unfolding total_size
total_size-info [] [] e = refl
total_size-info [] (y ∷ k) e = cc
total_size-info (x ∷ m) [] e = cc
total_size-info (x ∷ m) (y ∷ k) e =
    let same : size x.mmap ≡ size y.mmap = cc in
    let others : map info m ≡ map info k = cc in omega (arith, same, total_size-info m k others)

-- Loading fails for want of bytes exactly where the file is shorter than all regions together.
pub load_guest_memory_ends :
    (target : Memory) (file : List ℕ)
    → Disjoint 0 target
    → ((m : Memory) × (load_guest_memory target (some file) ≡ ok m)
        × (total_size target ≤ length file))
      ⊎ ((b : ℕ) × (load_guest_memory target (some file) ≡ err (too_short b))
          × (length file < total_size target))
unfolding load_guest_memory
load_guest_memory_ends target file d = elim (Bool-cases (ltb (length file) (total_size target))) [
  | inl less ↦
      let (b, e) = load_regions_short [] target file d (ltb→lt _ _ less) in
      inr (b, e, ltb→lt _ _ less)
  | inr enough ↦ inl (
    refill target file,
    load_regions-refill [] target file d (ltb→ge _ _ enough),
    ltb→ge _ _ enough,
  )
]

-- The dump of one memory, loaded into another one of the same layout, makes it read like the first.
pub loaded_memory :
    (writes : List ℕ → Bool) (mem target : Memory)
    → ((bytes : List ℕ) → writes bytes ≡ true)
    → Disjoint 0 mem
    → Disjoint 0 target
    → map info target ≡ map info mem
    → (file : List ℕ) × (m : Memory) × (dump_guest_memory true writes mem ≡ ok file)
      × (load_guest_memory target (some file) ≡ ok m)
      × ((a n : ℕ) → read_slice m a n ≡ read_slice mem a n)
unfolding dump_guest_memory load_guest_memory
loaded_memory writes mem target w d dt e =
    let enough : total_size target ≤ length (contents mem) =
      omega (arith, length-contents mem, total_size-info target mem e) in
    (
      contents mem,
      refill target (contents mem),
      dump_regions-contents writes w [] mem d,
      load_regions-refill [] target (contents mem) dt enough,
      λ a n.
          sym (read_slice-unhuge (refill target (contents mem)) a n)
          ∙ ap (λ m. read_slice m a n) (refill-contents mem target e)
          ∙ read_slice-unhuge mem a n,
    )
