-- ===== src/Boot/Elf/Load.antt =====
-- What lies in guest memory once the segments of an ELF kernel are loaded: crates/nova-boot/src/elf.rs.
use nova_vm.Common.{
  ℕ, ◌+◌, ◌-◌, ◌^◌, ◌≤◌, ◌<◌, ◌≡◌, sym, ap, ◌∙◌, ◌⊎◌, inl, inr, List, [], ◌∷◌, ok, ltb, ◌==◌,
  if◌then◌else◌, length, slice, replicate, arith, Bool-cases, >>=-eq-ok, map_err-eq-ok,
  ok-injective, guarded-eq-ok, ltb→ge, ltb→lt, length-slice, length-replicate,
}
use nova_vm.Mem.Memory.{Memory, write_slice, read_slice}
use nova_vm.Mem.Access.{read_slice-write_slice_self, read_slice-write_slice_ne}
use nova_vm.Boot.Elf.{
  LoadSegment, ElfKernel, wrap, load_file, load_bss, load_segments, load_into_memory,
}

-- The bytes that a segment takes in memory.
abbrev pub extent : LoadSegment → ℕ
extent s = if ltb s.file_size s.mem_size then s.mem_size else s.file_size

-- A segment's fields are of 64 bits, and it ends within the address space.
pub record Fits (s : LoadSegment) : Type 0 where
  pub offset_fits : s.file_offset < 2 ^ 64
  pub size_fits : s.file_size < 2 ^ 64
  pub end_fits : s.guest_addr + extent s < 2 ^ 64

abbrev pub Beside : LoadSegment → ℕ → ℕ → Type 0
Beside s b n = (b + n ≤ s.guest_addr) ⊎ (s.guest_addr + extent s ≤ b)

abbrev pub AllBeside : List LoadSegment → ℕ → ℕ → Type 0
AllBeside [] b n = Unit {0}
AllBeside (s ∷ ss) b n = Beside s b n × AllBeside ss b n

abbrev pub AllFit : List LoadSegment → Type 0
AllFit [] = Unit {0}
AllFit (s ∷ ss) = Fits s × AllFit ss

-- Each segment lies apart from those after it.
abbrev pub Disjoint : List LoadSegment → Type 0
Disjoint [] = Unit {0}
Disjoint (s ∷ ss) = AllBeside ss s.guest_addr (extent s) × Disjoint ss

-- A segment as it lies in memory: its bytes of the file, and zeros behind them.
pub record InPlace (image : List ℕ) (m : Memory) (s : LoadSegment) : Type 0 where
  pub in_image : 0 < s.file_size → s.file_offset + s.file_size ≤ length image
  pub file_there :
      0 < s.file_size
      → read_slice m s.guest_addr s.file_size ≡ ok (slice image s.file_offset s.file_size)
  pub zeros_there :
      s.file_size < s.mem_size
      → read_slice m (s.guest_addr + s.file_size) (s.mem_size - s.file_size)
        ≡ ok (replicate (s.mem_size - s.file_size) 0)

abbrev pub AllInPlace : List ℕ → Memory → List LoadSegment → Type 0
AllInPlace image m [] = Unit {0}
AllInPlace image m (s ∷ ss) = InPlace image m s × AllInPlace image m ss

no_wrap :
    (s : LoadSegment) (n : ℕ)
    → Fits s
    → wrap (s.file_offset + s.file_size) ≤ n
    → s.file_offset ≤ wrap (s.file_offset + s.file_size)
    → s.file_offset + s.file_size ≤ n
no_wrap s n f a b = omega (arith, f.offset_fits, f.size_fits)

-- What the first half of a round does: nothing for an empty part, else one write of the part.
load_file-ok :
    (image : List ℕ) (s : LoadSegment) (m m' : Memory)
    → Fits s
    → load_file image s m ≡ ok m'
    → ((s.file_size ≡ 0) × (m' ≡ m))
      ⊎ ((s.file_offset + s.file_size ≤ length image)
          × (write_slice m s.guest_addr (slice image s.file_offset s.file_size) ≡ ok m'))
unfolding load_file
load_file-ok image s m m' f h = elim (Bool-cases (s.file_size == 0)) [
  | inl e ↦ inl (ground arith, sym (ok-injective (rw e at h)))
  | inr e ↦
      let h0 = rw e at h in
      let (small, h1) = guarded-eq-ok _ _ _ h0 in
      let (forward, h2) = guarded-eq-ok _ _ _ h1 in
      inr (no_wrap s (length image) f (ltb→ge _ _ small) (ltb→ge _ _ forward), map_err-eq-ok _ _ h2)
]

load_bss-ok :
    (s : LoadSegment) (m m' : Memory)
    → Fits s
    → load_bss s m ≡ ok m'
    → ((s.mem_size ≤ s.file_size) × (m' ≡ m))
      ⊎ ((s.file_size < s.mem_size)
          × (write_slice m (s.guest_addr + s.file_size) (replicate (s.mem_size - s.file_size) 0)
              ≡ ok m'))
unfolding load_bss
load_bss-ok s m m' f h = elim (Bool-cases (ltb s.file_size s.mem_size)) [
  | inl e ↦
      let end : wrap (s.guest_addr + s.file_size) ≡ s.guest_addr + s.file_size =
        ground (arith, f.end_fits) in
      inr (ltb→lt _ _ e, map_err-eq-ok _ _ (rw end at (rw e at h)))
  | inr e ↦ inl (ltb→ge _ _ e, sym (ok-injective (rw e at h)))
]

file-Beside :
    (s : LoadSegment) (b n size : ℕ)
    → size ≡ s.file_size
    → Beside s b n
    → (b + n ≤ s.guest_addr) ⊎ (s.guest_addr + size ≤ b)
file-Beside s b n size e (inl h) = inl h
file-Beside s b n size e (inr h) = inr (ground arith)

bss_beside :
    (s : LoadSegment) (b n size : ℕ)
    → size ≡ s.mem_size - s.file_size
    → s.file_size < s.mem_size
    → (b + n ≤ s.guest_addr + s.file_size) ⊎ (s.guest_addr + extent s ≤ b)
    → (b + n ≤ s.guest_addr + s.file_size) ⊎ (s.guest_addr + s.file_size + size ≤ b)
bss_beside s b n size e lt (inl h) = inl h
bss_beside s b n size e lt (inr h) = inr (ground arith)

weaker :
    (s : LoadSegment) (b n : ℕ)
    → Beside s b n
    → (b + n ≤ s.guest_addr + s.file_size) ⊎ (s.guest_addr + extent s ≤ b)
weaker s b n (inl h) = inl (omega arith)
weaker s b n (inr h) = inr h

-- Neither half changes what is beside the segment.
load_file-others :
    (image : List ℕ) (s : LoadSegment) (m m' : Memory) (b n : ℕ)
    → Fits s
    → load_file image s m ≡ ok m'
    → Beside s b n
    → read_slice m' b n ≡ read_slice m b n
load_file-others image s m m' b n f h beside = elim (load_file-ok image s m m' f h) [
  | inl (_, same) ↦ ap (λ x. read_slice x b n) same
  | inr (inside, w) ↦
      let size = length-slice image s.file_offset s.file_size inside in
      read_slice-write_slice_ne m s.guest_addr _ m' b n w (file-Beside s b n _ size beside)
]

load_bss-others :
    (s : LoadSegment) (m m' : Memory) (b n : ℕ)
    → Fits s
    → load_bss s m ≡ ok m'
    → (b + n ≤ s.guest_addr + s.file_size) ⊎ (s.guest_addr + extent s ≤ b)
    → read_slice m' b n ≡ read_slice m b n
load_bss-others s m m' b n f h beside = elim (load_bss-ok s m m' f h) [
  | inl (_, same) ↦ ap (λ x. read_slice x b n) same
  | inr (lt, w) ↦
      let size = length-replicate {A = ℕ} (s.mem_size - s.file_size) 0 in
      read_slice-write_slice_ne m (s.guest_addr + s.file_size) _ m' b n w
        (bss_beside s b n _ size lt beside)
]

load_segments-others :
    (image : List ℕ) (ss : List LoadSegment) (m m' : Memory) (b n : ℕ)
    → AllFit ss
    → load_segments image ss m ≡ ok m'
    → AllBeside ss b n
    → read_slice m' b n ≡ read_slice m b n
unfolding load_segments
load_segments-others image [] m m' b n f h beside =
    ap (λ x. read_slice x b n) (sym (ok-injective h))
load_segments-others image (s ∷ ss) m m' b n f h beside =
    let (m1, file, h1) = >>=-eq-ok _ _ h in
    let (m2, bss, h2) = >>=-eq-ok _ _ h1 in
    load_segments-others image ss m2 m' b n f.1 h2 beside.1
    ∙ load_bss-others s m1 m2 b n f.0 bss (weaker s b n beside.0)
    ∙ load_file-others image s m m1 b n f.0 file beside.0

AllBeside-part :
    (ss : List LoadSegment) (a size b n : ℕ)
    → a ≤ b
    → b + n ≤ a + size
    → AllBeside ss a size
    → AllBeside ss b n
AllBeside-part [] a size b n lo hi h = tt
AllBeside-part (s ∷ ss) a size b n lo hi h = (
  elim (h.0) [ inl p ↦ inl (omega arith) | inr p ↦ inr (omega arith) ],
  AllBeside-part ss a size b n lo hi h.1,
)

-- The segment just loaded is in place.
loaded-InPlace :
    (image : List ℕ) (s : LoadSegment) (m m1 m2 : Memory)
    → Fits s
    → load_file image s m ≡ ok m1
    → load_bss s m1 ≡ ok m2
    → InPlace image m2 s
loaded-InPlace image s m m1 m2 f file bss = record {
  in_image = λ pos. (part pos).0;
  file_there = λ pos.
      load_bss-others s m1 m2 s.guest_addr s.file_size f bss (inl (omega arith)) ∙ (part pos).1;
  zeros_there = λ lt. elim (load_bss-ok s m1 m2 f bss) [
    | inl (le, _) ↦ absurd (omega arith)
    | inr (_, w) ↦ rw (length-replicate {A = ℕ} (s.mem_size - s.file_size) 0) at (
        read_slice-write_slice_self m1 (s.guest_addr + s.file_size)
          (replicate (s.mem_size - s.file_size) 0) m2 w)
  ];
}
  where
    part :
        0 < s.file_size
        → (s.file_offset + s.file_size ≤ length image)
          × (read_slice m1 s.guest_addr s.file_size ≡ ok (slice image s.file_offset s.file_size))
    part pos = elim (load_file-ok image s m m1 f file) [
      | inl (zero_size, _) ↦ absurd (omega arith)
      | inr (inside, w) ↦ (
        inside,
        rw (length-slice image s.file_offset s.file_size inside) at (
            read_slice-write_slice_self m s.guest_addr (slice image s.file_offset s.file_size) m1
              w),
      )
    ]

-- A segment stays in place while the ones beside it are loaded.
InPlace-kept :
    (image : List ℕ) (s : LoadSegment) (ss : List LoadSegment) (m m' : Memory)
    → AllFit ss
    → load_segments image ss m ≡ ok m'
    → AllBeside ss s.guest_addr (extent s)
    → InPlace image m s
    → InPlace image m' s
InPlace-kept image s ss m m' f h beside p = record {
  in_image = p.in_image;
  file_there = λ pos.
      load_segments-others image ss m m' s.guest_addr s.file_size f h
        (AllBeside-part ss s.guest_addr (extent s) _ _ (omega arith) (ground arith) beside)
      ∙ p.file_there pos;
  zeros_there = λ lt.
      load_segments-others image ss m m' (s.guest_addr + s.file_size) (s.mem_size - s.file_size) f h
        (AllBeside-part ss s.guest_addr (extent s) _ _ (omega arith) (ground arith) beside)
      ∙ p.zeros_there lt;
}

load_segments-AllInPlace :
    (image : List ℕ) (ss : List LoadSegment) (m m' : Memory)
    → load_segments image ss m ≡ ok m'
    → AllFit ss
    → Disjoint ss
    → AllInPlace image m' ss
unfolding load_segments
load_segments-AllInPlace image [] m m' h f d = tt
load_segments-AllInPlace image (s ∷ ss) m m' h f d =
    let (m1, file, h1) = >>=-eq-ok _ _ h in
    let (m2, bss, h2) = >>=-eq-ok _ _ h1 in
    (
      InPlace-kept image s ss m2 m' f.1 h2 d.0 (loaded-InPlace image s m m1 m2 f.0 file bss),
      load_segments-AllInPlace image ss m2 m' h2 f.1 d.1,
    )

-- When all segments are loaded, and they lie apart from one another and within the address space, each is
-- in place: its bytes of the file at its address, and zeros behind them up to its size in memory. What
-- lies beside all of them is as before.
pub load_into_memory-AllInPlace :
    (k : ElfKernel) (m m' : Memory)
    → load_into_memory k m ≡ ok m'
    → AllFit k.segments
    → Disjoint k.segments
    → AllInPlace k.image m' k.segments
      × ((b n : ℕ) → AllBeside k.segments b n → read_slice m' b n ≡ read_slice m b n)
unfolding load_into_memory
load_into_memory-AllInPlace k m m' h f d = (
  load_segments-AllInPlace k.image k.segments m m' h f d,
  λ b n beside. load_segments-others k.image k.segments m m' b n f h beside,
)
