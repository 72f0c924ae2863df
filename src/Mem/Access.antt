-- ===== src/Mem/Access.antt =====
-- What the accesses of guest memory guarantee: a read after a write, and what a write leaves alone.
use nova_vm.Common.{
  ℕ, zero, suc, ◌+◌, ◌≤◌, ◌<◌, ◌^◌, ◌≡◌, refl, ap, ◌⊎◌, ◌↔◌, ◌≢◌, inl, inr, none, some, List, [],
  ◌∷◌, ok, err, length, get_elem?, set, slice, splice, arith, Bool-cases, length-splice,
  slice-splice_self, slice-splice_above, slice-splice_below, Option-cases, Result-cases,
  get_elem?-set_self, get_elem?-set_ne,
}
use native.Mathlib.Decide.{ℕ_discrete}
use nova_vm.Common.Bytes.{to_le, from_le-to_le, length-to_le}
use nova_vm.Mem.Region.{MemError, size}
use nova_vm.Mem.Memory.{
  GuestRegion, Memory, holds, find_from, locate, with_bytes, write_slice, read_slice, write_uint,
  read_uint,
}

-- The index that the search gives is that of a region which holds the address at that offset.
pub find_from-get :
    (i : ℕ) (m : Memory) (addr j o : ℕ)
    → find_from i m addr ≡ some (j, o)
    → (k : ℕ) × (r : GuestRegion) × (j ≡ i + k)
      × (get_elem? m k ≡ some r)
      × (o < size r.mmap)
      × (addr ≡ r.guest_base + o)
unfolding find_from
find_from-get i [] addr j o h = cc
find_from-get i (x ∷ m) addr j o h = elim (Bool-cases (holds x addr)) [
  | inl e ↦ (0, x, ground arith, refl, ground arith, ground arith)
  | inr e ↦
      let (k, r, p, q, a, b) = find_from-get (suc i) m addr j o (ground arith) in
      (suc k, r, omega arith, q, a, b)
]

find_from-set :
    (i : ℕ) (m : Memory) (k : ℕ) (r : GuestRegion) (bs : List ℕ) (addr : ℕ)
    → get_elem? m k ≡ some r
    → length bs ≡ size r.mmap
    → find_from i (set m k (with_bytes r bs)) addr ≡ find_from i m addr
unfolding find_from
find_from-set i [] k r bs addr e l = refl
find_from-set i (x ∷ m) zero r bs addr e l = ground arith
find_from-set i (x ∷ m) (suc k) r bs addr e l = rw (find_from-set (suc i) m k r bs addr e l)

-- What a located range is: the region's index, its offset and enough room.
pub record Located (m : Memory) (a n i o : ℕ) (r : GuestRegion) : Type 0 where
  pub found : find_from 0 m a ≡ some (i, o)
  pub region : get_elem? m i ≡ some r
  pub room : o + n ≤ size r.mmap
  pub index_in : i < length m
  pub base : a ≡ r.guest_base + o

get_elem?-lt : (m : Memory) (i : ℕ) (r : GuestRegion) → get_elem? m i ≡ some r → i < length m
get_elem?-lt [] i r h = cc
get_elem?-lt (x ∷ m) zero r h = omega arith
get_elem?-lt (x ∷ m) (suc i) r h = omega (arith, get_elem?-lt m i r h)

pub locate-Located :
    (m : Memory) (a n i o : ℕ) (r : GuestRegion) → locate m a n ≡ ok (i, o, r) → Located m a n i o r
unfolding locate
locate-Located m a n i o r h =
    let found : find_from 0 m a ≡ some (i, o) = ground arith in
    let region : get_elem? m i ≡ some r = ground arith in
    let (k, s, p, q, b, c) = find_from-get 0 m a i o found in
    record {
      found = found;
      region = region;
      room = ground arith;
      index_in = get_elem?-lt m i r region;
      base = ground arith;
    }

-- The other way: a located range is what `locate` gives.
pub locate_of_Located :
    (m : Memory) (a n i o : ℕ) (r : GuestRegion) → Located m a n i o r → locate m a n ≡ ok (i, o, r)
unfolding locate
locate_of_Located m a n i o r v = ground arith

-- `write_slice` succeeds exactly with a located range, and this is the new memory.
pub write_slice-ok :
    (m : Memory) (a : ℕ) (bs : List ℕ) (m' : Memory)
    → write_slice m a bs ≡ ok m'
    → (i : ℕ) × (o : ℕ) × (r : GuestRegion) × Located m a (length bs) i o r
      × (m' ≡ set m i (with_bytes r (splice r.mmap.bytes o bs)))
unfolding write_slice
write_slice-ok m a bs m' h = elim (Result-cases (locate m a (length bs))) [
  | inl ((i, o, r), e) ↦ (i, o, r, locate-Located m a (length bs) i o r e, ground arith)
  | inr (x, e) ↦ ground arith
]

-- `read_slice` succeeds exactly with a located range, and gives its bytes.
pub read_slice-ok :
    (m : Memory) (a n : ℕ) (bs : List ℕ)
    → read_slice m a n ≡ ok bs
    → (i : ℕ) × (o : ℕ) × (r : GuestRegion) × Located m a n i o r × (bs ≡ slice r.mmap.bytes o n)
unfolding read_slice
read_slice-ok m a n bs h = elim (Result-cases (locate m a n)) [
  | inl ((i, o, r), e) ↦ (i, o, r, locate-Located m a n i o r e, ground arith)
  | inr (x, e) ↦ ground arith
]

-- The bytes just written are read back: the whole range, at the same address.
pub read_slice-write_slice_self :
    (m : Memory) (a : ℕ) (bs : List ℕ) (m' : Memory)
    → write_slice m a bs ≡ ok m'
    → read_slice m' a (length bs) ≡ ok bs
unfolding read_slice locate
read_slice-write_slice_self m a bs m' h =
    let (i, o, r, v, e) = write_slice-ok m a bs m' h in
    let bytes = splice r.mmap.bytes o bs in
    let len : length bytes ≡ size r.mmap = length-splice r.mmap.bytes o bs in
    rw e (
      ground (
        arith,
        find_from-set 0 m i r bytes a v.region len,
        get_elem?-set_self m i (with_bytes r bytes) v.index_in,
        slice-splice_self r.mmap.bytes o bs v.room,
      ))

-- The write of `bs` at offset `o` of region `i`, seen from a range at another address.
module _ (m : Memory) (a i o : ℕ) (r : GuestRegion) (bs : List ℕ)
    (v : Located m a (length bs) i o r) where
  bytes : List ℕ
  bytes = splice r.mmap.bytes o bs

  read_other_region :
      (b n j p : ℕ)
      → find_from 0 m b ≡ some (j, p)
      → i ≢ j
      → read_slice (set m i (with_bytes r bytes)) b n ≡ read_slice m b n
  unfolding read_slice locate bytes
  read_other_region b n j p e ne = ground (
    arith,
    find_from-set 0 m i r bytes b v.region (length-splice r.mmap.bytes o bs),
    get_elem?-set_ne m {i = i} {j = j} (with_bytes r bytes) ne,
  )

  read_same_region :
      (b n p : ℕ)
      → find_from 0 m b ≡ some (i, p)
      → (b + n ≤ a) ⊎ (a + length bs ≤ b)
      → read_slice (set m i (with_bytes r bytes)) b n ≡ read_slice m b n
  unfolding read_slice locate bytes
  read_same_region b n p e apart =
      let (k, s, q, at, room, base) = find_from-get 0 m b i p e in
      let same : s ≡ r = ground (arith, v.region) in
      let addr : b ≡ r.guest_base + p = rw (← same) base in
      ground (
        arith,
        find_from-set 0 m i r bytes b v.region (length-splice r.mmap.bytes o bs),
        get_elem?-set_self m i (with_bytes r bytes) v.index_in,
        length-splice r.mmap.bytes o bs,
        v.region,
        unchanged addr,
      )
    where
      unchanged : b ≡ r.guest_base + p → slice bytes p n ≡ slice r.mmap.bytes p n
      unchanged addr = elim apart [
        | inl h ↦ slice-splice_below r.mmap.bytes o bs p n (omega (arith, v.base))
        | inr h ↦ slice-splice_above r.mmap.bytes o bs p n (omega (arith, v.base))
      ]

  read_nowhere :
      (b n : ℕ)
      → find_from 0 m b ≡ none
      → read_slice (set m i (with_bytes r bytes)) b n ≡ read_slice m b n
  unfolding read_slice locate bytes
  read_nowhere b n e =
      ground (arith, find_from-set 0 m i r bytes b v.region (length-splice r.mmap.bytes o bs))

-- A write changes nothing that is read at a range of addresses apart from its own, neither the
-- bytes nor the error, whatever regions the two lie in.
pub read_slice-write_slice_ne :
    (m : Memory) (a : ℕ) (bs : List ℕ) (m' : Memory) (b n : ℕ)
    → write_slice m a bs ≡ ok m'
    → (b + n ≤ a) ⊎ (a + length bs ≤ b)
    → read_slice m' b n ≡ read_slice m b n
unfolding bytes
read_slice-write_slice_ne m a bs m' b n h apart =
    let (i, o, r, v, e) = write_slice-ok m a bs m' h in
    rw e (elim (Option-cases (find_from 0 m b)) [
      | inl f ↦ read_nowhere m a i o r bs v b n f
      | inr ((j, p), f) ↦ elim (ℕ_discrete i j) [
        | yes q ↦ read_same_region m a i o r bs v b n p (rw q f) apart
        | no q ↦ read_other_region m a i o r bs v b n j p f q
      ]
    ])

-- A write succeeds exactly where a read of as many bytes does; else both give the same error.
pub write_slice-iff_read_slice :
    (m : Memory) (a : ℕ) (bs : List ℕ) (e : MemError)
    → (write_slice m a bs ≡ err e) ↔ (read_slice m a (length bs) ≡ err e)
unfolding write_slice read_slice
write_slice-iff_read_slice m a bs e = elim (Result-cases (locate m a (length bs))) [
  | inl (t, f) ↦ rw f (ground arith)
  | inr (t, f) ↦ rw f (ground arith)
]

-- An integer of `k` bytes that was written is read back.
pub read_uint-write_uint :
    (m : Memory) (a k x : ℕ) (m' : Memory)
    → x < 256 ^ k
    → write_uint m a k x ≡ ok m'
    → read_uint m' a k ≡ ok x
unfolding write_uint read_uint
read_uint-write_uint m a k x m' lt h =
    let e : read_slice m' a k ≡ ok (to_le k x) =
      rw (length-to_le k x) at (read_slice-write_slice_self m a (to_le k x) m' h) in
    rw e (ap ok (from_le-to_le k x lt))

-- A written integer leaves the integers apart from it.
pub read_uint-write_uint_ne :
    (m : Memory) (a k x : ℕ) (m' : Memory) (b n : ℕ)
    → write_uint m a k x ≡ ok m'
    → (b + n ≤ a) ⊎ (a + k ≤ b)
    → read_uint m' b n ≡ read_uint m b n
unfolding write_uint read_uint
read_uint-write_uint_ne m a k x m' b n h apart =
    rw (read_slice-write_slice_ne m a (to_le k x) m' b n h (rw (length-to_le k x) apart))
