-- ===== src/Mem/Contiguous.antt =====
-- In memory whose regions are in ascending order, a part of a range that can be read is read with it.
use nova_vm.Common.{
  ℕ, zero, suc, ◌+◌, ◌-◌, ◌≤◌, ◌<◌, ◌≡◌, refl, sym, ap, ◌∙◌, some, List, [], ◌∷◌, ok, get_elem?,
  slice, drop, slice-none, drop-nil, nil-slice, arith, Bool-cases, inl, inr, take,
}
use nova_vm.Mem.Region.{size}
use nova_vm.Mem.Memory.{GuestRegion, Memory, holds, find_from, read_slice}
use nova_vm.Mem.Layout.{Ascending}
use nova_vm.Mem.Access.{locate_of_Located, find_from-get, read_slice-ok}

find_from-index : (i : ℕ) (m : Memory) (a j o : ℕ) → find_from i m a ≡ some (j, o) → i ≤ j
find_from-index i m a j o h = let (k, r, p, _, _, _) = find_from-get i m a j o h in omega arith

Ascending-get_elem? :
    (lo : ℕ) (m : Memory) (k : ℕ) (r : GuestRegion)
    → Ascending lo m
    → get_elem? m k ≡ some r
    → lo ≤ r.guest_base
Ascending-get_elem? lo [] k r asc h = cc
Ascending-get_elem? lo (x ∷ m) zero r asc h = ground (arith, asc.0)
Ascending-get_elem? lo (x ∷ m) (suc k) r asc h =
    omega (arith, asc.0, Ascending-get_elem? x.guest_base m k r asc.1 h)

-- A later address in the same region is found in the same region.
find_from_later :
    (lo i : ℕ) (m : Memory) (a j o s : ℕ) (r : GuestRegion)
    → Ascending lo m
    → find_from i m a ≡ some (j, o)
    → get_elem? m (j - i) ≡ some r
    → o + s < size r.mmap
    → find_from i m (a + s) ≡ some (j, o + s)
unfolding find_from
find_from_later lo i [] a j o s r asc h hr room = cc
find_from_later lo i (x ∷ m) a j o s r asc h hr room = elim (Bool-cases (holds x a)) [
  | inl e ↦
      let zero_index : j - i ≡ 0 = ground arith in
      let same : some x ≡ some r = rw zero_index at hr in ground (arith, same)
  | inr e ↦
      let h' : find_from (suc i) m a ≡ some (j, o) = ground arith in
      let (k, r', p, q, inside, base) = find_from-get (suc i) m a j o h' in
      let before : x.guest_base ≤ r'.guest_base = Ascending-get_elem? x.guest_base m k r' asc.1 q in
      let index : j - i ≡ suc (j - suc i) = omega arith in
      let hr' : get_elem? m (j - suc i) ≡ some r = rw index at hr in
      let ih = find_from_later x.guest_base (suc i) m a j o s r asc.1 h' hr' room in
      ground (arith, ih)
]

module _ {ℓ} {A : Type ℓ} where
  drop-take : (xs : List A) (n s : ℕ) → drop s (take n xs) ≡ slice xs s (n - s)
  drop-take xs n zero = ap (λ k. take k xs) (omega arith)
  drop-take xs zero (suc s) =
      sym (ap (slice xs (suc s)) {y = 0} (omega arith) ∙ slice-none xs (suc s))
  drop-take [] (suc n) (suc s) = refl
  drop-take (x ∷ xs) (suc n) (suc s) = drop-take xs n s ∙ ap (slice xs s) (omega arith)

  drop-slice : (xs : List A) (o n s : ℕ) → drop s (slice xs o n) ≡ slice xs (o + s) (n - s)
  drop-slice xs zero n s = drop-take xs n s ∙ ap (λ k. slice xs k (n - s)) (omega arith)
  drop-slice [] (suc o) n s = rw (drop-nil s, nil-slice)
  drop-slice (x ∷ xs) (suc o) n s =
      drop-slice xs o n s ∙ ap (λ k. slice (x ∷ xs) k (n - s)) {x = suc (o + s)} (omega arith)

-- The bytes from `s` on of a range that can be read are what a read from there on gives.
pub read_slice-drop :
    (m : Memory) (a n s : ℕ) (bs : List ℕ)
    → Ascending 0 m
    → read_slice m a n ≡ ok bs
    → s < n
    → read_slice m (a + s) (n - s) ≡ ok (drop s bs)
unfolding read_slice
read_slice-drop m a n s bs asc h lt =
    let (i, o, r, v, e) = read_slice-ok m a n bs h in
    let found =
      find_from_later 0 0 m a i o s r asc v.found (ap (get_elem? m) (omega arith) ∙ v.region)
        (omega (arith, v.room)) in
    let there = locate_of_Located m (a + s) (n - s) i (o + s) r (record {
      found = found;
      region = v.region;
      room = omega (arith, v.room);
      index_in = v.index_in;
      base = omega (arith, v.base);
    }) in
    ground (arith, there, drop-slice r.mmap.bytes o n s)
