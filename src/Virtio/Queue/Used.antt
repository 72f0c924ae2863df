-- ===== src/Virtio/Queue/Used.antt =====
-- What `Queue::add_used` publishes to the guest.
use native.Mathlib.Decide.{ℕ_discrete}
use nova_vm.Common.{
  ℕ, ◌+◌, ◌*◌, ◌%◌, ◌≤◌, ◌<◌, ◌≡◌, ◌≢◌, ◌∙◌, ◌⊎◌, inl, inr, ok, length, arith, Result-cases,
}
use nova_vm.Common.Bytes.{to_le, length-to_le}
use nova_vm.Mem.Address.{GuestAddress, add, u64_mod}
use nova_vm.Mem.Memory.{Memory, read_uint, read_slice, write_slice, write_uint}
use nova_vm.Mem.Access.{
  read_slice-write_slice_self, read_slice-write_slice_ne, read_uint-write_uint,
}
use nova_vm.Virtio.Queue.{Queue, used_elem, add_used, u16_mod}

-- Where the next used element goes.
abbrev pub slot_address : Queue → GuestAddress
slot_address q = add q.used_ring (4 + q.next_used % q.size * 8)

-- What a completed `add_used` has done: both writes, element first.
add_used_parts :
    (q : Queue) (mem : Memory) (head len : ℕ) (q' : Queue) (mem' : Memory)
    → add_used q mem head len ≡ (q', mem', ok tt)
    → (q.size ≢ 0)
      × (q' ≡ record q { next_used = (q.next_used + 1) % u16_mod })
      × ((m : Memory) × (write_slice mem (slot_address q) (used_elem head len) ≡ ok m)
          × (write_uint m (add q.used_ring 2) 2 ((q.next_used + 1) % u16_mod) ≡ ok mem'))
unfolding add_used
add_used_parts q mem head len q' mem' h = elim (ℕ_discrete q.size 0) [
  | yes z ↦ ground arith
  | no nz ↦ elim (Result-cases (write_slice mem (slot_address q) (used_elem head len))) [
    | inr (e, f) ↦ ground arith
    | inl (m, f) ↦ (nz, ground arith, (m, f, ground arith))
  ]
]

-- The slot lies in the ring behind its header, and no address of the ring wraps.
slot_place :
    (q : Queue)
    → q.size ≢ 0
    → q.used_ring + 4 + q.size * 8 ≤ u64_mod
    → (slot_address q ≡ q.used_ring + 4 + q.next_used % q.size * 8)
      × (q.used_ring + 4 ≤ slot_address q)
      × (slot_address q + 8 ≤ q.used_ring + 4 + q.size * 8)
      × (add q.used_ring 2 ≡ q.used_ring + 2)
slot_place q nz fits =
    let lt : q.next_used % q.size < q.size = omega arith in
    let place : slot_address q ≡ q.used_ring + 4 + q.next_used % q.size * 8 = omega arith in
    (place, omega arith, omega arith, omega arith)

-- A completed `add_used` is visible to the guest: the used index in memory is the queue's own, moved
-- on by one, and the slot that the old index named holds the head and the length. What lies apart
-- from the ring is as before. The ring must lie below the end of the address space.
pub add_used_publishes :
    (q : Queue) (mem : Memory) (head len : ℕ) (q' : Queue) (mem' : Memory) (b n : ℕ)
    → add_used q mem head len ≡ (q', mem', ok tt)
    → (b + n ≤ q.used_ring) ⊎ (q.used_ring + 4 + q.size * 8 ≤ b)
    → q.used_ring + 4 + q.size * 8 ≤ u64_mod
    → q.next_used < u16_mod
    → (q'.next_used ≡ (q.next_used + 1) % u16_mod)
      × (read_uint mem' (q.used_ring + 2) 2 ≡ ok q'.next_used)
      × (read_slice mem' (slot_address q) 8 ≡ ok (used_elem head len))
      × (read_slice mem' b n ≡ read_slice mem b n)
unfolding write_uint
add_used_publishes q mem head len q' mem' b n h away fits small =
    let (nz, e, (m, first, second)) = add_used_parts q mem head len q' mem' h in
    let (slot, low, high, idx) = slot_place q nz fits in
    let index_len : length (to_le 2 ((q.next_used + 1) % u16_mod)) ≡ 2 =
      length-to_le 2 ((q.next_used + 1) % u16_mod) in
    let later : (b n : ℕ)
        → (b + n ≤ q.used_ring + 2) ⊎ (q.used_ring + 4 ≤ b)
        → read_slice mem' b n ≡ read_slice m b n =
      λ b n apart.
        read_slice-write_slice_ne m _ _ mem' b n second (omega (arith, index_len, idx)) in
    (
      rw e,
      rw e (rw idx at (read_uint-write_uint m (add q.used_ring 2) 2 _ mem' (omega arith) second)),
      later (slot_address q) 8 (inr (omega arith))
          ∙ read_slice-write_slice_self mem (slot_address q) (used_elem head len) m first,
      later b n (omega arith)
          ∙ read_slice-write_slice_ne mem (slot_address q) (used_elem head len) m b n first
              (omega arith),
    )

-- Whatever becomes of the call, memory apart from the used ring is as before.
pub add_used-read_slice_ne :
    (q : Queue) (mem : Memory) (head len b n : ℕ)
    → (b + n ≤ q.used_ring) ⊎ (q.used_ring + 4 + q.size * 8 ≤ b)
    → q.used_ring + 4 + q.size * 8 ≤ u64_mod
    → read_slice (add_used q mem head len).1 b n ≡ read_slice mem b n
unfolding add_used write_uint
add_used-read_slice_ne q mem head len b n away fits = elim (ℕ_discrete q.size 0) [
  | yes z ↦ ground arith
  | no nz ↦
      let (slot, low, high, idx) = slot_place q nz fits in
      elim (Result-cases (write_slice mem (slot_address q) (used_elem head len))) [
        | inr (e, f) ↦ ground arith
        | inl (m, f) ↦
            let one =
              read_slice-write_slice_ne mem (slot_address q) (used_elem head len) m b n f
                (omega arith) in
            let new_idx = to_le 2 ((q.next_used + 1) % u16_mod) in
            elim (Result-cases (write_slice m (add q.used_ring 2) new_idx)) [
              | inr (e, g) ↦ ground (arith, one)
              | inl (m', g) ↦ ground (
                arith,
                one,
                read_slice-write_slice_ne m (add q.used_ring 2) new_idx m' b n g
                    (omega (arith, idx)),
              )
            ]
      ]
]

-- The call moves `next_used` at most, and leaves the rest of the queue.
pub add_used-queue :
    (q : Queue) (mem : Memory) (head len : ℕ)
    → (add_used q mem head len).0 ≡ record q { next_used = (add_used q mem head len).0.next_used }
unfolding add_used
add_used-queue q mem head len = ground arith
