-- ===== src/Virtio/Queue/Pop.antt =====
-- What `Queue::pop` takes from the available ring.
use nova_vm.Common.{
  ℕ, zero, suc, ◌+◌, ◌%◌, ◌≤◌, ◌<◌, ◌≡◌, ◌≢◌, ◌⊎◌, ◌↔◌, inl, inr, true, false, none, some, List, [],
  ◌∷◌, ok, err, length, arith, Bool-cases, Result-cases,
}
use nova_vm.Mem.Address.{GuestAddress}
use nova_vm.Mem.Memory.{Memory}
use nova_vm.Virtio.Queue.{
  VirtqDesc, DescriptorChain, Fault, panicked, Queue, has_next, read_desc, walk, read_avail_idx,
  read_head, pop_chain, pop, u16_mod, has_pending,
}

-- The descriptors that a guest links from an index of its table, to the first that has no next.
pub data Chain (mem : Memory) (table : GuestAddress) : ℕ → List VirtqDesc → Type 0 where
  last :
      (idx : ℕ) (d : VirtqDesc)
      → read_desc mem table idx ≡ ok d
      → has_next d ≡ false
      → Chain mem table idx (d ∷ [])
  link :
      (idx : ℕ) (d : VirtqDesc) (ds : List VirtqDesc)
      → read_desc mem table idx ≡ ok d
      → has_next d ≡ true
      → Chain mem table d.next ds
      → Chain mem table idx (d ∷ ds)

walk-Chain :
    (mem : Memory) (table idx left : ℕ) (ds : List VirtqDesc)
    → walk mem table idx left ≡ ok ds
    → Chain mem table idx ds × (length ds ≤ left)
unfolding walk
walk-Chain mem table idx zero ds h = cc
walk-Chain mem table idx (suc left) ds h = elim (Result-cases (read_desc mem table idx)) [
  | inr (e, f) ↦ ground arith
  | inl (d, f) ↦ elim (Bool-cases (has_next d)) [
    | inl more ↦ elim (Result-cases (walk mem table d.next left)) [
      | inr (e, g) ↦ ground arith
      | inl (rest, g) ↦
          let (c, l) = walk-Chain mem table d.next left rest g in
          let shape : ds ≡ d ∷ rest = ground arith in
          rw shape (link idx d rest f more c, omega arith)
    ]
    | inr done ↦ let shape : ds ≡ d ∷ [] = ground arith in rw shape (last idx d f done, omega arith)
  ]
]

walk_of_Chain :
    (mem : Memory) (table idx : ℕ) (left : ℕ) (ds : List VirtqDesc)
    → Chain mem table idx ds
    → length ds ≤ left
    → walk mem table idx left ≡ ok ds
unfolding walk
walk_of_Chain mem table idx zero [] c l = elim c [ ]
walk_of_Chain mem table idx zero (d ∷ ds) c l = absurd (omega arith)
walk_of_Chain mem table idx (suc left) ds (last _ d e f) l = ground arith
walk_of_Chain mem table idx (suc left) ds (link _ d rest e f c) l =
    ground (arith, walk_of_Chain mem table d.next left rest c (omega arith))

-- The queue after a chain was taken.
abbrev pub advance : Queue → Queue
advance q = record q { next_avail = (q.next_avail + 1) % u16_mod }

-- A ready queue with a published entry, whose head index can be read, gives a chain exactly when
-- the descriptors linked from that head end within `size` of them, and gives all of those.
pub pop-iff-Chain :
    (q : Queue) (mem : Memory) (avail_idx head : ℕ) (ds : List VirtqDesc)
    → q.ready ≡ true
    → read_avail_idx q mem ≡ ok avail_idx
    → q.next_avail ≢ avail_idx
    → read_head q mem ≡ ok head
    → (pop q mem ≡ (advance q, ok (some (record { head_index = head; descriptors = ds }))))
      ↔ (Chain mem q.desc_table head ds × (length ds ≤ q.size))
unfolding pop
pop-iff-Chain q mem avail_idx head ds ready published pending at = (
  λ h. walk-Chain mem q.desc_table head q.size ds (ground arith),
  λ c. ground (arith, walk_of_Chain mem q.desc_table head q.size ds c.0 c.1),
)

Chain-pos :
    (mem : Memory) (table idx : ℕ) (ds : List VirtqDesc) → Chain mem table idx ds → 0 < length ds
Chain-pos mem table idx ds (last _ d e f) = omega arith
Chain-pos mem table idx ds (link _ d rest e f c) = omega arith

-- A chain that `pop_chain` gives is the walk from some head.
pop_chain-some :
    (q : Queue) (mem : Memory) (c : DescriptorChain)
    → pop_chain q mem ≡ ok (some c)
    → walk mem q.desc_table c.head_index q.size ≡ ok c.descriptors
unfolding pop_chain
pop_chain-some q mem c h = ground arith

-- Whatever is in guest memory, `pop` leaves the queue as it was, or it gives a chain of one to
-- `size` descriptors and moves `next_avail` on by one, modulo 2 ^ 16.
pub pop_steps :
    (q : Queue) (mem : Memory)
    → ((pop q mem).0 ≡ q)
      ⊎ ((c : DescriptorChain) × (pop q mem ≡ (advance q, ok (some c)))
          × (0 < length c.descriptors)
          × (length c.descriptors ≤ q.size))
unfolding pop
pop_steps q mem = elim (Result-cases (pop_chain q mem)) [
  | inr (e, f) ↦ inl (ground arith)
  | inl (none, f) ↦ inl (ground arith)
  | inl (some c, f) ↦
      let (chain, bound) =
        walk-Chain mem q.desc_table c.head_index q.size c.descriptors (pop_chain-some q mem c f) in
      inr (c, ground arith, Chain-pos mem q.desc_table c.head_index c.descriptors chain, bound)
]

-- A ready queue is reported empty by `pop` exactly when `has_pending` says that nothing waits.
pub pop-none-iff-has_pending :
    (q : Queue) (mem : Memory)
    → q.ready ≡ true
    → ((pop q mem).1 ≡ ok none) ↔ (has_pending q mem ≡ ok false)
unfolding pop has_pending
pop-none-iff-has_pending q mem ready = (λ h. ground arith, λ h. ground arith)

walk-ne-panicked : (mem : Memory) (table idx left : ℕ) → walk mem table idx left ≢ err panicked
unfolding walk
walk-ne-panicked mem table idx zero h = cc
walk-ne-panicked mem table idx (suc left) h = elim (Result-cases (read_desc mem table idx)) [
  | inr (e, f) ↦ ground arith
  | inl (d, f) ↦ ground (arith, walk-ne-panicked mem table d.next left)
]

read_head-panicked : (q : Queue) (mem : Memory) → (read_head q mem ≡ err panicked) ↔ (q.size ≡ 0)
unfolding read_head
read_head-panicked q mem = (λ h. ground arith, λ h. ground arith)

-- `pop` panics on a ready queue with an entry to take exactly when the size is zero, unless the
-- index cannot be read.
pub pop_panics_iff :
    (q : Queue) (mem : Memory) (avail_idx : ℕ)
    → q.ready ≡ true
    → read_avail_idx q mem ≡ ok avail_idx
    → q.next_avail ≢ avail_idx
    → ((pop q mem).1 ≡ err panicked) ↔ (q.size ≡ 0)
unfolding pop
pop_panics_iff q mem avail_idx ready published pending = (
  λ h. elim (Result-cases (read_head q mem)) [
    | inl (head, f) ↦ ground (arith, walk-ne-panicked mem q.desc_table head q.size)
    | inr (e, f) ↦ ground (arith, read_head-panicked q mem)
  ],
  λ h. ground (arith, (read_head-panicked q mem).1 h),
)

-- The ways in which `pop` ends, for its callers.
pub pop_cases :
    (q : Queue) (mem : Memory)
    → (pop q mem ≡ (q, ok none))
      ⊎ ((e : Fault) × (pop q mem ≡ (q, err e)))
      ⊎ ((c : DescriptorChain) × (pop q mem ≡ (advance q, ok (some c))))
unfolding pop
pop_cases q mem = elim (Result-cases (pop_chain q mem)) [
  | inr (e, f) ↦ inr (inl (e, ground arith))
  | inl (none, f) ↦ inl (ground arith)
  | inl (some c, f) ↦ inr (inr (c, ground arith))
]

-- A chain is given only for an entry that waits.
pub pop-some-pending :
    (q : Queue) (mem : Memory) (avail_idx : ℕ) (q' : Queue) (c : DescriptorChain)
    → pop q mem ≡ (q', ok (some c))
    → read_avail_idx q mem ≡ ok avail_idx
    → q.next_avail ≢ avail_idx
unfolding pop
pop-some-pending q mem avail_idx q' c h published same = ground arith
