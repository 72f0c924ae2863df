-- ===== src/Virtio/Queue.antt =====
-- crates/nova-virtio/src/queue.rs: the split virtqueue. Rings and descriptors lie in guest memory.
pub mod Pop
pub mod Used
use nova_vm.Common.{
  ℕ, zero, suc, ◌+◌, ◌*◌, ◌%◌, ◌^◌, Bool, true, false, not, Option, none, some, List, [], ◌∷◌, ◌++◌,
  Result, ok, err, ◌>>=◌, ◌>>◌, map_err, ◌==◌, if◌then◌else◌, slice, bit_and,
}
use nova_vm.Common.Bytes.{to_le, from_le}
use nova_vm.Mem.Address.{GuestAddress, add}
use nova_vm.Mem.Region.{MemError}
use nova_vm.Mem.Memory.{Memory, read_uint, read_slice, write_slice, write_uint}

pub record VirtqDesc : Type 0 where
  pub addr : ℕ
  pub len : ℕ
  pub flags : ℕ
  pub next : ℕ

abbrev pub virtq_desc_f_next : ℕ
virtq_desc_f_next = 1

abbrev pub virtq_desc_f_write : ℕ
virtq_desc_f_write = 2

pub record DescriptorChain : Type 0 where
  pub head_index : ℕ
  pub descriptors : List VirtqDesc

-- `flags & VIRTQ_DESC_F_NEXT != 0`
unfoldable pub has_next : VirtqDesc → Bool
has_next d = not (bit_and d.flags virtq_desc_f_next == 0)

-- `flags & VIRTQ_DESC_F_WRITE != 0`
unfoldable pub is_writable : VirtqDesc → Bool
is_writable d = not (bit_and d.flags virtq_desc_f_write == 0)

unfoldable pub readable_of : List VirtqDesc → List VirtqDesc
readable_of [] = []
readable_of (d ∷ ds) = let rest = readable_of ds in if is_writable d then rest else d ∷ rest

unfoldable pub writable_of : List VirtqDesc → List VirtqDesc
writable_of [] = []
writable_of (d ∷ ds) = let rest = writable_of ds in if is_writable d then d ∷ rest else rest

-- `DescriptorChain::readable`
abbrev pub readable : DescriptorChain → List VirtqDesc
readable c = readable_of c.descriptors

-- `DescriptorChain::writable`
abbrev pub writable : DescriptorChain → List VirtqDesc
writable c = writable_of c.descriptors

-- `VirtioError`; the texts and the `io::Error` are not looked at.
pub data VirtioError : Type 0 where
  invalid_chain queue_not_ready io_error activation_error : VirtioError
  memory : MemError → VirtioError
  invalid_mmio_access : ℕ → ℕ → VirtioError

-- A call ends with an error, or it panics.
pub data Fault : Type 0 where
  error : VirtioError → Fault
  panicked : Fault

pub record Queue : Type 0 where
  pub max_size : ℕ
  pub size : ℕ
  pub ready : Bool
  pub desc_table : GuestAddress
  pub avail_ring : GuestAddress
  pub used_ring : GuestAddress
  pub next_avail : ℕ
  pub next_used : ℕ

-- `Queue::new`
unfoldable pub new : ℕ → Queue
new max_size = record {
  max_size = max_size;
  size = max_size;
  ready = false;
  desc_table = 0;
  avail_ring = 0;
  used_ring = 0;
  next_avail = 0;
  next_used = 0;
}

abbrev pub u16_mod : ℕ
u16_mod = 2 ^ 16

-- `?` on a `MemError`
abbrev pub mem_fault {ℓ} : {A : Type ℓ} → Result MemError A → Result Fault A
mem_fault r = map_err (λ e. error (memory e)) r

-- `a % b` of Rust, which panics at a zero divisor.
abbrev pub checked_rem : ℕ → ℕ → Result Fault ℕ
checked_rem a b = if b == 0 then err panicked else ok (a % b)

abbrev decode_desc : List ℕ → VirtqDesc
decode_desc bs = record {
  addr = from_le (slice bs 0 8);
  len = from_le (slice bs 8 4);
  flags = from_le (slice bs 12 2);
  next = from_le (slice bs 14 2);
}

-- The descriptor at an index of the table: 16 bytes.
unfoldable pub read_desc : Memory → GuestAddress → ℕ → Result MemError VirtqDesc
read_desc mem table idx = do bs ← read_slice mem (add table (idx * 16)) 16; ok (decode_desc bs)

-- The `loop` of `pop`, with `left` = `size - seen`.
unfoldable pub walk : Memory → GuestAddress → ℕ → ℕ → Result Fault (List VirtqDesc)
walk mem table idx zero = err (error invalid_chain)
walk mem table idx (suc left) = do
  d ← mem_fault (read_desc mem table idx)
  elim (has_next d) [ true ↦ do ds ← walk mem table d.next left; ok (d ∷ ds) | false ↦ ok (d ∷ []) ]

-- The index that the guest has published.
unfoldable pub read_avail_idx : Queue → Memory → Result MemError ℕ
read_avail_idx q mem = read_uint mem (add q.avail_ring 2) 2

-- The next entry of the available ring.
unfoldable pub read_head : Queue → Memory → Result Fault ℕ
read_head q mem = do
  slot ← checked_rem q.next_avail q.size
  mem_fault (read_uint mem (add q.avail_ring (4 + slot * 2)) 2)

-- What `pop` reads before it moves on.
unfoldable pub pop_chain : Queue → Memory → Result Fault (Option DescriptorChain)
pop_chain q mem = if not q.ready then err (error queue_not_ready) else do
  avail_idx ← mem_fault (read_avail_idx q mem)
  if q.next_avail == avail_idx then ok none else do
    head ← read_head q mem
    ds ← walk mem q.desc_table head q.size
    ok (some (record { head_index = head; descriptors = ds }))

-- `Queue::pop`: the queue afterwards, and the result.
unfoldable pub pop : Queue → Memory → Queue × Result Fault (Option DescriptorChain)
unfolding pop_chain
pop q mem = elim (pop_chain q mem) [
  | ok (some c) ↦ (record q { next_avail = (q.next_avail + 1) % u16_mod }, ok (some c))
  | ok none ↦ (q, ok none)
  | err e ↦ (q, err e)
]

-- `VirtqUsedElem`, as bytes: `id` and `len`.
abbrev pub used_elem : ℕ → ℕ → List ℕ
used_elem id len = to_le 4 id ++ to_le 4 len

-- `Queue::add_used`: the queue and the memory afterwards, and the result.
unfoldable pub add_used : Queue → Memory → ℕ → ℕ → Queue × Memory × Result Fault (Unit {0})
add_used q mem head_index len = elim (checked_rem q.next_used q.size) [
  | err e ↦ (q, mem, err e)
  | ok slot ↦ elim (write_slice mem (add q.used_ring (4 + slot * 8)) (used_elem head_index len)) [
    | err e ↦ (q, mem, err (error (memory e)))
    | ok mem' ↦
        let q' = record q { next_used = (q.next_used + 1) % u16_mod } in
        elim (write_uint mem' (add q.used_ring 2) 2 q'.next_used) [
          | err e ↦ (q', mem', err (error (memory e)))
          | ok mem'' ↦ (q', mem'', ok tt)
        ]
  ]
]

-- `Queue::needs_notification`
unfoldable pub needs_notification : Queue → Memory → Result Fault Bool
needs_notification q mem = do
  flags ← mem_fault (read_uint mem q.avail_ring 2)
  ok (bit_and flags 1 == 0)

-- `Queue::has_pending`
unfoldable pub has_pending : Queue → Memory → Result Fault Bool
has_pending q mem = do
  avail_idx ← mem_fault (read_avail_idx q mem)
  ok (not (q.next_avail == avail_idx))
