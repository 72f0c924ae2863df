-- ===== src/Tests/VirtioTests.antt =====
-- A queue of two entries in 256 bytes of guest memory, and a balloon behind its transport.
use nova_vm.Common.{
  ℕ, ◌≤◌, ◌≡◌, refl, ◌↔◌, inl, true, false, some, List, [], ◌∷◌, ◌++◌, ok, arith, replicate,
  get_elem?, ◌==◌, if◌then◌else◌,
}
use nova_vm.Common.Bytes.{to_le}
use nova_vm.Mem.Memory.{Memory, locate, read_slice, write_slice, read_uint, write_uint}
use nova_vm.Virtio.Queue.{
  VirtqDesc, DescriptorChain, Queue, pop, add_used, used_elem, walk, read_desc, has_next,
  read_avail_idx, read_head,
}
use nova_vm.Virtio.Queue.Pop.{Chain, advance, pop-iff-Chain}
use nova_vm.Virtio.Queue.Used.{add_used_publishes}
use nova_vm.Virtio.Mmio
use nova_vm.Virtio.Mmio.{
  Transport, write_register, read_register, read, write, status_driver_ok, status_failed,
}
use nova_vm.Virtio.Mmio.Inv.{Inv, Step, Reach, Reach-Inv}
use nova_vm.Virtio.Mmio.Rings.{Setup, setup_writes, programmed, writes, setup_programs}
use nova_vm.Virtio.Mmio.Activate.{reset_loses_queues}
use nova_vm.Virtio.Balloon
use nova_vm.Virtio.Balloon.{Balloon, balloon_device, set_target_pages}

abbrev pub desc_bytes : ℕ → ℕ → ℕ → ℕ → List ℕ
desc_bytes addr len flags next = to_le 8 addr ++ (to_le 4 len ++ (to_le 2 flags ++ to_le 2 next))

-- Two descriptors at 0, the available ring at 32 with index 1 and head 0, zeros behind.
abbrev ram : ℕ → List ℕ
ram flags = desc_bytes 64 16 flags 1 ++ (desc_bytes 96 32 2 0 ++ (to_le 4 65536 ++ replicate 92 0))

abbrev pub memory_of : List ℕ → Memory
memory_of bs = record { guest_base = 0; mmap = record { bytes = bs; hugetlb = false } } ∷ []

-- Descriptor 0 links to descriptor 1.
abbrev linked : Memory
linked = memory_of (ram 1)

abbrev pub queue : Queue
queue = record {
  max_size = 256;
  size = 2;
  ready = true;
  desc_table = 0;
  avail_ring = 32;
  used_ring = 40;
  next_avail = 0;
  next_used = 0;
}

abbrev d0 : VirtqDesc
d0 = record { addr = 64; len = 16; flags = 1; next = 1 }

abbrev d1 : VirtqDesc
d1 = record { addr = 96; len = 32; flags = 2; next = 0 }

abbrev both : DescriptorChain
both = record { head_index = 0; descriptors = d0 ∷ d1 ∷ [] }

pop-linked : pop queue linked ≡ (advance queue, ok (some both))
unfolding pop read_avail_idx read_head walk read_desc has_next read_uint read_slice locate
pop-linked = refl

published : read_avail_idx queue linked ≡ ok 1
unfolding read_avail_idx read_uint read_slice locate
published = refl

pop-iff-Chain_example :
    (pop queue linked ≡ (advance queue, ok (some both)))
    ↔ (Chain linked 0 0 (d0 ∷ d1 ∷ []) × (2 ≤ 2))
unfolding read_head read_uint read_slice locate
pop-iff-Chain_example =
    pop-iff-Chain queue linked 1 0 (d0 ∷ d1 ∷ []) refl published (omega arith) refl

-- A queue that the guest has given the size 0x1_0000.
abbrev unsized : Queue
unsized = record queue { size = 0 }

-- Memory after head 0 was returned with length 5.
abbrev returned : Memory
returned = memory_of (
    desc_bytes 64 16 1 1
    ++ (desc_bytes 96 32 2 0
        ++ (to_le 4 65536
            ++ (to_le 4 0 ++ (to_le 4 65536 ++ (to_le 4 0 ++ (to_le 4 5 ++ replicate 76 0)))))))

add_used-linked : (add_used queue linked 0 5).0.next_used ≡ 1
unfolding add_used read_slice locate write_slice write_uint
add_used-linked = refl

add_used_publishes_example :
    let (q', mem', _) = add_used queue linked 0 5 in
    (q'.next_used ≡ 1)
    × (read_uint mem' 42 2 ≡ ok q'.next_used)
    × (read_slice mem' 44 8 ≡ ok (used_elem 0 5))
    × (read_slice mem' 0 40 ≡ read_slice linked 0 40)
unfolding add_used read_slice locate write_slice write_uint
add_used_publishes_example =
    add_used_publishes queue linked 0 5 (add_used queue linked 0 5).0 (add_used queue linked 0 5).1
      0 40 refl (inl (omega arith)) (omega arith) (omega arith)

-- A new transport with guest memory.
abbrev transport : Transport Balloon
transport = record {
  device = record { target_pages = 0; actual_pages = 0; acked_features = 0 };
  queues = queue ∷ queue ∷ [];
  queue_sel = 0;
  status = 0;
  interrupt_status = 0;
  device_features_sel = 0;
  driver_features_sel = 0;
  driver_features = (0, 0);
  config_generation = 0;
  activated = false;
  guest_memory = true;
}

abbrev wanted : Setup
wanted = record {
  num = 64;
  desc_low = 0x1000;
  desc_high = 1;
  avail_low = 0x2000;
  avail_high = 0;
  used_low = 0x3000;
  used_high = 0;
}

setup_programs_example :
    let (t', mem') = writes transport linked (setup_writes 1 wanted) in
    (get_elem? t'.queues 1
      ≡ (if 1 == 1 then some (programmed wanted queue) else get_elem? transport.queues 1))
    × (t' ≡ record transport { queues = t'.queues; queue_sel = 1 })
    × (mem' ≡ linked)
setup_programs_example = setup_programs transport linked 1 wanted queue 1 (omega arith) refl

reset_loses_queues_example :
    let t₁ = (write_register transport linked Mmio.status 15).0 in
    let t₂ = record (write_register t₁ linked Mmio.status 0).0 { queue_sel = 1 } in
    (read_register t₂ Mmio.queue_num_max ≡ 0)
    × ((write_register t₂ linked Mmio.status 15).0.device ≡ Balloon.reset transport.device)
reset_loses_queues_example =
    reset_loses_queues transport linked 15 1 15 refl refl (omega arith) (omega arith)

Reach-Inv_example : Inv (write_register (Mmio.new Balloon.new) linked Mmio.queue_sel 1).0
Reach-Inv_example = Reach-Inv Balloon.new (
    Reach.next Reach.start
      (Step.write (Mmio.new Balloon.new) linked Mmio.queue_sel 1 (omega arith)))
