-- ===== src/Tests/NetTests.antt =====
-- The network device with a queue of two entries in 256 bytes of guest memory.
use nova_vm.Common.{
  ℕ, ◌≡◌, refl, inl, true, false, Bool, Option, some, List, [], ◌∷◌, ◌++◌, Result, ok, err, arith,
  replicate,
}
use nova_vm.Common.Bytes.{to_le}
use nova_vm.Mem.Memory.{Memory, locate, read_slice, write_slice, read_uint, write_uint}
use nova_vm.Virtio.Queue.{
  VirtqDesc, Fault, pop, add_used, walk, read_desc, has_next, read_avail_idx, read_head,
  is_writable, readable_of, writable_of,
}
use nova_vm.Virtio.Net.{Net, Tap, Ran, tx_loop, rx_loop, gather, scatter, send}
use nova_vm.Virtio.Net.Transmit.{Ends, tx_loop-Ends}
use nova_vm.Virtio.Net.Device
use nova_vm.Virtio.Net.Device.{process_rx, ready_queue, signal_irq}
use nova_vm.Virtio.Net.Signals.{Polled, process_rx-Polled}
use nova_vm.Tests.VirtioTests.{desc_bytes, memory_of, queue}

abbrev tap : Tap
tap = record { incoming = []; sent = [] }

-- Sixteen bytes of which the last four are a frame.
abbrev tx_ram : Memory
tx_ram = memory_of (
    desc_bytes 64 16 0 0
    ++ (replicate 16 0
        ++ (to_le 4 65536 ++ (replicate 28 0 ++ (replicate 12 0 ++ (1 ∷ 2 ∷ 3 ∷ 4 ∷ []))))))

abbrev tx_desc : VirtqDesc
tx_desc = record { addr = 64; len = 16; flags = 0; next = 0 }

tx_loop-Ends_example : Ends queue tx_ram tap 1 0 (tx_loop 2 queue tx_ram tap 0)
unfolding read_avail_idx read_uint read_slice locate
tx_loop-Ends_example =
    tx_loop-Ends 2 queue tx_ram tap 0 1 (record { fits = omega arith; apart = inl (omega arith) })
      refl (omega arith) (omega arith) (omega arith)

abbrev outcome : Option (Result Fault Ran) → List (List ℕ) × ℕ
outcome (some (ok r)) = (r.tap.sent, r.count)
outcome _ = ([], 0)

tx_sends_frame : outcome (tx_loop 2 queue tx_ram tap 0) ≡ ((1 ∷ 2 ∷ 3 ∷ 4 ∷ []) ∷ [], 1)
unfolding tx_loop pop read_avail_idx read_head walk read_desc has_next read_uint read_slice locate
    gather send readable_of is_writable add_used write_slice write_uint
tx_sends_frame = refl

-- One writable descriptor of 32 bytes at 96.
abbrev rx_ram : List ℕ → Memory
rx_ram buffer = memory_of (
    desc_bytes 96 32 2 0
    ++ (replicate 16 0 ++ (to_le 4 65536 ++ (replicate 60 0 ++ (buffer ++ replicate 18 0)))))

-- The device with a TAP, an interrupt and two queues, and one frame that waits.
abbrev device : Net
device = record (Device.new (2 ∷ 0 ∷ 0 ∷ 0 ∷ 0 ∷ 1 ∷ [])) {
  has_tap = true;
  has_irq = true;
  has_mem = true;
  queues = some (queue ∷ queue ∷ []);
  tap = record { incoming = (7 ∷ 8 ∷ []) ∷ []; sent = [] };
}

abbrev polled : Result Fault (Net × Memory × Bool) → Net × Memory × Bool
polled (ok t) = t
polled (err e) = (device, [], false)

abbrev after : Net × Memory × Bool
after = polled (process_rx device (rx_ram (replicate 14 0)))

process_rx-Polled_example : Polled device (rx_ram (replicate 14 0)) after.0 after.1 true
unfolding Device.new process_rx ready_queue signal_irq rx_loop scatter pop read_avail_idx read_head
    walk read_desc has_next read_uint read_slice locate writable_of is_writable write_slice add_used
    write_uint
process_rx-Polled_example =
    process_rx-Polled device (rx_ram (replicate 14 0)) after.0 after.1 true refl
