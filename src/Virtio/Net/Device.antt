-- ===== src/Virtio/Net/Device.antt =====
-- crates/nova-virtio/src/net.rs: the methods around the two packet loops. `mem` of a method is the
-- memory that the device was activated with; a panic of a loop is the method's, and `none` says that
-- the fuel of the transmit loop ran out.
use nova_vm.Common.{
  ℕ, ◌+◌, ◌^◌, Bool, true, false, ◌&&◌, Option, none, some, List, [], ◌++◌, Result, ok, ◌>>=◌, ◌==◌,
  if◌then◌else◌, get_elem?, set,
}
use nova_vm.Common.Bytes.{to_le}
use nova_vm.Mem.Memory.{Memory}
use nova_vm.Virtio.Queue.{Queue, Fault}
use nova_vm.Virtio.Config.{ack, config_bytes}
use nova_vm.Virtio.Net.{Net, Ran, tx_loop, rx_loop}

-- `VIRTIO_NET_F_MAC | VIRTIO_NET_F_STATUS`
abbrev pub features : ℕ
features = 2 ^ 5 + 2 ^ 16

-- `Net::new`; the link is up.
unfoldable pub new : List ℕ → Net
new mac = record {
  has_tap = false;
  tap = record { incoming = []; sent = [] };
  mac = mac;
  link_status = 1;
  acked_features = 0;
  queues = none;
  has_mem = false;
  has_irq = false;
  irqs = 0;
}

unfoldable pub set_tap_fd : Net → Net
set_tap_fd net = record net { has_tap = true }

unfoldable pub set_irq_fd : Net → Net
set_irq_fd net = record net { has_irq = true }

unfoldable pub signal_irq : Net → Net
signal_irq net = if net.has_irq then record net { irqs = net.irqs + 1 } else net

unfoldable pub device_features : Net → ℕ → ℕ
device_features net page = if page == 0 then features else 0

unfoldable pub ack_features : Net → ℕ → ℕ → Net
ack_features net page value = record net { acked_features = ack net.acked_features page value }

unfoldable pub read_config : Net → ℕ → ℕ → List ℕ
read_config net offset n = config_bytes (net.mac ++ to_le 2 net.link_status) offset n

unfoldable pub activate : Net → List Queue → Net
activate net queues = record net { queues = some queues; has_mem = true }

unfoldable pub reset : Net → Net
reset net = record net { acked_features = 0; queues = none; has_mem = false }

-- The guards of `process_tx` and `process_rx`: the queues and the one at an index, where there is a
-- TAP, and queues and memory from an activation.
unfoldable pub ready_queue : Net → ℕ → Option (List Queue × Queue)
ready_queue net i =
    if net.has_tap && net.has_mem
    then elim net.queues [
      | none ↦ none
      | some queues ↦ elim (get_elem? queues i) [ none ↦ none | some q ↦ some (queues, q) ]
    ]
    else none

-- The device after a loop over the queue at an index.
abbrev pub ran : Net → List Queue → ℕ → Ran → Net
ran net queues i r = record net { tap = r.tap; queues = some (set queues i r.queue) }

unfoldable pub process_tx : ℕ → Net → Memory → Option (Result Fault (Net × Memory × ℕ))
process_tx fuel net mem = elim (ready_queue net 1) [
  | none ↦ some (ok (net, mem, 0))
  | some (queues, q) ↦ elim (tx_loop fuel q mem net.tap 0) [
    | none ↦ none
    | some r ↦ some (do r' ← r; ok (ran net queues 1 r', r'.mem, r'.count))
  ]
]

-- `received` is set by each packet.
unfoldable pub process_rx : Net → Memory → Result Fault (Net × Memory × Bool)
process_rx net mem = elim (ready_queue net 0) [
  | none ↦ ok (net, mem, false)
  | some (queues, q) ↦ do
    r ← rx_loop net.tap.incoming q mem net.tap 0
    if r.count == 0
        then ok (ran net queues 0 r, r.mem, false)
        else ok (signal_irq (ran net queues 0 r), r.mem, true)
]

-- `queue_notify`: only the transmit queue is served.
unfoldable pub queue_notify : ℕ → Net → ℕ → Memory → Option (Result Fault (Net × Memory))
queue_notify fuel net i mem =
    let sent = process_tx fuel net mem in
    if i == 1
    then elim sent [ none ↦ none | some r ↦ some (do (net', mem', count) ← r; ok (net', mem')) ]
    else some (ok (net, mem))
