-- ===== src/Virtio/Net.antt =====
-- crates/nova-virtio/src/net.rs: packets between the virtqueues and a TAP device. The TAP is the list
-- of what `read` on its descriptor will give, and of the frames handed to `write`; the outcome of a
-- `write` is only logged. `irqs` counts the writes to the interrupt eventfd.
pub mod Frame
pub mod Transmit
pub mod Receive
pub mod Device
pub mod Signals
use Prim.Native.Nat.{bit_or}
use nova_vm.Common.{
  ℕ, zero, suc, ◌+◌, ◌-◌, ◌*◌, ◌%◌, ◌^◌, min, Bool, true, false, not, ◌&&◌, Option, none, some,
  List, [], ◌∷◌, ◌++◌, Result, ok, err, ◌==◌, leb, ltb, if◌then◌else◌, length, slice, take,
  replicate, get_elem?, set,
}
use nova_vm.Common.Bytes.{to_le}
use nova_vm.Mem.Address.{add}
use nova_vm.Mem.Region.{MemError}
use nova_vm.Mem.Memory.{Memory, read_slice, write_slice}
use nova_vm.Virtio.Queue
use nova_vm.Virtio.Queue.{
  VirtqDesc, DescriptorChain, Fault, error, panicked, VirtioError, Queue, pop, add_used, readable,
  writable,
}
use nova_vm.Virtio.Config.{ack, config_bytes}

abbrev pub max_frame_size : ℕ
max_frame_size = 1514

abbrev pub vnet_hdr_size : ℕ
vnet_hdr_size = 12

pub record Tap : Type 0 where
  pub incoming : List (List ℕ)
  pub sent : List (List ℕ)

pub record Net : Type 0 where
  pub has_tap : Bool
  pub tap : Tap
  pub mac : List ℕ
  pub link_status : ℕ
  pub acked_features : ℕ
  pub queues : Option (List Queue)
  pub has_mem : Bool
  pub has_irq : Bool
  pub irqs : ℕ

abbrev pub or_empty : Result MemError (List ℕ) → List ℕ
or_empty (ok bs) = bs
or_empty (err e) = []

-- The frame of a chain: its readable bytes behind the first `skip`, without the parts that cannot
-- be read.
unfoldable pub gather : Memory → ℕ → List VirtqDesc → List ℕ
gather mem skip [] = []
gather mem skip (d ∷ ds) = elim (leb d.len skip) [
  | true ↦ gather mem (skip - d.len) ds
  | false ↦ or_empty (read_slice mem (add d.addr skip) (d.len - skip)) ++ gather mem 0 ds
]

-- `write` to the TAP, made for a frame that is not empty
unfoldable pub send : Tap → List ℕ → Tap
send tap [] = tap
send tap (b ∷ bs) = record tap { sent = tap.sent ++ (b ∷ bs) ∷ [] }

-- What a run of one of the loops ends with.
pub record Ran : Type 0 where
  pub queue : Queue
  pub mem : Memory
  pub tap : Tap
  pub count : ℕ

-- The `loop` of `process_tx`, on fuel: `none` when that runs out, `err` for a panic.
unfoldable pub tx_loop : ℕ → Queue → Memory → Tap → ℕ → Option (Result Fault Ran)
tx_loop zero q mem tap n = none
tx_loop (suc fuel) q mem tap n =
    let (q', r) = pop q mem in
    elim r [
      | ok (some c) ↦
          let (q'', mem', _) = add_used q' mem c.head_index 0 in
          tx_loop fuel q'' mem' (send tap (gather mem vnet_hdr_size (readable c))) (n + 1)
      | ok none ↦ some (ok (record { queue = q'; mem = mem; tap = tap; count = n }))
      | err (error e) ↦ some (ok (record { queue = q'; mem = mem; tap = tap; count = n }))
      | err panicked ↦ some (err panicked)
    ]

abbrev pub or_same : Memory → Result MemError Memory → Memory
or_same mem (ok m) = m
or_same mem (err e) = mem

-- The payload copied into the writable descriptors, in order: the memory, and how much was counted.
-- A failed write is counted too.
unfoldable pub scatter : Memory → List ℕ → ℕ → List VirtqDesc → Memory × ℕ
scatter mem payload written [] = (mem, written)
scatter mem payload written (d ∷ ds) =
    let write_len = min d.len (length payload - written) in
    let rest =
      scatter (or_same mem (write_slice mem d.addr (slice payload written write_len))) payload
        (written + write_len) ds in
    if leb (length payload) written then (mem, written) else rest

-- The zeroed header and the frame.
abbrev pub payload_of : List ℕ → List ℕ
payload_of frame = replicate vnet_hdr_size 0 ++ frame

-- The `loop` of `process_rx`: it ends with no frame left to read, an empty read, or no chain for the
-- frame, which is lost then.
unfoldable pub rx_loop : List (List ℕ) → Queue → Memory → Tap → ℕ → Result Fault Ran
rx_loop [] q mem tap n =
    ok (record { queue = q; mem = mem; tap = record tap { incoming = [] }; count = n })
rx_loop ([] ∷ frames) q mem tap n =
    ok (record { queue = q; mem = mem; tap = record tap { incoming = frames }; count = n })
rx_loop ((b ∷ bs) ∷ frames) q mem tap n =
    let (q', r) = pop q mem in
    let tap' = record tap { incoming = frames } in
    elim r [
      | ok (some c) ↦
          let (mem', written) =
            scatter mem (payload_of (take max_frame_size (b ∷ bs))) 0 (writable c) in
          let (q'', mem'', _) = add_used q' mem' c.head_index written in
          rx_loop frames q'' mem'' tap' (n + 1)
      | ok none ↦ ok (record { queue = q'; mem = mem; tap = tap'; count = n })
      | err (error e) ↦ ok (record { queue = q'; mem = mem; tap = tap'; count = n })
      | err panicked ↦ err panicked
    ]
