-- ===== src/Virtio/Mmio.antt =====
-- crates/nova-virtio/src/mmio.rs: the virtio-mmio register block of one device. Register values are
-- `u32`: numbers below 2 ^ 32. `set_tap_fd` is left to the device.
pub mod Rings
pub mod Inv
pub mod Activate
use Prim.Native.Nat.{bit_or}
use nova_vm.Common.{
  ℕ, zero, suc, ◌+◌, ◌-◌, ◌*◌, ◌/◌, ◌%◌, ◌^◌, Bool, true, false, not, ◌&&◌, Option, none, some,
  List, [], ◌∷◌, Result, ok, err, ◌==◌, leb, ltb, if◌then◌else◌, get_elem?, set, replicate, bit_and,
}
use nova_vm.Common.Bytes.{to_le, from_le}
use nova_vm.Mem.Memory.{Memory}
use nova_vm.Virtio.Queue
use nova_vm.Virtio.Queue.{Queue}
use nova_vm.Virtio.Trait.{VirtioDevice}

-- The register offsets that `read` and `write` match on.
pub data Register : Type 0 where
  magic_value version device_id vendor_id : Register
  device_features device_features_sel driver_features driver_features_sel : Register
  queue_sel queue_num_max queue_num queue_ready queue_notify : Register
  interrupt_status interrupt_ack status : Register
  queue_desc_low queue_desc_high queue_avail_low queue_avail_high : Register
  queue_used_low queue_used_high config_generation : Register
  config_space : ℕ → Register
  unhandled : Register

abbrev pub mmio_config_space : ℕ
mmio_config_space = 0x100

-- The constants `MMIO_*`, and the arms for the config space and for everything else.
unfoldable pub register_at : ℕ → Register
register_at o =
    if o == 0x000
    then magic_value
    else if o == 0x004
    then version
    else if o == 0x008
    then device_id
    else if o == 0x00C
    then vendor_id
    else if o == 0x010
    then device_features
    else if o == 0x014
    then device_features_sel
    else if o == 0x020
    then driver_features
    else if o == 0x024
    then driver_features_sel
    else if o == 0x030
    then queue_sel
    else if o == 0x034
    then queue_num_max
    else if o == 0x038
    then queue_num
    else if o == 0x044
    then queue_ready
    else if o == 0x050
    then queue_notify
    else if o == 0x060
    then interrupt_status
    else if o == 0x064
    then interrupt_ack
    else if o == 0x070
    then status
    else if o == 0x080
    then queue_desc_low
    else if o == 0x084
    then queue_desc_high
    else if o == 0x090
    then queue_avail_low
    else if o == 0x094
    then queue_avail_high
    else if o == 0x0A0
    then queue_used_low
    else if o == 0x0A4
    then queue_used_high
    else if o == 0x0FC
    then config_generation
    else if leb mmio_config_space o
    then config_space (o - mmio_config_space)
    else unhandled

abbrev pub u32_mod : ℕ
u32_mod = 2 ^ 32

abbrev pub status_driver_ok : ℕ
status_driver_ok = 4

abbrev pub status_failed : ℕ
status_failed = 128

-- `status = STATUS_ACKNOWLEDGE | STATUS_DRIVER | STATUS_FEATURES_OK | STATUS_DRIVER_OK`
abbrev pub status_restored : ℕ
status_restored = 15

-- `MmioTransport`; `guest_memory` says whether it is set.
pub record Transport (D : Type 0) : Type 0 where
  pub device : D
  pub queues : List Queue
  pub queue_sel : ℕ
  pub status : ℕ
  pub interrupt_status : ℕ
  pub device_features_sel : ℕ
  pub driver_features_sel : ℕ
  pub driver_features : ℕ × ℕ
  pub config_generation : ℕ
  pub activated : Bool
  pub guest_memory : Bool

-- `(addr & 0xFFFF_FFFF_0000_0000) | value`, for a `u32` value
abbrev pub with_low : ℕ → ℕ → ℕ
with_low addr value = addr / u32_mod * u32_mod + value

-- `(addr & 0x0000_0000_FFFF_FFFF) | (value << 32)`
abbrev pub with_high : ℕ → ℕ → ℕ
with_high addr value = addr % u32_mod + value * u32_mod

-- `!value` of a `u32`
abbrev pub complement : ℕ → ℕ
complement value = u32_mod - 1 - value

module _ {D : Type 0} where
  -- `queues.get(queue_sel)`
  abbrev pub selected : Transport D → Option Queue
  selected t = get_elem? t.queues t.queue_sel

  -- `if let Some(q) = queues.get_mut(queue_sel) { … }`
  unfoldable pub on_selected : Transport D → (Queue → Queue) → Transport D
  on_selected t f = elim (selected t) [
    | none ↦ t
    | some q ↦ record t { queues = set t.queues t.queue_sel (f q) }
  ]

  -- `raise_interrupt`
  unfoldable pub raise_interrupt : Transport D → Transport D
  raise_interrupt t = record t { interrupt_status = bit_or t.interrupt_status 1 }

  -- `set_guest_memory`
  unfoldable pub set_guest_memory : Transport D → Transport D
  set_guest_memory t = record t { guest_memory = true }

module _ {D : Type 0} ⦃dev : VirtioDevice D⦄ where
  -- `MmioTransport::new`
  unfoldable pub new : D → Transport D
  new d = record {
    device = d;
    queues = replicate (dev.num_queues d) (Queue.new 256);
    queue_sel = 0;
    status = 0;
    interrupt_status = 0;
    device_features_sel = 0;
    driver_features_sel = 0;
    driver_features = (0, 0);
    config_generation = 0;
    activated = false;
    guest_memory = false;
  }

  -- `MmioTransport::read`, at a decoded offset
  unfoldable pub read_register : Transport D → Register → ℕ
  read_register t magic_value = 0x7472_6976
  read_register t version = 2
  read_register t device_id = dev.device_type t.device
  read_register t vendor_id = 0x4E6F_7661
  read_register t device_features =
      let features = dev.device_features t.device t.device_features_sel in
      if t.device_features_sel == 1 then bit_or features 1 else features
  read_register t queue_num_max = elim (selected t) [ some q ↦ q.max_size | none ↦ 0 ]
  read_register t queue_ready = elim (selected t) [ some q ↦ (if q.ready then 1 else 0) | none ↦ 0 ]
  read_register t interrupt_status = t.interrupt_status
  read_register t status = t.status
  read_register t config_generation = t.config_generation
  read_register t (config_space o) = from_le (dev.read_config t.device o 4)
  read_register t _ = 0

  unfoldable pub read : Transport D → ℕ → ℕ
  unfolding register_at read_register
  read t offset = read_register t (register_at offset)

  -- The `MMIO_DRIVER_FEATURES` arm
  unfoldable pub accept_features : Transport D → ℕ → Transport D
  accept_features t value =
      if ltb t.driver_features_sel 2
      then record t {
        driver_features =
            if t.driver_features_sel == 0
            then (value, t.driver_features.1)
            else (t.driver_features.0, value);
        device = dev.ack_features t.device t.driver_features_sel value;
      }
      else t

  -- Activation by `DRIVER_OK`: the queues are drained in any case.
  unfoldable pub activate : Transport D → Transport D
  activate t =
      if t.guest_memory
      then (let (d, r) = dev.activate t.device t.queues in
          elim r [
            | ok _ ↦ record t { device = d; queues = []; activated = true }
            | err _ ↦ record t { device = d; queues = []; status = bit_or t.status status_failed }
          ])
      else record t { queues = []; status = bit_or t.status status_failed }

  -- The `MMIO_STATUS` arm
  unfoldable pub write_status : Transport D → ℕ → Transport D
  unfolding activate
  write_status t value =
      let t' = record t { status = value } in
      if value == 0
      then record t' { device = dev.reset t.device; activated = false }
      else if not (bit_and value status_driver_ok == 0) && not t.activated
      then activate t'
      else t'

  -- `MmioTransport::write`, at a decoded offset
  unfoldable pub write_register : Transport D → Memory → Register → ℕ → Transport D × Memory
  write_register t mem device_features_sel value = (record t { device_features_sel = value }, mem)
  write_register t mem driver_features value = (accept_features t value, mem)
  write_register t mem driver_features_sel value = (record t { driver_features_sel = value }, mem)
  write_register t mem queue_sel value = (record t { queue_sel = value }, mem)
  write_register t mem queue_num value =
      (on_selected t (λ q. record q { size = value % Queue.u16_mod }), mem)
  write_register t mem queue_ready value =
      (on_selected t (λ q. record q { ready = value == 1 }), mem)
  write_register t mem queue_notify value =
      if t.guest_memory
      then (let (d, mem') = dev.queue_notify t.device (value % Queue.u16_mod) mem in
          (record t { device = d }, mem'))
      else (t, mem)
  write_register t mem interrupt_ack value =
      (record t { interrupt_status = bit_and t.interrupt_status (complement value) }, mem)
  write_register t mem status value = (write_status t value, mem)
  write_register t mem queue_desc_low value =
      (on_selected t (λ q. record q { desc_table = with_low q.desc_table value }), mem)
  write_register t mem queue_desc_high value =
      (on_selected t (λ q. record q { desc_table = with_high q.desc_table value }), mem)
  write_register t mem queue_avail_low value =
      (on_selected t (λ q. record q { avail_ring = with_low q.avail_ring value }), mem)
  write_register t mem queue_avail_high value =
      (on_selected t (λ q. record q { avail_ring = with_high q.avail_ring value }), mem)
  write_register t mem queue_used_low value =
      (on_selected t (λ q. record q { used_ring = with_low q.used_ring value }), mem)
  write_register t mem queue_used_high value =
      (on_selected t (λ q. record q { used_ring = with_high q.used_ring value }), mem)
  write_register t mem (config_space o) value = (
    record t {
      device = dev.write_config t.device o (to_le 4 value);
      config_generation = (t.config_generation + 1) % u32_mod;
    },
    mem,
  )
  write_register t mem _ value = (t, mem)

  unfoldable pub write : Transport D → Memory → ℕ → ℕ → Transport D × Memory
  unfolding register_at write_register
  write t mem offset value = write_register t mem (register_at offset) value

  -- `MmioTransport::poll`
  unfoldable pub poll : Transport D → Memory → Transport D × Memory × Bool
  poll t mem =
      if t.activated
      then (let (d, mem', signalled) = dev.poll t.device mem in
          if signalled
          then (record t { device = d; interrupt_status = bit_or t.interrupt_status 1 }, mem', true)
          else (record t { device = d }, mem', false))
      else (t, mem, false)

  -- `MmioTransport::force_activate`
  unfoldable pub force_activate : Transport D → List Queue → Transport D
  force_activate t queues =
      if t.guest_memory
      then (let (d, r) = dev.activate t.device queues in
          elim r [
            | ok _ ↦ record t { device = d; status = status_restored; activated = true }
            | err _ ↦ record t { device = d }
          ])
      else t
