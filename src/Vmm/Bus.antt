-- ===== src/Vmm/Bus.antt =====
-- crates/nova-vmm/src/device_mgr.rs: the MMIO bus. The devices are of one type `D`, which may be a
-- sum; guest memory is threaded through; injected interrupts are listed, newest last.
pub mod Dispatch
use nova_vm.Common.{
  ℕ, ◌+◌, ◌-◌, ◌*◌, ◌/◌, ◌%◌, ◌^◌, Bool, true, false, ◌&&◌, ◌||◌, Option, none, some, List, [], ◌∷◌,
  ◌++◌, ◌==◌, ltb, leb, if◌then◌else◌,
}
use nova_vm.Mem.Address.{GuestAddress, add}
use nova_vm.Mem.Memory.{Memory}
use nova_vm.Virtio.Queue.{Queue}
use nova_vm.Virtio.Trait.{VirtioDevice}
use nova_vm.Virtio.Mmio
use nova_vm.Virtio.Mmio.{Transport}

pub record MmioDevice (D : Type 0) : Type 0 where
  pub base : ℕ
  pub size : ℕ
  pub transport : Transport D
  pub irq : Option ℕ

pub record MmioBus (D : Type 0) : Type 0 where
  pub devices : List (MmioDevice D)
  pub vm_fd : Option ℕ

-- `addr >= dev.base && addr < dev.base + dev.size`
unfoldable pub contains : {D : Type 0} → MmioDevice D → GuestAddress → Bool
contains d a = leb d.base a && ltb a (add d.base d.size)

-- The widths that the bus serves
unfoldable pub is_width : ℕ → Bool
is_width size = size == 1 || size == 2 || size == 4

-- `offset & !0x3`
abbrev pub aligned : ℕ → ℕ
aligned offset = offset - offset % 4

module _ {D : Type 0} where
  unfoldable pub new : MmioBus D
  new = record { devices = []; vm_fd = none }

  unfoldable pub set_vm_fd : MmioBus D → ℕ → MmioBus D
  set_vm_fd bus fd = record bus { vm_fd = some fd }

  unfoldable pub register : MmioBus D → ℕ → ℕ → Transport D → Option ℕ → MmioBus D
  register bus base size transport irq = record bus {
    devices =
        bus.devices ++ (record { base = base; size = size; transport = transport; irq = irq } ∷ []);
  }

module _ {D : Type 0} ⦃dev : VirtioDevice D⦄ where
  -- One device's answer; `None` for a width that is not served.
  unfoldable pub read_device : Transport D → ℕ → ℕ → Option ℕ
  read_device t offset size =
      if size == 4
      then some (Mmio.read t offset)
      else if size == 1
      then some (Mmio.read t (aligned offset) / 2 ^ (8 * (offset % 4)) % 2 ^ 8)
      else if size == 2
      then some (Mmio.read t (aligned offset) / 2 ^ (16 * (offset % 4 / 2)) % 2 ^ 16)
      else none

  -- `for dev in &self.devices`: a width that is not served goes on with the next device.
  unfoldable pub read_from : List (MmioDevice D) → GuestAddress → ℕ → Option ℕ
  read_from [] a size = none
  read_from (d ∷ ds) a size =
      let rest = read_from ds a size in
      if contains d a
      then elim (read_device d.transport (a - d.base) size) [ some v ↦ some v | none ↦ rest ]
      else rest

  -- `MmioBus::read`
  unfoldable pub read : MmioBus D → GuestAddress → ℕ → Option ℕ
  read bus a size = read_from bus.devices a size

  unfoldable pub write_to :
      List (MmioDevice D) → Memory → GuestAddress → ℕ → ℕ → List (MmioDevice D) × Memory × Bool
  write_to [] mem a size value = ([], mem, false)
  write_to (d ∷ ds) mem a size value =
      let (ds', mem', done) = write_to ds mem a size value in
      let (t, mem'') = Mmio.write d.transport mem (a - d.base) value in
      if contains d a && is_width size
      then (record d { transport = t } ∷ ds, mem'', true)
      else (d ∷ ds', mem', done)

  -- `MmioBus::write`
  unfoldable pub write : MmioBus D → Memory → GuestAddress → ℕ → ℕ → MmioBus D × Memory × Bool
  write bus mem a size value =
      let (ds, mem', done) = write_to bus.devices mem a size value in
      (record bus { devices = ds }, mem', done)

  -- The devices, memory, the interrupts injected and whether any device signalled
  unfoldable pub poll_each :
      List (MmioDevice D) → Memory → List (MmioDevice D) × Memory × List ℕ × Bool
  poll_each [] mem = ([], mem, [], false)
  poll_each (d ∷ ds) mem =
      let (t, mem', signalled) = Mmio.poll d.transport mem in
      let (ds', mem'', irqs, any) = poll_each ds mem' in
      let own : List ℕ = if signalled then elim d.irq [ none ↦ [] | some irq ↦ irq ∷ [] ] else [] in
      (record d { transport = t } ∷ ds', mem'', own ++ irqs, signalled || any)

  -- Nothing is polled before the VM descriptor is set.
  unfoldable pub poll_devices : MmioBus D → Memory → MmioBus D × Memory × List ℕ × Bool
  poll_devices bus mem = elim bus.vm_fd [
    | none ↦ (bus, mem, [], false)
    | some fd ↦
        let (ds, mem', irqs, any) = poll_each bus.devices mem in
        (record bus { devices = ds }, mem', irqs, any)
  ]

  unfoldable pub force_activate_first : List (MmioDevice D) → ℕ → List Queue → List (MmioDevice D)
  force_activate_first [] device_type queues = []
  force_activate_first (d ∷ ds) device_type queues =
      let rest = force_activate_first ds device_type queues in
      if dev.device_type d.transport.device == device_type
      then record d { transport = Mmio.force_activate d.transport queues } ∷ ds
      else d ∷ rest

  unfoldable pub force_activate_device : MmioBus D → ℕ → List Queue → MmioBus D
  force_activate_device bus device_type queues = record bus {
    devices = force_activate_first bus.devices device_type queues;
  }

  unfoldable pub device_info : List (MmioDevice D) → List (ℕ × ℕ × ℕ)
  device_info [] = []
  device_info (d ∷ ds) = (d.base, d.size, dev.device_type d.transport.device) ∷ device_info ds

  unfoldable pub snapshot_virtio_queues : List (MmioDevice D) → List (ℕ × List Queue)
  snapshot_virtio_queues [] = []
  snapshot_virtio_queues (d ∷ ds) =
      let rest = snapshot_virtio_queues ds in
      elim (dev.activated_queues d.transport.device) [
        | none ↦ rest
        | some queues ↦ (dev.device_type d.transport.device, queues) ∷ rest
      ]
