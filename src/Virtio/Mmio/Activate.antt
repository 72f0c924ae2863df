-- ===== src/Virtio/Mmio/Activate.antt =====
-- What a transport keeps of its device after activation, and what a reset leaves.
use nova_vm.Common.{ℕ, ◌≡◌, ◌≢◌, true, false, [], arith, bit_and}
use nova_vm.Mem.Memory.{Memory}
use nova_vm.Virtio.Trait.{VirtioDevice}
use nova_vm.Virtio.Mmio.{
  status, queue_num_max, Transport, status_driver_ok, write_status, write_register, read_register,
}

module _ {D : Type 0} ⦃dev : VirtioDevice D⦄ where
  -- An active transport takes no second activation: a status other than zero is only stored.
  pub active_keeps_device :
      (t : Transport D) (mem : Memory) (value : ℕ)
      → t.activated ≡ true
      → value ≢ 0
      → write_register t mem status value ≡ (record t { status = value }, mem)
  unfolding write_register write_status
  active_keeps_device t mem value active nz = ground arith

  -- The queues are lost: after a device was activated and then reset, the driver finds no queue,
  -- whichever it selects, and the next `DRIVER_OK` hands the device an empty list.
  pub reset_loses_queues :
      (t : Transport D) (mem : Memory) (value sel again : ℕ)
      → t.activated ≡ false
      → t.guest_memory ≡ true
      → bit_and value status_driver_ok ≢ 0
      → bit_and again status_driver_ok ≢ 0
      → let t₁ = (write_register t mem status value).0 in
        let t₂ = record (write_register t₁ mem status 0).0 { queue_sel = sel } in
        (read_register t₂ queue_num_max ≡ 0)
        × ((write_register t₂ mem status again).0.device
            ≡ (dev.activate (dev.reset (dev.activate t.device t.queues).0) []).0)
  unfolding write_register write_status read_register
  reset_loses_queues t mem value sel again inactive has_mem ok₁ ok₂ = (ground arith, ground arith)
