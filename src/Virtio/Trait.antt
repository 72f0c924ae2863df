-- ===== src/Virtio/Trait.antt =====
-- The trait `VirtioDevice` of crates/nova-virtio/src/mmio.rs. Guest memory is one shared object
-- (`Arc<GuestMemoryMmap>`): a method that can write it takes it and gives it back, and a clone of the
-- `Arc` that a device keeps is the fact that it has one.
use nova_vm.Common.{ℕ, Bool, List, Option, Result}
use nova_vm.Mem.Memory.{Memory}
use nova_vm.Virtio.Queue.{Queue, VirtioError}

pub record VirtioDevice (D : Type 0) : Type 0 where
  pub device_type : D → ℕ
  pub num_queues : D → ℕ
  pub device_features : D → ℕ → ℕ
  pub ack_features : D → ℕ → ℕ → D
  -- `read_config d offset n`: the `n` bytes that the call fills.
  pub read_config : D → ℕ → ℕ → List ℕ
  pub write_config : D → ℕ → List ℕ → D
  pub activate : D → List Queue → D × Result VirtioError (Unit {0})
  pub queue_notify : D → ℕ → Memory → D × Memory
  pub reset : D → D
  pub poll : D → Memory → D × Memory × Bool
  pub activated_queues : D → Option (List Queue)
