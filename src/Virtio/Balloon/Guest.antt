-- ===== src/Virtio/Balloon/Guest.antt =====
-- The balloon as the guest sees it, through the registers of its transport.
use nova_vm.Common.{ℕ, ◌+◌, ◌%◌, ◌<◌, ◌≡◌, refl, arith}
use nova_vm.Common.Bytes.{to_le, from_le, from_le-to_le}
use nova_vm.Mem.Memory.{Memory}
use nova_vm.Virtio.Config.{config_bytes-eq-slice}
use nova_vm.Virtio.Mmio.{Transport, read, write, u32_mod}
use nova_vm.Virtio.Balloon.{
  Balloon, config, read_config, write_config, set_target_pages, balloon_device,
}

read_target :
    (b : Balloon) → b.target_pages < u32_mod → from_le (read_config b 0 4) ≡ b.target_pages
unfolding read_config
read_target b h =
    rw (config_bytes-eq-slice (config b) 0 4 (omega arith)) (from_le-to_le 4 b.target_pages h)

read_actual :
    (b : Balloon) → b.actual_pages < u32_mod → from_le (read_config b 4 4) ≡ b.actual_pages
unfolding read_config
read_actual b h =
    rw (config_bytes-eq-slice (config b) 4 4 (omega arith)) (from_le-to_le 4 b.actual_pages h)

-- The guest reads the target that the host has set, and what it writes as its actual size is what
-- the host and the guest then read; the target stays, and the config generation moves on.
pub balloon_dialogue :
    (t : Transport Balloon) (mem : Memory) (pages v : ℕ)
    → pages < u32_mod
    → v < u32_mod
    → let asked = record t { device = set_target_pages t.device pages } in
      let answered = (write asked mem 0x104 v).0 in
      (read asked 0x100 ≡ pages)
      × (read answered 0x104 ≡ v)
      × (read answered 0x100 ≡ pages)
      × (answered.device.actual_pages ≡ v)
      × (answered.config_generation ≡ (t.config_generation + 1) % u32_mod)
unfolding read write set_target_pages write_config
balloon_dialogue t mem pages v hp hv =
    let value : from_le (to_le 4 v) ≡ v = from_le-to_le 4 v hv in
    (
      read_target (record t.device { target_pages = pages }) hp,
      rw value (read_actual (record t.device { target_pages = pages; actual_pages = v }) hv),
      rw value (read_target (record t.device { target_pages = pages; actual_pages = v }) hp),
      value,
      refl,
    )
