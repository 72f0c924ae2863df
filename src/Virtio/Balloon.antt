-- ===== src/Virtio/Balloon.antt =====
-- crates/nova-virtio/src/balloon.rs. The atomics are plain fields: each access is one atomic step.
pub mod Guest
use nova_vm.Common.{
  ℕ, Bool, true, false, ◌&&◌, Option, none, List, ◌++◌, ok, ◌==◌, leb, if◌then◌else◌, length, slice,
  ◌≡◌,
}
use nova_vm.Common.Bytes.{to_le, from_le}
use nova_vm.Virtio.Config.{ack, config_bytes}
use nova_vm.Virtio.Trait.{VirtioDevice}

pub record Balloon : Type 0 where
  pub target_pages : ℕ
  pub actual_pages : ℕ
  pub acked_features : ℕ

unfoldable pub new : Balloon
new = record { target_pages = 0; actual_pages = 0; acked_features = 0 }

unfoldable pub set_target_pages : Balloon → ℕ → Balloon
set_target_pages b pages = record b { target_pages = pages }

-- `VirtioBalloonConfig`, as its bytes
abbrev pub config : Balloon → List ℕ
config b = to_le 4 b.target_pages ++ to_le 4 b.actual_pages

unfoldable pub read_config : Balloon → ℕ → ℕ → List ℕ
read_config b offset n = config_bytes (config b) offset n

unfoldable pub write_config : Balloon → ℕ → List ℕ → Balloon
write_config b offset bytes =
    if offset == 4 && leb 4 (length bytes)
    then record b { actual_pages = from_le (slice bytes 0 4) }
    else b

unfoldable pub reset : Balloon → Balloon
reset b = record { target_pages = 0; actual_pages = 0; acked_features = 0 }

instance abbrev pub balloon_device : VirtioDevice Balloon
balloon_device = record {
  device_type = λ b. 5;
  num_queues = λ b. 2;
  device_features = λ b page. 0;
  ack_features = λ b page value. record b { acked_features = ack b.acked_features page value };
  read_config = read_config;
  write_config = write_config;
  activate = λ b queues. (b, ok tt);
  queue_notify = λ b index mem. (b, mem);
  reset = reset;
  poll = λ b mem. (b, mem, false);
  activated_queues = λ b. none;
}
