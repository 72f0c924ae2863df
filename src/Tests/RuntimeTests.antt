-- ===== src/Tests/RuntimeTests.antt =====
-- A pool of two VMs, a VM and a Wasm sandbox, and small caches.
use nova_vm.Common.{ℕ, ◌≡◌, refl, none, [], leb, arith, ◌++◌, if◌then◌else◌, length, min}
use nova_vm.Runtime.Pool
use nova_vm.Runtime.Pool.{PoolConfig, PoolVmTemplate, PoolInner, WarmVm, cold_boot, acquire}
use nova_vm.Runtime.Pool.Replenish.{plan, push, make_vms, retain_fresh, take_ids, push_each}
use nova_vm.Runtime.Pool.Replenish.Step.{PoolSystem, Step, Reach, PoolInv, hold}
use nova_vm.Runtime.Pool.Replenish.Goal.{round, round_reaches_target}
use nova_vm.Runtime.Pool.Replenish.Safety.{Reach-PoolInv}

abbrev template : PoolVmTemplate
template = record {
  vcpus = 1;
  memory_mib = 64;
  kernel_path = "bzImage";
  initrd_path = none;
  cmdline = "quiet";
}

abbrev two : PoolConfig
two = record {
  target_pool_size = 2;
  max_pool_size = 2;
  warm_strategy = cold_boot;
  max_idle_time = 60;
  replenish_interval = 1;
  vm_template = template;
}

abbrev clock : ℕ → ℕ
clock id = 10

abbrev begun : PoolSystem
begun = record { inner = Pool.new two; in_flight = []; held = []; dropped = 0 }

abbrev planned : PoolSystem
planned = record begun {
  inner = (plan two 10 begun.inner).0;
  in_flight = make_vms two none clock (plan two 10 begun.inner).1;
}

abbrev pushed : PoolSystem
pushed = record planned { inner = push two planned.inner planned.in_flight; in_flight = [] }

abbrev served : PoolSystem
served = record pushed {
  inner = (acquire pushed.inner).0;
  held = hold (acquire pushed.inner).1 pushed.held;
}

served-Reach : Reach two served
unfolding Pool.new
served-Reach =
    let p = Reach.steps Reach.starts (Step.plans begun 10 none clock refl refl (omega arith)) in
    Reach.steps (Reach.steps p (Step.pushes planned)) (Step.acquires pushed)

served_ids :
    (served.inner.stats.ready_count ≡ 1) × (length served.held ≡ 1) × (served.inner.next_id ≡ 3)
unfolding Pool.new plan push push_each make_vms retain_fresh take_ids acquire
served_ids = (refl, refl, refl)

Reach-PoolInv_example : PoolInv two served
Reach-PoolInv_example = Reach-PoolInv two served-Reach

round_reaches_target_example :
    let s' = round two 10 none clock (Pool.new two) in
    let kept = retain_fresh two 10 (Pool.new two).ready in
    let goal = min (Pool.new two).target_size two.max_pool_size in
    (s'.ready ≡ kept ++ make_vms two none clock (plan two 10 (Pool.new two)).1)
    × (length s'.ready ≡ (if leb (length kept) goal then goal else length kept))
    × (s'.stats.ready_count ≡ length s'.ready)
round_reaches_target_example = round_reaches_target two 10 none clock (Pool.new two)
