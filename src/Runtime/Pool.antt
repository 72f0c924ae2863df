-- ===== src/Runtime/Pool.antt =====
-- crates/nova-runtime/src/pool.rs: the pool of pre-warmed VMs. Each function is one critical
-- section of the pool's lock. Times and durations are numbers; the counters are `u64`.
pub mod Replenish
use nova_vm.Common.{
  ℕ, zero, suc, ◌+◌, ◌-◌, ◌%◌, ◌^◌, min, Bool, true, false, Option, none, some, List, [], ◌∷◌, ◌++◌,
  String, Result, ok, err, ◌==◌, ltb, leb, if◌then◌else◌, length,
}

pub data WarmStrategy : Type 0 where
  cold_boot : WarmStrategy
  snapshot_restore : String → WarmStrategy

pub record PoolVmTemplate : Type 0 where
  pub vcpus : ℕ
  pub memory_mib : ℕ
  pub kernel_path : String
  pub initrd_path : Option String
  pub cmdline : String

pub record PoolConfig : Type 0 where
  pub target_pool_size : ℕ
  pub max_pool_size : ℕ
  pub warm_strategy : WarmStrategy
  pub max_idle_time : ℕ
  pub replenish_interval : ℕ
  pub vm_template : PoolVmTemplate

unfoldable pub validate : PoolConfig → Result String (Unit {0})
validate c =
    if c.target_pool_size == 0
    then err "target_pool_size must be > 0"
    else if ltb c.max_pool_size c.target_pool_size
    then err "max_pool_size must be >= target_pool_size"
    else if c.vm_template.vcpus == 0
    then err "vcpus must be > 0"
    else if c.vm_template.memory_mib == 0
    then err "memory_mib must be > 0"
    else ok tt

-- The payload, an opaque box, is a handle.
pub record WarmVm : Type 0 where
  pub id : ℕ
  pub warmed_at : ℕ
  pub origin : WarmStrategy
  pub payload : Option ℕ

pub record PoolStats : Type 0 where
  pub ready_count : ℕ
  pub total_assigned : ℕ
  pub total_created : ℕ
  pub total_expired : ℕ
  pub pool_misses : ℕ

pub record PoolInner : Type 0 where
  pub ready : List WarmVm
  pub stats : PoolStats
  pub shutdown : Bool
  pub next_id : ℕ
  pub target_size : ℕ

abbrev pub wrap : ℕ → ℕ
wrap n = n % 2 ^ 64

abbrev pub no_stats : PoolStats
no_stats = record {
  ready_count = 0;
  total_assigned = 0;
  total_created = 0;
  total_expired = 0;
  pool_misses = 0;
}

-- The shared state that `VmPool::new` makes
unfoldable pub new : PoolConfig → PoolInner
new c = record {
  ready = [];
  stats = no_stats;
  shutdown = false;
  next_id = 1;
  target_size = c.target_pool_size;
}

-- A VM leaves the front of the queue.
abbrev pub hand_out : PoolInner → List WarmVm → PoolInner
hand_out s rest = record s {
  ready = rest;
  stats = record s.stats {
    total_assigned = wrap (s.stats.total_assigned + 1);
    ready_count = length rest;
  };
}

unfoldable pub acquire : PoolInner → PoolInner × Option WarmVm
acquire s = elim s.ready [
  | [] ↦
      (record s { stats = record s.stats { pool_misses = wrap (s.stats.pool_misses + 1) } }, none)
  | vm ∷ rest ↦ (hand_out s rest, some vm)
]

-- `acquire_timeout` up to its wait: nothing is counted when the pool is empty. After the wait it
-- does what `acquire` does, in the state that the wait returns.
unfoldable pub acquire_at_once : PoolInner → PoolInner × Option WarmVm
acquire_at_once s = elim s.ready [ [] ↦ (s, none) | vm ∷ rest ↦ (hand_out s rest, some vm) ]

-- `acquire_timeout`, where `wake` says what the wait makes of the state.
unfoldable pub acquire_timeout : (PoolInner → PoolInner) → PoolInner → PoolInner × Option WarmVm
acquire_timeout wake s =
    let (s', first) = acquire_at_once s in
    elim first [ some vm ↦ (s', some vm) | none ↦ acquire (wake s') ]

unfoldable pub release : PoolConfig → PoolInner → WarmVm → PoolInner
release c s vm =
    if ltb (length s.ready) c.max_pool_size
    then record s {
      ready = s.ready ++ (vm ∷ []);
      stats = record s.stats { ready_count = length (s.ready ++ (vm ∷ [])) };
    }
    else s

unfoldable pub set_target_size : PoolInner → ℕ → PoolInner
set_target_size s n = record s { target_size = n }

-- The critical section of `shutdown`
unfoldable pub shut_down : PoolInner → PoolInner
shut_down s = record s { shutdown = true }
