-- ===== src/Runtime/Pool/Replenish.antt =====
-- The replenisher thread of crates/nova-runtime/src/pool.rs: it plans under the lock, makes the VMs
-- without it, and takes the lock again to add them.
pub mod Step
pub mod Goal
pub mod Uses
pub mod Safety
use nova_vm.Common.{
  ℕ, zero, suc, ◌+◌, ◌-◌, ◌≡◌, min, Option, none, some, List, [], ◌∷◌, ◌++◌, ltb, if◌then◌else◌,
  length,
}
use nova_vm.Runtime.Pool.{PoolConfig, WarmVm, PoolInner, wrap}

-- The VMs whose idle time is still below the limit; `duration_since` stops at zero.
unfoldable pub retain_fresh : PoolConfig → ℕ → List WarmVm → List WarmVm
retain_fresh c now [] = []
retain_fresh c now (vm ∷ vms) =
    let rest = retain_fresh c now vms in
    if ltb (now - vm.warmed_at) c.max_idle_time then vm ∷ rest else rest

-- The ids that a round takes, and the counter after it
unfoldable pub take_ids : ℕ → ℕ → List ℕ × ℕ
take_ids zero next = ([], next)
take_ids (suc n) next = let (ids, after) = take_ids n (wrap (next + 1)) in (next ∷ ids, after)

-- `target_size.min(max_pool_size).saturating_sub(current)`
abbrev pub needed : PoolConfig → PoolInner → ℕ → ℕ
needed c s current = min s.target_size c.max_pool_size - current

-- The first critical section of a round that is not shut down
unfoldable pub plan : PoolConfig → ℕ → PoolInner → PoolInner × List ℕ
plan c now s =
    let kept = retain_fresh c now s.ready in
    let current = length kept in
    let (ids, after) = take_ids (needed c s current) s.next_id in
    (
      record s {
        ready = kept;
        next_id = after;
        stats = record s.stats {
          total_expired = wrap (s.stats.total_expired + (length s.ready - current));
          ready_count = current;
        };
      },
      ids,
    )

-- The VMs made without the lock. `factory` and `clock` answer for each new VM.
unfoldable pub make_vms : PoolConfig → Option (ℕ → Option ℕ) → (ℕ → ℕ) → List ℕ → List WarmVm
make_vms c factory clock [] = []
make_vms c factory clock (i ∷ ids) =
    record {
      id = i;
      warmed_at = clock i;
      origin = c.warm_strategy;
      payload = elim factory [ some f ↦ f i | none ↦ none ];
    }
    ∷ make_vms c factory clock ids

abbrev pub add_ready : PoolInner → WarmVm → PoolInner
add_ready s vm = record s {
  ready = s.ready ++ (vm ∷ []);
  stats = record s.stats { total_created = wrap (s.stats.total_created + 1) };
}

-- `for vm in new_vms`: a VM over the cap is dropped.
unfoldable pub push_each : PoolConfig → PoolInner → List WarmVm → PoolInner
push_each c s [] = s
push_each c s (vm ∷ vms) =
    push_each c (if ltb (length s.ready) c.max_pool_size then add_ready s vm else s) vms

-- The second critical section: nothing happens without a new VM.
unfoldable pub push : PoolConfig → PoolInner → List WarmVm → PoolInner
push c s [] = s
push c s (vm ∷ vms) =
    let after = push_each c s (vm ∷ vms) in
    record after { stats = record after.stats { ready_count = length after.ready } }
