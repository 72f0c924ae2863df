-- ===== src/Runtime/Pool/Replenish/Step.antt =====
-- The pool under every interleaving of its callers' critical sections with the replenisher's.
use nova_vm.Common.{
  ltb, if◌then◌else◌, ℕ, suc, ◌+◌, ◌-◌, ◌<◌, ◌≤◌, ◌^◌, ◌≡◌, false, Option, none, some, List, [],
  ◌∷◌, ◌++◌, ◌==◌, if◌then◌else◌, length,
}
use nova_vm.Runtime.Pool
use nova_vm.Runtime.Pool.{
  PoolConfig, WarmVm, PoolInner, wrap, acquire, acquire_at_once, release, set_target_size,
  shut_down, hand_out,
}
use nova_vm.Runtime.Pool.Replenish.{plan, make_vms, push}

-- The shared state, the VMs that the replenisher has made and not yet added, the VMs that callers
-- hold, and how many the cap has made `release` drop.
pub record PoolSystem : Type 0 where
  pub inner : PoolInner
  pub in_flight : List WarmVm
  pub held : List WarmVm
  pub dropped : ℕ

-- A caller keeps what it gets.
abbrev pub hold : Option WarmVm → List WarmVm → List WarmVm
hold none vms = vms
hold (some vm) vms = vm ∷ vms

-- Room below the cap
abbrev pub room : PoolConfig → PoolInner → ℕ
room c s = c.max_pool_size - length s.ready

-- One critical section, of any thread. The id counter does not pass the end of `u64`.
pub data Step (c : PoolConfig) : PoolSystem → PoolSystem → Type 0 where
  acquires :
      (s : PoolSystem)
      → Step c s (record s { inner = (acquire s.inner).0; held = hold (acquire s.inner).1 s.held })
  tries :
      (s : PoolSystem)
      → Step c s (record s {
        inner = (acquire_at_once s.inner).0;
        held = hold (acquire_at_once s.inner).1 s.held;
      })
  releases :
      (s : PoolSystem) (before after : List WarmVm) (vm : WarmVm)
      → s.held ≡ before ++ (vm ∷ after)
      → Step c s (record s {
        inner = release c s.inner vm;
        held = before ++ after;
        dropped = s.dropped + (1 - room c s.inner);
      })
  resizes : (s : PoolSystem) (n : ℕ) → Step c s (record s { inner = set_target_size s.inner n })
  shuts_down : (s : PoolSystem) → Step c s (record s { inner = shut_down s.inner })
  plans :
      (s : PoolSystem) (now : ℕ) (factory : Option (ℕ → Option ℕ)) (clock : ℕ → ℕ)
      → s.inner.shutdown ≡ false
      → s.in_flight ≡ []
      → s.inner.next_id + c.max_pool_size < 2 ^ 64
      → Step c s (record s {
        inner = (plan c now s.inner).0;
        in_flight = make_vms c factory clock (plan c now s.inner).1;
      })
  pushes :
      (s : PoolSystem) → Step c s (record s { inner = push c s.inner s.in_flight; in_flight = [] })

pub data Reach (c : PoolConfig) : PoolSystem → Type 0 where
  starts : Reach c (record { inner = Pool.new c; in_flight = []; held = []; dropped = 0 })
  steps : {s s' : PoolSystem} → Reach c s → Step c s s' → Reach c s'

-- How many of these VMs have the id `i`
unfoldable pub occurs : ℕ → List WarmVm → ℕ
occurs i [] = 0
occurs i (vm ∷ vms) = let rest = occurs i vms in if vm.id == i then suc rest else rest

-- How often the id `i` is in use
abbrev pub uses : ℕ → PoolSystem → ℕ
uses i s = occurs i s.inner.ready + occurs i s.in_flight + occurs i s.held

pub record PoolInv (c : PoolConfig) (s : PoolSystem) : Type 0 where
  pub count_agrees : s.inner.stats.ready_count ≡ length s.inner.ready
  pub capped : length s.inner.ready ≤ c.max_pool_size
  -- An id below the counter is used at most once, any other not at all.
  pub unique : (i : ℕ) → uses i s ≤ (if ltb i s.inner.next_id then 1 else 0)
  pub conserved :
      s.inner.stats.total_created
      ≡ wrap (length s.inner.ready + length s.held + s.inner.stats.total_expired + s.dropped)
