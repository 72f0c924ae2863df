-- ===== src/Runtime/Pool/Replenish/Uses.antt =====
-- How the lists of a round change the number of VMs and the uses of an id.
use nova_vm.Common.{
  ℕ, zero, suc, ◌+◌, ◌<◌, ◌≤◌, ◌^◌, ◌≡◌, refl, Option, List, [], ◌∷◌, ◌++◌, ltb, if◌then◌else◌,
  length, length-append, arith, inl, inr, Bool-cases,
}
use nova_vm.Runtime.Pool.{PoolConfig, WarmVm, PoolInner, wrap}
use nova_vm.Runtime.Pool.Replenish.{retain_fresh, take_ids, make_vms, push_each, add_ready}
use nova_vm.Runtime.Pool.Replenish.Step.{occurs}

pub occurs-nil : (i : ℕ) → occurs i [] ≡ 0
unfolding occurs
occurs-nil i = refl

pub occurs-append : (i : ℕ) (xs ys : List WarmVm) → occurs i (xs ++ ys) ≡ occurs i xs + occurs i ys
unfolding occurs
occurs-append i [] ys = omega arith
occurs-append i (x ∷ xs) ys = ground (arith, occurs-append i xs ys)

pub occurs-retain_fresh :
    (c : PoolConfig) (now i : ℕ) (vms : List WarmVm)
    → occurs i (retain_fresh c now vms) ≤ occurs i vms
unfolding occurs retain_fresh
occurs-retain_fresh c now i [] = omega arith
occurs-retain_fresh c now i (vm ∷ vms) = ground (arith, occurs-retain_fresh c now i vms)

pub length-retain_fresh :
    (c : PoolConfig) (now : ℕ) (vms : List WarmVm) → length (retain_fresh c now vms) ≤ length vms
unfolding retain_fresh
length-retain_fresh c now [] = omega arith
length-retain_fresh c now (vm ∷ vms) = ground (arith, length-retain_fresh c now vms)

module _ (c : PoolConfig) (factory : Option (ℕ → Option ℕ)) (clock : ℕ → ℕ) where
  -- The ids of a round are the next ones, each once.
  pub fresh_ids :
      (n next i : ℕ)
      → next + n < 2 ^ 64
      → ((take_ids n next).1 ≡ next + n)
        × (occurs i (make_vms c factory clock (take_ids n next).0)
            ≡ (if ltb i next then 0 else if ltb i (next + n) then 1 else 0))
  unfolding take_ids make_vms occurs
  fresh_ids zero next i h = ground arith
  fresh_ids (suc n) next i h = ground (arith, fresh_ids n (next + 1) i (omega arith))

pub push_each_conserves :
    (c : PoolConfig) (vms : List WarmVm) (s : PoolInner) (rest : ℕ)
    → length s.ready ≤ c.max_pool_size
    → s.stats.total_created ≡ wrap (length s.ready + rest)
    → (length (push_each c s vms).ready ≤ c.max_pool_size)
      × ((push_each c s vms).next_id ≡ s.next_id)
      × ((push_each c s vms).stats.total_expired ≡ s.stats.total_expired)
      × ((push_each c s vms).stats.total_created ≡ wrap (length (push_each c s vms).ready + rest))
unfolding push_each
push_each_conserves c [] s rest h e = ground arith
push_each_conserves c (vm ∷ vms) s rest h e =
    elim (Bool-cases (ltb (length s.ready) c.max_pool_size)) [
      | inl fits ↦
          let grown = length-append s.ready (vm ∷ []) in
          rw (fits, push_each)
            (push_each_conserves c vms (add_ready s vm) rest (ground arith) (omega arith))
      | inr full ↦ rw (full, push_each) (push_each_conserves c vms s rest h e)
    ]

pub occurs-push_each :
    (c : PoolConfig) (vms : List WarmVm) (s : PoolInner) (i : ℕ)
    → occurs i (push_each c s vms).ready ≤ occurs i s.ready + occurs i vms
unfolding push_each occurs
occurs-push_each c [] s i = omega arith
occurs-push_each c (vm ∷ vms) s i = elim (Bool-cases (ltb (length s.ready) c.max_pool_size)) [
  | inl fits ↦
      rw (fits, push_each)
        (ground
          (arith, occurs-append i s.ready (vm ∷ []), occurs-push_each c vms (add_ready s vm) i))
  | inr full ↦ rw (full, push_each) (ground (arith, occurs-push_each c vms s i))
]
