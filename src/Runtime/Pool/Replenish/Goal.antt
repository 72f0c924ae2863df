-- ===== src/Runtime/Pool/Replenish/Goal.antt =====
-- What one round of the replenisher achieves when no other thread comes in between.
use mathlib.Core.List.{append-nil, append_assoc}
use nova_vm.Common.{
  ℕ, zero, suc, ◌+◌, ◌-◌, ◌≤◌, ◌≡◌, refl, sym, ◌∙◌, min, Option, List, [], ◌∷◌, ◌++◌, true, ltb,
  leb, if◌then◌else◌, length, length-append, arith,
}
use nova_vm.Runtime.Pool.{PoolConfig, WarmVm, PoolInner, wrap}
use nova_vm.Runtime.Pool.Replenish.{
  retain_fresh, take_ids, needed, plan, make_vms, push_each, push, add_ready,
}

-- A round, undisturbed
abbrev pub round : PoolConfig → ℕ → Option (ℕ → Option ℕ) → (ℕ → ℕ) → PoolInner → PoolInner
round c now factory clock s = push c (plan c now s).0 (make_vms c factory clock (plan c now s).1)

pub length-take_ids : (n next : ℕ) → length (take_ids n next).0 ≡ n
unfolding take_ids
length-take_ids zero next = refl
length-take_ids (suc n) next = omega (arith, length-take_ids n (wrap (next + 1)))

pub length-make_vms :
    (c : PoolConfig) (factory : Option (ℕ → Option ℕ)) (clock : ℕ → ℕ) (ids : List ℕ)
    → length (make_vms c factory clock ids) ≡ length ids
unfolding make_vms
length-make_vms c factory clock [] = refl
length-make_vms c factory clock (i ∷ ids) = omega (arith, length-make_vms c factory clock ids)

push_each-fits :
    (c : PoolConfig) (s : PoolInner) (vms : List WarmVm)
    → length s.ready + length vms ≤ c.max_pool_size
    → (push_each c s vms).ready ≡ s.ready ++ vms
unfolding push_each
push_each-fits c s [] h = sym (append-nil s.ready)
push_each-fits c s (vm ∷ vms) h =
    let fits : ltb (length s.ready) c.max_pool_size ≡ true = ground arith in
    let room : length (s.ready ++ (vm ∷ [])) + length vms ≤ c.max_pool_size =
      omega (arith, length-append s.ready (vm ∷ [])) in
    rw (fits, push_each)
      (push_each-fits c (add_ready s vm) vms room ∙ append_assoc s.ready (vm ∷ []) vms)

push-fits :
    (c : PoolConfig) (s : PoolInner) (vms : List WarmVm)
    → length vms ≤ c.max_pool_size - length s.ready
    → s.stats.ready_count ≡ length s.ready
    → ((push c s vms).ready ≡ s.ready ++ vms)
      × ((push c s vms).stats.ready_count ≡ length (push c s vms).ready)
unfolding push
push-fits c s [] h r = (sym (append-nil s.ready), r)
push-fits c s (vm ∷ vms) h r = (push_each-fits c s (vm ∷ vms) (omega arith), refl)

-- An undisturbed round leaves the VMs that are not idle for too long at the front, in their order,
-- and behind them the new ones. Their number is then the target, which the cap limits, or the
-- number that was there when that is more, and it is the number that the statistics show.
pub round_reaches_target :
    (c : PoolConfig) (now : ℕ) (factory : Option (ℕ → Option ℕ)) (clock : ℕ → ℕ) (s : PoolInner)
    → let s' = round c now factory clock s in
      let kept = retain_fresh c now s.ready in
      let goal = min s.target_size c.max_pool_size in
      (s'.ready ≡ kept ++ make_vms c factory clock (plan c now s).1)
      × (length s'.ready ≡ (if leb (length kept) goal then goal else length kept))
      × (s'.stats.ready_count ≡ length s'.ready)
unfolding plan
round_reaches_target c now factory clock s =
    let kept = retain_fresh c now s.ready in
    let n = needed c s (length kept) in
    let ids = (take_ids n s.next_id).0 in
    let new_vms = make_vms c factory clock ids in
    let count : length new_vms ≡ n =
      length-make_vms c factory clock ids ∙ length-take_ids n s.next_id in
    let pushed = push-fits c (plan c now s).0 new_vms (omega arith) refl in
    (pushed.0, rw pushed.0 (ground (arith, length-append kept new_vms, count)), pushed.1)
