-- ===== src/Runtime/Pool/Replenish/Safety.antt =====
-- What holds of the pool and the VMs of its callers after any interleaving.
use nova_vm.Common.{
  ℕ, ◌+◌, ◌-◌, ◌<◌, ◌^◌, ◌≡◌, refl, Option, List, [], ◌∷◌, ◌++◌, length, length-append, arith, inl,
  inr, List-cases, ap,
}
use nova_vm.Runtime.Pool
use nova_vm.Runtime.Pool.{
  PoolConfig, WarmVm, PoolInner, wrap, acquire, acquire_at_once, release, set_target_size,
  shut_down, hand_out,
}
use nova_vm.Runtime.Pool.Replenish.{retain_fresh, needed, plan, make_vms, push}
use nova_vm.Runtime.Pool.Replenish.Step.{PoolSystem, Step, Reach, PoolInv, occurs, room}
use nova_vm.Runtime.Pool.Replenish.Uses.{
  occurs-nil, occurs-append, occurs-retain_fresh, length-retain_fresh, fresh_ids,
  push_each_conserves, occurs-push_each,
}

module _ (c : PoolConfig) where
  start-Inv : PoolInv c (record { inner = Pool.new c; in_flight = []; held = []; dropped = 0 })
  unfolding Pool.new occurs
  start-Inv = record {
    count_agrees = refl;
    capped = omega arith;
    unique = λ i. omega arith;
    conserved = refl;
  }

  hands_out-Inv :
      (s : PoolSystem) (vm : WarmVm) (rest : List WarmVm)
      → s.inner.ready ≡ vm ∷ rest
      → PoolInv c s
      → PoolInv c (record s { inner = hand_out s.inner rest; held = vm ∷ s.held })
  unfolding occurs
  hands_out-Inv s vm rest e v = record {
    count_agrees = refl;
    capped = ground arith;
    unique = λ i. ground (arith, v.unique i);
    conserved = ground arith;
  }

  releases-Inv :
      (s : PoolSystem) (before after : List WarmVm) (vm : WarmVm)
      → s.held ≡ before ++ (vm ∷ after)
      → PoolInv c s
      → PoolInv c (record s {
        inner = release c s.inner vm;
        held = before ++ after;
        dropped = s.dropped + (1 - room c s.inner);
      })
  unfolding release occurs
  releases-Inv s before after vm e v = record {
    count_agrees = ground arith;
    capped = ground (arith, length-append s.inner.ready (vm ∷ []));
    unique = λ i. ground (
      arith,
      v.unique i,
      ap (occurs i) e,
      occurs-append i before (vm ∷ after),
      occurs-append i before after,
      occurs-append i s.inner.ready (vm ∷ []),
    );
    conserved = ground (
      arith,
      ap length e,
      length-append before (vm ∷ after),
      length-append before after,
      length-append s.inner.ready (vm ∷ []),
    );
  }

  plans-Inv :
      (s : PoolSystem) (now : ℕ) (factory : Option (ℕ → Option ℕ)) (clock : ℕ → ℕ)
      → s.in_flight ≡ []
      → s.inner.next_id + c.max_pool_size < 2 ^ 64
      → PoolInv c s
      → PoolInv c (record s {
        inner = (plan c now s.inner).0;
        in_flight = make_vms c factory clock (plan c now s.inner).1;
      })
  unfolding plan
  plans-Inv s now factory clock idle fits v =
      let kept = retain_fresh c now s.inner.ready in
      let n = needed c s.inner (length kept) in
      let fewer = length-retain_fresh c now s.inner.ready in
      record {
        count_agrees = refl;
        capped = omega arith;
        unique = λ i.
            let f = fresh_ids c factory clock n s.inner.next_id i (omega arith) in
            ground
              (arith, v.unique i, occurs-retain_fresh c now i s.inner.ready, ap (occurs i) idle);
        conserved = ground arith;
      }

  pushes-Inv :
      (s : PoolSystem)
      → PoolInv c s
      → PoolInv c (record s { inner = push c s.inner s.in_flight; in_flight = [] })
  unfolding push
  pushes-Inv s v = elim (List-cases s.in_flight) [
    | inl e ↦
        rw (e, push)
          (record {
            count_agrees = v.count_agrees;
            capped = v.capped;
            unique = λ i. ground (arith, v.unique i);
            conserved = v.conserved;
          })
    | inr (vm, rest, e) ↦
        let p =
          push_each_conserves c (vm ∷ rest) s.inner
            (length s.held + s.inner.stats.total_expired + s.dropped) v.capped (ground arith) in
        rw (e, push)
          (record {
            count_agrees = refl;
            capped = p.0;
            unique = λ i.
                ground (arith, v.unique i, occurs-nil i, occurs-push_each c (vm ∷ rest) s.inner i);
            conserved = ground arith;
          })
  ]

  Step-Inv : {s s' : PoolSystem} → Step c s s' → PoolInv c s → PoolInv c s'
  unfolding acquire acquire_at_once set_target_size shut_down
  Step-Inv (Step.acquires s) v = elim (List-cases s.inner.ready) [
    | inl e ↦
        rw (e, acquire)
          (record {
            count_agrees = v.count_agrees;
            capped = v.capped;
            unique = v.unique;
            conserved = v.conserved;
          })
    | inr (vm, rest, e) ↦ rw (e, acquire) (hands_out-Inv s vm rest e v)
  ]
  Step-Inv (Step.tries s) v = elim (List-cases s.inner.ready) [
    | inl e ↦ rw (e, acquire_at_once) v
    | inr (vm, rest, e) ↦ rw (e, acquire_at_once) (hands_out-Inv s vm rest e v)
  ]
  Step-Inv (Step.releases s before after vm e) v = releases-Inv s before after vm e v
  Step-Inv (Step.resizes s n) v = record {
    count_agrees = v.count_agrees;
    capped = v.capped;
    unique = v.unique;
    conserved = v.conserved;
  }
  Step-Inv (Step.shuts_down s) v = record {
    count_agrees = v.count_agrees;
    capped = v.capped;
    unique = v.unique;
    conserved = v.conserved;
  }
  Step-Inv (Step.plans s now factory clock off idle fits) v =
      plans-Inv s now factory clock idle fits v
  Step-Inv (Step.pushes s) v = pushes-Inv s v

  -- In every interleaving of callers with the replenisher, the pool never holds more than its cap, the
  -- statistics show the number of ready VMs, no VM is both in the pool and with a caller or with two
  -- callers (an id is in use at most once), ids at or above the counter are not in use, and the VMs
  -- that were created are those that are ready, held, expired or dropped over the cap.
  pub Reach-PoolInv : {s : PoolSystem} → Reach c s → PoolInv c s
  Reach-PoolInv Reach.starts = start-Inv
  Reach-PoolInv (Reach.steps r t) = Step-Inv t (Reach-PoolInv r)
