-- ===== src/Virtio/Mmio/Rings.antt =====
-- Programming the queues through the register block.
use mathlib.Core.Path.{fun_ext}
use native.Mathlib.Decide.{ℕ_discrete}
use nova_vm.Common.{
  ◌==◌, if◌then◌else◌, ℕ, zero, suc, ◌+◌, ◌*◌, ◌%◌, ◌^◌, ◌<◌, ◌≡◌, refl, ap, some, List, [], ◌∷◌,
  length, arith, get_elem?, set, true, get_elem?-set_self, get_elem?-set_ne, Option-cases, inl, inr,
}
use nova_vm.Mem.Memory.{Memory}
use nova_vm.Virtio.Queue.{Queue}
use nova_vm.Virtio.Trait.{VirtioDevice}
use nova_vm.Virtio.Mmio.{
  Register, queue_sel, queue_num, queue_ready, queue_desc_low, queue_desc_high, queue_avail_low,
  queue_avail_high, queue_used_low, queue_used_high, Transport, selected, on_selected,
  write_register, u32_mod, with_low, with_high,
}

module _ {ℓ} {A : Type ℓ} where
  set-set : (xs : List A) (i : ℕ) (a b : A) → set (set xs i a) i b ≡ set xs i b
  set-set [] i a b = refl
  set-set (x ∷ xs) zero a b = refl
  set-set (x ∷ xs) (suc i) a b = ap (λ t. x ∷ t) (set-set xs i a b)

  lt_of_get_elem? : (xs : List A) (i : ℕ) (a : A) → get_elem? xs i ≡ some a → i < length xs
  lt_of_get_elem? [] i a h = cc
  lt_of_get_elem? (x ∷ xs) zero a h = omega arith
  lt_of_get_elem? (x ∷ xs) (suc i) a h = omega (arith, lt_of_get_elem? xs i a h)

module _ {D : Type 0} where
  on_selected-some :
      (t : Transport D) (f : Queue → Queue) (q : Queue)
      → selected t ≡ some q
      → on_selected t f ≡ record t { queues = set t.queues t.queue_sel (f q) }
  unfolding on_selected
  on_selected-some t f q e = ground arith

  -- Two changes of the selected queue are one.
  on_selected-on_selected :
      (t : Transport D) (f g : Queue → Queue)
      → on_selected (on_selected t f) g ≡ on_selected t (λ q. g (f q))
  unfolding on_selected
  on_selected-on_selected t f g = elim (Option-cases (selected t)) [
    | inl e ↦ ground arith
    | inr (q, e) ↦
        let here =
          get_elem?-set_self t.queues t.queue_sel (f q)
            (lt_of_get_elem? t.queues t.queue_sel q e) in
        ground (arith, here, set-set t.queues t.queue_sel (f q) (g (f q)))
  ]

module _ {D : Type 0} ⦃dev : VirtioDevice D⦄ where
  -- A driver's writes, one after the other.
  abbrev pub writes : Transport D → Memory → List (Register × ℕ) → Transport D × Memory
  writes t mem [] = (t, mem)
  writes t mem ((r, v) ∷ rest) = let (t', mem') = write_register t mem r v in writes t' mem' rest

-- What a driver wants of a queue: its size, and where its rings are, in halves.
pub record Setup : Type 0 where
  pub num : ℕ
  pub desc_low : ℕ
  pub desc_high : ℕ
  pub avail_low : ℕ
  pub avail_high : ℕ
  pub used_low : ℕ
  pub used_high : ℕ

abbrev pub setup_writes : ℕ → Setup → List (Register × ℕ)
setup_writes i s =
    (queue_sel, i)
    ∷ (queue_num, s.num)
    ∷ (queue_desc_low, s.desc_low)
    ∷ (queue_desc_high, s.desc_high)
    ∷ (queue_avail_low, s.avail_low)
    ∷ (queue_avail_high, s.avail_high)
    ∷ (queue_used_low, s.used_low)
    ∷ (queue_used_high, s.used_high)
    ∷ (queue_ready, 1)
    ∷ []

-- The queue that such writes are meant to make of `q`.
abbrev pub programmed : Setup → Queue → Queue
programmed s q = record q {
  size = s.num % 2 ^ 16;
  ready = true;
  desc_table = s.desc_low + s.desc_high * 2 ^ 32;
  avail_ring = s.avail_low + s.avail_high * 2 ^ 32;
  used_ring = s.used_low + s.used_high * 2 ^ 32;
}

abbrev pub IsSmall : Setup → Type 0
IsSmall s = (s.desc_low < u32_mod) × (s.avail_low < u32_mod) × (s.used_low < u32_mod)

halves : (addr lo hi : ℕ) → lo < u32_mod → with_high (with_low addr lo) hi ≡ lo + hi * 2 ^ 32
halves addr lo hi h = omega arith

module _ {D : Type 0} ⦃dev : VirtioDevice D⦄ where
  setup-on_selected :
      (t : Transport D) (mem : Memory) (i : ℕ) (s : Setup)
      → IsSmall s
      → writes t mem (setup_writes i s)
        ≡ (on_selected (record t { queue_sel = i }) (programmed s), mem)
  unfolding write_register
  setup-on_selected t mem i s h =
      simp on_selected-on_selected
        (ap (λ f. (on_selected (record t { queue_sel = i }) f, mem)) (fun_ext λ q. same q))
    where
      same :
          (q : Queue)
          → record q {
            size = s.num % 2 ^ 16;
            ready = true;
            desc_table = with_high (with_low q.desc_table s.desc_low) s.desc_high;
            avail_ring = with_high (with_low q.avail_ring s.avail_low) s.avail_high;
            used_ring = with_high (with_low q.used_ring s.used_low) s.used_high;
          }
            ≡ programmed s q
      same q = ground (
        arith,
        halves q.desc_table s.desc_low s.desc_high,
        halves q.avail_ring s.avail_low s.avail_high,
        halves q.used_ring s.used_low s.used_high,
      )

  -- The nine writes by which a driver sets up a queue make of the queue that they select exactly the
  -- programmed one, with the three 64-bit addresses put together from their halves. No other queue,
  -- no other field of the transport but the selection, and no memory changes.
  pub setup_programs :
      (t : Transport D) (mem : Memory) (i : ℕ) (s : Setup) (q : Queue) (j : ℕ)
      → IsSmall s
      → get_elem? t.queues i ≡ some q
      → let (t', mem') = writes t mem (setup_writes i s) in
        (get_elem? t'.queues j ≡ (if i == j then some (programmed s q) else get_elem? t.queues j))
        × (t' ≡ record t { queues = t'.queues; queue_sel = i })
        × (mem' ≡ mem)
  setup_programs t mem i s q j h at =
      rw
        (
          setup-on_selected t mem i s h,
          on_selected-some (record t { queue_sel = i }) (programmed s) q at,
        )
        (
          elim (ℕ_discrete i j) [
            | yes e ↦ rw (← e) (
                ground (
                  arith,
                  get_elem?-set_self t.queues i (programmed s q) (lt_of_get_elem? t.queues i q at),
                ))
            | no ne ↦ ground (arith, get_elem?-set_ne t.queues {i = i} {j = j} (programmed s q) ne)
          ],
          refl,
          refl,
        )
