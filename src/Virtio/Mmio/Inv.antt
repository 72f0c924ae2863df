-- ===== src/Virtio/Mmio/Inv.antt =====
-- What holds of a transport between two accesses, whatever the guest writes and the device does.
use nova_vm.Common.{
  ℕ, zero, suc, ◌≤◌, ◌<◌, ◌≡◌, refl, ◌≢◌, ◌⊎◌, true, false, some, List, [], ◌∷◌, arith, inl, inr,
  Option-cases, get_elem?, set, replicate,
}
use nova_vm.Common.Bits.{bit_and-le, bit_or-one}
use nova_vm.Mem.Address.{u64_mod}
use nova_vm.Mem.Memory.{Memory}
use nova_vm.Virtio.Queue
use nova_vm.Virtio.Queue.{Queue, u16_mod}
use nova_vm.Virtio.Trait.{VirtioDevice}
use nova_vm.Virtio.Mmio
use nova_vm.Virtio.Mmio.{
  Register, Transport, selected, on_selected, u32_mod, status_restored, complement, raise_interrupt,
  set_guest_memory, write_register, accept_features, write_status, activate, force_activate,
}

-- The fields of a queue fit their types `u16` and `u64`.
pub record IsWide (q : Queue) : Type 0 where
  pub size_small : q.size < u16_mod
  pub desc_small : q.desc_table < u64_mod
  pub avail_small : q.avail_ring < u64_mod
  pub used_small : q.used_ring < u64_mod

abbrev pub AllWide : List Queue → Type 0
AllWide [] = Unit {0}
AllWide (q ∷ qs) = IsWide q × AllWide qs

pub record Inv {D : Type 0} (t : Transport D) : Type 0 where
  pub memory_if_active : (t.activated ≡ false) ⊎ (t.guest_memory ≡ true)
  pub status_if_active : (t.activated ≡ false) ⊎ (t.status ≢ 0)
  pub one_interrupt : t.interrupt_status ≤ 1
  pub wide : AllWide t.queues

AllWide-get_elem? :
    (qs : List Queue) (i : ℕ) (q : Queue) → AllWide qs → get_elem? qs i ≡ some q → IsWide q
AllWide-get_elem? [] i q w e = cc
AllWide-get_elem? (x ∷ xs) zero q w e = ground (arith, w.0)
AllWide-get_elem? (x ∷ xs) (suc i) q w e = AllWide-get_elem? xs i q w.1 e

AllWide-set : (qs : List Queue) (i : ℕ) (q : Queue) → AllWide qs → IsWide q → AllWide (set qs i q)
AllWide-set [] i q w h = tt
AllWide-set (x ∷ xs) zero q w h = (h, w.1)
AllWide-set (x ∷ xs) (suc i) q w h = (w.0, AllWide-set xs i q w.1 h)

AllWide-replicate : (n : ℕ) (q : Queue) → IsWide q → AllWide (replicate n q)
AllWide-replicate zero q h = tt
AllWide-replicate (suc n) q h = (h, AllWide-replicate n q h)

module _ {D : Type 0} where
  on_selected-Inv :
      (t : Transport D) (f : Queue → Queue)
      → ((q : Queue) → IsWide q → IsWide (f q))
      → Inv t
      → Inv (on_selected t f)
  unfolding on_selected
  on_selected-Inv t f keep v = elim (Option-cases (selected t)) [
    | inl e ↦ rw (e, on_selected) v
    | inr (q, e) ↦
        let w =
          AllWide-set t.queues t.queue_sel (f q) v.wide
            (keep q (AllWide-get_elem? t.queues t.queue_sel q v.wide e)) in
        rw (e, on_selected)
          (record {
            memory_if_active = v.memory_if_active;
            status_if_active = v.status_if_active;
            one_interrupt = v.one_interrupt;
            wide = w;
          })
  ]

  raise_interrupt-Inv : (t : Transport D) → Inv t → Inv (raise_interrupt t)
  unfolding raise_interrupt
  raise_interrupt-Inv t v = ground (arith, bit_or-one t.interrupt_status)

module _ {D : Type 0} ⦃dev : VirtioDevice D⦄ where
  new-Inv : (d : D) → Inv (Mmio.new d)
  unfolding Mmio.new Queue.new
  new-Inv d = record {
    memory_if_active = inl refl;
    status_if_active = inl refl;
    one_interrupt = omega arith;
    wide = AllWide-replicate (dev.num_queues d) (Queue.new 256) (omega arith);
  }

  write_status-Inv : (t : Transport D) (value : ℕ) → Inv t → Inv (write_status t value)
  unfolding write_status
  write_status-Inv t value v = ground arith

  accept_features-Inv : (t : Transport D) (value : ℕ) → Inv t → Inv (accept_features t value)
  unfolding accept_features
  accept_features-Inv t value v = ground arith

  poll-Inv : (t : Transport D) (mem : Memory) → Inv t → Inv (Mmio.poll t mem).0
  unfolding Mmio.poll
  poll-Inv t mem v = ground (arith, bit_or-one t.interrupt_status)

  force_activate-Inv : (t : Transport D) (qs : List Queue) → Inv t → Inv (force_activate t qs)
  unfolding force_activate
  force_activate-Inv t qs v = ground arith

  write_register-Inv :
      (t : Transport D) (mem : Memory) (r : Register) (value : ℕ)
      → value < u32_mod
      → Inv t
      → Inv (write_register t mem r value).0
  unfolding write_register
  write_register-Inv t mem Mmio.queue_num value h v =
      on_selected-Inv t _ (λ q w. omega (arith, w)) v
  write_register-Inv t mem Mmio.queue_ready value h v =
      on_selected-Inv t _ (λ q w. omega (arith, w)) v
  write_register-Inv t mem Mmio.queue_desc_low value h v =
      on_selected-Inv t _ (λ q w. omega (arith, w)) v
  write_register-Inv t mem Mmio.queue_desc_high value h v =
      on_selected-Inv t _ (λ q w. omega (arith, w)) v
  write_register-Inv t mem Mmio.queue_avail_low value h v =
      on_selected-Inv t _ (λ q w. omega (arith, w)) v
  write_register-Inv t mem Mmio.queue_avail_high value h v =
      on_selected-Inv t _ (λ q w. omega (arith, w)) v
  write_register-Inv t mem Mmio.queue_used_low value h v =
      on_selected-Inv t _ (λ q w. omega (arith, w)) v
  write_register-Inv t mem Mmio.queue_used_high value h v =
      on_selected-Inv t _ (λ q w. omega (arith, w)) v
  write_register-Inv t mem Mmio.driver_features value h v = accept_features-Inv t value v
  write_register-Inv t mem Mmio.status value h v = write_status-Inv t value v
  write_register-Inv t mem Mmio.interrupt_ack value h v =
      ground (arith, bit_and-le t.interrupt_status (complement value))
  write_register-Inv t mem Mmio.queue_notify value h v = ground arith
  write_register-Inv t mem _ value h v = ground arith

  -- One event at the transport: a guest access, a poll, or a call of the VMM.
  pub data Step : Transport D → Transport D → Type 0 where
    write :
        (t : Transport D) (mem : Memory) (r : Register) (value : ℕ)
        → value < u32_mod
        → Step t (write_register t mem r value).0
    poll : (t : Transport D) (mem : Memory) → Step t (Mmio.poll t mem).0
    raise : (t : Transport D) → Step t (raise_interrupt t)
    give_memory : (t : Transport D) → Step t (set_guest_memory t)
    restore : (t : Transport D) (qs : List Queue) → Step t (force_activate t qs)

  pub data Reach (d : D) : Transport D → Type 0 where
    start : Reach d (Mmio.new d)
    next : {t u : Transport D} → Reach d t → Step t u → Reach d u

  Step-Inv : {t u : Transport D} → Step t u → Inv t → Inv u
  unfolding set_guest_memory
  Step-Inv (write t mem r value h) v = write_register-Inv t mem r value h v
  Step-Inv (poll t mem) v = poll-Inv t mem v
  Step-Inv (raise t) v = raise_interrupt-Inv t v
  Step-Inv (give_memory t) v = ground arith
  Step-Inv (restore t qs) v = force_activate-Inv t qs v

  -- However the guest, the device and the VMM act on a new transport: it is active only with guest
  -- memory and a status other than zero, its interrupt status is one bit, and its queues keep to the
  -- widths of their fields.
  pub Reach-Inv : (d : D) {t : Transport D} → Reach d t → Inv t
  Reach-Inv d start = new-Inv d
  Reach-Inv d (next r s) = Step-Inv s (Reach-Inv d r)
