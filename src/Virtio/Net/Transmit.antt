-- ===== src/Virtio/Net/Transmit.antt =====
-- The transmit loop ends, and how far it gets.
use mathlib.Core.List.{append-nil, append_assoc}
use nova_vm.Common.{
  ℕ, zero, suc, ◌+◌, ◌-◌, ◌*◌, ◌%◌, ◌≤◌, ◌<◌, ◌≡◌, ◌≢◌, refl, sym, ◌∙◌, ap, ◌⊎◌, inl, inr, Option,
  none, some, List, [], ◌∷◌, ◌++◌, length, Result, ok, err, arith,
}
use nova_vm.Mem.Address.{add, u64_mod}
use nova_vm.Mem.Memory.{Memory, read_uint}
use nova_vm.Virtio.Queue.{
  DescriptorChain, Fault, error, panicked, VirtioError, Queue, pop, add_used, read_avail_idx,
  readable, u16_mod,
}
use nova_vm.Virtio.Queue.Pop.{pop_cases, pop-some-pending, advance}
use nova_vm.Virtio.Queue.Used.{add_used-read_slice_ne, add_used-queue}
use nova_vm.Virtio.Net.{Tap, Ran, gather, send, tx_loop, vnet_hdr_size}

-- How many entries wait: the distance from `next_avail` to the published index, round 2 ^ 16.
abbrev pub pending : Queue → ℕ → ℕ
pending q avail_idx = (avail_idx + u16_mod - q.next_avail) % u16_mod

-- The used ring does not wrap, and the published index does not lie in it.
pub record IsApart (q : Queue) : Type 0 where
  pub fits : q.used_ring + 4 + q.size * 8 ≤ u64_mod
  pub apart :
      (add q.avail_ring 2 + 2 ≤ q.used_ring) ⊎ (q.used_ring + 4 + q.size * 8 ≤ add q.avail_ring 2)

-- The frame of a chain, if there is one: the readable bytes behind the header
abbrev pub frame_of : List ℕ → List (List ℕ)
frame_of [] = []
frame_of (b ∷ bs) = (b ∷ bs) ∷ []

-- The frames of chains that are taken one after the other and returned unwritten
abbrev pub sent_by : Queue → Memory → List DescriptorChain → List (List ℕ)
sent_by q mem [] = []
sent_by q mem (c ∷ cs) =
    let used = add_used (advance q) mem c.head_index 0 in
    frame_of (gather mem 12 (readable c)) ++ sent_by used.0 used.1 cs

-- These chains are the ones that the queue gives, in this order.
abbrev pub AllPopped : Queue → Memory → List DescriptorChain → Type 0
AllPopped q mem [] = Unit {0}
AllPopped q mem (c ∷ cs) =
    let used = add_used (advance q) mem c.head_index 0 in
    (pop q mem ≡ (advance q, ok (some c))) × AllPopped used.0 used.1 cs

-- Where a run from `n` with `waiting` entries may end.
pub record Done (q : Queue) (mem : Memory) (tap : Tap) (waiting n : ℕ) (r : Ran) : Type 0 where
  pub chains : List DescriptorChain
  pub popped : AllPopped q mem chains
  pub counted : r.count ≡ n + length chains
  pub at_most : length chains ≤ waiting
  pub consumed : r.queue.next_avail ≡ (q.next_avail + length chains) % u16_mod
  pub sent : r.tap.sent ≡ tap.sent ++ sent_by q mem chains

abbrev pub Ends : Queue → Memory → Tap → ℕ → ℕ → Option (Result Fault Ran) → Type 0
Ends q mem tap waiting n none = ⊥
Ends q mem tap waiting n (some (ok r)) = Done q mem tap waiting n r
Ends q mem tap waiting n (some (err e)) = e ≡ panicked

-- The published index is the same after the chain was returned.
published_after :
    (q q' : Queue) (mem : Memory) (head a : ℕ)
    → IsApart q
    → q'.avail_ring ≡ q.avail_ring
    → read_avail_idx q mem ≡ ok a
    → read_avail_idx q' (add_used (advance q) mem head 0).1 ≡ ok a
unfolding read_avail_idx read_uint
published_after q q' mem head a v e h =
    rw (e, add_used-read_slice_ne (advance q) mem head 0 (add q.avail_ring 2) 2 v.apart v.fits) h

send-frame_of : (tap : Tap) (bs : List ℕ) → (send tap bs).sent ≡ tap.sent ++ frame_of bs
unfolding send
send-frame_of tap [] = sym (append-nil tap.sent)
send-frame_of tap (b ∷ bs) = refl

-- One chain further on, the rest of the run ends where the whole does.
Ends-step :
    (q : Queue) (mem : Memory) (tap : Tap) (c : DescriptorChain) (a n : ℕ)
    (r : Option (Result Fault Ran))
    → let used = add_used (advance q) mem c.head_index 0 in
      pop q mem ≡ (advance q, ok (some c))
      → used.0.next_avail ≡ (q.next_avail + 1) % u16_mod
      → q.next_avail ≢ a
      → a < u16_mod
      → q.next_avail < u16_mod
      → Ends used.0 used.1 (send tap (gather mem 12 (readable c))) (pending used.0 a) (n + 1) r
      → Ends q mem tap (pending q a) n r
Ends-step q mem tap c a n none p e ne small na h = h
Ends-step q mem tap c a n (some (err x)) p e ne small na h = h
Ends-step q mem tap c a n (some (ok r)) p e ne small na h =
    let used = add_used (advance q) mem c.head_index 0 in
    let frame = gather mem 12 (readable c) in
    record {
      chains = c ∷ h.chains;
      popped = (p, h.popped);
      counted = omega (arith, h.counted);
      at_most = omega (arith, h.at_most);
      consumed = omega (arith, h.consumed);
      sent =
          h.sent
          ∙ ap (λ s. s ++ sent_by used.0 used.1 h.chains) (send-frame_of tap frame)
          ∙ append_assoc tap.sent (frame_of frame) (sent_by used.0 used.1 h.chains);
    }

-- A run that takes nothing
Done-nothing :
    (q q' : Queue) (mem : Memory) (tap : Tap) (waiting n : ℕ)
    → q'.next_avail ≡ q.next_avail
    → q.next_avail < u16_mod
    → Done q mem tap waiting n (record { queue = q'; mem = mem; tap = tap; count = n })
Done-nothing q q' mem tap waiting n e small = record {
  chains = [];
  popped = tt;
  counted = omega arith;
  at_most = omega arith;
  consumed = omega (arith, e);
  sent = sym (append-nil tap.sent);
}

-- The loop ends where the queue gives no chain.
tx_loop_end :
    (fuel : ℕ) (q q' : Queue) (mem : Memory) (tap : Tap) (n : ℕ)
    → (pop q mem ≡ (q', ok none)) ⊎ ((e : VirtioError) × (pop q mem ≡ (q', err (error e))))
    → tx_loop (suc fuel) q mem tap n
      ≡ some (ok (record { queue = q'; mem = mem; tap = tap; count = n }))
unfolding tx_loop
tx_loop_end fuel q q' mem tap n (inl e) = ground arith
tx_loop_end fuel q q' mem tap n (inr (x, e)) = ground arith

-- One round of the loop.
tx_loop_more :
    (fuel : ℕ) (q : Queue) (mem : Memory) (tap : Tap) (n : ℕ) (c : DescriptorChain)
    → pop q mem ≡ (advance q, ok (some c))
    → let used = add_used (advance q) mem c.head_index 0 in
      tx_loop (suc fuel) q mem tap n
      ≡ tx_loop fuel used.0 used.1 (send tap (gather mem vnet_hdr_size (readable c))) (n + 1)
unfolding tx_loop
tx_loop_more fuel q mem tap n c e = ground arith

-- The transmit loop ends, with one round more than there are waiting entries for fuel, provided
-- that the used ring is apart from the published index. It ends by a panic, or with what it did all
-- told: it took some chains, at most as many as entries wait and the ones that the queue gives one
-- after the other, counted each and moved on by one for it, and it wrote to the TAP the frame of each
-- once, in that order, behind what was written before: the readable bytes of the chain without the
-- 12 of the header, unless that leaves none.
pub tx_loop-Ends :
    (fuel : ℕ) (q : Queue) (mem : Memory) (tap : Tap) (n a : ℕ)
    → IsApart q
    → read_avail_idx q mem ≡ ok a
    → a < u16_mod
    → q.next_avail < u16_mod
    → pending q a < fuel
    → Ends q mem tap (pending q a) n (tx_loop fuel q mem tap n)
unfolding tx_loop
tx_loop-Ends zero q mem tap n a v h small na lt = absurd (omega arith)
tx_loop-Ends (suc fuel) q mem tap n a v h small na lt = elim (pop_cases q mem) [
  | inl e ↦
      rw (tx_loop_end fuel q q mem tap n (inl e)) (Done-nothing q q mem tap (pending q a) n refl na)
  | inr (inl (error x, e)) ↦
      rw (tx_loop_end fuel q q mem tap n (inr (x, e)))
        (Done-nothing q q mem tap (pending q a) n refl na)
  | inr (inl (panicked, e)) ↦ ground arith
  | inr (inr (c, e)) ↦
      let used = add_used (advance q) mem c.head_index 0 in
      let moved : used.0 ≡ record (advance q) { next_used = used.0.next_used } =
        add_used-queue (advance q) mem c.head_index 0 in
      let ne = pop-some-pending q mem a (advance q) c e h in
      let tap' = send tap (gather mem vnet_hdr_size (readable c)) in
      let v' : IsApart used.0 = rw moved (record { fits = v.fits; apart = v.apart }) in
      let h' : read_avail_idx used.0 used.1 ≡ ok a =
        published_after q used.0 mem c.head_index a v (ap (λ x. x.avail_ring) moved) h in
      let next : used.0.next_avail ≡ (q.next_avail + 1) % u16_mod = ap (λ x. x.next_avail) moved in
      let ih =
        tx_loop-Ends fuel used.0 used.1 tap' (n + 1) a v' h' small (omega arith) (omega arith) in
      rw (tx_loop_more fuel q mem tap n c e)
        (Ends-step q mem tap c a n (tx_loop fuel used.0 used.1 tap' (n + 1)) e next ne small na ih)
]
