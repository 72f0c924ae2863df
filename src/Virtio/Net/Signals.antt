-- ===== src/Virtio/Net/Signals.antt =====
-- crates/nova-virtio/src/net.rs: what a poll and a notification of the network device change, and
-- when an interrupt is signalled.
use nova_vm.Common.{
  ℕ, ◌+◌, ◌≤◌, ◌≡◌, refl, sym, subst, ◌∙◌, ◌⊎◌, inl, inr, Bool, true, false, ◌&&◌, Option, none,
  some, List, [], ◌∷◌, Result, ok, err, ◌==◌, ==_iff, if◌then◌else◌, arith, length, take,
  ok-injective, Option-cases, Bool-cases, Result-cases,
}
use nova_vm.Mem.Memory.{Memory}
use nova_vm.Virtio.Queue.{DescriptorChain, Queue, Fault, error, panicked, pop, add_used, writable}
use nova_vm.Virtio.Queue.Pop.{pop_cases, advance}
use nova_vm.Virtio.Net.{Net, Tap, Ran, rx_loop, scatter, payload_of, max_frame_size}
use nova_vm.Virtio.Net.Device.{ready_queue, ran, signal_irq, process_rx}

-- What the receive loop leaves alone: the frames sent, and memory where nothing was delivered.
record Quiet (frames : List (List ℕ)) (mem : Memory) (tap : Tap) (n : ℕ) (r : Ran) : Type 0 where
  count_up : n ≤ r.count
  no_change : r.count ≡ n → r.mem ≡ mem
  same_sent : r.tap.sent ≡ tap.sent
  fewer : length r.tap.incoming ≤ length frames

-- A loop that stops here, with some of the frames left.
stopped :
    (frames left : List (List ℕ)) (q : Queue) (mem : Memory) (tap : Tap) (n : ℕ) (r : Ran)
    → length left ≤ length frames
    → ◌≡◌ {A = Result Fault Ran}
        (ok (record { queue = q; mem = mem; tap = record tap { incoming = left }; count = n }))
        (ok r)
    → Quiet frames mem tap n r
stopped frames left q mem tap n r le h =
    subst (λ x. Quiet frames mem tap n x) (ok-injective h)
      (record { count_up = omega arith; no_change = λ e. refl; same_sent = refl; fewer = le })

module _ (b : ℕ) (bs : List ℕ) (frames : List (List ℕ)) (q : Queue) (mem : Memory) (tap : Tap)
    (n : ℕ) where
  -- A frame without a chain ends the loop, by a panic or with the frame lost.
  rx_loop_last :
      (x : Result Fault (Option DescriptorChain))
      → (x ≡ ok none) ⊎ ((e : Fault) × (x ≡ err e))
      → pop q mem ≡ (q, x)
      → (rx_loop ((b ∷ bs) ∷ frames) q mem tap n ≡ err panicked)
        ⊎ (rx_loop ((b ∷ bs) ∷ frames) q mem tap n
            ≡ ok (record {
              queue = q;
              mem = mem;
              tap = record tap { incoming = frames };
              count = n;
            }))
  unfolding rx_loop
  rx_loop_last x (inl f) e = inr (ground arith)
  rx_loop_last x (inr (error y, f)) e = inr (ground arith)
  rx_loop_last x (inr (panicked, f)) e = inl (ground arith)

  rx_loop_more :
      (c : DescriptorChain)
      → pop q mem ≡ (advance q, ok (some c))
      → (q' : Queue) × (mem' : Memory) × (rx_loop ((b ∷ bs) ∷ frames) q mem tap n
          ≡ rx_loop frames q' mem' (record tap { incoming = frames }) (n + 1))
  unfolding rx_loop
  rx_loop_more c e =
      let (mem', written) =
        scatter mem (payload_of (take max_frame_size (b ∷ bs))) 0 (writable c) in
      let used = add_used (advance q) mem' c.head_index written in (used.0, used.1, ground arith)

Quiet_ended :
    (b : ℕ) (bs : List ℕ) (frames : List (List ℕ)) (q : Queue) (mem : Memory) (tap : Tap) (n : ℕ)
    (r : Ran)
    → rx_loop ((b ∷ bs) ∷ frames) q mem tap n ≡ ok r
    → (rx_loop ((b ∷ bs) ∷ frames) q mem tap n ≡ err panicked)
      ⊎ (rx_loop ((b ∷ bs) ∷ frames) q mem tap n
          ≡ ok (record { queue = q; mem = mem; tap = record tap { incoming = frames }; count = n }))
    → Quiet ((b ∷ bs) ∷ frames) mem tap n r
Quiet_ended b bs frames q mem tap n r h (inl e) = cc
Quiet_ended b bs frames q mem tap n r h (inr e) =
    stopped ((b ∷ bs) ∷ frames) frames q mem tap n r (omega arith) (sym e ∙ h)

rx_loop-Quiet :
    (frames : List (List ℕ)) (q : Queue) (mem : Memory) (tap : Tap) (n : ℕ) (r : Ran)
    → rx_loop frames q mem tap n ≡ ok r
    → Quiet frames mem tap n r
unfolding rx_loop
rx_loop-Quiet [] q mem tap n r h = stopped [] [] q mem tap n r (omega arith) h
rx_loop-Quiet ([] ∷ frames) q mem tap n r h =
    stopped ([] ∷ frames) frames q mem tap n r (omega arith) h
rx_loop-Quiet ((b ∷ bs) ∷ frames) q mem tap n r h =
    let last = rx_loop_last b bs frames q mem tap n in
    let ended = Quiet_ended b bs frames q mem tap n r h in
    elim (pop_cases q mem) [
      | inl e ↦ ended (last (ok none) (inl refl) e)
      | inr (inl (x, e)) ↦ ended (last (err x) (inr (x, refl)) e)
      | inr (inr (c, e)) ↦
          let (q', mem', more) = rx_loop_more b bs frames q mem tap n c e in
          let ih =
            rx_loop-Quiet frames q' mem' (record tap { incoming = frames }) (n + 1) r
              (sym more ∙ h) in
          record {
            count_up = omega (arith, ih.count_up);
            no_change = λ same. absurd (omega (arith, ih.count_up));
            same_sent = ih.same_sent;
            fewer = omega (arith, ih.fewer);
          }
    ]

-- Two states of the device and of memory, and the answer of the poll between them.
pub record Polled (net : Net) (mem : Memory) (net' : Net) (mem' : Memory) (received : Bool)
    : Type 0 where
  pub signalled : net'.irqs ≡ (if received && net.has_irq then net.irqs + 1 else net.irqs)
  pub unchanged : received ≡ false → mem' ≡ mem
  pub same_sent : net'.tap.sent ≡ net.tap.sent
  pub fewer : length net'.tap.incoming ≤ length net.tap.incoming

abbrev Answer : Net × Memory × Bool → Net × Memory × Bool → Type 0
Answer x y = ◌≡◌ {A = Result Fault (Net × Memory × Bool)} (ok x) (ok y)

signal_irq-Polled :
    (net : Net) (mem : Memory) (queues : List Queue) (r : Ran)
    → r.tap.sent ≡ net.tap.sent
    → length r.tap.incoming ≤ length net.tap.incoming
    → Polled net mem (signal_irq (ran net queues 0 r)) r.mem true
unfolding signal_irq
signal_irq-Polled net mem queues r sent fewer = elim (Bool-cases net.has_irq) [
  | inl e ↦ record {
    signalled = rw e refl;
    unchanged = λ f. cc;
    same_sent = rw e sent;
    fewer = rw e fewer;
  }
  | inr e ↦ record {
    signalled = rw e refl;
    unchanged = λ f. cc;
    same_sent = rw e sent;
    fewer = rw e fewer;
  }
]

-- A poll that does not panic writes to the interrupt's eventfd once where it says that packets were
-- received and such an eventfd is set, and not at all otherwise. Where it says that none were received,
-- guest memory is as it was. It sends no frame, and no more frames wait than before.
pub process_rx-Polled :
    (net : Net) (mem : Memory) (net' : Net) (mem' : Memory) (received : Bool)
    → process_rx net mem ≡ ok (net', mem', received)
    → Polled net mem net' mem' received
unfolding process_rx
process_rx-Polled net mem net' mem' received h = elim (Option-cases (ready_queue net 0)) [
  | inl e ↦
      let here : Answer (net, mem, false) (net', mem', received) = ground arith in
      subst (λ t. Polled net mem t.0 t.1 t.2) (ok-injective here)
        (record { signalled = refl; unchanged = λ f. refl; same_sent = refl; fewer = omega arith })
  | inr ((queues, q), e) ↦ elim (Result-cases (rx_loop net.tap.incoming q mem net.tap 0)) [
    | inr (x, f) ↦ absurd (ground arith)
    | inl (r, f) ↦
        let quiet = rx_loop-Quiet net.tap.incoming q mem net.tap 0 r f in
        elim (Bool-cases (r.count == 0)) [
          | inl none_got ↦
              let here : Answer (ran net queues 0 r, r.mem, false) (net', mem', received) =
                ground arith in
              let same : r.mem ≡ mem = quiet.no_change ((==_iff _ _).0 none_got) in
              subst (λ t. Polled net mem t.0 t.1 t.2) (ok-injective here)
                (record {
                  signalled = refl;
                  unchanged = λ g. same;
                  same_sent = quiet.same_sent;
                  fewer = quiet.fewer;
                })
          | inr some_got ↦
              let here : Answer (signal_irq (ran net queues 0 r), r.mem, true)
                  (net', mem', received) =
                ground arith in
              subst (λ t. Polled net mem t.0 t.1 t.2) (ok-injective here)
                (signal_irq-Polled net mem queues r quiet.same_sent quiet.fewer)
        ]
  ]
]
