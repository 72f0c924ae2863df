-- ===== src/Vmm/Serial/Input.antt =====
-- The serial port over any sequence of accesses by the guest and inputs by the host.
use mathlib.Core.List.{append-nil, append_assoc}
use nova_vm.Common.{
  ℕ, ◌≡◌, refl, sym, ◌∙◌, ap, true, false, not, ◌&&◌, List, [], ◌∷◌, ◌++◌, ◌==◌, if◌then◌else◌,
  arith, Bool-cases, List-cases, inl, inr,
}
use nova_vm.Vmm.Serial.{
  SerialState, Port, dlab, port_at, write, write_port, read, read_port, read_rbr, read_iir,
  queue_input, needs_irq, thre_int_enabled, rda_int_enabled, has_input,
}

pub data Access : Type 0 where
  reads : ℕ → Access
  writes : ℕ → ℕ → Access
  inputs : List ℕ → Access

-- The bytes that a read hands over from the input queue: the value read, when the port is the
-- receive buffer, the divisor latch is not selected and there is input.
unfoldable pub delivered : SerialState → Port → List ℕ
delivered s Port.rbr_thr =
    if dlab s then [] else if has_input s then (read_port s Port.rbr_thr).1 ∷ [] else []
delivered s Port.ier = []
delivered s Port.iir_fcr = []
delivered s Port.lcr = []
delivered s Port.mcr = []
delivered s Port.lsr = []
delivered s Port.msr = []
delivered s Port.scr = []
delivered s Port.unknown = []

abbrev pub taken : SerialState → Access → List ℕ
taken s (Access.reads port) = delivered s (port_at port)
taken s (Access.writes port value) = []
taken s (Access.inputs bytes) = []

-- The bytes that this access adds to it
abbrev pub added : Access → List ℕ
added (Access.reads port) = []
added (Access.writes port value) = []
added (Access.inputs bytes) = bytes

abbrev pub after : SerialState → Access → SerialState
after s (Access.reads port) = (read s port).0
after s (Access.writes port value) = (write s port value).0
after s (Access.inputs bytes) = queue_input s bytes

abbrev pub run : SerialState → List Access → SerialState
run s [] = s
run s (a ∷ rest) = run (after s a) rest

abbrev pub all_taken : SerialState → List Access → List ℕ
all_taken s [] = []
all_taken s (a ∷ rest) = taken s a ++ all_taken (after s a) rest

abbrev pub all_added : List Access → List ℕ
all_added [] = []
all_added (a ∷ rest) = added a ++ all_added rest

write_port-input_queue :
    (s : SerialState) (p : Port) (value : ℕ) → (write_port s p value).0.input_queue ≡ s.input_queue
unfolding write_port thre_int_enabled
write_port-input_queue s p value = ground arith

read_iir-input_queue : (s : SerialState) → (read_iir s).0.input_queue ≡ s.input_queue
unfolding read_iir
read_iir-input_queue s = ground arith

read_port-input_queue :
    (s : SerialState) (p : Port) → delivered s p ++ (read_port s p).0.input_queue ≡ s.input_queue
unfolding delivered read_port read_rbr
read_port-input_queue s Port.rbr_thr = elim (Bool-cases (dlab s)) [
  | inl e ↦ rw (e, delivered, read_port) refl
  | inr e ↦ elim (List-cases s.input_queue) [ inl q ↦ ground arith | inr (b, bs, q) ↦ ground arith ]
]
read_port-input_queue s Port.ier = ground arith
read_port-input_queue s Port.iir_fcr = read_iir-input_queue s
read_port-input_queue s Port.lcr = refl
read_port-input_queue s Port.mcr = refl
read_port-input_queue s Port.lsr = refl
read_port-input_queue s Port.msr = refl
read_port-input_queue s Port.scr = refl
read_port-input_queue s Port.unknown = refl

after-input_queue :
    (s : SerialState) (a : Access) → taken s a ++ (after s a).input_queue ≡ s.input_queue ++ added a
unfolding read write queue_input
after-input_queue s (Access.reads port) =
    read_port-input_queue s (port_at port) ∙ sym (append-nil s.input_queue)
after-input_queue s (Access.writes port value) =
    write_port-input_queue s (port_at port) value ∙ sym (append-nil s.input_queue)
after-input_queue s (Access.inputs bytes) = refl

-- Whatever the guest reads and writes in between, the bytes that it receives, followed by those that
-- still wait, are the bytes that waited at the beginning followed by those that the host has queued:
-- none is lost, repeated or out of order.
pub input_in_order :
    (s : SerialState) (accesses : List Access)
    → all_taken s accesses ++ (run s accesses).input_queue ≡ s.input_queue ++ all_added accesses
input_in_order s [] = sym (append-nil s.input_queue)
input_in_order s (a ∷ rest) =
    let step = after-input_queue s a in
    append_assoc (taken s a) (all_taken (after s a) rest) (run (after s a) rest).input_queue
    ∙ ap (λ xs. taken s a ++ xs) (input_in_order (after s a) rest)
    ∙ sym (append_assoc (taken s a) (after s a).input_queue (all_added rest))
    ∙ ap (λ xs. xs ++ all_added rest) step
    ∙ append_assoc s.input_queue (added a) (all_added rest)

-- An interrupt is wanted exactly when the guest, asking which, does not get "none" (0x01); the one
-- that it gets is received data (0x04) before an empty transmitter (0x02), and having got the
-- latter it gets it no more until a write schedules it again.
pub read_iir-needs_irq :
    (s : SerialState)
    → let (s', iir) = read_iir s in
      (needs_irq s ≡ not (iir == 0x01))
      × ((iir == 0x04) ≡ (has_input s && rda_int_enabled s))
      × (s'.thre_pending ≡ (s.thre_pending && (iir == 0x04)))
unfolding read_iir needs_irq
read_iir-needs_irq s = ground arith

-- With the transmitter interrupt enabled and the divisor latch not selected, each byte that the guest
-- writes is sent and asks for an interrupt; so does the write that enables that interrupt.
pub write_port-needs_irq :
    (s : SerialState) (value : ℕ)
    → dlab s ≡ false
    → thre_int_enabled s ≡ true
    → ((write_port s Port.rbr_thr value).1 ≡ true)
      × (needs_irq (write_port s Port.rbr_thr value).0 ≡ true)
      × (needs_irq (write_port s Port.ier s.ier).0 ≡ true)
unfolding write_port needs_irq thre_int_enabled
write_port-needs_irq s value l h = ground arith
