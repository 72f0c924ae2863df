-- ===== src/Vmm/Capture/Output.antt =====
-- What one exit does to the captured output, and a description of it without the machine.
use mathlib.Core.List.{append-nil}
use nova_vm.Common.{
  ℕ, ◌%◌, ◌^◌, ◌≡◌, refl, sym, ◌∙◌, ap, Bool, true, false, ◌&&◌, ◌||◌, ◌+◌, leb, length, none, some,
  List, [], ◌∷◌, ◌++◌, ok, err, ◌==◌, if◌then◌else◌, bit_and, arith, Bool-cases, inl, inr,
}
use nova_vm.Virtio.Trait.{VirtioDevice}
use nova_vm.Vmm.Serial
use nova_vm.Vmm.Serial.{
  SerialState, Port, write_port, read_port, port_at, queue_input, needs_irq, dlab, schedule,
  thre_int_enabled, read_rbr, read_iir,
}
use nova_vm.Vmm.Capture.{
  CaptureStopReason, VmExit, Machine, Turn, CaptureConfig, is_serial, inject_serial_irq, serial_out,
  on_io_out, on_io_in, drain, on_mmio_read, on_mmio_write, poll, on_exit, emit, irq_if_needed,
  count,
}

-- The byte that an exit sends, if any, where `lcr` is the line control register: a write of one byte
-- to 0x3F8 with the divisor latch not selected.
unfoldable pub sent : ℕ → VmExit → List ℕ
sent lcr (VmExit.io_out port size value) =
    if size == 1 && port == 0x3F8 && bit_and lcr 0x80 == 0 then (value % 2 ^ 8) ∷ [] else []
sent lcr (VmExit.io_in port size) = []
sent lcr (VmExit.mmio_read a len) = []
sent lcr (VmExit.mmio_write a bytes len) = []
sent lcr VmExit.hlt = []
sent lcr VmExit.shutdown = []
sent lcr VmExit.interrupted = []
sent lcr (VmExit.internal_error n) = []
sent lcr (VmExit.unknown n) = []

-- The line control register after an exit: a write of one byte to 0x3FB sets it.
unfoldable pub next_lcr : ℕ → VmExit → ℕ
next_lcr lcr (VmExit.io_out port size value) =
    if size == 1 && port == 0x3FB then value % 2 ^ 8 else lcr
next_lcr lcr (VmExit.io_in port size) = lcr
next_lcr lcr (VmExit.mmio_read a len) = lcr
next_lcr lcr (VmExit.mmio_write a bytes len) = lcr
next_lcr lcr VmExit.hlt = lcr
next_lcr lcr VmExit.shutdown = lcr
next_lcr lcr VmExit.interrupted = lcr
next_lcr lcr (VmExit.internal_error n) = lcr
next_lcr lcr (VmExit.unknown n) = lcr

-- The exit ends the loop: `late` is the shutdown flag when `run` has returned.
unfoldable pub final : CaptureConfig → Bool → ℕ → VmExit → Bool
final c late elapsed VmExit.shutdown = true
final c late elapsed (VmExit.internal_error n) = true
final c late elapsed (VmExit.unknown n) = true
final c late elapsed VmExit.interrupted = (c.interactive && late) || leb c.timeout elapsed
final c late elapsed VmExit.hlt = false
final c late elapsed (VmExit.io_in port size) = false
final c late elapsed (VmExit.io_out port size value) = false
final c late elapsed (VmExit.mmio_read a len) = false
final c late elapsed (VmExit.mmio_write a bytes len) = false

-- The turns that a loop does, where `captured` bytes are there and `lcr` is the line control register:
-- none once there are as many bytes as asked for, the interactive loop is told to stop or `run` fails;
-- else this one, and the ones behind it unless its exit ends the loop.
abbrev pub turns_done : CaptureConfig → ℕ → ℕ → List Turn → List Turn
turns_done c captured lcr [] = []
turns_done c captured lcr (t ∷ ts) =
    if leb c.max_output captured || (c.interactive && t.stop_before) then [] else elim t.exit [
      | err e ↦ []
      | ok x ↦
          t
          ∷ (if final c t.stop_after t.elapsed x
              then []
              else turns_done c (captured + length (sent lcr x)) (next_lcr lcr x) ts)
    ]

-- The bytes that these turns send, in their order
abbrev pub transmitted : ℕ → List Turn → List ℕ
transmitted lcr [] = []
transmitted lcr (t ∷ ts) = elim t.exit [
  | err e ↦ transmitted lcr ts
  | ok x ↦ sent lcr x ++ transmitted (next_lcr lcr x) ts
]

serial_write :
    (s : SerialState) (port value : ℕ)
    → ((Serial.write s port value).1 ≡ (port == 0x3F8 && bit_and s.lcr 0x80 == 0))
      × ((Serial.write s port value).0.lcr ≡ (if port == 0x3FB then value else s.lcr))
unfolding Serial.write write_port port_at dlab thre_int_enabled
serial_write s port value = ground arith

one_byte : (port size : ℕ) → (is_serial port && size == 1) ≡ true → (size == 1) ≡ true
one_byte port size e = ground arith

not_serial :
    (port size : ℕ) (b : Bool)
    → (is_serial port && size == 1) ≡ false
    → ((size == 1 && port == 0x3F8 && b) ≡ false) × ((size == 1 && port == 0x3FB) ≡ false)
unfolding is_serial
not_serial port size b e = ground arith

serial_read-lcr : (s : SerialState) (port : ℕ) → (Serial.read s port).0.lcr ≡ s.lcr
unfolding Serial.read read_port port_at read_rbr read_iir
serial_read-lcr s port = ground arith

module _ {D : Type 0} where
  irq-output :
      (m : Machine D)
      → ((irq_if_needed m).output ≡ m.output) × ((irq_if_needed m).serial ≡ m.serial)
  unfolding inject_serial_irq
  irq-output m = ground arith

  drain-output :
      (m : Machine D) (bytes : List ℕ)
      → ((drain m bytes).output ≡ m.output) × ((drain m bytes).serial.lcr ≡ m.serial.lcr)
  unfolding drain queue_input
  drain-output m [] = (refl, refl)
  drain-output m (b ∷ bs) =
      let e = irq-output (record m { serial = queue_input m.serial (b ∷ bs) }) in
      (e.0, ap (λ s. s.lcr) e.1)

  emit-output :
      (i : Bool) (m : Machine D) (byte : ℕ) (was_sent : Bool)
      → ((emit i m byte was_sent).output ≡ m.output ++ (if was_sent then byte ∷ [] else []))
        × ((emit i m byte was_sent).serial ≡ m.serial)
  emit-output i m byte false = (sym (append-nil m.output), refl)
  emit-output i m byte true = (refl, refl)

  serial_out-output :
      (i : Bool) (m : Machine D) (port byte : ℕ)
      → ((serial_out i m port byte).output
          ≡ m.output ++ (if port == 0x3F8 && bit_and m.serial.lcr 0x80 == 0 then byte ∷ [] else []))
        × ((serial_out i m port byte).serial.lcr ≡ (if port == 0x3FB then byte else m.serial.lcr))
  unfolding serial_out
  serial_out-output i m port byte =
      let (ser, was_sent) = Serial.write m.serial port byte in
      let counted : Machine D = record m {
        serial = ser;
        diag = record m.diag { io_out_serial_count = count m.diag.io_out_serial_count };
      } in
      let w = serial_write m.serial port byte in
      let one = emit-output i counted byte was_sent in
      let two = irq-output (emit i counted byte was_sent) in
      (
        two.0 ∙ one.0 ∙ ap (λ b. m.output ++ (if b then byte ∷ [] else [])) w.0,
        ap (λ s. s.lcr) (two.1 ∙ one.1) ∙ w.1,
      )

  on_io_out-output :
      (i : Bool) (m : Machine D) (port size value : ℕ)
      → ((on_io_out i m port size value).output
          ≡ m.output ++ sent m.serial.lcr (VmExit.io_out port size value))
        × ((on_io_out i m port size value).serial.lcr
            ≡ next_lcr m.serial.lcr (VmExit.io_out port size value))
  unfolding on_io_out sent next_lcr
  on_io_out-output i m port size value =
      let m' : Machine D = record m {
        diag = record m.diag { io_out_count = count m.diag.io_out_count };
      } in
      let o = serial_out-output i m' port (value % 2 ^ 8) in
      elim (Bool-cases (is_serial port && size == 1)) [
        | inl e ↦ rw (e, on_io_out) (rw (one_byte port size e) o)
        | inr e ↦
            let no = not_serial port size (bit_and m.serial.lcr 0x80 == 0) e in
            rw (e, on_io_out) (rw (no.0, no.1) (sym (append-nil m.output), refl))
      ]

  in_output : (m : Machine D) (port size : ℕ) → (on_io_in m port size).output ≡ m.output ++ []
  unfolding on_io_in
  in_output m port size = sym (append-nil m.output)

  in_lcr : (m : Machine D) (port size : ℕ) → (on_io_in m port size).serial.lcr ≡ m.serial.lcr
  unfolding on_io_in
  in_lcr m port size = ground (arith, serial_read-lcr m.serial port)

module _ {D : Type 0} ⦃dev : VirtioDevice D⦄ where
  pub on_exit-output :
      (c : CaptureConfig) (late : Bool) (elapsed : ℕ) (m : Machine D) (x : VmExit)
      → ((on_exit c late elapsed m x).0.output ≡ m.output ++ sent m.serial.lcr x)
        × ((on_exit c late elapsed m x).0.serial.lcr ≡ next_lcr m.serial.lcr x)
  unfolding on_exit sent next_lcr poll on_mmio_read on_mmio_write
  on_exit-output c late elapsed m (VmExit.io_out port size value) =
      on_io_out-output c.interactive m port size value
  on_exit-output c late elapsed m (VmExit.io_in port size) =
      (in_output m port size, in_lcr m port size)
  on_exit-output c late elapsed m (VmExit.mmio_read a len) = (sym (append-nil m.output), refl)
  on_exit-output c late elapsed m (VmExit.mmio_write a bytes len) =
      (sym (append-nil m.output), refl)
  on_exit-output c late elapsed m VmExit.hlt = (sym (append-nil m.output), refl)
  on_exit-output c late elapsed m VmExit.shutdown = (sym (append-nil m.output), refl)
  on_exit-output c late elapsed m VmExit.interrupted = ground (arith, append-nil m.output)
  on_exit-output c late elapsed m (VmExit.internal_error n) = (sym (append-nil m.output), refl)
  on_exit-output c late elapsed m (VmExit.unknown n) = (sym (append-nil m.output), refl)

  -- An exit ends the loop exactly where it is final.
  pub final-on_exit :
      (c : CaptureConfig) (late : Bool) (elapsed : ℕ) (m : Machine D) (x : VmExit)
      → ((on_exit c late elapsed m x).1 ≡ none → final c late elapsed x ≡ false)
        × ((r : CaptureStopReason)
            → (on_exit c late elapsed m x).1 ≡ some r
            → final c late elapsed x ≡ true)
  unfolding on_exit final
  final-on_exit c late elapsed m x = (λ e. ground arith, λ r e. ground arith)

  pub ready-output :
      (m : Machine D) (bytes : List ℕ)
      → ((poll (drain m bytes)).output ≡ m.output)
        × ((poll (drain m bytes)).serial.lcr ≡ m.serial.lcr)
  unfolding poll
  ready-output m bytes = drain-output m bytes
