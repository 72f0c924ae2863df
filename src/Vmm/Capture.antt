-- ===== src/Vmm/Capture.antt =====
-- The run loops of crates/nova-vmm/src/exit_handler.rs that capture the serial output. A vCPU is what
-- `run` returns, turn by turn. The two copies of the loop are one definition with a flag: the
-- interactive one also echoes to the console and watches the shutdown flag.
pub mod Output
pub mod Loop
pub mod Ends
use nova_vm.Common.{
  ℕ, ◌+◌, ◌%◌, ◌^◌, Bool, true, false, ◌&&◌, Option, none, some, List, [], ◌∷◌, ◌++◌, String,
  Result, ok, err, ◌==◌, leb, if◌then◌else◌, length, take, replicate,
}
use nova_vm.Common.Bytes.{to_le, from_le}
use nova_vm.Mem.Memory.{Memory}
use nova_vm.Virtio.Trait.{VirtioDevice}
use nova_vm.Vmm.Serial
use nova_vm.Vmm.Serial.{SerialState, queue_input, needs_irq, default_io_read}
use nova_vm.Vmm.Bus
use nova_vm.Vmm.Bus.{MmioBus, poll_devices}

-- `VmExit` of crates/nova-kvm; the data of a write are its eight bytes.
pub data VmExit : Type 0 where
  mmio_read : ℕ → ℕ → VmExit
  mmio_write : ℕ → List ℕ → ℕ → VmExit
  io_in : ℕ → ℕ → VmExit
  io_out : ℕ → ℕ → ℕ → VmExit
  hlt shutdown interrupted : VmExit
  internal_error unknown : ℕ → VmExit

-- The two texts of an error are told apart by the exit.
pub data CaptureStopReason : Type 0 where
  hlt shutdown timeout buffer_full stopped : CaptureStopReason
  error : VmExit → CaptureStopReason

pub record CaptureDiagnostics : Type 0 where
  pub total_exits : ℕ
  pub io_in_count : ℕ
  pub io_out_count : ℕ
  pub io_out_serial_count : ℕ
  pub mmio_count : ℕ
  pub elapsed : ℕ

-- What the loop reads and writes. `answer` is the data last written for the guest; `irqs` are the
-- interrupts injected, newest last.
pub record Machine (D : Type 0) : Type 0 where
  pub bus : MmioBus D
  pub memory : Memory
  pub serial : SerialState
  pub output : List ℕ
  pub console : List ℕ
  pub diag : CaptureDiagnostics
  pub answer : List ℕ
  pub irqs : List ℕ

-- One turn of the loop from outside: console input that has come, the shutdown flag before `run` and
-- after it, what `run` returns, and the time that has passed.
pub record Turn : Type 0 where
  pub input : List ℕ
  pub stop_before : Bool
  pub exit : Result String VmExit
  pub stop_after : Bool
  pub elapsed : ℕ

pub record CaptureConfig : Type 0 where
  pub timeout : ℕ
  pub max_output : ℕ
  pub interactive : Bool

abbrev pub count : ℕ → ℕ
count n = (n + 1) % 2 ^ 64

-- `(0x3F8..=0x3FF).contains(port)`
unfoldable pub is_serial : ℕ → Bool
is_serial port = leb 0x3F8 port && leb port 0x3FF

-- The value of a write, by its width
unfoldable pub write_value : List ℕ → ℕ → ℕ
write_value bytes len =
    if len == 1
    then from_le (take 1 bytes)
    else if len == 2
    then from_le (take 2 bytes)
    else if len == 4
    then from_le (take 4 bytes)
    else 0

-- The bytes of a read's value, by its width
unfoldable pub read_bytes : ℕ → ℕ → List ℕ
read_bytes value len =
    if len == 1
    then to_le 1 value
    else if len == 2
    then to_le 2 value
    else if len == 4
    then to_le 4 value
    else []

module _ {D : Type 0} where
  unfoldable pub inject_serial_irq : Machine D → Machine D
  inject_serial_irq m = elim m.bus.vm_fd [
    | none ↦ m
    | some fd ↦ record m { irqs = m.irqs ++ (4 ∷ []) }
  ]

  abbrev pub irq_if_needed : Machine D → Machine D
  irq_if_needed m = if needs_irq m.serial then inject_serial_irq m else m

  -- `if serial.write(..)`: a data byte goes to the output, and to the console in the interactive loop.
  abbrev pub emit : Bool → Machine D → ℕ → Bool → Machine D
  emit interactive m byte false = m
  emit interactive m byte true = record m {
    output = m.output ++ (byte ∷ []);
    console = if interactive then m.console ++ (byte ∷ []) else m.console;
  }

  unfoldable pub serial_out : Bool → Machine D → ℕ → ℕ → Machine D
  serial_out interactive m port byte =
      let (s, sent) = Serial.write m.serial port byte in
      let counted = record m {
        serial = s;
        diag = record m.diag { io_out_serial_count = count m.diag.io_out_serial_count };
      } in
      irq_if_needed (emit interactive counted byte sent)

  unfoldable pub on_io_out : Bool → Machine D → ℕ → ℕ → ℕ → Machine D
  on_io_out interactive m port size value =
      let m' = record m { diag = record m.diag { io_out_count = count m.diag.io_out_count } } in
      if is_serial port && size == 1 then serial_out interactive m' port (value % 2 ^ 8) else m'

  -- The value is written once for each byte asked for.
  unfoldable pub on_io_in : Machine D → ℕ → ℕ → Machine D
  on_io_in m port size =
      let (s, value) =
        if is_serial port then Serial.read m.serial port else (m.serial, default_io_read port) in
      record m {
        serial = s;
        diag = record m.diag { io_in_count = count m.diag.io_in_count };
        answer = replicate size value;
      }

  -- The drain of the shared input queue
  unfoldable pub drain : Machine D → List ℕ → Machine D
  drain m [] = m
  drain m (b ∷ bs) = irq_if_needed (record m { serial = queue_input m.serial (b ∷ bs) })

-- A run still goes on, has returned, or has failed because `run` did.
pub data Run (D : Type 0) : Type 0 where
  going : Machine D → Run D
  returned : Machine D → CaptureStopReason → Run D
  failed : Machine D → String → Run D

module _ {D : Type 0} ⦃dev : VirtioDevice D⦄ where
  unfoldable pub on_mmio_write : Machine D → ℕ → List ℕ → ℕ → Machine D
  on_mmio_write m a bytes len =
      let (bus, memory, done) = Bus.write m.bus m.memory a len (write_value bytes len) in
      record m {
        bus = bus;
        memory = memory;
        diag = record m.diag { mmio_count = count m.diag.mmio_count };
      }

  -- `unwrap_or(0)`; for a width that is not served no byte is written.
  unfoldable pub on_mmio_read : Machine D → ℕ → ℕ → Machine D
  on_mmio_read m a len =
      let value : ℕ = elim (Bus.read m.bus a len) [ some v ↦ v | none ↦ 0 ] in
      record m {
        diag = record m.diag { mmio_count = count m.diag.mmio_count };
        answer = read_bytes value len;
      }

  unfoldable pub poll : Machine D → Machine D
  poll m =
      let (bus, memory, irqs, any) = poll_devices m.bus m.memory in
      record m { bus = bus; memory = memory; irqs = m.irqs ++ irqs }

  -- `match &exit`, with the reason to return
  unfoldable pub on_exit :
      CaptureConfig → Bool → ℕ → Machine D → VmExit → Machine D × Option CaptureStopReason
  on_exit c stop_after elapsed m VmExit.interrupted =
      if c.interactive && stop_after
      then (m, some CaptureStopReason.stopped)
      else if leb c.timeout elapsed
      then (m, some CaptureStopReason.timeout)
      else (m, none)
  on_exit c stop_after elapsed m (VmExit.io_out port size value) =
      (on_io_out c.interactive m port size value, none)
  on_exit c stop_after elapsed m (VmExit.io_in port size) = (on_io_in m port size, none)
  on_exit c stop_after elapsed m (VmExit.mmio_write a bytes len) =
      (on_mmio_write m a bytes len, none)
  on_exit c stop_after elapsed m (VmExit.mmio_read a len) = (on_mmio_read m a len, none)
  on_exit c stop_after elapsed m VmExit.hlt = (poll m, none)
  on_exit c stop_after elapsed m VmExit.shutdown = (m, some CaptureStopReason.shutdown)
  on_exit c stop_after elapsed m (VmExit.internal_error n) =
      (m, some (CaptureStopReason.error (VmExit.internal_error n)))
  on_exit c stop_after elapsed m (VmExit.unknown n) =
      (m, some (CaptureStopReason.error (VmExit.unknown n)))

  abbrev pub stop : Machine D → ℕ → CaptureStopReason → Run D
  stop m elapsed reason = returned (record m { diag = record m.diag { elapsed = elapsed } }) reason

  -- The loop, over the turns that come.
  unfoldable pub capture : CaptureConfig → Machine D → List Turn → Run D
  capture c m [] = going m
  capture c m (t ∷ ts) = elim (leb c.max_output (length m.output)) [
    | true ↦ stop m t.elapsed CaptureStopReason.buffer_full
    | false ↦ elim (c.interactive && t.stop_before) [
      | true ↦ stop m t.elapsed CaptureStopReason.stopped
      | false ↦
          let ready = poll (drain m t.input) in
          elim t.exit [
            | err e ↦ failed ready e
            | ok exit ↦
                let counted = record ready {
                  diag = record ready.diag { total_exits = count ready.diag.total_exits };
                } in
                let (m', reason) = on_exit c t.stop_after t.elapsed counted exit in
                elim reason [ some r ↦ stop m' t.elapsed r | none ↦ capture c m' ts ]
          ]
    ]
  ]
