-- ===== src/Tests/VmmTests.antt =====
-- A bus with one balloon, and short runs of the capture loop.
use nova_vm.Common.{
  Result, String, if◌then◌else◌, length, ◌==◌, ℕ, ◌-◌, ◌≡◌, refl, true, false, none, some, List, [],
  ◌∷◌, ◌++◌, ok,
}
use nova_vm.Virtio.Mmio
use nova_vm.Virtio.Mmio.{Transport}
use nova_vm.Virtio.Balloon
use nova_vm.Virtio.Balloon.{Balloon, balloon_device}
use nova_vm.Vmm.Serial
use nova_vm.Vmm.Serial.{
  SerialState, Port, write_port, needs_irq, read_iir, has_input, rda_int_enabled, dlab,
  thre_int_enabled, read_port, port_at, read_rbr, queue_input,
}
use nova_vm.Vmm.Serial.Input.{Access, run, all_taken, all_added, delivered, input_in_order}
use nova_vm.Vmm.Bus
use nova_vm.Vmm.Bus.{MmioDevice, MmioBus, read, write, read_device, contains, is_width}
use nova_vm.Vmm.Bus.Dispatch.{any_contains, access-first}
use nova_vm.Vmm.Run.{
  Guest, Ending, handle_exit, run_vcpu_loop, poll_guest, ending, printed, run_vcpu_loop-ending,
}
use nova_vm.Vmm.Match.{run_vcpu_until_match, match_loop, found, occurs, starts}
use nova_vm.Vmm.Match.Found.{run_vcpu_until_match-occurs}
use nova_vm.Vmm.Capture.{
  on_exit, on_io_out, is_serial, serial_out, poll, CaptureStopReason, returned, VmExit, Machine,
  Turn, CaptureConfig, capture,
}
use nova_vm.Vmm.Capture.Output.{final, turns_done, transmitted}
use nova_vm.Vmm.Capture.Loop.{output_of, capture-transmitted}
use nova_vm.Vmm.Capture.Ends.{any_ends, ends, is_going, capture_ends}

abbrev talk : List Access
talk = Access.inputs (104 ∷ 105 ∷ []) ∷ Access.writes 0x3F9 1 ∷ Access.reads 0x3F8 ∷ []

talk_taken : all_taken Serial.new talk ≡ 104 ∷ []
unfolding Serial.new Serial.read Serial.write queue_input delivered port_at dlab read_port
    write_port read_rbr thre_int_enabled
talk_taken = refl

input_in_order_example :
    all_taken Serial.new talk ++ (run Serial.new talk).input_queue
    ≡ Serial.new.input_queue ++ all_added talk
input_in_order_example = input_in_order Serial.new talk

abbrev waiting : SerialState
waiting = record Serial.new { ier = 3; thre_pending = true }

abbrev balloon_at : ℕ → MmioDevice Balloon
balloon_at base = record { base = base; size = 512; transport = Mmio.new Balloon.new; irq = some 5 }

access-first_example :
    let bus : MmioBus Balloon = record {
      devices = (balloon_at 4096 ∷ []) ++ (balloon_at 8192 ∷ []);
      vm_fd = none;
    } in
    let (t, mem') = Mmio.write (balloon_at 8192).transport [] (8304 - 8192) 1 in
    (read bus 8304 4 ≡ read_device (balloon_at 8192).transport (8304 - 8192) 4)
    × (write bus [] 8304 4 1 ≡ (
      record {
        devices = (balloon_at 4096 ∷ []) ++ (record (balloon_at 8192) { transport = t } ∷ []);
        vm_fd = none;
      },
      mem',
      true,
    ))
unfolding any_contains contains is_width
access-first_example =
    access-first (balloon_at 4096 ∷ []) [] (balloon_at 8192) none [] 8304 4 1 refl refl refl

abbrev machine : Machine Balloon
machine = record {
  bus = Bus.new;
  memory = [];
  serial = Serial.new;
  output = [];
  console = [];
  diag = record {
    total_exits = 0;
    io_in_count = 0;
    io_out_count = 0;
    io_out_serial_count = 0;
    mmio_count = 0;
    elapsed = 0;
  };
  answer = [];
  irqs = [];
}

abbrev turn : VmExit → Turn
turn exit = record {
  input = [];
  stop_before = false;
  exit = ok exit;
  stop_after = false;
  elapsed = 1;
}

abbrev limits : CaptureConfig
limits = record { timeout = 100; max_output = 2; interactive = false }

abbrev hello : List Turn
hello =
    turn (VmExit.io_out 0x3F8 1 72) ∷ turn (VmExit.io_out 0x3F8 1 105) ∷ turn VmExit.shutdown ∷ []

capture-transmitted_example :
    output_of (capture limits machine hello)
    ≡ machine.output
      ++ transmitted machine.serial.lcr (turns_done limits 0 machine.serial.lcr hello)
capture-transmitted_example = capture-transmitted limits machine hello

capture_ends_example : is_going (capture limits machine hello) ≡ false
unfolding any_ends ends final
capture_ends_example = capture_ends limits machine hello refl

abbrev guest : Guest Balloon
guest = record { bus = Bus.new; memory = []; stdout = []; answer = []; irqs = [] }

abbrev boot : List (Result String VmExit)
boot = ok (VmExit.io_out 0x3F8 1 72) ∷ ok VmExit.hlt ∷ ok VmExit.shutdown ∷ []

boot_run : run_vcpu_loop guest boot ≡ (record guest { stdout = 72 ∷ [] }, Ending.finished)
unfolding run_vcpu_loop handle_exit poll_guest Bus.poll_devices Bus.new
boot_run = refl

run_vcpu_loop-ending_example :
    ((run_vcpu_loop guest boot).1 ≡ ending boot)
    × ((run_vcpu_loop guest boot).0.stdout ≡ guest.stdout ++ printed boot)
run_vcpu_loop-ending_example = run_vcpu_loop-ending guest boot

-- The text "i" is found before the exit that comes after it, and an empty text panics.
text_found :
    run_vcpu_until_match 100 (105 ∷ []) machine hello
    ≡ some (
        returned
          (record machine {
            output = 72 ∷ 105 ∷ [];
            diag = record machine.diag {
              total_exits = 2;
              io_out_count = 2;
              io_out_serial_count = 2;
              elapsed = 1;
            };
          })
          CaptureStopReason.buffer_full)
unfolding run_vcpu_until_match match_loop found occurs starts on_exit on_io_out is_serial serial_out
    needs_irq Serial.write write_port port_at dlab poll Serial.new thre_int_enabled Bus.new
    Bus.poll_devices
text_found = refl

run_vcpu_until_match-occurs_example : run_vcpu_until_match 100 (105 ∷ []) machine hello ≡ (
    if length {A = ℕ} (105 ∷ []) == 0
    then none
    else some (match_loop (occurs (105 ∷ [])) 100 machine hello))
run_vcpu_until_match-occurs_example =
    run_vcpu_until_match-occurs 100 (105 ∷ []) machine (turn (VmExit.io_out 0x3F8 1 72))
      (turn (VmExit.io_out 0x3F8 1 105) ∷ turn VmExit.shutdown ∷ []) refl
