-- ===== src/Vmm/Run.antt =====
-- `handle_exit` and `run_vcpu_loop` of crates/nova-vmm/src/exit_handler.rs: the loop that prints the
-- early console and keeps no diagnostics.
use mathlib.Core.List.{append-nil, append_assoc}
use nova_vm.Common.{
  ℕ, ◌%◌, ◌^◌, ◌≡◌, refl, sym, ◌∙◌, ap, ◌&&◌, none, some, List, [], ◌∷◌, ◌++◌, String, Result, ok,
  err, ◌==◌, if◌then◌else◌, arith,
}
use nova_vm.Mem.Memory.{Memory}
use nova_vm.Virtio.Trait.{VirtioDevice}
use nova_vm.Vmm.Bus
use nova_vm.Vmm.Bus.{MmioBus, poll_devices}
use nova_vm.Vmm.Capture.{VmExit, write_value, read_bytes}

-- `stdout` is what was printed, `answer` the data last written for the guest.
pub record Guest (D : Type 0) : Type 0 where
  pub bus : MmioBus D
  pub memory : Memory
  pub stdout : List ℕ
  pub answer : List ℕ
  pub irqs : List ℕ

-- The text of an error is told by the exit.
pub data ExitAction : Type 0 where
  continue shutdown : ExitAction
  error : VmExit → ExitAction

module _ {D : Type 0} ⦃dev : VirtioDevice D⦄ where
  unfoldable pub handle_exit : VmExit → Guest D → Guest D × ExitAction
  handle_exit (VmExit.mmio_write a bytes len) g =
      let (bus, memory, done) = Bus.write g.bus g.memory a len (write_value bytes len) in
      (record g { bus = bus; memory = memory }, ExitAction.continue)
  handle_exit (VmExit.mmio_read a len) g =
      let value : ℕ = elim (Bus.read g.bus a len) [ some v ↦ v | none ↦ 0 ] in
      (record g { answer = read_bytes value len }, ExitAction.continue)
  handle_exit (VmExit.io_out port size value) g = (
    if port == 0x3F8 && size == 1
        then record g { stdout = g.stdout ++ ((value % 2 ^ 8) ∷ []) }
        else g,
    ExitAction.continue,
  )
  handle_exit (VmExit.io_in port size) g =
      (if port == 0x3FD then record g { answer = 0x60 ∷ [] } else g, ExitAction.continue)
  handle_exit VmExit.hlt g = (g, ExitAction.shutdown)
  handle_exit VmExit.shutdown g = (g, ExitAction.shutdown)
  handle_exit VmExit.interrupted g = (g, ExitAction.continue)
  handle_exit (VmExit.internal_error n) g = (g, ExitAction.error (VmExit.internal_error n))
  handle_exit (VmExit.unknown n) g = (g, ExitAction.error (VmExit.unknown n))

  unfoldable pub poll_guest : Guest D → Guest D
  poll_guest g =
      let (bus, memory, irqs, any) = poll_devices g.bus g.memory in
      record g { bus = bus; memory = memory; irqs = g.irqs ++ irqs }

-- How a loop ends: not yet, well, by the error of an exit, or because `run` has failed.
pub data Ending : Type 0 where
  going finished : Ending
  stopped_by : VmExit → Ending
  failed : String → Ending

module _ {D : Type 0} ⦃dev : VirtioDevice D⦄ where
  -- The loop, over what `run` returns, turn by turn. A halt is no shutdown here: the guest waits.
  unfoldable pub run_vcpu_loop : Guest D → List (Result String VmExit) → Guest D × Ending
  run_vcpu_loop g [] = (g, Ending.going)
  run_vcpu_loop g (err e ∷ rest) = (poll_guest g, Ending.failed e)
  run_vcpu_loop g (ok VmExit.hlt ∷ rest) = run_vcpu_loop (poll_guest (poll_guest g)) rest
  run_vcpu_loop g (ok x ∷ rest) =
      let (g', action) = handle_exit x (poll_guest g) in
      elim action [
        | ExitAction.continue ↦ run_vcpu_loop g' rest
        | ExitAction.shutdown ↦ (g', Ending.finished)
        | ExitAction.error y ↦ (g', Ending.stopped_by y)
      ]

-- The first exit that ends a loop
unfoldable pub ending : List (Result String VmExit) → Ending
ending [] = Ending.going
ending (err e ∷ rest) = Ending.failed e
ending (ok VmExit.shutdown ∷ rest) = Ending.finished
ending (ok (VmExit.internal_error n) ∷ rest) = Ending.stopped_by (VmExit.internal_error n)
ending (ok (VmExit.unknown n) ∷ rest) = Ending.stopped_by (VmExit.unknown n)
ending (ok x ∷ rest) = ending rest

-- The bytes written one by one to the console before that exit
unfoldable pub printed : List (Result String VmExit) → List ℕ
printed [] = []
printed (err e ∷ rest) = []
printed (ok VmExit.shutdown ∷ rest) = []
printed (ok (VmExit.internal_error n) ∷ rest) = []
printed (ok (VmExit.unknown n) ∷ rest) = []
printed (ok (VmExit.io_out port size value) ∷ rest) =
    (if port == 0x3F8 && size == 1 then (value % 2 ^ 8) ∷ [] else []) ++ printed rest
printed (ok x ∷ rest) = printed rest

module _ {D : Type 0} ⦃dev : VirtioDevice D⦄ where
  handle_exit-io_in :
      (g : Guest D) (port size : ℕ)
      → (handle_exit (VmExit.io_in port size) (poll_guest g)).0.stdout ≡ g.stdout
  unfolding handle_exit poll_guest
  handle_exit-io_in g port size = ground arith

  handle_exit-io_out :
      (g : Guest D) (port size value : ℕ)
      → (handle_exit (VmExit.io_out port size value) (poll_guest g)).0.stdout
        ≡ g.stdout ++ (if port == 0x3F8 && size == 1 then (value % 2 ^ 8) ∷ [] else [])
  unfolding handle_exit poll_guest
  handle_exit-io_out g port size value = ground (arith, append-nil g.stdout)

  -- The loop ends with the first shutdown, error or failure that the CPU reports, whatever the devices
  -- do, and not with a halt; and it has printed the bytes that the guest has written to the console
  -- until then, in their order.
  pub run_vcpu_loop-ending :
      (g : Guest D) (turns : List (Result String VmExit))
      → ((run_vcpu_loop g turns).1 ≡ ending turns)
        × ((run_vcpu_loop g turns).0.stdout ≡ g.stdout ++ printed turns)
  unfolding run_vcpu_loop ending printed handle_exit poll_guest
  run_vcpu_loop-ending g [] = (refl, sym (append-nil g.stdout))
  run_vcpu_loop-ending g (err e ∷ rest) = (refl, sym (append-nil g.stdout))
  run_vcpu_loop-ending g (ok VmExit.hlt ∷ rest) =
      run_vcpu_loop-ending (poll_guest (poll_guest g)) rest
  run_vcpu_loop-ending g (ok VmExit.shutdown ∷ rest) = (refl, sym (append-nil g.stdout))
  run_vcpu_loop-ending g (ok (VmExit.internal_error n) ∷ rest) = (refl, sym (append-nil g.stdout))
  run_vcpu_loop-ending g (ok (VmExit.unknown n) ∷ rest) = (refl, sym (append-nil g.stdout))
  run_vcpu_loop-ending g (ok VmExit.interrupted ∷ rest) =
      run_vcpu_loop-ending (handle_exit VmExit.interrupted (poll_guest g)).0 rest
  run_vcpu_loop-ending g (ok (VmExit.mmio_write a bytes len) ∷ rest) =
      run_vcpu_loop-ending (handle_exit (VmExit.mmio_write a bytes len) (poll_guest g)).0 rest
  run_vcpu_loop-ending g (ok (VmExit.mmio_read a len) ∷ rest) =
      run_vcpu_loop-ending (handle_exit (VmExit.mmio_read a len) (poll_guest g)).0 rest
  run_vcpu_loop-ending g (ok (VmExit.io_in port size) ∷ rest) =
      let ih = run_vcpu_loop-ending (handle_exit (VmExit.io_in port size) (poll_guest g)).0 rest in
      (ih.0, ih.1 ∙ ap (λ xs. xs ++ printed rest) (handle_exit-io_in g port size))
  run_vcpu_loop-ending g (ok (VmExit.io_out port size value) ∷ rest) =
      let x = VmExit.io_out port size value in
      let ih = run_vcpu_loop-ending (handle_exit x (poll_guest g)).0 rest in
      let sent = if port == 0x3F8 && size == 1 then (value % 2 ^ 8) ∷ [] else [] in
      (
        ih.0,
        ih.1
            ∙ ap (λ xs. xs ++ printed rest) (handle_exit-io_out g port size value)
            ∙ append_assoc g.stdout sent (printed rest),
      )
