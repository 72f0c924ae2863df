-- ===== src/Runtime/Sandbox/Calls.antt =====
-- What the orchestrator's calls do from a given state: the whole life of a VM sandbox, and what a
-- call that fails leaves behind.
use nova_vm.Common.{
  ℕ, true, none, some, String, ok, err, lookup, remove, ◌≡◌, refl, arith, str_eq, eq_iff,
  Bool-cases, Option-cases, Result-cases, inl, inr, lookup-remove, ◌∙◌, ◌⊎◌, ap,
}
use nova_vm.Runtime.Error.{RuntimeError, invalid_state}
use nova_vm.Runtime.Sandbox
use nova_vm.Runtime.Sandbox.{
  SandboxState, SandboxKind, SandboxConfig, Sandbox, same_state, set_state, set_error, fake_pid,
}
use nova_vm.Runtime.Sandbox.Wasm.{WasmHost, run_wasm_sandbox}
use nova_vm.Runtime.Sandbox.Orchestrator.{
  SandboxOrchestrator, create, start, stop, destroy, put, start_sandbox, start_wasm,
}
use nova_vm.Runtime.Sandbox.Lifecycle.{lookup-put_self, lookup-put_other, same_state-eq}

abbrev pub started : ℕ → Sandbox → Sandbox
started process_id s = record s {
  pid = some (fake_pid process_id 1000);
  state = SandboxState.running;
}

abbrev pub halted : Sandbox → Sandbox
halted s = record s { pid = none; state = SandboxState.stopped }

module _ (o : SandboxOrchestrator) (id : String) where
  create_fresh :
      (now : ℕ) (config : SandboxConfig)
      → lookup id o.sandboxes ≡ none
      → create now o id config ≡ (put o id (Sandbox.new now id config), ok tt)
  unfolding create
  create_fresh now config e = rw (e, create) refl

  start_vm :
      (host : WasmHost) (process_id : ℕ) (s : Sandbox)
      → lookup id o.sandboxes ≡ some s
      → s.config.kind ≡ SandboxKind.vm
      → s.state ≡ SandboxState.created
      → start host process_id o id ≡ (put o id (started process_id s), ok tt)
  unfolding start start_sandbox Sandbox.start
  start_vm host process_id s e k c =
      let boots : start_sandbox host process_id o id s SandboxKind.vm
          ≡ (put o id (started process_id s), ok tt) =
        rw (c, Sandbox.start) refl in
      rw (e, start) (ap (start_sandbox host process_id o id s) k ∙ boots)

  stop_running :
      (s : Sandbox)
      → lookup id o.sandboxes ≡ some s
      → s.state ≡ SandboxState.running
      → stop o id ≡ (put o id (halted s), ok tt)
  unfolding stop Sandbox.stop
  stop_running s e r = rw (e, stop) (rw (r, Sandbox.stop) refl)

  destroy_running :
      (s : Sandbox)
      → lookup id o.sandboxes ≡ some s
      → s.state ≡ SandboxState.running
      → destroy o id ≡ (o, err (invalid_state id "running" "destroyed"))
  unfolding destroy
  destroy_running s e r = rw (e, destroy) (rw r refl)

  destroy-stopped :
      (s : Sandbox)
      → lookup id o.sandboxes ≡ some s
      → s.state ≡ SandboxState.stopped
      → destroy o id ≡ (record o { sandboxes = remove id o.sandboxes }, ok tt)
  unfolding destroy
  destroy-stopped s e r = rw (e, destroy) (rw r refl)

str_eq_refl : (s : String) → str_eq s s ≡ true
str_eq_refl s = ground (arith, eq_iff s s)

lookup-put :
    (o : SandboxOrchestrator) (id : String) (s : Sandbox)
    → lookup id (put o id s).sandboxes ≡ some s
lookup-put o id s = lookup-put_self o id id s (str_eq_refl id)

lookup-remove-put :
    (o : SandboxOrchestrator) (id j : String) (a b c : Sandbox)
    → lookup id o.sandboxes ≡ none
    → lookup j (remove id (put (put (put o id a) id b) id c).sandboxes) ≡ lookup j o.sandboxes
lookup-remove-put o id j a b c e =
    let last = put (put (put o id a) id b) id c in
    elim (Bool-cases (str_eq id j)) [
      | inl same ↦
          let free : lookup j o.sandboxes ≡ none = ground (arith, eq_iff id j) in
          rw (lookup-remove id j last.sandboxes, same, free) refl
      | inr other ↦
          rw (lookup-remove id j last.sandboxes, other)
            (lookup-put_other (put (put o id a) id b) id j c other
              ∙ lookup-put_other (put o id a) id j b other
              ∙ lookup-put_other o id j a other)
    ]

-- A VM sandbox under a new id can be created, started, stopped and destroyed, in this order; while it
-- is running it cannot be destroyed; and at the end every id is bound as it was at the beginning.
pub vm_life :
    (host : WasmHost) (now process_id : ℕ) (o : SandboxOrchestrator) (id j : String)
    (config : SandboxConfig)
    → lookup id o.sandboxes ≡ none
    → config.kind ≡ SandboxKind.vm
    → let r1 = create now o id config in
      let r2 = start host process_id r1.0 id in
      let r3 = stop r2.0 id in
      let r4 = destroy r3.0 id in
      (r1.1 ≡ ok tt)
      × (r2.1 ≡ ok tt)
      × (destroy r2.0 id ≡ (r2.0, err (invalid_state id "running" "destroyed")))
      × (r3.1 ≡ ok tt)
      × (r4.1 ≡ ok tt)
      × (lookup j r4.0.sandboxes ≡ lookup j o.sandboxes)
unfolding Sandbox.new
vm_life host now process_id o id j config e k =
    let s1 = Sandbox.new now id config in
    let s2 = started process_id s1 in
    let o1 = put o id s1 in
    let o2 = put o1 id s2 in
    let o3 = put o2 id (halted s2) in
    let e1 = create_fresh o id now config e in
    let e2 = start_vm o1 id host process_id s1 (lookup-put o id s1) k refl in
    let e3 = stop_running o2 id s2 (lookup-put o1 id s2) refl in
    let e4 = destroy-stopped o3 id (halted s2) (lookup-put o2 id (halted s2)) refl in
    let e5 = destroy_running o2 id s2 (lookup-put o1 id s2) refl in
    rw (e1, e2, e3, e4, e5)
      (refl, refl, refl, refl, refl, lookup-remove-put o id j s1 s2 (halted s2) e)

failed_start_sandbox :
    (host : WasmHost) (process_id : ℕ) (o o' : SandboxOrchestrator) (id : String) (s : Sandbox)
    (kind : SandboxKind) (x : RuntimeError)
    → start_sandbox host process_id o id s kind ≡ (o', err x)
    → (o' ≡ o)
      ⊎ ((s.state ≡ SandboxState.created)
          × (o' ≡ put o id (record s { state = SandboxState.error; pid = none })))
unfolding start_sandbox Sandbox.start start_wasm set_error set_state
failed_start_sandbox host process_id o o' id s SandboxKind.vm x h =
    elim (Bool-cases (same_state s.state SandboxState.created)) [
      | inl c ↦ ground arith
      | inr c ↦ ground arith
    ]
failed_start_sandbox host process_id o o' id s (SandboxKind.wasm path entry) x h =
    elim (Bool-cases (same_state s.state SandboxState.created)) [
      | inl c ↦ elim (Result-cases (run_wasm_sandbox host path entry)) [
        | inl (r, ran) ↦ ground arith
        | inr (y, failed) ↦ ground (arith, same_state-eq s.state SandboxState.created c)
      ]
      | inr c ↦ ground arith
    ]

-- A call of `start` that fails changes nothing, or it has run a created Wasm sandbox, which is then in
-- the error state and has no PID.
pub failed_start :
    (host : WasmHost) (process_id : ℕ) (o o' : SandboxOrchestrator) (id : String) (x : RuntimeError)
    → start host process_id o id ≡ (o', err x)
    → (o' ≡ o)
      ⊎ ((s : Sandbox) × (lookup id o.sandboxes ≡ some s)
          × (s.state ≡ SandboxState.created)
          × (o' ≡ put o id (record s { state = SandboxState.error; pid = none })))
unfolding start start_sandbox Sandbox.start start_wasm
failed_start host process_id o o' id x h = elim (Option-cases (lookup id o.sandboxes)) [
  | inl e ↦ ground arith
  | inr (s, e) ↦
      let failed = failed_start_sandbox host process_id o o' id s s.config.kind x (ground arith) in
      elim failed [ inl same ↦ inl same | inr (c, changed) ↦ inr (s, e, c, changed) ]
]
