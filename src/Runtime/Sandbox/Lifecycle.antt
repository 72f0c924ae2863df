-- ===== src/Runtime/Sandbox/Lifecycle.antt =====
-- How the orchestrator's calls move the states of the sandboxes.
use nova_vm.Common.{
  ℕ, true, false, Option, none, some, String, lookup, remove, ◌≡◌, refl, arith, str_eq, eq_iff,
  Bool-cases, Option-cases, Result-cases, inl, inr, lookup-insert, lookup-remove, ◌∙◌,
}
use nova_vm.Runtime.Sandbox
use nova_vm.Runtime.Sandbox.{
  SandboxState, SandboxKind, SandboxConfig, Sandbox, same_state, state_name, set_state, set_error,
  fake_pid,
}
use nova_vm.Runtime.Sandbox.Wasm.{WasmHost, run_wasm_sandbox}
use nova_vm.Runtime.Sandbox.Orchestrator
use nova_vm.Runtime.Sandbox.Orchestrator.{
  SandboxOrchestrator, create, start, stop, destroy, put, changed, start_sandbox, start_wasm,
  record_output,
}

abbrev state_if : Option Sandbox → Option SandboxState
state_if none = none
state_if (some s) = some s.state

-- The state of the sandbox `id`, if there is one
abbrev pub state_of : SandboxOrchestrator → String → Option SandboxState
state_of o id = state_if (lookup id o.sandboxes)

-- The changes of state that there are: to start, to run to the end or fail at once (Wasm), to be
-- stopped, and to be destroyed when not running.
pub data Moves : Option SandboxState → Option SandboxState → Type 0 where
  stays : (m : Option SandboxState) → Moves m m
  appears : Moves none (some SandboxState.created)
  boots : Moves (some SandboxState.created) (some SandboxState.running)
  finishes : Moves (some SandboxState.created) (some SandboxState.stopped)
  fails : Moves (some SandboxState.created) (some SandboxState.error)
  halts : Moves (some SandboxState.running) (some SandboxState.stopped)
  vanishes : (s : SandboxState) → same_state s SandboxState.running ≡ false → Moves (some s) none

-- One call
pub data Step (host : WasmHost) : SandboxOrchestrator → SandboxOrchestrator → Type 0 where
  creates :
      (o : SandboxOrchestrator) (now : ℕ) (id : String) (config : SandboxConfig)
      → Step host o (create now o id config).0
  starts :
      (o : SandboxOrchestrator) (process_id : ℕ) (id : String)
      → Step host o (start host process_id o id).0
  stops : (o : SandboxOrchestrator) (id : String) → Step host o (stop o id).0
  destroys : (o : SandboxOrchestrator) (id : String) → Step host o (destroy o id).0

pub data Reach (host : WasmHost) : SandboxOrchestrator → Type 0 where
  begins : Reach host Orchestrator.new
  steps : {o o' : SandboxOrchestrator} → Reach host o → Step host o o' → Reach host o'

pub same_state-eq : (a b : SandboxState) → same_state a b ≡ true → a ≡ b
same_state-eq a b h = ground arith

pub lookup-put_self :
    (o : SandboxOrchestrator) (id j : String) (s : Sandbox)
    → str_eq id j ≡ true
    → lookup j (put o id s).sandboxes ≡ some s
lookup-put_self o id j s e = lookup-insert id j s o.sandboxes ∙ rw e refl

pub lookup-put_other :
    (o : SandboxOrchestrator) (id j : String) (s : Sandbox)
    → str_eq id j ≡ false
    → lookup j (put o id s).sandboxes ≡ lookup j o.sandboxes
lookup-put_other o id j s e = lookup-insert id j s o.sandboxes ∙ rw e refl

put-Moves :
    (o : SandboxOrchestrator) (id j : String) (m : Option Sandbox) (s : Sandbox)
    → lookup id o.sandboxes ≡ m
    → Moves (state_if m) (some s.state)
    → Moves (state_of o j) (state_of (put o id s) j)
put-Moves o id j m s e move = elim (Bool-cases (str_eq id j)) [
  | inl same ↦
      let there : lookup j o.sandboxes ≡ m = ground (arith, eq_iff id j) in
      rw (lookup-put_self o id j s same, there) move
  | inr other ↦ rw (lookup-put_other o id j s other) (Moves.stays (state_of o j))
]

create-Moves :
    (now : ℕ) (o : SandboxOrchestrator) (id j : String) (config : SandboxConfig)
    → Moves (state_of o j) (state_of (create now o id config).0 j)
unfolding create Sandbox.new
create-Moves now o id j config = elim (Option-cases (lookup id o.sandboxes)) [
  | inl e ↦ rw (e, create) (put-Moves o id j none (Sandbox.new now id config) e Moves.appears)
  | inr (s, e) ↦ rw (e, create) (Moves.stays (state_of o j))
]

stop-Moves :
    (o : SandboxOrchestrator) (id j : String) → Moves (state_of o j) (state_of (stop o id).0 j)
unfolding stop Sandbox.stop
stop-Moves o id j = elim (Option-cases (lookup id o.sandboxes)) [
  | inl e ↦ rw (e, stop) (Moves.stays (state_of o j))
  | inr (s, e) ↦ elim (Bool-cases (same_state s.state SandboxState.running)) [
    | inl r ↦
        let halts : Moves (some s.state) (some SandboxState.stopped) =
          rw (same_state-eq s.state SandboxState.running r) Moves.halts in
        rw (e, stop)
          (rw (r, Sandbox.stop)
            (put-Moves o id j (some s) (record s { pid = none; state = SandboxState.stopped }) e
              halts))
    | inr r ↦ rw (e, stop) (rw (r, Sandbox.stop) (Moves.stays (state_of o j)))
  ]
]

remove-Moves :
    (o : SandboxOrchestrator) (id j : String) (s : Sandbox)
    → lookup id o.sandboxes ≡ some s
    → same_state s.state SandboxState.running ≡ false
    → Moves (state_of o j) (state_if (lookup j (remove id o.sandboxes)))
remove-Moves o id j s e r = elim (Bool-cases (str_eq id j)) [
  | inl same ↦
      let there : lookup j o.sandboxes ≡ some s = ground (arith, eq_iff id j) in
      rw (lookup-remove id j o.sandboxes, same, there) (Moves.vanishes s.state r)
  | inr other ↦ rw (lookup-remove id j o.sandboxes, other) (Moves.stays (state_of o j))
]

destroy-Moves :
    (o : SandboxOrchestrator) (id j : String) → Moves (state_of o j) (state_of (destroy o id).0 j)
unfolding destroy
destroy-Moves o id j = elim (Option-cases (lookup id o.sandboxes)) [
  | inl e ↦ rw (e, destroy) (Moves.stays (state_of o j))
  | inr (s, e) ↦ elim (Bool-cases (same_state s.state SandboxState.running)) [
    | inl r ↦ rw (e, destroy) (rw r (Moves.stays (state_of o j)))
    | inr r ↦ rw (e, destroy) (rw r (remove-Moves o id j s e r))
  ]
]

start_wasm-Moves :
    (host : WasmHost) (o : SandboxOrchestrator) (id j : String) (s : Sandbox) (path entry : String)
    → lookup id o.sandboxes ≡ some s
    → s.state ≡ SandboxState.created
    → Moves (state_of o j) (state_of (start_wasm host o id s path entry).0 j)
unfolding start_wasm set_state set_error
start_wasm-Moves host o id j s path entry e c =
    elim (Result-cases (run_wasm_sandbox host path entry)) [
      | inl (r, ran) ↦
          rw (ran, start_wasm)
            (put-Moves o id j (some s) (record_output (set_state s SandboxState.running) r.0 r.1) e
              (rw c Moves.finishes))
      | inr (x, failed) ↦
          rw (failed, start_wasm)
            (put-Moves o id j (some s) (set_error (set_state s SandboxState.running)) e
              (rw c Moves.fails))
    ]

start_sandbox-Moves :
    (host : WasmHost) (process_id : ℕ) (o : SandboxOrchestrator) (id j : String) (s : Sandbox)
    (kind : SandboxKind)
    → lookup id o.sandboxes ≡ some s
    → Moves (state_of o j) (state_of (start_sandbox host process_id o id s kind).0 j)
unfolding start_sandbox Sandbox.start
start_sandbox-Moves host process_id o id j s SandboxKind.vm e =
    elim (Bool-cases (same_state s.state SandboxState.created)) [
      | inl c ↦
          let s' = record s {
            pid = some (fake_pid process_id 1000);
            state = SandboxState.running;
          } in
          rw (c, Sandbox.start)
            (put-Moves o id j (some s) s' e
              (rw (same_state-eq s.state SandboxState.created c) Moves.boots))
      | inr c ↦ rw (c, Sandbox.start) (Moves.stays (state_of o j))
    ]
start_sandbox-Moves host process_id o id j s (SandboxKind.wasm path entry) e =
    elim (Bool-cases (same_state s.state SandboxState.created)) [
      | inl c ↦ rw c (
          start_wasm-Moves host o id j s path entry e
            (same_state-eq s.state SandboxState.created c))
      | inr c ↦ rw c (Moves.stays (state_of o j))
    ]

-- One call moves each sandbox at most along one change of its state: no sandbox starts twice, none
-- leaves the stopped or the error state but by being destroyed, and none is destroyed while it runs.
pub Step-Moves :
    {host : WasmHost} {o o' : SandboxOrchestrator} (id : String)
    → Step host o o'
    → Moves (state_of o id) (state_of o' id)
unfolding start
Step-Moves j (Step.creates o now id config) = create-Moves now o id j config
Step-Moves {host} j (Step.starts o process_id id) = elim (Option-cases (lookup id o.sandboxes)) [
  | inl e ↦ rw (e, start) (Moves.stays (state_of o j))
  | inr (s, e) ↦ rw (e, start) (start_sandbox-Moves host process_id o id j s s.config.kind e)
]
Step-Moves j (Step.stops o id) = stop-Moves o id j
Step-Moves j (Step.destroys o id) = destroy-Moves o id j
