-- ===== src/Runtime/Sandbox/Orchestrator.antt =====
-- crates/nova-runtime/src/sandbox/orchestrator.rs. `self` is the map of sandboxes and the pool; no
-- operation reads the snapshot cache.
use nova_vm.Common.{
  ℕ, Option, none, some, List, [], ◌∷◌, String, Result, ok, err, if◌then◌else◌, StringMap, lookup,
  insert, remove, length,
}
use nova_vm.Runtime.Error.{RuntimeError, sandbox_not_found, sandbox_exists, invalid_state}
use nova_vm.Runtime.Pool
use nova_vm.Runtime.Pool.{PoolConfig, PoolInner, shut_down}
use nova_vm.Runtime.Sandbox
use nova_vm.Runtime.Sandbox.{
  SandboxState, SandboxKind, SandboxConfig, Sandbox, same_state, state_name, set_state, set_error,
  set_wasm_output, set_wasm_result,
}
use nova_vm.Runtime.Sandbox.Wasm.{WasmHost, run_wasm_sandbox}

pub record SandboxOrchestrator : Type 0 where
  pub sandboxes : StringMap Sandbox
  pub pool : Option PoolInner

unfoldable pub new : SandboxOrchestrator
new = record { sandboxes = []; pool = none }

unfoldable pub with_pool : PoolConfig → SandboxOrchestrator
with_pool config = record { sandboxes = []; pool = some (Pool.new config) }

-- A call's state after it, and its result
abbrev pub Outcome : Type 0
Outcome = SandboxOrchestrator × Result RuntimeError (Unit {0})

abbrev pub put : SandboxOrchestrator → String → Sandbox → SandboxOrchestrator
put o id s = record o { sandboxes = insert id s o.sandboxes }

-- A change of one sandbox in place
abbrev pub changed : SandboxOrchestrator → String → Result RuntimeError Sandbox → Outcome
changed o id (ok s) = (put o id s, ok tt)
changed o id (err e) = (o, err e)

unfoldable pub create : ℕ → SandboxOrchestrator → String → SandboxConfig → Outcome
create now o id config = elim (lookup id o.sandboxes) [
  | some s ↦ (o, err (sandbox_exists id))
  | none ↦ (put o id (Sandbox.new now id config), ok tt)
]

-- What a run that returns leaves in the sandbox
abbrev pub record_output : Sandbox → Option String → List ℕ → Sandbox
record_output s output values =
    let s1 : Sandbox = elim output [ none ↦ s | some out ↦ set_wasm_output s out ] in
    let s2 : Sandbox = elim values [ [] ↦ s1 | v ∷ vs ↦ set_wasm_result s1 (v ∷ vs) ] in
    set_state s2 SandboxState.stopped

-- The branch of a Wasm sandbox that is in the state `Created`
unfoldable pub start_wasm :
    WasmHost → SandboxOrchestrator → String → Sandbox → String → String → Outcome
start_wasm host o id s module_path entry_function =
    let s' = set_state s SandboxState.running in
    elim (run_wasm_sandbox host module_path entry_function) [
      | ok r ↦ (put o id (record_output s' r.0 r.1), ok tt)
      | err e ↦ (put o id (set_error s'), err e)
    ]

unfoldable pub start_sandbox :
    WasmHost → ℕ → SandboxOrchestrator → String → Sandbox → SandboxKind → Outcome
start_sandbox host process_id o id s SandboxKind.vm = changed o id (Sandbox.start process_id s)
start_sandbox host process_id o id s (SandboxKind.wasm module_path entry_function) =
    if same_state s.state SandboxState.created
    then start_wasm host o id s module_path entry_function
    else (o, err (invalid_state id (state_name s.state) "running"))

unfoldable pub start : WasmHost → ℕ → SandboxOrchestrator → String → Outcome
start host process_id o id = elim (lookup id o.sandboxes) [
  | none ↦ (o, err (sandbox_not_found id))
  | some s ↦ start_sandbox host process_id o id s s.config.kind
]

unfoldable pub stop : SandboxOrchestrator → String → Outcome
stop o id = elim (lookup id o.sandboxes) [
  | none ↦ (o, err (sandbox_not_found id))
  | some s ↦ changed o id (Sandbox.stop s)
]

unfoldable pub destroy : SandboxOrchestrator → String → Outcome
destroy o id = elim (lookup id o.sandboxes) [
  | none ↦ (o, err (sandbox_not_found id))
  | some s ↦
      if same_state s.state SandboxState.running
      then (o, err (invalid_state id "running" "destroyed"))
      else (record o { sandboxes = remove id o.sandboxes }, ok tt)
]

unfoldable pub get : SandboxOrchestrator → String → Result RuntimeError Sandbox
get o id = elim (lookup id o.sandboxes) [ some s ↦ ok s | none ↦ err (sandbox_not_found id) ]

abbrev pub count : SandboxOrchestrator → ℕ
count o = length o.sandboxes

-- `Drop`
unfoldable pub drop : SandboxOrchestrator → SandboxOrchestrator
drop o = record o { pool = elim o.pool [ none ↦ none | some p ↦ some (shut_down p) ] }
