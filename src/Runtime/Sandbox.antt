-- ===== src/Runtime/Sandbox.antt =====
-- crates/nova-runtime/src/sandbox: one sandbox and its states (lifecycle.rs); its orchestrator is a
-- child. `std::process::id()` and the clock are arguments.
pub mod Wasm
pub mod Orchestrator
pub mod Lifecycle
pub mod Sound
pub mod Calls
use nova_vm.Common.{
  ℕ, ◌+◌, ◌%◌, ◌^◌, Bool, true, false, Option, none, some, List, String, Result, ok, err,
  if◌then◌else◌,
}
use nova_vm.Runtime.Error.{RuntimeError, invalid_state}

pub data SandboxState : Type 0 where
  created running stopped error : SandboxState

-- `Display`
abbrev pub state_name : SandboxState → String
state_name SandboxState.created = "created"
state_name SandboxState.running = "running"
state_name SandboxState.stopped = "stopped"
state_name SandboxState.error = "error"

-- `==` on states
abbrev pub same_state : SandboxState → SandboxState → Bool
same_state SandboxState.created SandboxState.created = true
same_state SandboxState.running SandboxState.running = true
same_state SandboxState.stopped SandboxState.stopped = true
same_state SandboxState.error SandboxState.error = true
same_state SandboxState.created SandboxState.running = false
same_state SandboxState.created SandboxState.stopped = false
same_state SandboxState.created SandboxState.error = false
same_state SandboxState.running SandboxState.created = false
same_state SandboxState.running SandboxState.stopped = false
same_state SandboxState.running SandboxState.error = false
same_state SandboxState.stopped SandboxState.created = false
same_state SandboxState.stopped SandboxState.running = false
same_state SandboxState.stopped SandboxState.error = false
same_state SandboxState.error SandboxState.created = false
same_state SandboxState.error SandboxState.running = false
same_state SandboxState.error SandboxState.stopped = false

pub data SandboxKind : Type 0 where
  vm : SandboxKind
  wasm : String → String → SandboxKind

pub record NetworkConfig : Type 0 where
  pub tap_device : String
  pub guest_ip : String
  pub host_ip : String
  pub mac_address : String

pub record SandboxConfig : Type 0 where
  pub vcpus : ℕ
  pub memory_mib : ℕ
  pub kernel : String
  pub rootfs : String
  pub cmdline : String
  pub network : Option NetworkConfig
  pub kind : SandboxKind

-- An `i64` of `wasm_result` is its 64 bits.
pub record Sandbox : Type 0 where
  pub id : String
  pub state : SandboxState
  pub config : SandboxConfig
  pub pid : Option ℕ
  pub created_at : ℕ
  pub wasm_output : Option String
  pub wasm_result : Option (List ℕ)

-- `Sandbox::new`
unfoldable pub new : ℕ → String → SandboxConfig → Sandbox
new now id config = record {
  id = id;
  state = SandboxState.created;
  config = config;
  pid = none;
  created_at = now;
  wasm_output = none;
  wasm_result = none;
}

abbrev pub invalid : Sandbox → SandboxState → RuntimeError
invalid s target = invalid_state s.id (state_name s.state) (state_name target)

-- The fake PID of `start` and `start_with_vm`
abbrev pub fake_pid : ℕ → ℕ → ℕ
fake_pid process_id shift = (process_id + shift) % 2 ^ 32

unfoldable pub start : ℕ → Sandbox → Result RuntimeError Sandbox
start process_id s =
    if same_state s.state SandboxState.created
    then ok (record s { pid = some (fake_pid process_id 1000); state = SandboxState.running })
    else err (invalid s SandboxState.running)

unfoldable pub start_with_vm : ℕ → Sandbox → Result RuntimeError Sandbox
start_with_vm process_id s =
    if same_state s.state SandboxState.created
    then ok (record s { pid = some (fake_pid process_id 2000); state = SandboxState.running })
    else err (invalid s SandboxState.running)

unfoldable pub stop : Sandbox → Result RuntimeError Sandbox
stop s =
    if same_state s.state SandboxState.running
    then ok (record s { pid = none; state = SandboxState.stopped })
    else err (invalid s SandboxState.stopped)

unfoldable pub set_state : Sandbox → SandboxState → Sandbox
set_state s state = record s { state = state }

unfoldable pub set_error : Sandbox → Sandbox
set_error s = record s { state = SandboxState.error; pid = none }

unfoldable pub set_wasm_output : Sandbox → String → Sandbox
set_wasm_output s output = record s { wasm_output = some output }

unfoldable pub set_wasm_result : Sandbox → List ℕ → Sandbox
set_wasm_result s result = record s { wasm_result = some result }
