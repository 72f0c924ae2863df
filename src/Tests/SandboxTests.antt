-- ===== src/Tests/SandboxTests.antt =====
-- A VM sandbox through its life, and a Wasm sandbox whose module cannot be read.
use nova_vm.Common.{◌≡◌, refl, none, some, [], ok, err, lookup, insert}
use nova_vm.Runtime.Error.{wasm}
use nova_vm.Runtime.Sandbox
use nova_vm.Runtime.Sandbox.{
  SandboxState, SandboxKind, SandboxConfig, Sandbox, set_error, set_state,
}
use nova_vm.Runtime.Sandbox.Wasm.{WasmHost, run_wasm_sandbox}
use nova_vm.Runtime.Sandbox.Orchestrator
use nova_vm.Runtime.Sandbox.Orchestrator.{
  SandboxOrchestrator, create, start, stop, destroy, put, start_sandbox, start_wasm,
}
use nova_vm.Runtime.Sandbox.Lifecycle.{Step, Reach, Moves, state_of, Step-Moves}
use nova_vm.Runtime.Sandbox.Sound.{AllSound, Reach-AllSound}

-- Nothing can be read.
abbrev no_files : WasmHost
no_files = record {
  read = λ path. err "no such file";
  create_engine = ok 1;
  compile = λ engine bytes. ok 2;
  wasi_context = λ engine. ok 3;
  run = λ ctx m. ok "";
  instantiate = λ engine m. ok 4;
  get_func = λ i name. none;
  params = λ f. [];
  results = λ f. [];
  call = λ f args. ok [];
}

abbrev config_of : SandboxKind → SandboxConfig
config_of kind = record {
  vcpus = 1;
  memory_mib = 64;
  kernel = "bzImage";
  rootfs = "rootfs.cpio";
  cmdline = "quiet";
  network = none;
  kind = kind;
}

abbrev with_wasm : SandboxOrchestrator
with_wasm = (create 5 Orchestrator.new "w" (config_of (SandboxKind.wasm "m.wasm" "_start"))).0

abbrev failing : SandboxOrchestrator
failing = (start no_files 7 with_wasm "w").0

with_wasm_fails :
    start no_files 7 with_wasm "w"
    ≡ (failing, err (wasm "failed to read module 'm.wasm': no such file"))
unfolding start start_sandbox start_wasm create Orchestrator.new Sandbox.new lookup insert
    run_wasm_sandbox
with_wasm_fails = refl

failing_step : Step no_files with_wasm failing
failing_step = Step.starts with_wasm 7 "w"

failing_state : state_of failing "w" ≡ some SandboxState.error
unfolding start start_sandbox start_wasm create Orchestrator.new Sandbox.new lookup insert
    run_wasm_sandbox set_error set_state
failing_state = refl

Step-Moves_example : Moves (state_of with_wasm "w") (state_of failing "w")
Step-Moves_example = Step-Moves "w" failing_step

failing_reached : Reach no_files failing
failing_reached =
    Reach.steps
      (Reach.steps Reach.begins
        (Step.creates Orchestrator.new 5 "w" (config_of (SandboxKind.wasm "m.wasm" "_start"))))
      failing_step

Reach-AllSound_example : AllSound failing
Reach-AllSound_example = Reach-AllSound failing_reached

abbrev vm_config : SandboxConfig
vm_config = config_of SandboxKind.vm
