-- ===== src/Runtime/Sandbox/Sound.antt =====
-- What holds of every sandbox between two calls of the orchestrator.
use nova_vm.Common.{
  ℕ, Bool, true, false, Option, none, some, List, [], ◌∷◌, String, lookup, remove, ◌≡◌, refl, arith,
  str_eq, eq_iff, Bool-cases, Option-cases, Result-cases, inl, inr, lookup-remove, subst, ◌∙◌, ◌⊎◌,
}
use nova_vm.Runtime.Sandbox
use nova_vm.Runtime.Sandbox.{
  SandboxState, SandboxKind, SandboxConfig, Sandbox, same_state, set_state, set_error, fake_pid,
  set_wasm_output, set_wasm_result,
}
use nova_vm.Runtime.Sandbox.Wasm.{WasmHost, run_wasm_sandbox}
use nova_vm.Runtime.Sandbox.Orchestrator
use nova_vm.Runtime.Sandbox.Orchestrator.{
  SandboxOrchestrator, create, start, stop, destroy, put, start_sandbox, start_wasm, record_output,
}
use nova_vm.Runtime.Sandbox.Lifecycle.{
  Step, Reach, lookup-put_self, lookup-put_other, same_state-eq,
}

abbrev pub has_pid : Option ℕ → Bool
has_pid none = false
has_pid (some pid) = true

pub record IsSound (id : String) (s : Sandbox) : Type 0 where
  pub named : s.id ≡ id
  pub pid_while_running : has_pid s.pid ≡ same_state s.state SandboxState.running
  pub only_vms_run :
      (s.config.kind ≡ SandboxKind.vm) ⊎ (same_state s.state SandboxState.running ≡ false)

abbrev IsSoundIf : String → Option Sandbox → Type 0
IsSoundIf id none = Unit {0}
IsSoundIf id (some s) = IsSound id s

abbrev pub AllSound : SandboxOrchestrator → Type 0
AllSound o = (id : String) → IsSoundIf id (lookup id o.sandboxes)

AllSound-IsSound :
    (o : SandboxOrchestrator) (id : String) (s : Sandbox)
    → AllSound o
    → lookup id o.sandboxes ≡ some s
    → IsSound id s
AllSound-IsSound o id s all e = subst (IsSoundIf id) e (all id)

put-AllSound :
    (o : SandboxOrchestrator) (id : String) (s : Sandbox)
    → AllSound o
    → IsSound id s
    → AllSound (put o id s)
put-AllSound o id s all sound j = elim (Bool-cases (str_eq id j)) [
  | inl same ↦
      let renamed : id ≡ j = ground (arith, eq_iff id j) in
      rw (lookup-put_self o id j s same) (subst (λ k. IsSound k s) renamed sound)
  | inr other ↦ rw (lookup-put_other o id j s other) (all j)
]

remove-AllSound :
    (o : SandboxOrchestrator) (id : String)
    → AllSound o
    → AllSound (record o { sandboxes = remove id o.sandboxes })
remove-AllSound o id all j = elim (Bool-cases (str_eq id j)) [
  | inl same ↦ rw (lookup-remove id j o.sandboxes, same) tt
  | inr other ↦ rw (lookup-remove id j o.sandboxes, other) (all j)
]

create-AllSound :
    (now : ℕ) (o : SandboxOrchestrator) (id : String) (config : SandboxConfig)
    → AllSound o
    → AllSound (create now o id config).0
unfolding create Sandbox.new
create-AllSound now o id config all = elim (Option-cases (lookup id o.sandboxes)) [
  | inl e ↦
      let sound : IsSound id (Sandbox.new now id config) = record {
        named = refl;
        pid_while_running = refl;
        only_vms_run = inr refl;
      } in
      rw (e, create) (put-AllSound o id (Sandbox.new now id config) all sound)
  | inr (s, e) ↦ rw (e, create) all
]

stop-AllSound : (o : SandboxOrchestrator) (id : String) → AllSound o → AllSound (stop o id).0
unfolding stop Sandbox.stop
stop-AllSound o id all = elim (Option-cases (lookup id o.sandboxes)) [
  | inl e ↦ rw (e, stop) all
  | inr (s, e) ↦ elim (Bool-cases (same_state s.state SandboxState.running)) [
    | inl r ↦
        let stopped = record s { pid = none; state = SandboxState.stopped } in
        let sound : IsSound id stopped = record {
          named = (AllSound-IsSound o id s all e).named;
          pid_while_running = refl;
          only_vms_run = inr refl;
        } in
        rw (e, stop) (rw (r, Sandbox.stop) (put-AllSound o id stopped all sound))
    | inr r ↦ rw (e, stop) (rw (r, Sandbox.stop) all)
  ]
]

destroy-AllSound : (o : SandboxOrchestrator) (id : String) → AllSound o → AllSound (destroy o id).0
unfolding destroy
destroy-AllSound o id all = elim (Option-cases (lookup id o.sandboxes)) [
  | inl e ↦ rw (e, destroy) all
  | inr (s, e) ↦ elim (Bool-cases (same_state s.state SandboxState.running)) [
    | inl r ↦ rw (e, destroy, r) all
    | inr r ↦ rw (e, destroy, r) (remove-AllSound o id all)
  ]
]

record_output-IsSound :
    (id : String) (s : Sandbox) (output : Option String) (values : List ℕ)
    → s.id ≡ id
    → has_pid s.pid ≡ false
    → IsSound id (record_output s output values)
unfolding set_state set_wasm_output set_wasm_result
record_output-IsSound id s none [] n p = record {
  named = n;
  pid_while_running = p;
  only_vms_run = inr refl;
}
record_output-IsSound id s none (x ∷ xs) n p = record {
  named = n;
  pid_while_running = p;
  only_vms_run = inr refl;
}
record_output-IsSound id s (some out) [] n p = record {
  named = n;
  pid_while_running = p;
  only_vms_run = inr refl;
}
record_output-IsSound id s (some out) (x ∷ xs) n p = record {
  named = n;
  pid_while_running = p;
  only_vms_run = inr refl;
}

start_wasm-AllSound :
    (host : WasmHost) (o : SandboxOrchestrator) (id : String) (s : Sandbox) (path entry : String)
    → AllSound o
    → IsSound id s
    → s.state ≡ SandboxState.created
    → AllSound (start_wasm host o id s path entry).0
unfolding start_wasm set_error set_state
start_wasm-AllSound host o id s path entry all sound c =
    let s' = set_state s SandboxState.running in
    elim (Result-cases (run_wasm_sandbox host path entry)) [
      | inl (r, ran) ↦
          let no_pid : has_pid s.pid ≡ false = sound.pid_while_running ∙ rw c refl in
          rw (ran, start_wasm)
            (put-AllSound o id (record_output s' r.0 r.1) all
              (record_output-IsSound id s' r.0 r.1 (sound.named) (no_pid)))
      | inr (x, failed) ↦
          let sound' : IsSound id (set_error s') = record {
            named = sound.named;
            pid_while_running = refl;
            only_vms_run = inr refl;
          } in
          rw (failed, start_wasm) (put-AllSound o id (set_error s') all sound')
    ]

start_sandbox-AllSound :
    (host : WasmHost) (process_id : ℕ) (o : SandboxOrchestrator) (id : String) (s : Sandbox)
    (kind : SandboxKind)
    → AllSound o
    → lookup id o.sandboxes ≡ some s
    → s.config.kind ≡ kind
    → AllSound (start_sandbox host process_id o id s kind).0
unfolding start_sandbox Sandbox.start
start_sandbox-AllSound host process_id o id s SandboxKind.vm all e k =
    elim (Bool-cases (same_state s.state SandboxState.created)) [
      | inl c ↦
          let s' : Sandbox = record s {
            pid = some (fake_pid process_id 1000);
            state = SandboxState.running;
          } in
          let sound : IsSound id s' = record {
            named = (AllSound-IsSound o id s all e).named;
            pid_while_running = refl;
            only_vms_run = inl k;
          } in
          rw (c, Sandbox.start) (put-AllSound o id s' all sound)
      | inr c ↦ rw (c, Sandbox.start) all
    ]
start_sandbox-AllSound host process_id o id s (SandboxKind.wasm path entry) all e k =
    elim (Bool-cases (same_state s.state SandboxState.created)) [
      | inl c ↦ rw c (
          start_wasm-AllSound host o id s path entry all (AllSound-IsSound o id s all e)
            (same_state-eq s.state SandboxState.created c))
      | inr c ↦ rw c all
    ]

Step-AllSound :
    {host : WasmHost} {o o' : SandboxOrchestrator} → Step host o o' → AllSound o → AllSound o'
unfolding start
Step-AllSound (Step.creates o now id config) all = create-AllSound now o id config all
Step-AllSound {host} (Step.starts o process_id id) all =
    elim (Option-cases (lookup id o.sandboxes)) [
      | inl e ↦ rw (e, start) all
      | inr (s, e) ↦
          rw (e, start) (start_sandbox-AllSound host process_id o id s s.config.kind all e refl)
    ]
Step-AllSound (Step.stops o id) all = stop-AllSound o id all
Step-AllSound (Step.destroys o id) all = destroy-AllSound o id all

-- Between any two calls, each sandbox is stored under its own id, it has a PID exactly while it is
-- running, and only a VM sandbox is running: a Wasm sandbox has already ended when `start` returns.
pub Reach-AllSound : {host : WasmHost} {o : SandboxOrchestrator} → Reach host o → AllSound o
unfolding Orchestrator.new lookup
Reach-AllSound Reach.begins id = tt
Reach-AllSound (Reach.steps r t) id = Step-AllSound t (Reach-AllSound r) id
