-- ===== src/Policy/Engine.antt =====
-- crates/nova-policy/src/engine.rs. Wasmtime is a record of functions on handles. The text and the
-- JSON of a result only repeat `allowed`, and are left out; errors keep their kind and policy.
use nova_vm.Common.{
  ℕ, ◌+◌, ◌/◌, ◌%◌, ◌^◌, Bool, true, false, not, Option, none, some, List, String, Result, ok, err,
  ◌>>=◌, ok_or, ◌==◌, if◌then◌else◌,
}

pub data PolicyError : Type 0 where
  wasm instantiation call bundle : String → PolicyError
  no_eval : String → PolicyError
  json io : PolicyError

pub record EvalResult : Type 0 where
  pub allowed : Bool
  pub duration_us : ℕ

pub record PolicyEngine : Type 0 where
  pub eval_count : ℕ
  pub denied_count : ℕ
  pub total_eval_us : ℕ

pub record CompiledPolicy : Type 0 where
  pub handle : ℕ
  pub name : String

-- What the engine asks of Wasmtime. A call returns its first result if that is an `i32`.
pub record Wasmtime : Type 0 where
  pub compile : List ℕ → Option ℕ
  pub instantiate : ℕ → Option ℕ
  pub eval_func : ℕ → Option ℕ
  pub param_count : ℕ → ℕ
  pub call : ℕ → Option ℕ → Option (Option ℕ)

abbrev pub wrap : ℕ → ℕ
wrap n = n % 2 ^ 64

unfoldable pub new : PolicyEngine
new = record { eval_count = 0; denied_count = 0; total_eval_us = 0 }

unfoldable pub compile : Wasmtime → String → List ℕ → Result PolicyError CompiledPolicy
compile host name wasm_bytes = elim (host.compile wasm_bytes) [
  | none ↦ err (PolicyError.wasm name)
  | some handle ↦ ok (record { handle = handle; name = name })
]

-- The counting at the end of an evaluation
abbrev pub counted : PolicyEngine → Bool → ℕ → PolicyEngine
counted e allowed duration_us = record {
  eval_count = wrap (e.eval_count + 1);
  denied_count = if allowed then e.denied_count else wrap (e.denied_count + 1);
  total_eval_us = wrap (e.total_eval_us + duration_us);
}

-- `results[0].i32().unwrap_or(0) != 0`
abbrev pub is_nonzero : Option ℕ → Bool
is_nonzero none = false
is_nonzero (some n) = not (n == 0)

-- The decision of `evaluate`: a module without `eval` allows.
unfoldable pub decide : Wasmtime → CompiledPolicy → Result PolicyError Bool
decide host policy = do
  running ← ok_or (host.instantiate policy.handle) (instantiation policy.name)
  elim (host.eval_func running) [
    | none ↦ ok true
    | some func ↦ do
      result ← ok_or (host.call func none) (PolicyError.call policy.name)
      ok (is_nonzero result)
  ]

-- The decision of `evaluate_simple`: a module without `eval` is an error.
unfoldable pub decide_simple : Wasmtime → CompiledPolicy → ℕ → Result PolicyError Bool
decide_simple host policy input_code = do
  running ← ok_or (host.instantiate policy.handle) (instantiation policy.name)
  func ← ok_or (host.eval_func running) (no_eval policy.name)
  result ←
      ok_or (host.call func (if host.param_count func == 0 then none else some input_code))
        (PolicyError.call policy.name)
  ok (is_nonzero result)

abbrev pub finish :
    PolicyEngine → Result PolicyError Bool → ℕ → PolicyEngine × Result PolicyError EvalResult
finish e (ok allowed) duration_us =
    (counted e allowed duration_us, ok (record { allowed = allowed; duration_us = duration_us }))
finish e (err x) duration_us = (e, err x)

unfoldable pub evaluate :
    Wasmtime → PolicyEngine → CompiledPolicy → ℕ → PolicyEngine × Result PolicyError EvalResult
evaluate host e policy duration_us = finish e (decide host policy) duration_us

unfoldable pub evaluate_simple :
    Wasmtime → PolicyEngine → CompiledPolicy → ℕ → ℕ → PolicyEngine × Result PolicyError EvalResult
evaluate_simple host e policy input_code duration_us =
    finish e (decide_simple host policy input_code) duration_us

unfoldable pub avg_eval_us : PolicyEngine → ℕ
avg_eval_us e = if e.eval_count == 0 then 0 else e.total_eval_us / e.eval_count
