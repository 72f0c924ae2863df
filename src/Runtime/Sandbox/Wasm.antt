-- ===== src/Runtime/Sandbox/Wasm.antt =====
-- `run_wasm_sandbox` of crates/nova-runtime/src/sandbox/orchestrator.rs. The file system, Wasmtime
-- and the crate `nova_wasm` are a record of functions; what they hand out are handles.
use nova_vm.Common.{
  ℕ, ◌+◌, ◌-◌, ◌^◌, Option, none, some, List, [], map, String, str_eq, str_append, Result, ok,
  ◌>>=◌, map_err, ok_or, ltb, if◌then◌else◌,
}
use nova_vm.Runtime.Error.{RuntimeError, wasm}

pub data ValType : Type 0 where
  i32 i64 other : ValType

-- `wasmtime::Val`: the bits of the integers, and any other value
pub data Val : Type 0 where
  i32 i64 : ℕ → Val
  other : Val

pub record WasmHost : Type 0 where
  pub read : String → Result String (List ℕ)
  pub create_engine : Result String ℕ
  pub compile : ℕ → List ℕ → Result String ℕ
  pub wasi_context : ℕ → Result String ℕ
  pub run : ℕ → ℕ → Result String String
  pub instantiate : ℕ → ℕ → Result String ℕ
  pub get_func : ℕ → String → Option ℕ
  pub params : ℕ → List ValType
  pub results : ℕ → List ValType
  pub call : ℕ → List Val → Result String (List Val)

-- The zeros that stand for the arguments
unfoldable pub default_param : ValType → Val
default_param ValType.i32 = Val.i32 0
default_param ValType.i64 = Val.i64 0
default_param ValType.other = Val.i32 0

-- `*n as i64` extends the sign of an `i32`.
unfoldable pub value_bits : Val → ℕ
value_bits (Val.i32 n) = if ltb n (2 ^ 31) then n else n + (2 ^ 64 - 2 ^ 32)
value_bits (Val.i64 n) = n
value_bits Val.other = 0

abbrev pub wasm_error : String → String → RuntimeError
wasm_error what e = wasm (str_append what e)

abbrev call_entry : WasmHost → ℕ → String → Result RuntimeError (Option String × List ℕ)
call_entry host instance_handle entry_function = do
  func ←
      ok_or (host.get_func instance_handle entry_function)
        (wasm (str_append "export '" (str_append entry_function "' not found")))
  results ←
      map_err (wasm_error (str_append "call to '" (str_append entry_function "' failed: ")))
        (host.call func (map default_param (host.params func)))
  ok (none, map value_bits results)

-- The first component is what was written to the output, the second the values returned.
abbrev run_start : WasmHost → ℕ → ℕ → Result RuntimeError (Option String × List ℕ)
run_start host engine wasm_module = do
  ctx ← map_err (wasm_error "WASI context creation failed: ") (host.wasi_context engine)
  output ← map_err (wasm_error "execution failed: ") (host.run ctx wasm_module)
  ok (some output, [])

-- The first component is what was written to the output, the second the values returned.
unfoldable pub run_wasm_sandbox :
    WasmHost → String → String → Result RuntimeError (Option String × List ℕ)
run_wasm_sandbox host module_path entry_function = do
  wasm_bytes ←
      map_err (wasm_error (str_append "failed to read module '" (str_append module_path "': ")))
        (host.read module_path)
  engine ← map_err (wasm_error "engine creation failed: ") host.create_engine
  wasm_module ← map_err (wasm_error "module compilation failed: ") (host.compile engine wasm_bytes)
  if str_eq entry_function "_start" then run_start host engine wasm_module else (do
    handle ← map_err (wasm_error "instantiation failed: ") (host.instantiate engine wasm_module)
    call_entry host handle entry_function)
