-- ===== src/Runtime/Error.antt =====
-- crates/nova-runtime/src/error.rs. The `io::Error` is its text.
use nova_vm.Common.{String}

pub data RuntimeError : Type 0 where
  sandbox_not_found sandbox_exists image network io config wasm cache snapshot pool :
      String → RuntimeError
  invalid_state : String → String → String → RuntimeError
