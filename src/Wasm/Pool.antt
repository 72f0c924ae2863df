-- ===== src/Wasm/Pool.antt =====
-- crates/nova-wasm/src/pool.rs and error.rs: the pool of compiled modules. Each method holds the lock
-- from start to end. What Wasmtime makes of bytes is the argument `compile`.
pub mod Fifo
pub mod Refine
use nova_vm.Common.{
  ℕ, ◌+◌, Bool, Option, none, some, List, [], ◌∷◌, ◌++◌, Result, ok, err, ltb, leb, length, String,
  str_eq, str_append, if◌then◌else◌,
}
use mathlib.Core.Option

-- `WasmError`; the `io::Error` is not looked at.
pub data WasmError : Type 0 where
  compilation instantiation execution wasi cache : String → WasmError
  io : WasmError

pub record PoolEntry (M : Type 0) : Type 0 where
  pub compiled : M
  pub name : String

pub record InstancePool (M : Type 0) : Type 0 where
  pub pool : List (PoolEntry M)
  pub max_size : ℕ

module _ {M : Type 0} where
  unfoldable pub new : ℕ → InstancePool M
  new max_size = record { pool = []; max_size = max_size }

  -- `pool.push_back(PoolEntry { module, name })`
  unfoldable pub push_back : InstancePool M → String → M → InstancePool M
  push_back p name m = record p { pool = p.pool ++ (record { compiled = m; name = name } ∷ []) }

  -- A full pool is refused before anything is compiled.
  unfoldable pub warm :
      (List ℕ → Result String M)
      → InstancePool M
      → String
      → List ℕ
      → InstancePool M × Result WasmError (Unit {0})
  warm compile p name wasm_bytes =
      if leb p.max_size (length p.pool)
      then (p, err (cache "pool is full"))
      else elim (compile wasm_bytes) [
        | err e ↦ (
          p,
          err (
              compilation
                (str_append "failed to compile '" (str_append name (str_append "': " e)))),
        )
        | ok m ↦ (push_back p name m, ok tt)
      ]

  -- `position` and `remove`: the first entry of a name, and the others.
  unfoldable pub remove_first : String → List (PoolEntry M) → Option (M × List (PoolEntry M))
  remove_first name [] = none
  remove_first name (e ∷ es) =
      let rest = remove_first name es in
      if str_eq e.name name
      then some (e.compiled, es)
      else elim rest [ none ↦ none | some (m, others) ↦ some (m, e ∷ others) ]

  unfoldable pub take : InstancePool M → String → InstancePool M × Option M
  take p name = elim (remove_first name p.pool) [
    | none ↦ (p, none)
    | some (m, others) ↦ (record p { pool = others }, some m)
  ]

  -- A module that is given back to a full pool is dropped.
  unfoldable pub return_module : InstancePool M → String → M → InstancePool M
  return_module p name m = if ltb (length p.pool) p.max_size then push_back p name m else p

  unfoldable pub size : InstancePool M → ℕ
  size p = length p.pool
