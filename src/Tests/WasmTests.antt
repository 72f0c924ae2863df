-- ===== src/Tests/WasmTests.antt =====
-- A pool of two modules; a module is its bytes, and no bytes do not compile.
use nova_vm.Common.{ℕ, ◌≡◌, refl, none, some, List, [], ◌∷◌, Result, ok, err, String}
use nova_vm.Wasm.Pool
use nova_vm.Wasm.Pool.{push_back, remove_first, warm, take, return_module, cache}
use nova_vm.Wasm.Pool.Refine.{
  Call, warms, takes, returns, warmed, took, returned, answers, spec_answers,
  answers-eq-spec_answers,
}

abbrev compile : List ℕ → Result String (List ℕ)
compile [] = err "empty"
compile (b ∷ bs) = ok (b ∷ bs)

abbrev calls : List (Call (List ℕ))
calls =
    warms "a" (1 ∷ [])
    ∷ warms "a" (2 ∷ [])
    ∷ warms "b" (3 ∷ [])
    ∷ takes "a"
    ∷ returns "b" (4 ∷ [])
    ∷ takes "a"
    ∷ takes "a"
    ∷ takes "b"
    ∷ []

-- The third module does not fit; the two of one name come in the order that they were added in.
calls_answered :
    answers compile 2 (Pool.new 2) calls
    ≡ warmed (ok tt)
      ∷ warmed (ok tt)
      ∷ warmed (err (cache "pool is full"))
      ∷ took (some (1 ∷ []))
      ∷ returned
      ∷ took (some (2 ∷ []))
      ∷ took none
      ∷ took (some (4 ∷ []))
      ∷ []
unfolding answers warm take return_module push_back remove_first Pool.new
calls_answered = refl

answers-eq-spec_answers_example :
    answers compile 2 (Pool.new 2) calls
    ≡ spec_answers compile 2 (record { queue = λ n. []; count = 0 }) calls
answers-eq-spec_answers_example = answers-eq-spec_answers compile 2 calls
