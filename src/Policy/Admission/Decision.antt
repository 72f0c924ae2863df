-- ===== src/Policy/Admission/Decision.antt =====
-- When a sandbox is admitted, and what the check does to the policy engine.
use text.Mathlib.TextBridge.{IsPrefix}
use text.Mathlib.TextEquality.{starts_with_iff}
use nova_vm.Common.{
  ℕ, ◌≤◌, ◌<◌, ◌≡◌, refl, ◌⊎◌, inl, inr, Bool, true, false, ◌&&◌, ◌||◌, Option, none, some, List,
  [], ◌∷◌, String, Result, ok, err, ltb, leb, if◌then◌else◌, starts_with, arith, Bool-cases, ◌+◌,
  ◌^◌, is_ok, Result-cases,
}
use nova_vm.Policy.Engine.{
  PolicyError, PolicyEngine, CompiledPolicy, EvalResult, Wasmtime, evaluate_simple, decide_simple,
  evaluate, decide, finish,
}
use nova_vm.Policy.Admission.{
  AdmissionInput, AdmissionChecker, Reason, check, check_with_policy, any_prefix, is_empty,
}

-- The built-in rules as one condition
abbrev pub fits : AdmissionChecker → AdmissionInput → Bool
fits c input =
    leb input.vcpus c.max_vcpus
    && leb input.memory_mib c.max_memory_mib
    && ltb c.current_sandboxes c.max_sandboxes
    && (is_empty c.allowed_images || any_prefix c.allowed_images input.image)

abbrev pub is_empty_reason : Reason → Bool
is_empty_reason Reason.no_reason = true
is_empty_reason (Reason.vcpus_exceed n limit) = false
is_empty_reason (Reason.memory_exceeds n limit) = false
is_empty_reason (Reason.limit_reached n limit) = false
is_empty_reason (Reason.image_not_allowed image) = false
is_empty_reason (Reason.policy_denied name) = false
is_empty_reason (Reason.policy_failed e) = false

check-reason :
    (c : AdmissionChecker) (input : AdmissionInput)
    → (check c input).allowed ≡ is_empty_reason (check c input).reason
unfolding check
check-reason c input = ground arith

check-fits :
    (c : AdmissionChecker) (input : AdmissionInput) → (check c input).allowed ≡ fits c input
unfolding check
check-fits c input = ground arith

-- `Ok` with `allowed`
abbrev pub says_yes : Result PolicyError EvalResult → Bool
says_yes (ok r) = r.allowed
says_yes (err e) = false

abbrev pub policy_allows : Wasmtime → PolicyEngine → Option CompiledPolicy → ℕ → Bool
policy_allows host engine none duration_us = true
policy_allows host engine (some p) duration_us =
    says_yes (evaluate_simple host engine p 1 duration_us).1

-- A sandbox is admitted exactly when it fits every built-in limit and, if there is a policy, its
-- evaluation ends without an error and allows it; a refusal by the built-in limits leaves the engine
-- as it was; and a reason is given exactly for a refusal.
pub check_with_policy-allowed :
    (host : Wasmtime) (c : AdmissionChecker) (input : AdmissionInput) (engine : PolicyEngine)
    (policy : Option CompiledPolicy) (duration_us : ℕ)
    → let (engine', r) = check_with_policy host c input engine policy duration_us in
      (r.allowed ≡ (fits c input && policy_allows host engine policy duration_us))
      × ((fits c input ≡ true) ⊎ (engine' ≡ engine))
      × (r.allowed ≡ is_empty_reason r.reason)
unfolding check_with_policy
check_with_policy-allowed host c input engine none duration_us =
    ground (arith, check-fits c input, check-reason c input)
check_with_policy-allowed host c input engine (some p) duration_us =
    elim (Result-cases (evaluate_simple host engine p 1 duration_us).1) [
      | inl (r, e) ↦ ground (arith, check-fits c input, check-reason c input)
      | inr (x, e) ↦ ground (arith, check-fits c input, check-reason c input)
    ]

-- The image rule: an empty list admits every image, another only those that begin with one of its
-- prefixes.
any_prefix-IsPrefix :
    (ps : List String) (image : String)
    → any_prefix ps image ≡ true
    → (p : String) × IsPrefix p image
unfolding any_prefix
any_prefix-IsPrefix [] image h = absurd (ground arith)
any_prefix-IsPrefix (p ∷ ps) image h = elim (Bool-cases (starts_with image p)) [
  | inl e ↦ (p, (starts_with_iff image p).0 e)
  | inr e ↦ any_prefix-IsPrefix ps image (ground arith)
]

finish-counts :
    (e : PolicyEngine) (r : Result PolicyError Bool) (duration_us : ℕ)
    → e.denied_count ≤ e.eval_count
    → e.eval_count + 1 < 2 ^ 64
    → let (e', r') = finish e r duration_us in
      (e'.denied_count ≤ e'.eval_count)
      × (e'.eval_count ≡ (if is_ok r' then e.eval_count + 1 else e.eval_count))
finish-counts e (ok allowed) duration_us h small = ground arith
finish-counts e (err x) duration_us h small = (h, refl)

-- The counters of an engine: more evaluations than denials, until the counter of 64 bits is full.
-- An evaluation is counted exactly when it gives a result, and as denied when it does not allow.
pub evaluate-counts :
    (host : Wasmtime) (e : PolicyEngine) (policy : CompiledPolicy) (code duration_us : ℕ)
    → e.denied_count ≤ e.eval_count
    → e.eval_count + 1 < 2 ^ 64
    → let (e1, r1) = evaluate_simple host e policy code duration_us in
      let (e2, r2) = evaluate host e policy duration_us in
      (e1.denied_count ≤ e1.eval_count)
      × (e1.eval_count ≡ (if is_ok r1 then e.eval_count + 1 else e.eval_count))
      × (e2.denied_count ≤ e2.eval_count)
      × (e2.eval_count ≡ (if is_ok r2 then e.eval_count + 1 else e.eval_count))
unfolding evaluate evaluate_simple
evaluate-counts host e policy code duration_us h small =
    let one = finish-counts e (decide_simple host policy code) duration_us h small in
    let two = finish-counts e (decide host policy) duration_us h small in
    (one.0, one.1, two.0, two.1)
