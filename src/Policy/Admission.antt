-- ===== src/Policy/Admission.antt =====
-- crates/nova-policy/src/admission.rs. The reason of a denial is kept as data, not as its text.
pub mod Decision
use nova_vm.Common.{
  ℕ, Bool, true, false, not, ◌&&◌, ◌||◌, Option, none, some, List, [], ◌∷◌, ◌++◌, String, Result,
  ok, err, ltb, leb, if◌then◌else◌, starts_with,
}
use nova_vm.Policy.Engine.{
  PolicyError, PolicyEngine, CompiledPolicy, EvalResult, Wasmtime, evaluate_simple,
}

pub record AdmissionInput : Type 0 where
  pub sandbox_id : String
  pub image : String
  pub vcpus : ℕ
  pub memory_mib : ℕ
  pub uid : ℕ

pub data Reason : Type 0 where
  no_reason : Reason
  vcpus_exceed memory_exceeds limit_reached : ℕ → ℕ → Reason
  image_not_allowed policy_denied : String → Reason
  policy_failed : PolicyError → Reason

pub record AdmissionResult : Type 0 where
  pub allowed : Bool
  pub reason : Reason

pub record AdmissionChecker : Type 0 where
  pub max_vcpus : ℕ
  pub max_memory_mib : ℕ
  pub max_sandboxes : ℕ
  pub allowed_images : List String
  pub current_sandboxes : ℕ

-- `AdmissionChecker::new`
unfoldable pub new : AdmissionChecker
new = record {
  max_vcpus = 8;
  max_memory_mib = 8192;
  max_sandboxes = 100;
  allowed_images = [];
  current_sandboxes = 0;
}

unfoldable pub set_max_vcpus : AdmissionChecker → ℕ → AdmissionChecker
set_max_vcpus c max = record c { max_vcpus = max }

unfoldable pub set_max_memory_mib : AdmissionChecker → ℕ → AdmissionChecker
set_max_memory_mib c max = record c { max_memory_mib = max }

unfoldable pub set_max_sandboxes : AdmissionChecker → ℕ → AdmissionChecker
set_max_sandboxes c max = record c { max_sandboxes = max }

unfoldable pub add_allowed_image : AdmissionChecker → String → AdmissionChecker
add_allowed_image c prefix = record c { allowed_images = c.allowed_images ++ (prefix ∷ []) }

unfoldable pub set_current_sandboxes : AdmissionChecker → ℕ → AdmissionChecker
set_current_sandboxes c count = record c { current_sandboxes = count }

abbrev pub deny : Reason → AdmissionResult
deny r = record { allowed = false; reason = r }

abbrev pub allow : AdmissionResult
allow = record { allowed = true; reason = no_reason }

-- `.iter().any(|prefix| input.image.starts_with(prefix))`
unfoldable pub any_prefix : List String → String → Bool
any_prefix [] image = false
any_prefix (p ∷ ps) image = starts_with image p || any_prefix ps image

abbrev pub is_empty : List String → Bool
is_empty [] = true
is_empty (p ∷ ps) = false

unfoldable pub check : AdmissionChecker → AdmissionInput → AdmissionResult
check c input =
    if ltb c.max_vcpus input.vcpus
    then deny (vcpus_exceed input.vcpus c.max_vcpus)
    else if ltb c.max_memory_mib input.memory_mib
    then deny (memory_exceeds input.memory_mib c.max_memory_mib)
    else if leb c.max_sandboxes c.current_sandboxes
    then deny (limit_reached c.current_sandboxes c.max_sandboxes)
    else if not (is_empty c.allowed_images) && not (any_prefix c.allowed_images input.image)
    then deny (image_not_allowed input.image)
    else allow

-- The result of the Wasm policy's evaluation
abbrev pub verdict : CompiledPolicy → Result PolicyError EvalResult → AdmissionResult
verdict policy (ok eval) = if eval.allowed then allow else deny (policy_denied policy.name)
verdict policy (err e) = deny (policy_failed e)

unfoldable pub check_with_policy :
    Wasmtime
    → AdmissionChecker
    → AdmissionInput
    → PolicyEngine
    → Option CompiledPolicy
    → ℕ
    → PolicyEngine × AdmissionResult
check_with_policy host c input engine policy duration_us =
    let builtin = check c input in
    if builtin.allowed
    then elim policy [
      | none ↦ (engine, allow)
      | some p ↦
          let (engine', r) = evaluate_simple host engine p 1 duration_us in (engine', verdict p r)
    ]
    else (engine, builtin)
