-- ===== src/Tests/PolicyTests.antt =====
-- A checker with its default limits, an engine over a host whose policies allow, and three rules.
use nova_vm.Common.{◌≡◌, refl, ◌⊎◌, true, ◌&&◌, some, [], ◌∷◌}
use nova_vm.Policy.Engine
use nova_vm.Policy.Engine.{Wasmtime, CompiledPolicy, PolicyEngine, evaluate_simple, decide_simple}
use nova_vm.Policy.Admission
use nova_vm.Policy.Admission.{AdmissionInput, check, check_with_policy}
use nova_vm.Policy.Admission.Decision.{
  fits, policy_allows, is_empty_reason, check_with_policy-allowed,
}
use nova_vm.Policy.Enforcement.{
  EnforcementAction, EnforcementRule, EnforcementEngine, evaluate, rule, severity, decide_from,
  matches, most_restrictive,
}
use nova_vm.Policy.Enforcement.Severity.{worst, evaluate-worst}

abbrev host : Wasmtime
host = record {
  compile = λ bytes. some 1;
  instantiate = λ m. some 2;
  eval_func = λ i. some 3;
  param_count = λ f. 0;
  call = λ f arg. some (some 1);
}

abbrev policy : CompiledPolicy
policy = record { handle = 1; name = "allow_all" }

abbrev request : AdmissionInput
request = record { sandbox_id = "a"; image = "alpine"; vcpus = 2; memory_mib = 64; uid = 0 }

admitted :
    (check_with_policy host Admission.new request Engine.new (some policy) 4).1.allowed ≡ true
unfolding check_with_policy check Admission.new evaluate_simple decide_simple
admitted = refl

check_with_policy-allowed_example :
    let (engine', r) = check_with_policy host Admission.new request Engine.new (some policy) 4 in
    (r.allowed ≡ (fits Admission.new request && policy_allows host Engine.new (some policy) 4))
    × ((fits Admission.new request ≡ true) ⊎ (engine' ≡ Engine.new))
    × (r.allowed ≡ is_empty_reason r.reason)
check_with_policy-allowed_example =
    check_with_policy-allowed host Admission.new request Engine.new (some policy) 4

abbrev kill_dns : EnforcementRule
kill_dns = rule "kill_dns" "dns_query" EnforcementAction.kill true

abbrev watch_all : EnforcementRule
watch_all = rule "watch" "*" EnforcementAction.alert true

abbrev engine : EnforcementEngine
engine = record { rules = kill_dns ∷ watch_all ∷ []; decisions = 0; denials = 0; alerts = 0 }

dns_killed : (evaluate engine "dns_query").1 ≡ EnforcementAction.kill
unfolding evaluate decide_from matches most_restrictive severity
dns_killed = refl

evaluate-worst_example : severity (evaluate engine "dns_query").1 ≡ worst engine.rules "dns_query"
evaluate-worst_example = evaluate-worst engine "dns_query"
