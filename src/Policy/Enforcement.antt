-- ===== src/Policy/Enforcement.antt =====
-- crates/nova-policy/src/enforcement.rs and builtin.rs: the rules on runtime events.
pub mod Severity
use nova_vm.Common.{
  ℕ, ◌+◌, ◌%◌, ◌^◌, Bool, true, false, ◌&&◌, ◌||◌, List, [], ◌∷◌, ◌++◌, String, str_eq, ltb,
  if◌then◌else◌,
}

pub data EnforcementAction : Type 0 where
  allow deny alert kill : EnforcementAction

pub record EnforcementRule : Type 0 where
  pub name : String
  pub event_type : String
  pub action : EnforcementAction
  pub enabled : Bool

pub record EnforcementEngine : Type 0 where
  pub rules : List EnforcementRule
  pub decisions : ℕ
  pub denials : ℕ
  pub alerts : ℕ

unfoldable pub new : EnforcementEngine
new = record { rules = []; decisions = 0; denials = 0; alerts = 0 }

unfoldable pub add_rule : EnforcementEngine → EnforcementRule → EnforcementEngine
add_rule e rule = record e { rules = e.rules ++ (rule ∷ []) }

unfoldable pub severity : EnforcementAction → ℕ
severity EnforcementAction.allow = 0
severity EnforcementAction.alert = 1
severity EnforcementAction.deny = 2
severity EnforcementAction.kill = 3

unfoldable pub most_restrictive : EnforcementAction → EnforcementAction → EnforcementAction
most_restrictive a b = if ltb (severity a) (severity b) then b else a

-- The rule is enabled, and for this type of event or for all.
unfoldable pub matches : EnforcementRule → String → Bool
matches rule event_type =
    rule.enabled && (str_eq rule.event_type event_type || str_eq rule.event_type "*")

-- `for rule in &self.rules`, with the result so far
unfoldable pub decide_from : EnforcementAction → List EnforcementRule → String → EnforcementAction
decide_from result [] event_type = result
decide_from result (rule ∷ rules) event_type =
    decide_from (if matches rule event_type then most_restrictive result rule.action else result)
      rules event_type

abbrev pub count : ℕ → ℕ
count n = (n + 1) % 2 ^ 64

abbrev pub tally : EnforcementEngine → EnforcementAction → EnforcementEngine
tally e EnforcementAction.allow = e
tally e EnforcementAction.deny = record e { denials = count e.denials }
tally e EnforcementAction.alert = record e { alerts = count e.alerts }
tally e EnforcementAction.kill = record e { denials = count e.denials }

unfoldable pub evaluate : EnforcementEngine → String → EnforcementEngine × EnforcementAction
evaluate e event_type =
    let result = decide_from EnforcementAction.allow e.rules event_type in
    (tally (record e { decisions = count e.decisions }) result, result)

abbrev pub rule : String → String → EnforcementAction → Bool → EnforcementRule
rule name event_type action enabled = record {
  name = name;
  event_type = event_type;
  action = action;
  enabled = enabled;
}

unfoldable pub default_rules : List EnforcementRule
default_rules =
    rule "audit_process_exec" "process_exec" EnforcementAction.alert true
    ∷ rule "audit_net_connect" "net_connect" EnforcementAction.alert true
    ∷ rule "audit_file_unlink" "file_unlink" EnforcementAction.alert true
    ∷ []

unfoldable pub strict_rules : List EnforcementRule
unfolding default_rules
strict_rules =
    default_rules
    ++ (rule "deny_dns" "dns_query" EnforcementAction.deny false
        ∷ rule "kill_suspicious_http" "http_request" EnforcementAction.kill false
        ∷ [])
