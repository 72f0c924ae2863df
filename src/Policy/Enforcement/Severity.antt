-- ===== src/Policy/Enforcement/Severity.antt =====
-- The decision on an event, described without the order of the rules.
use mathlib.Core.Logic.{∥∥₁_elim}
use mathlib.Core.List.{Perm, Permᴰ}
use native.Mathlib.Nat.{ℕ_set}
use nova_vm.Common.{
  ℕ, ◌≤◌, ◌≡◌, refl, sym, ◌∙◌, ap, inl, inr, List, [], ◌∷◌, String, ltb, if◌then◌else◌, arith,
  Bool-cases,
}
use nova_vm.Policy.Enforcement.{
  EnforcementAction, EnforcementRule, EnforcementEngine, severity, most_restrictive, matches,
  decide_from, evaluate, default_rules, strict_rules,
}

abbrev larger : ℕ → ℕ → ℕ
larger a b = if ltb a b then b else a

-- The highest severity of the rules that match, 0 when none does
abbrev pub worst : List EnforcementRule → String → ℕ
worst [] event_type = 0
worst (r ∷ rs) event_type =
    let rest = worst rs event_type in
    if matches r event_type then larger (severity r.action) rest else rest

severity-inj : (a b : EnforcementAction) → severity a ≡ severity b → a ≡ b
unfolding severity
severity-inj a b h = ground arith

larger-zero : (n : ℕ) → larger (severity EnforcementAction.allow) n ≡ n
unfolding severity
larger-zero n = ground arith

severity-decide_from :
    (rs : List EnforcementRule) (result : EnforcementAction) (event_type : String)
    → severity (decide_from result rs event_type) ≡ larger (severity result) (worst rs event_type)
unfolding decide_from most_restrictive
severity-decide_from [] result event_type = ground arith
severity-decide_from (r ∷ rs) result event_type = elim (Bool-cases (matches r event_type)) [
  | inl m ↦
      rw (m, decide_from)
        (ground (arith, severity-decide_from rs (most_restrictive result r.action) event_type))
  | inr m ↦ rw (m, decide_from) (ground (arith, severity-decide_from rs result event_type))
]

worst-Permᴰ :
    (event_type : String) {xs ys : List EnforcementRule}
    → Permᴰ xs ys
    → worst xs event_type ≡ worst ys event_type
worst-Permᴰ event_type Permᴰ.nil = refl
worst-Permᴰ event_type (Permᴰ.cons e p) = ground (
  arith,
  worst-Permᴰ event_type p,
  ap (λ r. matches r event_type) e,
  ap (λ r. severity r.action) e,
)
worst-Permᴰ event_type (Permᴰ.swap e f) = ground (
  arith,
  ap (λ r. matches r event_type) e,
  ap (λ r. severity r.action) e,
  ap (λ r. matches r event_type) f,
  ap (λ r. severity r.action) f,
)
worst-Permᴰ event_type (Permᴰ.trans p q) = worst-Permᴰ event_type p ∙ worst-Permᴰ event_type q

worst-perm :
    {xs ys : List EnforcementRule} (event_type : String)
    → Perm xs ys
    → worst xs event_type ≡ worst ys event_type
worst-perm event_type p = ∥∥₁_elim p (ℕ_set _ _) (worst-Permᴰ event_type)

-- The decision on an event has the highest severity of the enabled rules that match it, and allows
-- when none does.
pub evaluate-worst :
    (e : EnforcementEngine) (event_type : String)
    → severity (evaluate e event_type).1 ≡ worst e.rules event_type
unfolding evaluate
evaluate-worst e event_type =
    severity-decide_from e.rules EnforcementAction.allow event_type
    ∙ larger-zero (worst e.rules event_type)

-- Rules may be added in any order: the decision on an event is the same.
pub evaluate-perm :
    (e : EnforcementEngine) (rules : List EnforcementRule) (event_type : String)
    → Perm e.rules rules
    → (evaluate (record e { rules = rules }) event_type).1 ≡ (evaluate e event_type).1
evaluate-perm e rules event_type p =
    let reordered : EnforcementEngine = record e { rules = rules } in
    severity-inj (evaluate reordered event_type).1 (evaluate e event_type).1 (
      evaluate-worst reordered event_type
      ∙ sym (worst-perm event_type p)
      ∙ sym (evaluate-worst e event_type))

strict_rules-worst :
    (event_type : String) → worst strict_rules event_type ≡ worst default_rules event_type
unfolding strict_rules default_rules matches
strict_rules-worst event_type = refl

worst-default_rules : (event_type : String) → worst default_rules event_type ≤ 1
unfolding default_rules severity matches
worst-default_rules event_type = ground arith

-- The strict rules, as they are delivered, decide as the default rules do, and neither denies or kills
-- at any event: what they add is disabled.
pub strict_rules-inert :
    (e : EnforcementEngine) (event_type : String)
    → let strict = (evaluate (record e { rules = strict_rules }) event_type).1 in
      let default = (evaluate (record e { rules = default_rules }) event_type).1 in
      (strict ≡ default) × (severity strict ≤ severity EnforcementAction.alert)
unfolding severity
strict_rules-inert e event_type =
    let one = evaluate-worst (record e { rules = strict_rules }) event_type in
    let two = evaluate-worst (record e { rules = default_rules }) event_type in
    let same = strict_rules-worst event_type in
    (
      severity-inj (evaluate (record e { rules = strict_rules }) event_type).1
          (evaluate (record e { rules = default_rules }) event_type).1 (one ∙ same ∙ sym two),
      rw (one, same) (worst-default_rules event_type),
    )
