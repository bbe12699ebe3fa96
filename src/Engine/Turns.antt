-- ===== src/Engine/Turns.antt =====
-- RuleEngine.evaluate up to the turn of one rule.
use wfc.Prelude.{
  ◌∙◌, ℕ, ◌≡◌, refl, Bool, true, false, ◌&&◌, ◌||◌, String, Option, none, some, List, [], ◌∷◌, ◌==◌,
  inl, inr, Bool-cases, map, if◌then◌else◌,
}
use wfc.Shared.Commands.{Payload, escalate_fire, text}
use wfc.Fires.{FireRecord, FireStateStore}
use wfc.Nodes.{NodeRegistry}
use wfc.Nodes.Selection.{get_by_capability}
use wfc.Dispatch.{Ids}
use wfc.Rules.{no_updates, RuleResult, skipped, RuleContext, Rule, order, about_fire}
use wfc.Rules.Staffing.{high_severity, is_escalatable, for_each}
use wfc.Engine.{
  all_rules, chosen_rules, RuleEngine, was_escalated, handle_order, handle_orders, apply_updates,
  apply_result, latest, shared_fires, run_rules, high_fire_alert,
}
use wfc.Engine.Calls.{raise_alert-keeps}

-- the rules that come before the one of that name
abbrev pub rules_before : String → List Rule → List Rule
rules_before name [] = []
rules_before name (rule ∷ rules) =
    let rest = rules_before name rules in if rule.name == name then [] else rule ∷ rest

-- the engine when an evaluation comes to the rule of that name
abbrev pub at_turn : String → Ids → FireRecord → RuleContext → ℕ → RuleEngine → RuleEngine
at_turn name ids fire context now e =
    run_rules ids (rules_before name (chosen_rules context.telemetry_rules all_rules)) context now
      fire (high_fire_alert fire now e)

-- what an evaluation has the rule come to at its turn
abbrev pub verdict :
    String
    → (FireRecord → NodeRegistry → RuleContext → Option FireStateStore → RuleResult)
    → Ids
    → FireRecord
    → RuleContext
    → ℕ
    → RuleEngine
    → RuleResult
verdict name rule ids fire context now e =
    let e' = at_turn name ids fire context now e in
    rule (latest fire e'.fires) e'.registry context (shared_fires context e'.fires)

-- an order to escalate leaves the fires
escalation-fires :
    (ids : Ids) (rule_name f target : String) (p : Payload) (now : ℕ) (e : RuleEngine)
    → (handle_order ids rule_name f now (order target escalate_fire p) e).fires ≡ e.fires
unfolding handle_order
escalation-fires ids rule_name f target p now e =
    elim (Bool-cases (was_escalated f e.gate.event_log)) [
      | inl old ↦ rw old refl
      | inr new ↦ rw new (raise_alert-keeps _ _ _).0
    ]

escalations-fires :
    (ids : Ids) (rule_name f : String) (p : Payload) (now : ℕ) (targets : List String)
    (e : RuleEngine)
    → (handle_orders ids rule_name f now
        (map (λ target. order target escalate_fire p) targets)
        e).fires
      ≡ e.fires
unfolding handle_orders
escalations-fires ids rule_name f p now [] e = refl
escalations-fires ids rule_name f p now (target ∷ targets) e =
    escalations-fires ids rule_name f p now targets
      (handle_order ids rule_name f now (order target escalate_fire p) e)
    ∙ escalation-fires ids rule_name f target p now e

-- no updates of a result leave the fires
no_updates-fires :
    (rule_name f : String) (now : ℕ) (fires : Option FireStateStore)
    → apply_updates rule_name f no_updates now fires ≡ fires
unfolding apply_updates
no_updates-fires rule_name f now none = refl
no_updates-fires rule_name f now (some s) = refl

for_each-fires :
    (ids : Ids) (rule_name f : String) (p : Payload) (now : ℕ) (targets : List String)
    (e : RuleEngine)
    → (apply_result ids rule_name f now
        (for_each (λ target. order target escalate_fire p) targets)
        e).fires
      ≡ e.fires
unfolding apply_result
for_each-fires ids rule_name f p now [] e = refl
for_each-fires ids rule_name f p now (t ∷ ts) e =
    no_updates-fires rule_name f now _ ∙ escalations-fires ids rule_name f p now (t ∷ ts) e

-- HighSeverityRule leaves the fires, whatever it comes to
pub high_severity-fires :
    (ids : Ids) (rule_name f : String) (fire : FireRecord) (context : RuleContext) (now : ℕ)
    (registry : NodeRegistry) (fires : Option FireStateStore) (e : RuleEngine)
    → (apply_result ids rule_name f now (high_severity fire registry context fires) e).fires
      ≡ e.fires
unfolding high_severity apply_result
high_severity-fires ids rule_name f fire context now registry fires e =
    either (is_escalatable fire.state && (fire.severity == "HIGH" || fire.severity == "CRITICAL"))
  where
    either :
        (b : Bool)
        → (apply_result ids rule_name f now
            (if b
              then for_each
                  (λ target.
                    order target escalate_fire
                      (about_fire fire (("severity", text fire.severity) ∷ [])))
                  (get_by_capability "DISPATCH_COMMANDS" registry)
              else skipped)
            e).fires
          ≡ e.fires
    either true =
        for_each-fires ids rule_name f (about_fire fire (("severity", text fire.severity) ∷ [])) now
          (get_by_capability "DISPATCH_COMMANDS" registry) e
    either false = refl

-- the alert at the start of an evaluation leaves them too
pub high_fire_alert-fires :
    (fire : FireRecord) (now : ℕ) (e : RuleEngine) → (high_fire_alert fire now e).fires ≡ e.fires
high_fire_alert-fires fire now e = elim (Bool-cases (fire.severity == "HIGH")) [
  | inl y ↦ rw y (raise_alert-keeps _ _ _).0
  | inr n ↦ rw n refl
]
