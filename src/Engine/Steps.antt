-- ===== src/Engine/Steps.antt =====
-- What every step of RuleEngine.evaluate does to the engine, all of it does.
use wfc.Prelude.{ℕ, String, Option, List, [], ◌∷◌, ◌==◌, inl, inr, Bool-cases, or_else}
use wfc.Fires.{FireRecord}
use wfc.Dispatch.{Ids}
use wfc.Rules.{Order, StateUpdates, RuleResult, skipped, triggered, RuleContext, Rule}
use wfc.Engine.{
  all_rules, chosen_rules, manual_context, Alert, RuleEngine, raise_alert, handle_order,
  handle_orders, apply_updates, apply_result, latest, shared_fires, run_rules, high_fire_alert,
  evaluate,
}

module _ (ids : Ids) (R : RuleEngine → RuleEngine → Type 0) (stays : (e : RuleEngine) → R e e)
    (chain : (a b c : RuleEngine) → R a b → R b c → R a c)
    (on_order : (rule_name fire_id : String) (now : ℕ) (o : Order) (e : RuleEngine)
      → R e (handle_order ids rule_name fire_id now o e))
    (on_updates : (rule_name fire_id : String) (u : StateUpdates) (now : ℕ) (e : RuleEngine)
      → R e (record e { fires = apply_updates rule_name fire_id u now e.fires }))
    (on_alert : (id : String) (a : Alert) (e : RuleEngine) → R e (raise_alert id a e)) where
  orders_R :
      (rule_name fire_id : String) (now : ℕ) (os : List Order) (e : RuleEngine)
      → R e (handle_orders ids rule_name fire_id now os e)
  unfolding handle_orders
  orders_R rule_name fire_id now [] e = stays e
  orders_R rule_name fire_id now (o ∷ os) e =
      chain e (handle_order ids rule_name fire_id now o e) _ (on_order rule_name fire_id now o e)
        (orders_R rule_name fire_id now os (handle_order ids rule_name fire_id now o e))

  result_R :
      (rule_name fire_id : String) (now : ℕ) (r : RuleResult) (e : RuleEngine)
      → R e (apply_result ids rule_name fire_id now r e)
  unfolding apply_result
  result_R rule_name fire_id now skipped e = stays e
  result_R rule_name fire_id now (triggered os u) e =
      chain e (handle_orders ids rule_name fire_id now os e) _ (orders_R rule_name fire_id now os e)
        (on_updates rule_name fire_id u now (handle_orders ids rule_name fire_id now os e))

  rules_R :
      (rules : List Rule) (context : RuleContext) (now : ℕ) (fire : FireRecord) (e : RuleEngine)
      → R e (run_rules ids rules context now fire e)
  unfolding run_rules
  rules_R [] context now fire e = stays e
  rules_R (rule ∷ rules) context now fire e =
      let result = rule.evaluate fire e.registry context (shared_fires context e.fires) in
      let e' = apply_result ids rule.name fire.fire_id now result e in
      chain e e' _ (result_R rule.name fire.fire_id now result e)
        (rules_R rules context now (latest fire e'.fires) e')

  alert_R : (fire : FireRecord) (now : ℕ) (e : RuleEngine) → R e (high_fire_alert fire now e)
  alert_R fire now e = elim (Bool-cases (fire.severity == "HIGH")) [
    | inl y ↦ rw y (on_alert _ _ e)
    | inr n ↦ rw n (stays e)
  ]

  pub evaluate_R :
      (fire : FireRecord) (context : Option RuleContext) (now : ℕ) (e : RuleEngine)
      → R e (evaluate ids fire context now e)
  unfolding evaluate
  evaluate_R fire context now e = chain e (high_fire_alert fire now e) _ (alert_R fire now e) (
      rules_R (chosen_rules (or_else context manual_context).telemetry_rules all_rules)
        (or_else context manual_context) now fire (high_fire_alert fire now e))
