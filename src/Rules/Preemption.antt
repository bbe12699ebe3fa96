-- ===== src/Rules/Preemption.antt =====
-- Commander_Repo/core/rule_engine/rules/priority.py: a leader is taken from the fire of the lowest
-- priority.
pub mod Victim
use Prim.Native.String.{◌++◌ as join}
use wfc.Prelude.{
  List, least_of, ℕ, Bool, ◌&&◌, not, String, Option, none, some, [], ◌∷◌, ◌==◌, leb, head?,
  is_empty, if◌then◌else◌,
}
use wfc.Dict.Select.{select_values}
use wfc.Shared.Commands.{text, stand_down, respond_to_fire}
use wfc.Fires.{FireRecord, FireStateStore, is_terminal}
use wfc.Nodes.Selection.{get_available}
use wfc.Rules.{
  Order, StateUpdates, no_updates, RuleResult, skipped, triggered, Evaluation, is_new_fire, order,
  about_fire, located,
}

-- `_priority_map.get(severity, 0)`
unfoldable pub priority_of : String → ℕ
priority_of severity =
    if severity == "CRITICAL"
    then 100
    else if severity == "HIGH"
    then 90
    else if severity == "SPREADING"
    then 85
    else if severity == "MEDIUM"
    then 70
    else if severity == "ACTIVE"
    then 60
    else if severity == "LOW"
    then 30
    else if severity == "CONTAINED"
    then 10
    else 0

-- `f.assigned_nodes and f.fire_id != fire.fire_id` of the fires that are not terminal
abbrev pub is_robbable : FireRecord → FireRecord → Bool
is_robbable fire f =
    not (is_terminal f) && not (is_empty f.assigned_nodes) && not (f.fire_id == fire.fire_id)

-- the leader is stood down for one fire and sent to the other
abbrev pub steal_orders : FireRecord → FireRecord → String → List Order
steal_orders fire victim leader =
    order leader stand_down (
      ("fire_id", text victim.fire_id)
      ∷ ("reason", text (join "preempted_for_higher_priority_fire_" fire.fire_id))
      ∷ [])
    ∷ order leader respond_to_fire (
        about_fire fire (
          located fire (
            ("severity", text fire.severity)
            ∷ ("sensor_id", text fire.sensor_id)
            ∷ ("preempted_from", text victim.fire_id)
            ∷ [])))
    ∷ []

abbrev pub steal_updates : FireRecord → String → StateUpdates
steal_updates victim leader = record no_updates { preempt = some (victim.fire_id, leader) }

abbrev steal : FireRecord → FireRecord → Option String → RuleResult
steal fire victim none = skipped
steal fire victim (some leader) =
    triggered (steal_orders fire victim leader) (steal_updates victim leader)

abbrev preempt_from : FireRecord → Option FireRecord → RuleResult
preempt_from fire none = skipped
preempt_from fire (some victim) =
    if leb (priority_of fire.severity) (priority_of victim.severity)
    then skipped
    else steal fire victim (head? victim.assigned_nodes)

abbrev preempt_in : FireRecord → Option FireStateStore → RuleResult
preempt_in fire none = skipped
preempt_in fire (some store) =
    preempt_from fire
      (least_of (λ f. priority_of f.severity) (select_values (is_robbable fire) store.fires))

-- PriorityRule.evaluate
unfoldable pub priority : Evaluation
unfolding priority_of
priority fire registry context fires =
    if is_new_fire context.trigger
      && is_empty (get_available "SWARM_LEAD" registry)
      && is_empty fire.assigned_nodes
    then preempt_in fire fires
    else skipped
