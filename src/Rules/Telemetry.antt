-- ===== src/Rules/Telemetry.antt =====
-- Commander_Repo/core/rule_engine/rules/: fire_expansion.py, swarm_attrition.py and
-- resource_exhaustion.py, which watch the telemetry of the swarms.
use wfc.Prelude.{
  Bool, false, ◌&&◌, ◌||◌, not, Option, none, some, List, [], ◌∷◌, ◌++◌, ltb, leb, holds, head?,
  length, map, if◌then◌else◌,
}
use wfc.Shared.Commands.{stand_down, reinforce_fire, escalate_fire}
use wfc.Fires.{FireRecord}
use wfc.Nodes.{NodeRecord}
use wfc.Rules.{
  Order, no_updates, RuleResult, skipped, triggered, SwarmSnapshot, Evaluation, is_telemetry, order,
  only_fire, other_leaders,
}

abbrev reinforce : FireRecord → NodeRecord → Order
reinforce fire leader = order leader.node_id reinforce_fire (only_fire fire)

abbrev escalate : FireRecord → Order
escalate fire = order "SYSTEM" escalate_fire (only_fire fire)

-- the first snapshot of the fire that passes
abbrev first_such : (SwarmSnapshot → Bool) → FireRecord → List SwarmSnapshot → Bool
first_such p fire [] = false
first_such p fire (snap ∷ snaps) =
    (holds snap.fire_id fire.fire_id && p snap) || first_such p fire snaps

abbrev expand : FireRecord → Option NodeRecord → RuleResult
expand fire none = skipped
expand fire (some leader) = triggered (reinforce fire leader ∷ []) no_updates

-- FireExpansionRule.evaluate
unfoldable pub fire_expansion : Evaluation
unfolding other_leaders
fire_expansion fire registry context fires =
    if is_telemetry context.trigger
      && not (leb 2 (length fire.assigned_nodes))
      && first_such (λ snap. holds snap.spread_rate "RAPID") fire context.swarm_snapshots
    then expand fire (head? (other_leaders fire registry))
    else skipped

abbrev is_worn : SwarmSnapshot → Bool
is_worn snap = ltb 3 snap.lost_drones || ltb snap.avg_battery_pct 20

abbrev reinforce_or_escalate : FireRecord → Option NodeRecord → Order
reinforce_or_escalate fire none = escalate fire
reinforce_or_escalate fire (some leader) = reinforce fire leader

-- SwarmAttritionRule.evaluate
unfoldable pub swarm_attrition : Evaluation
unfolding other_leaders
swarm_attrition fire registry context fires =
    if is_telemetry context.trigger && first_such is_worn fire context.swarm_snapshots
    then triggered (reinforce_or_escalate fire (head? (other_leaders fire registry)) ∷ [])
        no_updates
    else skipped

-- ResourceExhaustionRule.evaluate
unfoldable pub resource_exhaustion : Evaluation
unfolding other_leaders
resource_exhaustion fire registry context fires =
    if is_telemetry context.trigger
      && first_such (λ snap. ltb snap.avg_payload_litres 15) fire context.swarm_snapshots
    then triggered
        (map (λ lid. order lid stand_down (only_fire fire)) fire.assigned_nodes
          ++ reinforce_or_escalate fire (head? (other_leaders fire registry)) ∷ [])
        no_updates
    else skipped
