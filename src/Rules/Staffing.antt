-- ===== src/Rules/Staffing.antt =====
-- Commander_Repo/core/rule_engine/rules/: fire_dispatch.py, high_severity.py, no_responders.py,
-- fire_contained.py, fire_suppressed.py and leader_lost.py, which
-- send nodes to a fire or away from it.
pub mod Targets
use Prim.Native.String.{◌++◌ as join}
use wfc.Prelude.{
  ℕ, Bool, true, false, ◌&&◌, ◌||◌, not, String, Option, none, some, List, [], ◌∷◌, ◌==◌, ltb, leb,
  map, head?, is_empty, is_none, contains, if◌then◌else◌,
}
use wfc.Dict.Select.{select_values}
use wfc.Shared.Status.{FireStatus, ignited, active, is_active_node}
use wfc.Shared.Commands.{
  Coord, text, coords, respond_to_fire, contain_fire, stand_down, escalate_fire, dispatch_drone,
  reassign_leader,
}
use wfc.Fires.{FireRecord, FireStateStore, assigned_node}
use wfc.Fires.Sync.{get_active}
use wfc.Nodes.{NodeRecord, NodeRegistry, get}
use wfc.Nodes.Selection.{get_closest, get_in_zone, get_available, get_by_capability}
use wfc.Rules.{
  Order, StateUpdates, no_updates, RuleResult, skipped, triggered, RuleContext, Evaluation,
  is_burning, is_contained, is_suppressed, is_new_fire, order, about_fire, located, only_fire,
  is_alive,
}

-- `if target`
abbrev named : Option String → Option String
named none = none
named (some id) = if id == "" then none else some id

abbrev first_of : Option String → Option String → Option String
first_of none other = other
first_of (some id) other = some id

-- by place, if the fire has one
abbrev by_proximity : Option Coord → NodeRegistry → Option String
by_proximity none registry = none
by_proximity (some place) registry = named (get_closest "SWARM_LEAD" place true registry)

-- FireDispatchRule._select_target
unfoldable pub select_target : FireRecord → NodeRegistry → Option String
select_target fire registry = first_of (by_proximity fire.location_coords registry) (
    first_of (head? (get_in_zone "SWARM_LEAD" fire.zone true registry))
      (head? (get_available "SWARM_LEAD" registry)))

abbrev pub respond : FireRecord → String → Order
respond fire target = order target respond_to_fire (
    about_fire fire
      (located fire (("severity", text fire.severity) ∷ ("sensor_id", text fire.sensor_id) ∷ [])))

abbrev dispatch_to : FireRecord → Option String → RuleResult
dispatch_to fire none = skipped
dispatch_to fire (some target) = triggered (respond fire target ∷ []) no_updates

-- FireDispatchRule.evaluate
unfoldable pub fire_dispatch : Evaluation
unfolding select_target
fire_dispatch fire registry context fires =
    if is_burning fire.state && is_none (assigned_node fire)
    then dispatch_to fire (named (select_target fire registry))
    else skipped

abbrev pub is_escalatable : FireStatus → Bool
is_escalatable ignited = true
is_escalatable active = true
is_escalatable _ = false

-- one command for each target, if there are any
abbrev pub for_each : (String → Order) → List String → RuleResult
for_each make [] = skipped
for_each make (t ∷ ts) = triggered (map make (t ∷ ts)) no_updates

-- HighSeverityRule.evaluate
unfoldable pub high_severity : Evaluation
high_severity fire registry context fires =
    if is_escalatable fire.state && (fire.severity == "HIGH" || fire.severity == "CRITICAL")
    then for_each
        (λ target.
          order target escalate_fire (about_fire fire (("severity", text fire.severity) ∷ [])))
        (get_by_capability "DISPATCH_COMMANDS" registry)
    else skipped

-- NoRespondersRule.evaluate
unfoldable pub no_responders : Evaluation
no_responders fire registry context fires =
    if is_burning fire.state
      && is_none (assigned_node fire)
      && is_empty (get_available "SWARM_LEAD" registry)
    then for_each
        (λ target. order target escalate_fire (
          about_fire fire (
            ("severity", text fire.severity) ∷ ("reason", text "NO_SWARM_LEADERS_AVAILABLE") ∷ [])))
        (get_by_capability "DISPATCH_COMMANDS" registry)
    else skipped

abbrev to_assigned : (String → Order) → Option String → RuleResult
to_assigned make none = skipped
to_assigned make (some target) =
    if target == "" then skipped else triggered (make target ∷ []) no_updates

-- FireContainedRule.evaluate
unfoldable pub fire_contained : Evaluation
fire_contained fire registry context fires =
    if is_contained fire.state
    then to_assigned
        (λ target.
          order target contain_fire
            (about_fire fire (located fire (("reason", text "fire_contained") ∷ []))))
        (assigned_node fire)
    else skipped

-- FireSuppressedRule.evaluate
unfoldable pub fire_suppressed : Evaluation
fire_suppressed fire registry context fires =
    if is_suppressed fire.state
    then to_assigned
        (λ target.
          order target stand_down (about_fire fire (("reason", text "fire_suppressed") ∷ [])))
        (assigned_node fire)
    else skipped

-- the first leader that is not alive, if none is alive
abbrev lost_leader : List String → NodeRegistry → Option String
lost_leader [] registry = none
lost_leader (lid ∷ lids) registry =
    let rest = any_alive lids registry in
    if is_alive (get registry lid) || rest then none else some lid
  where
    any_alive : List String → NodeRegistry → Bool
    any_alive [] registry = false
    any_alive (lid ∷ lids) registry = is_alive (get registry lid) || any_alive lids registry

abbrev zone_of : Option NodeRecord → Option String
zone_of none = none
zone_of (some r) = r.zone

abbrev same_zone : Option String → Option String → Bool
same_zone none none = true
same_zone (some a) (some b) = a == b
same_zone _ _ = false

abbrev reassign : FireRecord → Option NodeRecord → RuleResult
reassign fire none = triggered (order "SYSTEM" reassign_leader (only_fire fire) ∷ []) no_updates
reassign fire (some backup) =
    triggered (order backup.node_id respond_to_fire (only_fire fire) ∷ []) no_updates

abbrev after_loss : FireRecord → NodeRegistry → Option String → RuleResult
after_loss fire registry none = skipped
after_loss fire registry (some lost) = reassign fire (
    head? (
      select_values
        (λ r.
          contains r.capabilities "LEADER_BACKUP"
          && is_active_node r.status
          && same_zone r.zone (zone_of (get registry lost)))
        registry.nodes))

-- LeaderLostRule.evaluate
unfoldable pub leader_lost : Evaluation
leader_lost fire registry context fires =
    after_loss fire registry (lost_leader fire.assigned_nodes registry)
