-- ===== src/Engine.antt =====
-- Commander_Repo/core/rule_engine/engine.py: RuleEngine, with the registry, the gate, the fires and
-- the alerts that it writes. Its event log is the gate's: the commander gives both the same one. A
-- command is made with its ids when it is handled. Titles and details of alerts are left out.
pub mod Steps
pub mod Published
pub mod Calls
pub mod Turns
pub mod Escalations
pub mod Approved
use Prim.Native.String.{◌++◌ as join, slice}
use wfc.Prelude.{
  ℕ, suc, ◌+◌, Bool, true, false, ◌&&◌, not, String, Option, none, some, List, [], ◌∷◌, ◌==◌,
  or_else, contains, if◌then◌else◌,
}
use wfc.Dict
use wfc.Dict.{Dict}
use wfc.Shared.Status.{FireStatus}
use wfc.Shared.Commands.{
  Command, CommandType, respond_to_fire, command_risk, needs_approval, Payload, text,
}
use wfc.Fires
use wfc.Fires.{
  FireRecord, FireStateStore, add_assigned_node, assign_node, remove_assigned_node, update_severity,
}
use wfc.Nodes
use wfc.Nodes.{NodeRegistry}
use wfc.Events.{DomainEvent, EventLog, append, has_event}
use wfc.Dispatch.{Ids, type_name}
use wfc.Approval.{Gate, submit}
use wfc.Rules.{
  EvalTrigger, manual, Order, StateUpdates, RuleResult, skipped, triggered, RuleContext, Rule,
}
use wfc.Rules.Staffing.{
  fire_dispatch, high_severity, no_responders, fire_contained, fire_suppressed, leader_lost,
}
use wfc.Rules.Lifecycle.{
  elected_leader, severity_increase, rekindle_detection, containment_failure, fire_verification,
}
use wfc.Rules.Telemetry.{fire_expansion, swarm_attrition, resource_exhaustion}
use wfc.Rules.Preemption.{priority}

pub record Alert : Type 0 where
  pub kind : String
  pub severity : String
  pub source_ref : Option String
  pub created_at : ℕ

pub record RuleEngine : Type 0 where
  pub registry : NodeRegistry
  pub gate : Gate
  pub fires : Option FireStateStore
  pub alerts : Option (Dict Alert)

abbrev named :
    String → (FireRecord → NodeRegistry → RuleContext → Option FireStateStore → RuleResult) → Rule
named name evaluate = record { name = name; evaluate = evaluate }

-- `self._rules`
unfoldable pub all_rules : List Rule
all_rules =
    named "fire_dispatch" fire_dispatch
    ∷ named "high_severity" high_severity
    ∷ named "no_responders" no_responders
    ∷ named "fire_contained" fire_contained
    ∷ named "fire_suppressed" fire_suppressed
    ∷ named "elected_leader" elected_leader
    ∷ named "severity_increase" severity_increase
    ∷ named "fire_expansion" fire_expansion
    ∷ named "rekindle_detection" rekindle_detection
    ∷ named "containment_failure" containment_failure
    ∷ named "fire_verification" fire_verification
    ∷ named "leader_lost" leader_lost
    ∷ named "swarm_attrition" swarm_attrition
    ∷ named "resource_exhaustion" resource_exhaustion
    ∷ named "priority" priority
    ∷ []

-- AlertRepository.add: ON CONFLICT DO NOTHING
abbrev pub add_alert : String → Alert → Dict Alert → Dict Alert
add_alert id alert rows = elim (Dict.get rows id) [
  | none ↦ Dict.put rows id alert
  | some old ↦ rows
]

abbrev pub raise_alert : String → Alert → RuleEngine → RuleEngine
raise_alert id alert e = elim e.alerts [
  | none ↦ e
  | some rows ↦ record e { alerts = some (add_alert id alert rows) }
]

-- an event of the engine, with a new id
abbrev pub engine_event :
    String → String → String → Option String → String → Payload → ℕ → DomainEvent
engine_event event_id event_type fire_id node_id reason payload now = record {
  event_id = event_id;
  event_type = event_type;
  fire_id = some fire_id;
  node_id = node_id;
  reason = some reason;
  payload = payload;
  sequence = none;
  timestamp = now;
  source = "commander";
}

abbrev pub log_event : Ids → String → String → Option String → String → Payload → ℕ → Gate → Gate
log_event ids event_type fire_id node_id reason payload now g = elim g.event_log [
  | none ↦ g
  | some log ↦ record g {
    event_log =
        some
          (append
            (engine_event (ids.uuid4 g.desk.drawn) event_type fire_id node_id reason payload now)
            log).0;
    desk = record g.desk { drawn = suc g.desk.drawn };
  }
]

-- `Command(...)` draws a command id and a trace id, which the dispatcher replaces
abbrev pub make_command : Ids → Order → ℕ → Gate → Command
make_command ids o now g = record {
  command_id = ids.uuid4 g.desk.drawn;
  target_node = o.target_node;
  command_type = o.command_type;
  payload = o.payload;
  timestamp = now;
}

abbrev pub drawn_two : Gate → Gate
drawn_two g = record g { desk = record g.desk { drawn = suc (suc g.desk.drawn) } }

abbrev pub is_respond : CommandType → Bool
is_respond respond_to_fire = true
is_respond _ = false

abbrev assign_fire : String → String → ℕ → Option FireStateStore → Option FireStateStore
assign_fire fire_id target now none = none
assign_fire fire_id target now (some s) =
    some (add_assigned_node fire_id target (join "dispatched_to_" target) now s).0

-- the node is marked busy, the fire gets it, and the log says so
abbrev pub mark_dispatched : Ids → String → String → Command → ℕ → RuleEngine → RuleEngine
mark_dispatched ids rule_name fire_id c now e = record e {
  registry = Nodes.assign_job c.target_node fire_id e.registry;
  fires = assign_fire fire_id c.target_node now e.fires;
  gate =
      log_event ids "FIRE_DISPATCHED" fire_id (some c.target_node) (join "dispatched_by_" rule_name)
        (("command_type", text (type_name c.command_type)) ∷ []) now e.gate;
}

abbrev pub if_respond : Ids → String → String → Command → ℕ → RuleEngine → RuleEngine
if_respond ids rule_name fire_id c now e =
    if is_respond c.command_type then mark_dispatched ids rule_name fire_id c now e else e

-- what a command of no risk comes to
abbrev pub send_safe : Ids → String → String → Command → ℕ → RuleEngine → RuleEngine
send_safe ids rule_name fire_id c now e =
    if_respond ids rule_name fire_id c now (record e { gate = (submit ids c false now e.gate).0 })

-- ESCALATION_REQUESTED is logged, and the command submitted
abbrev pub request : Ids → String → String → Command → ℕ → Gate → Gate × String
request ids rule_name fire_id c now g = submit ids c true now (
    log_event ids "ESCALATION_REQUESTED" fire_id none (join "escalation_requested_by_" rule_name) []
      now g)

abbrev pub pending_alert : String → ℕ → Alert
pending_alert ref now = record {
  kind = "PENDING_APPROVAL";
  severity = "WARNING";
  source_ref = some ref;
  created_at = now;
}

-- what a command of some risk comes to that is not a duplicate
abbrev pub hold : Ids → String → String → Command → ℕ → RuleEngine → RuleEngine
hold ids rule_name fire_id c now e =
    let (g, ref) = request ids rule_name fire_id c now e.gate in
    raise_alert (join "pending:" ref) (pending_alert ref now)
      (if_respond ids rule_name fire_id c now (record e { gate = g }))

-- `self._event_log is not None and self._event_log.has_event(fire_id, ESCALATION_REQUESTED)`
abbrev pub was_escalated : String → Option EventLog → Bool
was_escalated fire_id none = false
was_escalated fire_id (some log) = has_event fire_id "ESCALATION_REQUESTED" log

-- the body of the loop over `result.commands`
unfoldable pub handle_order : Ids → String → String → ℕ → Order → RuleEngine → RuleEngine
handle_order ids rule_name fire_id now o e =
    let c = make_command ids o now e.gate in
    let e' : RuleEngine = record e { gate = drawn_two e.gate } in
    if needs_approval (command_risk o.command_type)
    then (if was_escalated fire_id e.gate.event_log
        then e'
        else hold ids rule_name fire_id c now e')
    else send_safe ids rule_name fire_id c now e'

unfoldable pub handle_orders : Ids → String → String → ℕ → List Order → RuleEngine → RuleEngine
unfolding handle_order
handle_orders ids rule_name fire_id now [] e = e
handle_orders ids rule_name fire_id now (o ∷ os) e =
    handle_orders ids rule_name fire_id now os (handle_order ids rule_name fire_id now o e)

abbrev tag : String → String → String
tag rule_name rest = join "[" (join rule_name (join "] " rest))

abbrev pub set_state :
    String → String → Option (FireStatus × String) → Bool → ℕ → FireStateStore → FireStateStore
set_state rule_name fire_id none clear now s = s
set_state rule_name fire_id (some (state, reason)) clear now s =
    let s' =
      (Fires.transition fire_id state (join "rule_" (join rule_name (join "_" (slice reason 0 30))))
        none none now s).0 in
    if clear
    then (assign_node fire_id none (tag rule_name "cleared assigned_nodes on re-activation") now
        s').0
    else s'

abbrev pub set_severity : String → String → Option String → ℕ → FireStateStore → FireStateStore
set_severity rule_name fire_id none now s = s
set_severity rule_name fire_id (some severity) now s =
    (update_severity fire_id severity (tag rule_name "severity update") now s).0

abbrev pub take_leader : String → Option (String × String) → ℕ → FireStateStore → FireStateStore
take_leader rule_name none now s = s
take_leader rule_name (some (old_fire_id, stolen)) now s =
    (remove_assigned_node old_fire_id stolen (tag rule_name (join "preempted " stolen)) now s).0

-- the part of `evaluate` under `result.state_updates`
unfoldable pub apply_updates :
    String → String → StateUpdates → ℕ → Option FireStateStore → Option FireStateStore
apply_updates rule_name fire_id u now none = none
apply_updates rule_name fire_id u now (some s) = some (
    take_leader rule_name u.preempt now (
      set_severity rule_name fire_id u.severity now
        (set_state rule_name fire_id u.state u.clear_assigned_nodes now s)))

unfoldable pub apply_result : Ids → String → String → ℕ → RuleResult → RuleEngine → RuleEngine
unfolding handle_orders apply_updates
apply_result ids rule_name fire_id now skipped e = e
apply_result ids rule_name fire_id now (triggered orders updates) e =
    let e' = handle_orders ids rule_name fire_id now orders e in
    record e' { fires = apply_updates rule_name fire_id updates now e'.fires }

-- `latest_fire`, or the fire as it was
abbrev pub latest : FireRecord → Option FireStateStore → FireRecord
latest fire none = fire
latest fire (some s) = or_else (Fires.get s fire.fire_id) fire

abbrev pub shared_fires : RuleContext → Option FireStateStore → Option FireStateStore
shared_fires context fires = if context.shares_fires then fires else none

-- the loop over the rules
unfoldable pub run_rules : Ids → List Rule → RuleContext → ℕ → FireRecord → RuleEngine → RuleEngine
unfolding apply_result
run_rules ids [] context now fire e = e
run_rules ids (rule ∷ rules) context now fire e =
    let result = rule.evaluate fire e.registry context (shared_fires context e.fires) in
    let e' = apply_result ids rule.name fire.fire_id now result e in
    run_rules ids rules context now (latest fire e'.fires) e'

abbrev pub chosen_rules : Option (List String) → List Rule → List Rule
chosen_rules none rules = rules
chosen_rules (some names) [] = []
chosen_rules (some names) (rule ∷ rules) =
    let rest = chosen_rules (some names) rules in
    if contains names rule.name then rule ∷ rest else rest

abbrev pub high_fire_alert : FireRecord → ℕ → RuleEngine → RuleEngine
high_fire_alert fire now e =
    if fire.severity == "HIGH"
    then raise_alert (join "high_fire:" fire.fire_id)
        (record {
          kind = "HIGH_FIRE";
          severity = "CRITICAL";
          source_ref = some fire.fire_id;
          created_at = now;
        })
        e
    else e

-- the context of a call without one
abbrev manual_context : RuleContext
manual_context = record {
  trigger = manual;
  swarm_snapshots = [];
  election_metadata = none;
  telemetry_rules = none;
  shares_fires = false;
  new_intensity = none;
  rekindled_payload = none;
}

-- RuleEngine.evaluate
unfoldable pub evaluate : Ids → FireRecord → Option RuleContext → ℕ → RuleEngine → RuleEngine
unfolding all_rules run_rules
evaluate ids fire context now e =
    let ctx = or_else context manual_context in
    run_rules ids (chosen_rules ctx.telemetry_rules all_rules) ctx now fire
      (high_fire_alert fire now e)
