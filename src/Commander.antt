-- ===== src/Commander.antt =====
-- Commander_Repo/command_nodes/core_commander/commander_core.py: the state of CommanderCore, which the
-- stores share. The rule engine and the stores' own fields refer to the same objects, so that an
-- evaluation works on the engine that the commander's fields make up, and writes them back.
pub mod FireEvents
pub mod Telemetry
pub mod Acks
pub mod Redispatch
pub mod Sync
pub mod Routing
pub mod Law
pub mod Safety
pub mod Lifecycle
pub mod Standby
pub mod Loops
pub mod Intensity
pub mod Timeouts
use wfc.Prelude.{
  ℕ, suc, Bool, true, String, Option, none, some, List, [], ◌∷◌, ◌==◌, or_else, if◌then◌else◌,
}
use wfc.Dict.{Dict}
use wfc.Shared.Commands.{Coord, Payload}
use wfc.Fires
use wfc.Fires.{FireRecord, FireStateStore}
use wfc.Fires.Sync.{FireSnapshot}
use wfc.Missions.{MissionStore}
use wfc.Missions.Sync.{MissionSnapshot}
use wfc.Nodes.{NodeRegistry}
use wfc.Events.{DomainEvent, append}
use wfc.Dispatch.{Ids}
use wfc.Approval.{Gate}
use wfc.Rules.{EvalTrigger, Election, RuleContext}
use wfc.Engine
use wfc.Engine.{Alert, RuleEngine}
use wfc.SwarmStatus.{SwarmStatusStore, get_all_active}
use wfc.Lease.{Lease}

-- FirePayload and FireEvent, of wfc_shared/wfc_shared/schemas/events.py
pub record FirePayload : Type 0 where
  pub fire_id : String
  pub zone : String
  pub severity : String
  pub sensor_id : String
  pub location_coords : Option Coord

pub record FireEvent : Type 0 where
  pub event_id : String
  pub event_type : String
  pub timestamp : ℕ
  pub source : String
  pub payload : FirePayload

-- what is published on STATE_SNAPSHOT; of each node its status and its job
pub record SystemSnapshot : Type 0 where
  pub timestamp : ℕ
  pub fires : List FireSnapshot
  pub missions : List MissionSnapshot
  pub nodes : List (String × (wfc.Shared.Status.NodeStatus × Option String))
  pub events_delta : List DomainEvent

-- CommanderCore. `is_active` stands in the lease; the dispatcher with its tracker, the pending store and
-- the event log stand in the gate; `snapshots` are those published, the newest first.
pub record Commander : Type 0 where
  pub registry : NodeRegistry
  pub gate : Gate
  pub fires : FireStateStore
  pub missions : MissionStore
  pub alerts : Dict Alert
  -- the rows of the table fire_events
  pub fire_events : List FireEvent
  pub swarm_status : SwarmStatusStore
  pub lease : Lease
  pub snapshots : List SystemSnapshot
  pub last_snapshot_at : ℕ
  pub deactivation_grace_start : Option ℕ

-- the rule engine over the commander's own stores
abbrev pub engine : Commander → RuleEngine
engine c = record {
  registry = c.registry;
  gate = c.gate;
  fires = some c.fires;
  alerts = some c.alerts;
}

-- the commander whose stores the engine has written
abbrev pub with_engine : Commander → RuleEngine → Commander
with_engine c e = record c {
  registry = e.registry;
  gate = e.gate;
  fires = or_else e.fires c.fires;
  alerts = or_else e.alerts c.alerts;
}

-- self.rule_engine.evaluate(fire, context)
unfoldable pub evaluate : Ids → FireRecord → Option RuleContext → ℕ → Commander → Commander
evaluate ids fire context now c = with_engine c (Engine.evaluate ids fire context now (engine c))

-- an evaluation of the fire that the store has just returned
abbrev pub evaluate_found : Ids → Option FireRecord → Option RuleContext → ℕ → Commander → Commander
evaluate_found ids none context now c = c
evaluate_found ids (some fire) context now c = evaluate ids fire context now c

-- _build_context
abbrev pub build_context :
    EvalTrigger → Option Election → Option (List String) → Commander → RuleContext
build_context trigger election_meta telemetry_rules c = record {
  trigger = trigger;
  swarm_snapshots = get_all_active c.swarm_status;
  election_metadata = election_meta;
  telemetry_rules = telemetry_rules;
  shares_fires = true;
  new_intensity = none;
  rekindled_payload = none;
}

abbrev pub domain_event :
    String → String → Option String → Option String → Option String → Payload → ℕ → DomainEvent
domain_event event_id event_type fire_id node_id reason payload now = record {
  event_id = event_id;
  event_type = event_type;
  fire_id = fire_id;
  node_id = node_id;
  reason = reason;
  payload = payload;
  sequence = none;
  timestamp = now;
  source = "commander";
}

-- self.event_log.append(DomainEvent(...)), with a new id
abbrev pub log_domain :
    Ids → String → Option String → Option String → Option String → Payload → ℕ → Gate → Gate
log_domain ids event_type fire_id node_id reason payload now g = elim g.event_log [
  | none ↦ g
  | some log ↦ record g {
    event_log =
        some
          (append
            (domain_event (ids.uuid4 g.desk.drawn) event_type fire_id node_id reason payload now)
            log).0;
    desk = record g.desk { drawn = suc g.desk.drawn };
  }
]

abbrev pub log_event :
    Ids
    → String
    → Option String
    → Option String
    → Option String
    → Payload
    → ℕ
    → Commander
    → Commander
log_event ids event_type fire_id node_id reason payload now c = record c {
  gate = log_domain ids event_type fire_id node_id reason payload now c.gate;
}
