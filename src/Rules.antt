-- ===== src/Rules.antt =====
-- Commander_Repo/core/rule_engine/rule.py, context.py and trigger.py: what a rule is told and returns.
pub mod Lifecycle
pub mod Staffing
pub mod Telemetry
pub mod Preemption
use wfc.Prelude.{
  ℕ, Bool, true, false, ◌&&◌, not, String, Option, none, some, List, [], ◌∷◌, contains, ◌==◌,
}
use wfc.Dict.Select.{select_values}
use wfc.Shared.Status.{
  FireStatus, ignited, active, spreading, contained, suppressed, extinguished, unknown,
  is_active_node,
}
use wfc.Shared.Commands.{Coord, CommandType, Payload, Value, text, coords}
use wfc.Fires.{FireRecord, FireStateStore}
use wfc.Nodes.{NodeRecord, NodeRegistry}

pub data EvalTrigger : Type 0 where
  new_fire redispatch node_available intensity_update telemetry_update : EvalTrigger
  rekindled election_result ack_timeout manual : EvalTrigger

-- the arguments of `Command(...)`
pub record Order : Type 0 where
  pub target_node : String
  pub command_type : CommandType
  pub payload : Payload

-- `state_updates`, of which each key may be missing. The reason of the result stands with the state,
-- since the engine writes it into the fire's trail; any other reason is only logged. No reader asks
-- for `transition_to` and `rekindled_at`.
pub record StateUpdates : Type 0 where
  pub state : Option (FireStatus × String)
  pub clear_assigned_nodes : Bool
  pub severity : Option String
  pub transition_to : Option FireStatus
  pub rekindled_at : Option ℕ
  -- preempt_from_fire_id and preempt_node_id
  pub preempt : Option (String × String)

abbrev pub no_updates : StateUpdates
no_updates = record {
  state = none;
  clear_assigned_nodes = false;
  severity = none;
  transition_to = none;
  rekindled_at = none;
  preempt = none;
}

-- RuleResult: `triggered=False` comes without commands and updates
pub data RuleResult : Type 0 where
  skipped : RuleResult
  triggered : List Order → StateUpdates → RuleResult

-- what the rules read of a SwarmStatusSnapshot: the battery in percent, the payload in tenths of a litre
pub record SwarmSnapshot : Type 0 where
  pub leader_id : String
  pub fire_id : Option String
  pub timestamp : ℕ
  pub lost_drones : ℕ
  pub avg_battery_pct : ℕ
  pub avg_payload_litres : ℕ
  pub spread_rate : Option String

pub record Election : Type 0 where
  pub term : ℕ
  pub fire_id : Option String
  pub new_leader_id : Option String

-- RuleContext with the attributes that the commander adds to it
pub record RuleContext : Type 0 where
  pub trigger : EvalTrigger
  pub swarm_snapshots : List SwarmSnapshot
  pub election_metadata : Option Election
  pub telemetry_rules : Option (List String)
  -- whether `fires_store` is set: it is the engine's own store
  pub shares_fires : Bool
  -- `new_intensity` of `_intensity_payload`
  pub new_intensity : Option String
  -- `timestamp` of `_rekindled_payload`, which need not be there
  pub rekindled_payload : Option (Option ℕ)

-- A rule reads the fire, the registry, the context, and the store that the context shares.
abbrev pub Evaluation : Type 0
Evaluation = FireRecord → NodeRegistry → RuleContext → Option FireStateStore → RuleResult

pub record Rule : Type 0 where
  pub name : String
  pub evaluate : Evaluation

-- the text of a state
abbrev pub state_name : FireStatus → String
state_name ignited = "IGNITED"
state_name active = "ACTIVE"
state_name spreading = "SPREADING"
state_name contained = "CONTAINED"
state_name suppressed = "SUPPRESSED"
state_name extinguished = "EXTINGUISHED"
state_name (unknown s) = s

abbrev pub is_burning : FireStatus → Bool
is_burning active = true
is_burning _ = false

abbrev pub is_contained : FireStatus → Bool
is_contained contained = true
is_contained _ = false

abbrev pub is_suppressed : FireStatus → Bool
is_suppressed suppressed = true
is_suppressed _ = false

abbrev pub is_telemetry : EvalTrigger → Bool
is_telemetry telemetry_update = true
is_telemetry _ = false

abbrev pub is_new_fire : EvalTrigger → Bool
is_new_fire new_fire = true
is_new_fire _ = false

abbrev pub order : String → CommandType → Payload → Order
order target command_type payload = record {
  target_node = target;
  command_type = command_type;
  payload = payload;
}

-- `{"fire_id": fire.fire_id, "zone": fire.zone, "location": fire.zone}` before other keys
abbrev pub about_fire : FireRecord → Payload → Payload
about_fire fire rest =
    ("fire_id", text fire.fire_id) ∷ ("zone", text fire.zone) ∷ ("location", text fire.zone) ∷ rest

abbrev pub located : FireRecord → Payload → Payload
located fire rest = ("location_coords", coords fire.location_coords) ∷ rest

abbrev pub only_fire : FireRecord → Payload
only_fire fire = ("fire_id", text fire.fire_id) ∷ []

-- `n.status == ACTIVE` of the record of an id
abbrev pub is_alive : Option NodeRecord → Bool
is_alive none = false
is_alive (some r) = is_active_node r.status

-- active swarm leaders that are not assigned to the fire
unfoldable pub other_leaders : FireRecord → NodeRegistry → List NodeRecord
other_leaders fire registry =
    select_values
      (λ r.
        contains r.capabilities "SWARM_LEAD"
        && is_active_node r.status
        && not (contains fire.assigned_nodes r.node_id))
      registry.nodes
