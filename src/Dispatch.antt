-- ===== src/Dispatch.antt =====
-- Commander_Repo/core/commands_monitor/command_dispatcher.py, and the messages that the commander
-- publishes over MQTT, in the order of publication. uuid4 and uuid5 are the environment's: `Ids`.
pub mod Resend
use Prim.Native.String.{◌++◌ as join}
use wfc.Prelude.{
  ℕ, suc, Bool, true, false, ◌&&◌, not, String, Option, none, some, List, [], ◌∷◌, ◌++◌, ◌==◌,
  if◌then◌else◌,
}
use wfc.Shared.Commands.{
  Command, CommandType, respond_to_fire, contain_fire, stand_down, reinforce_fire, abort_mission,
  reassign_leader, confirm_leadership, dispatch_drone, recall_drone, update_task, escalate_fire,
  payload_text,
}
use wfc.Tracker.{CommandTracker, Envelope, create}

-- The environment's identifiers: `uuid4 n` is the text of the n-th random uuid that the process
-- draws, `uuid5 key` that of the name-based uuid of the key.
pub record Ids : Type 0 where
  pub uuid4 : ℕ → String
  pub uuid5 : String → String

-- the texts of the command types
unfoldable pub type_name : CommandType → String
type_name respond_to_fire = "RESPOND_TO_FIRE"
type_name contain_fire = "CONTAIN_FIRE"
type_name stand_down = "STAND_DOWN"
type_name reinforce_fire = "REINFORCE_FIRE"
type_name abort_mission = "ABORT_MISSION"
type_name reassign_leader = "REASSIGN_LEADER"
type_name confirm_leadership = "CONFIRM_LEADERSHIP"
type_name dispatch_drone = "DISPATCH_DRONE"
type_name recall_drone = "RECALL_DRONE"
type_name update_task = "UPDATE_TASK"
type_name escalate_fire = "ESCALATE_FIRE"

-- what the commander publishes: a command to a node, or a change of the approval queue
pub data Message : Type 0 where
  command_message : String → Envelope → Message
  pending_message : String → Command → ℕ → Option ℕ → Message
  approved_message : String → String → Option String → ℕ → Message
  rejected_message : String → String → Option String → ℕ → Message
  expired_message : String → ℕ → Message

pub record Desk : Type 0 where
  pub tracker : Option CommandTracker
  pub outbox : List Message
  -- how many random uuids were drawn
  pub drawn : ℕ

-- `command_type in _IDEMPOTENT_COMMAND_TYPES`
abbrev pub is_idempotent : CommandType → Bool
is_idempotent respond_to_fire = true
is_idempotent contain_fire = true
is_idempotent stand_down = true
is_idempotent _ = false

unfoldable pub deterministic_trace_id : Ids → CommandType → String → String → String
unfolding type_name
deterministic_trace_id ids t fire_id target =
    ids.uuid5 (join (type_name t) (join ":" (join fire_id (join ":" target))))

-- `command_type in _IDEMPOTENT_COMMAND_TYPES and fire_id`
abbrev pub named_fire : CommandType → Option String → Option String
named_fire t none = none
named_fire t (some fire_id) = if is_idempotent t && not (fire_id == "") then some fire_id else none

abbrev track : Option CommandTracker → String → Envelope → Option CommandTracker
track none trace_id envelope = none
track (some t) trace_id envelope = some (create trace_id envelope t)

-- the tracker is written before the message is published
abbrev post : String → Command → ℕ → Desk → Desk
post trace_id command now d =
    let envelope : Envelope = record { trace_id = trace_id; command = command; timestamp = now } in
    record d {
      tracker = track d.tracker trace_id envelope;
      outbox = d.outbox ++ command_message command.target_node envelope ∷ [];
    }

-- the trace id and the count of uuids drawn for it
abbrev pub trace_of : Ids → Command → ℕ → Option String → String × ℕ
trace_of ids command n none = (ids.uuid4 n, suc n)
trace_of ids command n (some fire_id) =
    (deterministic_trace_id ids command.command_type fire_id command.target_node, n)

unfoldable pub send : Ids → Command → ℕ → Desk → Desk × String
send ids command now d =
    let (trace_id, n) =
      trace_of ids command d.drawn
        (named_fire command.command_type (payload_text command.payload "fire_id")) in
    (post trace_id command now (record d { drawn = n }), trace_id)
