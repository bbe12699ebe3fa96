-- ===== src/FieldNode.antt =====
-- Swarm_Repo/core/node/field_node.py: how a node of the swarm takes a command, once, and acknowledges it.
-- What a subclass does in _execute_command is the parameter `execute`, with the state that it leaves and
-- whether it came to an end without an exception.
pub mod Once
pub mod Tracked
pub mod Delivery
use Prim.Native.String.{◌++◌ as join}
use wfc.Prelude.{
  ℕ, Bool, ◌||◌, String, Option, none, some, List, [], ◌∷◌, ◌++◌, ◌==◌, contains, or_else,
  if◌then◌else◌,
}
use wfc.Shared.Commands.{Payload}
use wfc.Tracker.{status_to_event_type}

-- what is published on ACK
pub record Ack : Type 0 where
  pub trace_id : String
  pub node_id : String
  pub status : String
  pub event_type : String
  pub event_id : String
  pub timestamp : ℕ

-- a message on the node's command topic; a key that is missing or None is `none`
pub record CommandMessage : Type 0 where
  pub trace_id : Option String
  pub command_type : Option String
  pub payload : Payload

-- FieldNode, with the state of its subclass and the acknowledgements that it sent, the oldest first
pub record FieldNode (S : Type 0) : Type 0 where
  pub node_id : String
  pub state : S
  pub handled_trace_ids : List String
  pub acks : List Ack

-- _STATUS_TO_EVENT_TYPE is the commander's table
abbrev pub ack_of : String → String → String → ℕ → Ack
ack_of trace_id node_id status now = record {
  trace_id = trace_id;
  node_id = node_id;
  status = status;
  event_type = or_else (status_to_event_type status) status;
  event_id = join trace_id (join ":" status);
  timestamp = now;
}

abbrev pub send_ack : {S : Type 0} → String → String → ℕ → FieldNode S → FieldNode S
send_ack trace_id status now n = record n {
  acks = n.acks ++ ack_of trace_id n.node_id status now ∷ [];
}

abbrev pub all_known_commands : List String
all_known_commands =
    "RESPOND_TO_FIRE" ∷ "CONTAIN_FIRE" ∷ "STAND_DOWN" ∷ "REINFORCE_FIRE" ∷ "ABORT_MISSION"
    ∷ "REASSIGN_LEADER" ∷ "CONFIRM_LEADERSHIP" ∷ "DISPATCH_DRONE" ∷ "RECALL_DRONE" ∷ "UPDATE_TASK"
    ∷ []

-- the command type, if it is known
abbrev pub known_type : Option String → Option String
known_type none = none
known_type (some t) = if contains all_known_commands t then some t else none

-- `trace_id`, if it is not empty
abbrev pub named_trace : Option String → Option String
named_trace none = none
named_trace (some t) = if t == "" then none else some t

module _ {S : Type 0} (execute : String → Payload → String → S → S × Bool) where
  -- what follows the execution
  abbrev pub conclude : String → ℕ → S × Bool → FieldNode S → FieldNode S
  conclude trace_id now (s, ok) n =
      let n' : FieldNode S = record n { state = s } in
      if ok
      then send_ack trace_id "EXECUTED" now
          (record n' { handled_trace_ids = trace_id ∷ n'.handled_trace_ids })
      else send_ack trace_id "FAILED" now n'

  -- from the RECEIVED acknowledgement on
  abbrev pub perform : String → Option String → Payload → ℕ → FieldNode S → FieldNode S
  perform trace_id none payload now n = send_ack trace_id "EXECUTED" now n
  perform trace_id (some command_type) payload now n =
      conclude trace_id now (execute command_type payload trace_id n.state) n

  abbrev pub handle_trace : Option String → CommandMessage → ℕ → FieldNode S → FieldNode S
  handle_trace none m now n = n
  handle_trace (some trace_id) m now n =
      if contains n.handled_trace_ids trace_id
      then send_ack trace_id "EXECUTED" now n
      else perform trace_id (known_type m.command_type) m.payload now
          (send_ack trace_id "RECEIVED" now n)

  -- _handle_command
  unfoldable pub handle_command : CommandMessage → ℕ → FieldNode S → FieldNode S
  unfolding status_to_event_type
  handle_command m now n = handle_trace (named_trace m.trace_id) m now n

  -- the messages on the command topic, in their order, each with the clock
  unfoldable pub handle_commands : List (CommandMessage × ℕ) → FieldNode S → FieldNode S
  unfolding handle_command
  handle_commands [] n = n
  handle_commands ((m, now) ∷ ms) n = handle_commands ms (handle_command m now n)
