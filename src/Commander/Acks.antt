-- ===== src/Commander/Acks.antt =====
-- CommanderCore._handle_ack. A commander without a tracker, which CommanderCore never is, accepts nothing.
use Prim.Native.String.{◌++◌ as join, slice}
use wfc.Prelude.{
  ℕ, Bool, false, ◌||◌, String, Option, none, some, [], ◌∷◌, ◌==◌, or_else, if◌then◌else◌,
}
use wfc.Dict
use wfc.Shared.Status.{running}
use wfc.Shared.Commands.{Payload, text, payload_text}
use wfc.Missions
use wfc.Missions.{MissionRecord, MissionStore, get_for_fire}
use wfc.Nodes
use wfc.Nodes.{NodeRecord, release_job}
use wfc.Tracker
use wfc.Tracker.{CommandTracker, TrackRecord, status_to_event_type}
use wfc.Dispatch.{Ids}
use wfc.Engine.{add_alert}
use wfc.Commander.{Commander, log_event}

-- `a or b` of texts
abbrev pub text_or : Option String → String → String
text_or none d = d
text_or (some s) d = if s == "" then d else s

-- self.tracker.update(...), and whether it was accepted
abbrev pub update_tracker :
    String → String → Payload → Option CommandTracker → Option CommandTracker × Bool
update_tracker trace_id event_type payload none = (none, false)
update_tracker trace_id event_type payload (some t) =
    let (t', accepted) = Tracker.update trace_id event_type payload t in (some t', accepted)

abbrev pub track : String → String → Payload → Commander → Commander × Bool
track trace_id event_type payload c =
    let (t, accepted) = update_tracker trace_id event_type payload c.gate.desk.tracker in
    (record c { gate = record c.gate { desk = record c.gate.desk { tracker = t } } }, accepted)

abbrev pub fire_of_record : Option TrackRecord → Option String
fire_of_record none = none
fire_of_record (some rec) = payload_text rec.command.command.payload "fire_id"

abbrev pub fire_of_trace : String → Option CommandTracker → Option String
fire_of_trace trace_id none = none
fire_of_trace trace_id (some t) = fire_of_record (Dict.get t.commands trace_id)

-- `payload.get("fire_id") or ...`
abbrev pub first_of : Option String → Option String → Option String
first_of none b = b
first_of (some a) b = if a == "" then b else some a

-- the domain event of a status, and the status in lower case
abbrev pub ack_event : String → Option (String × String)
ack_event status =
    if status == "RECEIVED"
    then some ("COMMAND_ACK_RECEIVED", "received")
    else if status == "EXECUTED"
    then some ("COMMAND_ACK_EXECUTED", "executed")
    else if status == "FAILED"
    then some ("COMMAND_ACK_FAILED", "failed")
    else if status == "COMMAND_FAILED"
    then some ("COMMAND_ACK_FAILED", "command_failed")
    else none

abbrev pub log_ack :
    Ids
    → Option (String × String)
    → String
    → String
    → Option String
    → Option String
    → ℕ
    → Commander
    → Commander
log_ack ids none trace_id status fire_id node_id now c = c
log_ack ids (some (event_type, lower)) trace_id status fire_id node_id now c =
    log_event ids event_type fire_id node_id
      (some (join "ack_" (join lower (join "_trace_" (slice trace_id 0 8)))))
      (("trace_id", text trace_id) ∷ ("status", text status) ∷ []) now c

abbrev pub is_failed : String → Bool
is_failed status = status == "FAILED" || status == "COMMAND_FAILED"

-- `x and ...` of a text that may be absent
abbrev pub named : Option String → Option String
named none = none
named (some s) = if s == "" then none else some s

abbrev pub free_node : Option String → Commander → Commander
free_node none c = c
free_node (some node_id) c = record c { registry = release_job node_id c.registry }

abbrev pub run_mission : String → Option MissionRecord → ℕ → MissionStore → MissionStore
run_mission node_id none now s = s
run_mission node_id (some mission) now s =
    (Missions.transition mission.mission_id running (join "ack_received_from_" node_id)
      (some node_id) now s).0

abbrev pub job_of : Option NodeRecord → Option String
job_of none = none
job_of (some rec) = named rec.current_job

abbrev pub run_job : String → Option String → ℕ → MissionStore → MissionStore
run_job node_id none now s = s
run_job node_id (some fire_id) now s = run_mission node_id (get_for_fire s fire_id) now s

abbrev pub begin_work : Option String → ℕ → Commander → Commander
begin_work none now c = c
begin_work (some node_id) now c = record c {
  missions = run_job node_id (job_of (Nodes.get c.registry node_id)) now c.missions;
}

abbrev pub alert_failed : String → ℕ → Commander → Commander
alert_failed trace_id now c = record c {
  alerts =
      add_alert (join "cmd_failed:" trace_id)
        (record {
          kind = "COMMAND_FAILED";
          severity = "WARNING";
          source_ref = some trace_id;
          created_at = now;
        })
        c.alerts;
}

-- what follows an event that the tracker has applied
abbrev pub act_on_ack : Ids → Payload → String → String → ℕ → Commander → Commander
act_on_ack ids payload trace_id status now c =
    let node_id = payload_text payload "node_id" in
    let fire_id =
      first_of (payload_text payload "fire_id") (fire_of_trace trace_id c.gate.desk.tracker) in
    let c₁ = log_ack ids (ack_event status) trace_id status fire_id node_id now c in
    let c₂ = if is_failed status then free_node (named node_id) c₁ else c₁ in
    let c₃ = if status == "RECEIVED" then begin_work (named node_id) now c₂ else c₂ in
    if is_failed status then alert_failed trace_id now c₃ else c₃

abbrev pub ack_named : Ids → Payload → Option String → Option String → ℕ → Commander → Commander
ack_named ids payload (some trace_id) (some status) now c =
    let event_type =
      text_or (payload_text payload "event_type") (or_else (status_to_event_type status) status) in
    let event_id = text_or (payload_text payload "event_id") (join trace_id (join ":" status)) in
    let (c', accepted) =
      track trace_id event_type (Dict.put payload "event_id" (text event_id)) c in
    if accepted then act_on_ack ids payload trace_id status now c' else c'
ack_named ids payload _ _ now c = c

-- _handle_ack
unfoldable pub handle_ack : Ids → Payload → ℕ → Commander → Commander
unfolding get_for_fire
handle_ack ids payload now c =
    ack_named ids payload (named (payload_text payload "trace_id"))
      (named (payload_text payload "status")) now c
