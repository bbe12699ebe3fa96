-- ===== src/Commander/Redispatch.antt =====
-- CommanderCore.redispatch_fire, _check_command_timeouts and a round of _expire_loop, and what
-- CentralNode._on_node_failed and BackupCommander._on_node_failed do with a swarm leader that died.
use Prim.Native.String.{◌++◌ as join}
use wfc.Prelude.{
  ℕ, ◌-◌, Bool, true, false, ◌&&◌, String, Option, none, some, List, [], ◌∷◌, ◌==◌, ltb, is_empty,
  if◌then◌else◌,
}
use wfc.Dict
use wfc.Shared.Status.{FireStatus, active, suppressed, unknown, assigned, paused}
use wfc.Shared.Commands.{text, payload_text}
use wfc.Fires
use wfc.Fires.{FireRecord, assign_node, assigned_node}
use wfc.Missions
use wfc.Missions.{MissionRecord, MissionStore, get_for_fire, evict_terminal}
use wfc.Nodes.{release_job}
use wfc.Tracker.{CommandTracker, TrackRecord, Note, issued_note, get_issued}
use wfc.Dispatch.{Ids}
use wfc.Approval.{expire_stale}
use wfc.Rules.{redispatch}
use wfc.Commander.{Commander, evaluate, evaluate_found, build_context, log_event}
use wfc.Commander.Acks.{track, named, free_node}

-- `state in ("COMPLETED", "SUPPRESSED")`
abbrev pub is_finished : FireStatus → Bool
is_finished suppressed = true
is_finished (unknown s) = s == "COMPLETED"
is_finished _ = false

abbrev pub is_active_fire : FireStatus → Bool
is_active_fire active = true
is_active_fire _ = false

-- step 4b: a second pass for a fire that is ACTIVE and has no leader
abbrev pub second_pass : Ids → Option FireRecord → ℕ → Commander → Commander
second_pass ids none now c = c
second_pass ids (some fire) now c =
    if is_active_fire fire.state && is_empty fire.assigned_nodes
    then evaluate ids fire (some (build_context redispatch none none c)) now c
    else c

abbrev pub assign_to : String → Option MissionRecord → ℕ → MissionStore → MissionStore
assign_to node_id none now s = s
assign_to node_id (some mission) now s =
    (Missions.transition mission.mission_id assigned (join "redispatched_to_" node_id)
      (some node_id) now s).0

-- step 5: the mission follows the leader that was found
abbrev pub assign_found : String → Option String → ℕ → Commander → Commander
assign_found fire_id none now c = c
assign_found fire_id (some node_id) now c =
    if node_id == ""
    then c
    else record c { missions = assign_to node_id (get_for_fire c.missions fire_id) now c.missions }

abbrev pub leader_of : Option FireRecord → Option String
leader_of none = none
leader_of (some fire) = assigned_node fire

-- steps 1 to 5
abbrev pub reassign : Ids → String → String → ℕ → Commander → Commander
reassign ids fire_id dead_leader now c =
    let reason = join "leader_" (join dead_leader "_offline") in
    let c₁ =
      log_event ids "LEADER_DIED" (some fire_id) (some dead_leader) (some "heartbeat_timeout") []
        now c in
    let c₂ =
      log_event ids "FIRE_REDISPATCHED" (some fire_id) (some dead_leader) (some reason) [] now c₁ in
    let c₃ : Commander = record c₂ { fires = (assign_node fire_id none reason now c₂.fires).0 } in
    let c₄ = evaluate_found ids (Fires.get c₃.fires fire_id) none now c₃ in
    let c₅ = second_pass ids (Fires.get c₄.fires fire_id) now c₄ in
    assign_found fire_id (leader_of (Fires.get c₅.fires fire_id)) now c₅

unfoldable pub redispatch_fire : Ids → String → String → ℕ → Commander → Commander
unfolding evaluate get_for_fire
redispatch_fire ids fire_id dead_leader now c = elim (Fires.get c.fires fire_id) [
  | none ↦ c
  | some fire ↦ if is_finished fire.state then c else reassign ids fire_id dead_leader now c
]

abbrev pub command_ack_timeout_seconds : ℕ
command_ack_timeout_seconds = 30

-- the time of the first entry, which is that of the issue
abbrev pub issued_at : List Note → ℕ → ℕ
issued_at (issued_note envelope ∷ notes) now = envelope.timestamp
issued_at _ now = now

abbrev pub fire_is_finished : Option FireRecord → Bool
fire_is_finished none = false
fire_is_finished (some fire) = is_finished fire.state

-- the tracker is told, without an event id, and the node is free again
abbrev pub give_up : String → String → String → Commander → Commander
give_up trace_id node_id reason c =
    free_node (named (some node_id))
      (track trace_id "COMMAND_ACK_FAILED" (("reason", text reason) ∷ []) c).0

abbrev pub node_or_timeout : String → String
node_or_timeout node_id = if node_id == "" then "timeout" else node_id

abbrev pub time_out : Ids → String → TrackRecord → Option String → ℕ → Commander → Commander
time_out ids trace_id rec none now c =
    give_up trace_id rec.command.command.target_node "ack_timeout" c
time_out ids trace_id rec (some fire_id) now c =
    let node_id = rec.command.command.target_node in
    if fire_is_finished (Fires.get c.fires fire_id)
    then give_up trace_id node_id "fire_terminal" c
    else redispatch_fire ids fire_id (node_or_timeout node_id) now
        (give_up trace_id node_id "ack_timeout" c)

-- the body of the loop
abbrev pub check_command : Ids → String → ℕ → Option TrackRecord → Commander → Commander
check_command ids trace_id now none c = c
check_command ids trace_id now (some rec) c =
    if ltb (now - issued_at rec.history now) command_ack_timeout_seconds
    then c
    else time_out ids trace_id rec (named (payload_text rec.command.command.payload "fire_id")) now
        c

abbrev pub record_in : String → Option CommandTracker → Option TrackRecord
record_in trace_id none = none
record_in trace_id (some t) = Dict.get t.commands trace_id

abbrev pub tracked : String → Commander → Option TrackRecord
tracked trace_id c = record_in trace_id c.gate.desk.tracker

unfoldable pub check_commands : Ids → List String → ℕ → Commander → Commander
unfolding redispatch_fire
check_commands ids [] now c = c
check_commands ids (trace_id ∷ traces) now c =
    check_commands ids traces now (check_command ids trace_id now (tracked trace_id c) c)

abbrev pub issued_traces : Option CommandTracker → List String
issued_traces none = []
issued_traces (some t) = get_issued t

-- _check_command_timeouts
unfoldable pub check_command_timeouts : Ids → ℕ → Commander → Commander
unfolding check_commands get_issued
check_command_timeouts ids now c = check_commands ids (issued_traces c.gate.desk.tracker) now c

-- a round of _expire_loop, after its sleep
unfoldable pub expire_round : Ids → ℕ → Commander → Commander
unfolding check_command_timeouts
expire_round ids now c =
    if c.lease.is_active
    then check_command_timeouts ids now (record c {
      gate = (expire_stale now c.gate).0;
      missions = (evict_terminal 3600 now c.missions).0;
    })
    else c

abbrev pub pause : String → Option MissionRecord → ℕ → MissionStore → MissionStore
pause node_id none now s = s
pause node_id (some mission) now s =
    (Missions.transition mission.mission_id paused (join "leader_" (join node_id "_offline")) none
      now s).0

-- the fire of a swarm leader that died is given to another
unfoldable pub lose_leader : Ids → String → String → ℕ → Commander → Commander
unfolding redispatch_fire get_for_fire
lose_leader ids node_id fire_id now c = redispatch_fire ids fire_id node_id now (record c {
  registry = release_job node_id c.registry;
  missions = pause node_id (get_for_fire c.missions fire_id) now c.missions;
})
