-- ===== src/SwarmLeader.antt =====
-- Swarm_Repo/core/node/swarm_leader_node.py: the commands that a leader takes, the drones that it registers,
-- loses and replaces, and the leader that a backup knows of. `ring` is the place of a drone on the ring
-- around a fire, which the source computes in floating point: of the fire, its severity, its perimeter,
-- how many drones there are, and which one it is.
pub mod Roll
pub mod Orders
pub mod Monitor
pub mod Keeps
pub mod Forgetting
use Prim.Native.String.{slice}
use wfc.Prelude.{
  ℕ, zero, suc, ◌+◌, ◌-◌, ◌<◌, Bool, true, false, not, ◌&&◌, ◌||◌, String, Option, none, some, List,
  [], ◌∷◌, ◌++◌, ◌==◌, ltb, leb, or_else, contains, length, is_none, if◌then◌else◌,
}
use wfc.Dict
use wfc.Dict.{Dict}
use wfc.Dict.Select.{select_keys}
use wfc.Shared.Commands.{Coord, Value, coords, Payload, payload_text, payload_number}
use wfc.Dispatch.{Ids}
use wfc.Drones
use wfc.Drones.{
  DroneTelemetry, DroneRecord, DroneRegistry, register, unregister, update_telemetry, get_all,
  get_by_role, get_lost, get_idle,
}
use wfc.Tactics.{
  DroneAssignment, DroneCommand, assign_respond_to_fire, assign_contain_fire, assign_stand_down,
  dispatch_assignments,
}
use wfc.Election.{ElectionState, accept_term}

-- SwarmLeaderNode, with what it has told the aggregator and the commands that it sent, the oldest first;
-- `drawn` counts the uuids for fires without a name
pub record SwarmLeader : Type 0 where
  pub node_id : String
  pub current_fire_id : Option String
  pub current_fire_pos : Option Coord
  pub aggregator_fire : Option String
  pub aggregator_severity : String
  pub drones : DroneRegistry
  pub lost_tracker : Dict ℕ
  pub current_leader_id : Option String
  pub leader_last_seen : Option ℕ
  pub election_state : ElectionState
  pub sent : List DroneCommand
  pub drawn : ℕ

-- `tuple(raw) if raw else (0.0, 0.0)` of payload.get("location_coords")
abbrev pub place_or : Option Value → Coord
place_or (some (coords (some c))) = c
place_or _ = (0, 0)

abbrev pub fire_place : Payload → Coord
fire_place p = place_or (Dict.get p "location_coords")

abbrev pub dispatch : List DroneAssignment → SwarmLeader → SwarmLeader
dispatch assignments s = record s { sent = s.sent ++ dispatch_assignments assignments }

-- set_fire_id of the aggregator
abbrev set_fire_id : Option String → String → SwarmLeader → SwarmLeader
set_fire_id fire_id severity s = record s {
  aggregator_fire = fire_id;
  aggregator_severity = severity;
}

abbrev pub severity_of : Payload → String
severity_of p = or_else (payload_text p "severity") "HIGH"

unfoldable pub cmd_respond_to_fire : Ids → Payload → SwarmLeader → SwarmLeader
unfolding dispatch_assignments get_by_role
cmd_respond_to_fire ids p s =
    let fire_id = or_else (payload_text p "fire_id") (slice (ids.uuid4 s.drawn) 0 8) in
    let s' : SwarmLeader = record s {
      current_fire_id = some fire_id;
      current_fire_pos = some (fire_place p);
      drawn = suc s.drawn;
    } in
    dispatch
      (assign_respond_to_fire (fire_place p) (severity_of p) (get_by_role "SCOUT" s.drones)
        (get_by_role "FIREFIGHTING" s.drones))
      (set_fire_id (some fire_id) (severity_of p) s')

-- the fire of the payload, or the present one
abbrev fire_or : Option String → Option String → Option String
fire_or none now = now
fire_or (some fire_id) now = some fire_id

unfoldable pub cmd_contain_fire :
    (Coord → String → Option ℕ → ℕ → ℕ → Coord) → Payload → SwarmLeader → SwarmLeader
unfolding dispatch_assignments get_by_role
cmd_contain_fire ring p s =
    dispatch
      (assign_contain_fire ring (fire_place p) (severity_of p) (payload_number p "perimeter_m")
        (get_by_role "SCOUT" s.drones) (get_by_role "FIREFIGHTING" s.drones))
      (record s {
        current_fire_id = fire_or (payload_text p "fire_id") s.current_fire_id;
        current_fire_pos = some (fire_place p);
      })

unfoldable pub cmd_stand_down : SwarmLeader → SwarmLeader
unfolding dispatch_assignments get_all assign_stand_down
cmd_stand_down s = record (dispatch (assign_stand_down (get_all s.drones)) s) {
  current_fire_id = none;
  current_fire_pos = none;
  lost_tracker = [];
  aggregator_fire = none;
  aggregator_severity = "MEDIUM";
}

-- the call of assign_reinforce has too few arguments and raises, after reads of the registry that leave it
abbrev pub cmd_reinforce_fire : Payload → SwarmLeader → SwarmLeader × Bool
cmd_reinforce_fire p s = (record s { current_fire_pos = some (fire_place p) }, false)

-- REASSIGN_LEADER and CONFIRM_LEADERSHIP
abbrev pub take_fire : Option String → SwarmLeader → SwarmLeader
take_fire none s = s
take_fire (some fire_id) s =
    if fire_id == ""
    then s
    else set_fire_id (some fire_id) "MEDIUM" (record s { current_fire_id = some fire_id })

module _ (ring : Coord → String → Option ℕ → ℕ → ℕ → Coord) (ids : Ids) where
  -- _execute_command, and whether it came to an end
  unfoldable pub execute_command : String → Payload → String → SwarmLeader → SwarmLeader × Bool
  unfolding cmd_respond_to_fire cmd_contain_fire cmd_stand_down
  execute_command command_type p trace_id s =
      if command_type == "RESPOND_TO_FIRE"
      then (cmd_respond_to_fire ids p s, true)
      else if command_type == "CONTAIN_FIRE"
      then (cmd_contain_fire ring p s, true)
      else if command_type == "STAND_DOWN"
      then (cmd_stand_down s, true)
      else if command_type == "REINFORCE_FIRE"
      then cmd_reinforce_fire p s
      else if command_type == "ABORT_MISSION"
      then (cmd_stand_down s, true)
      else if command_type == "REASSIGN_LEADER"
      then (take_fire (payload_text p "fire_id") s, true)
      else if command_type == "CONFIRM_LEADERSHIP"
      then (take_fire (payload_text p "fire_id") s, true)
      else (s, true)

-- set_current_leader
unfoldable pub set_current_leader : String → ℕ → ℕ → SwarmLeader → SwarmLeader
unfolding accept_term
set_current_leader leader_id term now s = record s {
  current_leader_id = some leader_id;
  leader_last_seen = some now;
  election_state = (accept_term term s.election_state).0;
}

-- the battery and the payload of a replacement suffice
abbrev pub is_fit : String → DroneRecord → Bool
is_fit role d = d.role == role && fit d.last_telemetry
  where
    fit : Option DroneTelemetry → Bool
    fit none = false
    fit (some t) = ltb 25 t.battery_pct && ltb 15 t.payload_litres

unfoldable pub first_fit : String → List DroneRecord → Option DroneRecord
first_fit role [] = none
first_fit role (d ∷ ds) = let rest = first_fit role ds in if is_fit role d then some d else rest

abbrev pub replacement_command : String → Coord → DroneRecord → DroneCommand
replacement_command task pos d = record {
  target_node = d.drone_id;
  command_type = "UPDATE_TASK";
  task = some task;
  target_pos = some pos;
  severity = none;
}

abbrev send_replacement : String → Coord → Option DroneRecord → SwarmLeader → SwarmLeader
send_replacement task pos none s = s
send_replacement task pos (some d) s = record s {
  sent = s.sent ++ replacement_command task pos d ∷ [];
}

-- _replace_lost_drone
unfoldable pub replace_lost_drone : String → String → Option Coord → SwarmLeader → SwarmLeader
unfolding first_fit get_idle
replace_lost_drone role task none s = s
replace_lost_drone role task (some pos) s =
    send_replacement task pos (first_fit role (get_idle s.drones)) s

-- `task in ("SCOUTING", "SUPPRESSING")`
abbrev pub is_at_work : String → Bool
is_at_work task = task == "SCOUTING" || task == "SUPPRESSING"

abbrev pub drop_drone : String → SwarmLeader → SwarmLeader
drop_drone drone_id s = record s {
  drones = unregister drone_id s.drones;
  lost_tracker = Dict.pop s.lost_tracker drone_id;
}

-- what it was doing is done by another
abbrev pub replace_at_work : Option DroneTelemetry → String → SwarmLeader → SwarmLeader
replace_at_work none role s = s
replace_at_work (some telem) role s =
    if is_at_work telem.task then replace_lost_drone role telem.task s.current_fire_pos s else s

-- the drone is unregistered, and replaced if it was at work
abbrev pub lose_drone : DroneRecord → SwarmLeader → SwarmLeader
lose_drone d s = replace_at_work d.last_telemetry d.role (drop_drone d.drone_id s)
