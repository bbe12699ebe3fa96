-- ===== src/Tactics.antt =====
-- Swarm_Repo/core/tactics/fire_tactics.py: what a command of the commander makes of the drones, and
-- SwarmLeaderNode._dispatch_assignments of core/node/swarm_leader_node.py, which keeps one per drone.
pub mod Best
pub mod Dispatching
use wfc.Prelude.{
  ℕ, suc, ◌+◌, max, length, Bool, true, String, Option, none, some, List, [], ◌∷◌, ◌++◌, ◌==◌, ltb,
  if◌then◌else◌,
}
use wfc.Dict
use wfc.Dict.{Dict}
use wfc.Shared.Commands.{Coord}
use wfc.Drones.{DroneTelemetry, DroneRecord}

pub record DroneAssignment : Type 0 where
  pub drone_id : String
  pub task : String
  pub target_pos : Option Coord
  pub severity : Option String
  pub priority : ℕ

abbrev pub low_payload_l : ℕ
low_payload_l = 15

abbrev pub has_payload : Option DroneTelemetry → Bool
has_payload none = true
has_payload (some telem) = ltb low_payload_l telem.payload_litres

abbrev assign : String → ℕ → Coord → String → DroneRecord → DroneAssignment
assign task priority fire_pos severity d = record {
  drone_id = d.drone_id;
  task = task;
  target_pos = some fire_pos;
  severity = some severity;
  priority = priority;
}

unfoldable pub send_scouts : Coord → String → List DroneRecord → List DroneAssignment
send_scouts fire_pos severity [] = []
send_scouts fire_pos severity (d ∷ ds) =
    assign "SCOUTING" 8 fire_pos severity d ∷ send_scouts fire_pos severity ds

-- a fighter with little payload is left out
unfoldable pub send_fighters : Coord → String → List DroneRecord → List DroneAssignment
send_fighters fire_pos severity [] = []
send_fighters fire_pos severity (d ∷ ds) =
    let rest = send_fighters fire_pos severity ds in
    if has_payload d.last_telemetry then assign "SUPPRESSING" 9 fire_pos severity d ∷ rest else rest

-- assign_respond_to_fire
abbrev pub assign_respond_to_fire :
    Coord → String → List DroneRecord → List DroneRecord → List DroneAssignment
assign_respond_to_fire fire_pos severity scouts fighters =
    send_scouts fire_pos severity scouts ++ send_fighters fire_pos severity fighters

abbrev on_ring : String → Coord → String → DroneRecord → DroneAssignment
on_ring task pos severity d = record {
  drone_id = d.drone_id;
  task = task;
  target_pos = some pos;
  severity = some severity;
  priority = 7;
}

-- each drone has its place, given by its number; a fighter with little payload returns
unfoldable pub ring_scouts : (ℕ → Coord) → ℕ → String → List DroneRecord → List DroneAssignment
ring_scouts place i severity [] = []
ring_scouts place i severity (d ∷ ds) =
    on_ring "SCOUTING" (place i) severity d ∷ ring_scouts place (suc i) severity ds

unfoldable pub ring_fighters : (ℕ → Coord) → ℕ → String → List DroneRecord → List DroneAssignment
ring_fighters place i severity [] = []
ring_fighters place i severity (d ∷ ds) =
    let task = if has_payload d.last_telemetry then "SUPPRESSING" else "RETURNING" in
    on_ring task (place i) severity d ∷ ring_fighters place (suc i) severity ds

-- assign_contain_fire, where `ring` gives the places
abbrev pub assign_contain_fire :
    (Coord → String → Option ℕ → ℕ → ℕ → Coord)
    → Coord
    → String
    → Option ℕ
    → List DroneRecord
    → List DroneRecord
    → List DroneAssignment
assign_contain_fire ring fire_pos severity perimeter_m scouts fighters =
    let place = ring fire_pos severity perimeter_m (max (length scouts + length fighters) 1) in
    ring_scouts place 0 severity scouts ++ ring_fighters place (length scouts) severity fighters

-- assign_stand_down
unfoldable pub assign_stand_down : List DroneRecord → List DroneAssignment
assign_stand_down [] = []
assign_stand_down (d ∷ ds) =
    record {
      drone_id = d.drone_id;
      task = "RETURNING";
      target_pos = none;
      severity = none;
      priority = 10;
    }
    ∷ assign_stand_down ds

-- `prev is None or a.priority > prev.priority`
abbrev pub beats : DroneAssignment → Option DroneAssignment → Bool
beats a none = true
beats a (some prev) = ltb prev.priority a.priority

abbrev pub keep_best : Dict DroneAssignment → DroneAssignment → Dict DroneAssignment
keep_best best a = if beats a (Dict.get best a.drone_id) then Dict.put best a.drone_id a else best

-- the best assignment of each drone, over those that were found so far
unfoldable pub best_of : List DroneAssignment → Dict DroneAssignment → Dict DroneAssignment
best_of [] best = best
best_of (a ∷ assignments) best = best_of assignments (keep_best best a)

-- a command to a drone, as _send_drone_command publishes it
pub record DroneCommand : Type 0 where
  pub target_node : String
  pub command_type : String
  pub task : Option String
  pub target_pos : Option Coord
  pub severity : Option String

abbrev pub recall : DroneAssignment → DroneCommand
recall a = record {
  target_node = a.drone_id;
  command_type = "RECALL_DRONE";
  task = none;
  target_pos = none;
  severity = none;
}

-- an empty severity is not sent
abbrev named : Option String → Option String
named none = none
named (some s) = if s == "" then none else some s

abbrev pub retask : DroneAssignment → DroneCommand
retask a = record {
  target_node = a.drone_id;
  command_type = "UPDATE_TASK";
  task = some a.task;
  target_pos = a.target_pos;
  severity = named a.severity;
}

abbrev pub command_of : DroneAssignment → Option DroneCommand
command_of a =
    if a.task == "RETURNING"
    then some (recall a)
    else if a.task == "SCOUTING"
    then some (retask a)
    else if a.task == "SUPPRESSING"
    then some (retask a)
    else if a.task == "IDLE"
    then some (retask a)
    else none

abbrev if_any : Option DroneCommand → List DroneCommand → List DroneCommand
if_any none rest = rest
if_any (some c) rest = c ∷ rest

unfoldable pub commands_of : List (String × DroneAssignment) → List DroneCommand
commands_of [] = []
commands_of ((drone_id, a) ∷ best) = if_any (command_of a) (commands_of best)

-- _dispatch_assignments: the commands that it sends
unfoldable pub dispatch_assignments : List DroneAssignment → List DroneCommand
unfolding best_of commands_of
dispatch_assignments assignments = commands_of (best_of assignments [])
