-- ===== src/SwarmLeader/Roll.antt =====
-- Swarm_Repo/core/node/swarm_leader_node.py: the telemetry, the announcements and the silence of drones.
use wfc.Prelude.{
  ℕ, ◌-◌, not, ◌&&◌, String, Option, none, some, List, [], ◌∷◌, ◌==◌, ltb, or_else, contains,
  is_none, if◌then◌else◌,
}
use wfc.Dict
use wfc.Dict.{Dict}
use wfc.Shared.Commands.{Coord}
use wfc.Drones
use wfc.Drones.{DroneTelemetry, DroneRecord, register, unregister, update_telemetry, get_lost}
use wfc.SwarmLeader.{SwarmLeader, set_current_leader, drop_drone, replace_at_work, lose_drone}

-- _on_telemetry, with a payload that validates
unfoldable pub on_telemetry : DroneTelemetry → ℕ → SwarmLeader → SwarmLeader
unfolding update_telemetry
on_telemetry telem now s =
    if telem.leader_id == s.node_id
    then record s { drones = update_telemetry telem.drone_id telem now s.drones }
    else s

-- a payload on a registry topic, as the leader reads it
pub record Announced : Type 0 where
  pub node_id : String
  pub node_type : String
  pub capabilities : List String
  pub status : String
  pub location : Option Coord
  pub election_term : Option ℕ

abbrev role_of : String → String
role_of node_type = if node_type == "SCOUT_DRONE" then "SCOUT" else "FIREFIGHTING"

abbrev pub lose_found : String → Option DroneRecord → SwarmLeader → SwarmLeader
lose_found drone_id none s = drop_drone drone_id s
lose_found drone_id (some d) s = replace_at_work d.last_telemetry d.role (drop_drone drone_id s)

abbrev pub announce_drone : Announced → ℕ → SwarmLeader → SwarmLeader
announce_drone a now s =
    if a.status == "OFFLINE"
    then lose_found a.node_id (Drones.get s.drones a.node_id) s
    else if a.status == "ONLINE"
    then record s {
      drones = register a.node_id (role_of a.node_type) (or_else a.location (0, 0)) now s.drones;
    }
    else s

-- _on_registry_announce
unfoldable pub on_registry_announce : Announced → ℕ → SwarmLeader → SwarmLeader
unfolding set_current_leader register Drones.get
on_registry_announce a now s =
    if contains a.capabilities "SWARM_LEAD" && not (a.node_id == s.node_id)
    then set_current_leader a.node_id (or_else a.election_term 1) now s
    else if a.node_type == "SCOUT_DRONE"
    then announce_drone a now s
    else if a.node_type == "FIREFIGHTING_DRONE"
    then announce_drone a now s
    else s

unfoldable pub ids_of : List DroneRecord → List String
ids_of [] = []
ids_of (d ∷ ds) = d.drone_id ∷ ids_of ds

-- the drones that are heard again are forgotten
unfoldable pub clear_recovered : List String → Dict ℕ → Dict ℕ
clear_recovered lost [] = []
clear_recovered lost ((drone_id, since) ∷ tracker) =
    let rest = clear_recovered lost tracker in
    if contains lost drone_id then (drone_id, since) ∷ rest else rest

abbrev note_lost : ℕ → Dict ℕ → String → Dict ℕ
note_lost now tracker drone_id =
    if is_none (Dict.get tracker drone_id) then Dict.put tracker drone_id now else tracker

-- the drones that are silent since this round are noted
unfoldable pub track_lost : ℕ → List String → Dict ℕ → Dict ℕ
track_lost now [] tracker = tracker
track_lost now (drone_id ∷ lost) tracker = track_lost now lost (note_lost now tracker drone_id)

abbrev pub lost_grace_period : ℕ
lost_grace_period = 15

abbrev pub act_if_late : ℕ → DroneRecord → Option ℕ → SwarmLeader → SwarmLeader
act_if_late now d none s = s
act_if_late now d (some since) s = if ltb (now - since) lost_grace_period then s else lose_drone d s

unfoldable pub act_on_lost : ℕ → List DroneRecord → SwarmLeader → SwarmLeader
act_on_lost now [] s = s
act_on_lost now (d ∷ lost) s =
    act_on_lost now lost (act_if_late now d (Dict.get s.lost_tracker d.drone_id) s)

-- the times on record of the drones that are silent now
abbrev pub with_lost : ℕ → SwarmLeader → SwarmLeader
with_lost now s =
    let ids = ids_of (get_lost now s.drones) in
    record s { lost_tracker = track_lost now ids (clear_recovered ids s.lost_tracker) }

-- _check_lost_drones
unfoldable pub check_lost_drones : ℕ → SwarmLeader → SwarmLeader
unfolding get_lost ids_of clear_recovered track_lost act_on_lost
check_lost_drones now s = act_on_lost now (get_lost now s.drones) (with_lost now s)
