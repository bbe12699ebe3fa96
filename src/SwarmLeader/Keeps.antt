-- ===== src/SwarmLeader/Keeps.antt =====
-- The work of a leader that leaves it with the leader that it knows of.
use wfc.Prelude.{
  ℕ, ◌≡◌, refl, ◌∙◌, Bool, true, false, String, Option, none, some, List, [], ◌∷◌, ◌==◌, contains,
  if◌then◌else◌,
}
use wfc.Dict
use wfc.Shared.Commands.{Coord, Payload, payload_text}
use wfc.Dispatch.{Ids}
use wfc.Drones
use wfc.Drones.{DroneTelemetry, DroneRecord}
use wfc.SwarmLeader.{
  SwarmLeader, execute_command, cmd_respond_to_fire, cmd_contain_fire, cmd_stand_down, take_fire,
  send_replacement, first_fit, replace_lost_drone, is_at_work, drop_drone, replace_at_work,
}
use wfc.SwarmLeader.Roll.{
  Announced, lose_found, announce_drone, on_registry_announce, act_if_late, act_on_lost,
}

abbrev pub KeepsLeader : SwarmLeader → SwarmLeader → Type 0
KeepsLeader s s' = s'.current_leader_id ≡ s.current_leader_id

pub either-KeepsLeader :
    (b : Bool) (s x y : SwarmLeader)
    → KeepsLeader s x
    → KeepsLeader s y
    → KeepsLeader s (if b then x else y)
either-KeepsLeader true s x y p q = p
either-KeepsLeader false s x y p q = q

-- the same of a command, which also says whether it came to an end
either-KeepsOne :
    (b : Bool) (s : SwarmLeader) (x y : SwarmLeader × Bool)
    → KeepsLeader s x.0
    → KeepsLeader s y.0
    → KeepsLeader s (if b then x else y).0
either-KeepsOne true s x y p q = p
either-KeepsOne false s x y p q = q

replace_lost_drone-KeepsLeader :
    (role task : String) (o : Option Coord) (s : SwarmLeader)
    → KeepsLeader s (replace_lost_drone role task o s)
unfolding replace_lost_drone
replace_lost_drone-KeepsLeader role task none s = refl
replace_lost_drone-KeepsLeader role task (some pos) s =
    sent (first_fit role (Drones.get_idle s.drones))
  where
    sent : (o : Option DroneRecord) → KeepsLeader s (send_replacement task pos o s)
    sent none = refl
    sent (some d) = refl

replace_at_work-KeepsLeader :
    (o : Option DroneTelemetry) (role : String) (s : SwarmLeader)
    → KeepsLeader s (replace_at_work o role s)
replace_at_work-KeepsLeader none role s = refl
replace_at_work-KeepsLeader (some telem) role s =
    either-KeepsLeader (is_at_work telem.task) s _ s
      (replace_lost_drone-KeepsLeader role telem.task s.current_fire_pos s) refl

announce_drone-KeepsLeader :
    (a : Announced) (now : ℕ) (s : SwarmLeader) → KeepsLeader s (announce_drone a now s)
announce_drone-KeepsLeader a now s =
    either-KeepsLeader (a.status == "OFFLINE") s _ _ (lost (Drones.get s.drones a.node_id))
      (either-KeepsLeader (a.status == "ONLINE") s _ s refl refl)
  where
    lost : (o : Option DroneRecord) → KeepsLeader s (lose_found a.node_id o s)
    lost none = refl
    lost (some d) = replace_at_work-KeepsLeader d.last_telemetry d.role (drop_drone a.node_id s)

act_if_late-KeepsLeader :
    (now : ℕ) (d : DroneRecord) (o : Option ℕ) (s : SwarmLeader)
    → KeepsLeader s (act_if_late now d o s)
act_if_late-KeepsLeader now d none s = refl
act_if_late-KeepsLeader now d (some since) s =
    either-KeepsLeader _ s s _ refl
      (replace_at_work-KeepsLeader d.last_telemetry d.role (drop_drone d.drone_id s))

pub act_on_lost-KeepsLeader :
    (now : ℕ) (lost : List DroneRecord) (s : SwarmLeader) → KeepsLeader s (act_on_lost now lost s)
unfolding act_on_lost
act_on_lost-KeepsLeader now [] s = refl
act_on_lost-KeepsLeader now (d ∷ lost) s =
    act_on_lost-KeepsLeader now lost _
    ∙ act_if_late-KeepsLeader now d (Dict.get s.lost_tracker d.drone_id) s

pub registry_announce-KeepsLeader :
    (a : Announced) (now : ℕ) (s : SwarmLeader)
    → contains a.capabilities "SWARM_LEAD" ≡ false
    → KeepsLeader s (on_registry_announce a now s)
unfolding on_registry_announce
registry_announce-KeepsLeader a now s h = rw h (
    either-KeepsLeader (a.node_type == "SCOUT_DRONE") s (announce_drone a now s) _
      (announce_drone-KeepsLeader a now s)
      (either-KeepsLeader (a.node_type == "FIREFIGHTING_DRONE") s (announce_drone a now s) s
        (announce_drone-KeepsLeader a now s) refl))

module _ (ring : Coord → String → Option ℕ → ℕ → ℕ → Coord) (ids : Ids) where
  pub execute_command-KeepsLeader :
      (command_type : String) (p : Payload) (trace_id : String) (s : SwarmLeader)
      → KeepsLeader s (execute_command ring ids command_type p trace_id s).0
  unfolding execute_command cmd_respond_to_fire cmd_contain_fire cmd_stand_down
  execute_command-KeepsLeader command_type p trace_id s =
      either-KeepsOne (command_type == "RESPOND_TO_FIRE") s _ _ refl (
        either-KeepsOne (command_type == "CONTAIN_FIRE") s _ _ refl (
          either-KeepsOne (command_type == "STAND_DOWN") s _ _ refl (
            either-KeepsOne (command_type == "REINFORCE_FIRE") s _ _ refl (
              either-KeepsOne (command_type == "ABORT_MISSION") s _ _ refl (
                either-KeepsOne (command_type == "REASSIGN_LEADER") s _ _
                  (taken (payload_text p "fire_id"))
                  (either-KeepsOne (command_type == "CONFIRM_LEADERSHIP") s _ _
                    (taken (payload_text p "fire_id")) refl))))))
    where
      taken : (o : Option String) → KeepsLeader s (take_fire o s)
      taken none = refl
      taken (some fire_id) = either-KeepsLeader (fire_id == "") s s _ refl refl
