-- ===== src/Examples/SwarmRuns.antt =====
-- Runs of SwarmLeaderNode.
use wfc.Prelude.{
  inr, ℕ, ◌≡◌, ◌≤◌, refl, true, false, String, Option, none, some, List, [], ◌∷◌, Memᴰ, IsDistinct,
}
use wfc.Dict
use wfc.Shared.Commands.{Coord}
use wfc.Tracker.{failed}
use wfc.Election.{fresh_state}
use wfc.Drones.{DroneRecord, new_drone, get_all}
use wfc.Tactics.{DroneAssignment, command_of, dispatch_assignments}
use wfc.Tactics.Dispatching.{IsSent, targets, dispatch_serves}
use wfc.SwarmLeader.{SwarmLeader, execute_command}
use wfc.SwarmLeader.Orders.{IsRecalled, reinforce_always_fails, stand_down_recalls}
use wfc.FieldNode.{CommandMessage}
use wfc.FieldNode.Delivery.{redeliver}
use wfc.FieldNode.Tracked.{IsIn, deliver}
use wfc.Examples.Uuids.{plain_ids}
use wfc.Examples.FieldRuns.{new_node, tracker, is_issued}

-- the drone returns, and is asked to go on, which is less urgent
abbrev home : DroneAssignment
home = record {
  drone_id = "d1";
  task = "RETURNING";
  target_pos = none;
  severity = none;
  priority = 9;
}

abbrev go_on : DroneAssignment
go_on = record home { task = "SCOUTING"; target_pos = some (3, 4); priority = 8 }

dispatch_serves_example :
    (b : DroneAssignment) × Memᴰ b (home ∷ go_on ∷ [])
    × (b.drone_id ≡ "d1")
    × (8 ≤ b.priority)
    × IsSent (command_of b) (dispatch_assignments (home ∷ go_on ∷ []))
    × IsDistinct (targets (dispatch_assignments (home ∷ go_on ∷ [])))
dispatch_serves_example = dispatch_serves (home ∷ go_on ∷ []) go_on (Memᴰ.tail (Memᴰ.head refl))

abbrev scout : DroneRecord
scout = new_drone "d1" "SCOUT" (1, 2) 3

abbrev pub leader : SwarmLeader
leader = record {
  node_id = "n1";
  current_fire_id = some "f1";
  current_fire_pos = some (3, 4);
  aggregator_fire = some "f1";
  aggregator_severity = "HIGH";
  drones = record { drones = ("d1", scout) ∷ []; stale_threshold = 5 };
  lost_tracker = [];
  current_leader_id = none;
  leader_last_seen = none;
  election_state = fresh_state 0;
  sent = [];
  drawn = 0;
}

its_scout : Memᴰ scout (get_all leader.drones)
unfolding get_all Dict.values
its_scout = Memᴰ.head refl

-- every drone on its fire
abbrev pub at_centre : Coord → String → Option ℕ → ℕ → ℕ → Coord
at_centre pos severity perimeter_m number i = pos

stand_down_recalls_example :
    IsRecalled leader scout (execute_command at_centre plain_ids "ABORT_MISSION" [] "t1" leader)
stand_down_recalls_example =
    stand_down_recalls at_centre plain_ids "ABORT_MISSION" [] "t1" leader scout (inr refl) its_scout

abbrev reinforce : CommandMessage
reinforce = record { trace_id = some "t1"; command_type = some "REINFORCE_FIRE"; payload = [] }

reinforce_always_fails_example : IsIn "t1" failed (
    deliver
      (redeliver
        (execute_command at_centre plain_ids)
        reinforce
        (2 ∷ 3 ∷ [])
        (new_node leader)).acks
      tracker)
unfolding wfc.Prelude.contains
reinforce_always_fails_example =
    reinforce_always_fails at_centre plain_ids [] (some "t1") "t1" 2 (3 ∷ []) (new_node leader)
      tracker refl refl is_issued refl refl refl
