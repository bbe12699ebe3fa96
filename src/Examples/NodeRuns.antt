-- ===== src/Examples/NodeRuns.antt =====
-- Runs of NodeRegistry and HeartbeatMonitor.
use wfc.Prelude.{
  ◌≡◌, refl, some, none, String, ℕ, ◌+◌, ◌<◌, ◌≤◌, true, List, [], ◌∷◌, ◌⊎◌, Memᴰ, contains,
}
use wfc.Dict
use wfc.Dict.{IsUnique}
use wfc.Shared.Status.{active}
use wfc.Shared.Commands.{Coord}
use wfc.Nodes.{
  NodeRecord, NodeRegistry, Announcement, new_node, get, register, heartbeat, assign_job, save,
}
use wfc.Nodes.Selection.{get_available, get_closest, distance_of, is_candidate}
use wfc.Nodes.Selection.Eligible.{get_closest_nearest}
use wfc.Nodes.Calls.{NodeCall, register_call, heartbeat_call, assign_job_call, run}
use wfc.Nodes.Status.{IsActive}
use wfc.Heartbeat.{HeartbeatMonitor}
use wfc.Heartbeat.Alternation.{IsConsistent, MonitorCall, update_call, tick_call, run-IsConsistent}
use wfc.Heartbeat.Alternation

abbrev tower : ℕ → Announcement
tower x = record {
  node_type = "leader";
  capabilities = some ("SUPPRESS" ∷ []);
  zone = some "zone-a";
  location = some (x, 0);
}

abbrev near : NodeRecord
near = record (new_node "n1" (tower 1) 0) { status = active }

abbrev far : NodeRecord
far = record (new_node "n2" (tower 9) 0) { status = active }

abbrev fleet : NodeRegistry
fleet = record { nodes = ("n2", far) ∷ ("n1", near) ∷ []; repo = none }

fleet-IsUnique : IsUnique fleet.nodes
unfolding Dict.get
fleet-IsUnique = (refl, (refl, tt))

abbrev origin : Coord
origin = (0, 0)

closest_is_near : get_closest "SUPPRESS" origin true fleet ≡ some "n1"
unfolding get_closest wfc.Dict.Select.select_values contains wfc.Nodes.Selection.sq_distance
    wfc.Prelude.least
closest_is_near = refl

get_closest_nearest_example :
    (k : String) × (best : NodeRecord) × (get fleet k ≡ some best)
    × (best.node_id ≡ "n1")
    × (is_candidate "SUPPRESS" true best ≡ true)
    × ((j : String) (r : NodeRecord)
        → get fleet j ≡ some r
        → is_candidate "SUPPRESS" true r ≡ true
        → distance_of origin best ≤ distance_of origin r)
get_closest_nearest_example =
    get_closest_nearest "SUPPRESS" origin true fleet "n1" fleet-IsUnique closest_is_near

abbrev no_nodes : NodeRegistry
no_nodes = record { nodes = []; repo = none }

abbrev joining : List NodeCall
joining =
    register_call "n1" (tower 1) 0
    ∷ heartbeat_call "n1" 5
    ∷ assign_job_call "n1" "f1"
    ∷ register_call "n1" (tower 2) 6
    ∷ []

joined-IsActive : IsActive (run joining no_nodes) "n1"
unfolding run Dict.get Dict.put register heartbeat assign_job save
joined-IsActive = (_, refl, refl)

abbrev watching : HeartbeatMonitor
watching = record {
  timeout = 10;
  registry = some fleet;
  last_seen = ("n1", 3) ∷ ("n2", 20) ∷ [];
  dead_nodes = [];
  log = [];
}

watching-IsConsistent : IsConsistent watching
unfolding contains Alternation.is_down
watching-IsConsistent = record { turns = tt; dead_is_down = λ k. refl; dead_unseen = λ k h. cc }

run-IsConsistent_example :
    IsConsistent (Alternation.run (tick_call 21 ∷ update_call "n1" 22 ∷ tick_call 40 ∷ []) watching)
run-IsConsistent_example =
    run-IsConsistent (tick_call 21 ∷ update_call "n1" 22 ∷ tick_call 40 ∷ []) watching
      watching-IsConsistent
