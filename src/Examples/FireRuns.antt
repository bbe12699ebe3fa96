-- ===== src/Examples/FireRuns.antt =====
-- Runs of FireStateStore.
use mathlib.Core.Option
use wfc.Prelude.{◌≡◌, refl, String, some, none, List, [], ◌∷◌}
use wfc.Dict
use wfc.Dict.{Dict}
use wfc.Shared.Status.{FireStatus, active, suppressed, extinguished}
use wfc.Fires.{FireRecord, FireStateStore, open_store, get}
use wfc.Fires.Histories.{
  FireCall, ignite_call, transition_call, assign_node_call, update_severity_call,
  update_leader_term_call, run,
}
use wfc.Fires.Lifecycle.{◌⟶*◌, follows_table}
use wfc.Fires.Records.{AllSound, run-AllSound, open_store-AllSound}
use wfc.Fires.Restart.{remembered, open_store-IsMirrored, restart_remembers}

-- a fire with two leaders that is put out
abbrev life : List FireCall
life =
    ignite_call "f1" "zone-a" "HIGH" "s1" (some (3, 4)) 1
    ∷ transition_call "f1" active "verified" (some "n1") (some "m1") 2
    ∷ assign_node_call "f1" (some "n2") "" 3
    ∷ update_leader_term_call "f1" 2 "" 4
    ∷ update_severity_call "f1" "LOW" "" 5
    ∷ transition_call "f1" extinguished "no such move" none none 6
    ∷ transition_call "f1" suppressed "" none none 7
    ∷ transition_call "f1" extinguished "" none none 8
    ∷ []

-- calls that would wake it
abbrev after_life : List FireCall
after_life =
    transition_call "f1" active "rekindled" (some "n3") none 9
    ∷ ignite_call "f1" "zone-a" "HIGH" "s1" none 10
    ∷ []

abbrev small : String → List String → FireStatus → FireRecord
small sensor leaders state = record {
  fire_id = "f1";
  state = state;
  zone = "zone-a";
  severity = "HIGH";
  sensor_id = sensor;
  location_coords = none;
  assigned_nodes = leaders;
  leader_term = 1;
  mission_id = none;
  created_at = 1;
  updated_at = 2;
  history = [];
}

abbrev ours : FireRecord
ours = small "s1" ("n1" ∷ "n2" ∷ []) active

abbrev put_out : FireRecord
put_out = small "s1" ("n1" ∷ []) extinguished

abbrev holding : FireRecord → FireStateStore
holding r = record { fires = ("f1", r) ∷ []; repo = none }

held : (r : FireRecord) → get (holding r) "f1" ≡ some r
unfolding Dict.get
held r = refl

follows_table_example :
    (r : FireRecord) × (get (run life (holding ours)) "f1" ≡ some r) × (active ⟶* r.state)
follows_table_example = follows_table life (holding ours) "f1" ours (held ours)

run-AllSound_example : AllSound (run life (open_store none))
run-AllSound_example = run-AllSound life (open_store none) open_store-AllSound

restart_remembers_example :
    get (open_store (run life (open_store (some []))).repo) "f1"
    ≡ Option.map remembered (get (run life (open_store (some []))) "f1")
restart_remembers_example =
    restart_remembers life (open_store (some [])) [] "f1" open_store-IsMirrored
