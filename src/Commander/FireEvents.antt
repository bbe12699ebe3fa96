-- ===== src/Commander/FireEvents.antt =====
-- CommanderCore._on_node_became_available and _handle_fire_event. An evaluation of a fire that the store
-- does not have raises in the source, which cannot happen where the store has just been asked for it.
use wfc.Prelude.{
  ℕ, suc, String, Option, none, some, List, [], ◌∷◌, ◌++◌, ◌==◌, contains, is_empty, if◌then◌else◌,
}
use wfc.Shared.Status.{active, contained, suppressed, assigned, completed}
use wfc.Shared.Commands.{text, texts}
use wfc.Fires
use wfc.Fires.{FireRecord, ignite, assigned_node}
use wfc.Fires.Sync.{get_active}
use wfc.Missions
use wfc.Missions.{MissionRecord, create, get_for_fire}
use wfc.Nodes.{release_job}
use wfc.Nodes.Selection.{get_available}
use wfc.Dispatch.{Ids}
use wfc.Rules.{new_fire, node_available, manual}
use wfc.Commander.{FireEvent, Commander, evaluate, evaluate_found, build_context, log_event}

-- the loop of _on_node_became_available over the active fires that nobody is assigned to
unfoldable pub evaluate_unassigned : Ids → List FireRecord → ℕ → Commander → Commander
unfolding evaluate
evaluate_unassigned ids [] now c = c
evaluate_unassigned ids (fire ∷ fires) now c =
    let context =
      build_context node_available none (some ("fire_dispatch" ∷ "no_responders" ∷ [])) c in
    evaluate_unassigned ids fires now
      (if is_empty fire.assigned_nodes then evaluate ids fire (some context) now c else c)

-- _on_node_became_available
unfoldable pub on_node_became_available : Ids → String → List String → ℕ → Commander → Commander
unfolding evaluate_unassigned get_active
on_node_became_available ids node_id capabilities now c =
    if contains capabilities "SWARM_LEAD"
    then (let c' =
          log_event ids "NODE_BECAME_AVAILABLE" none (some node_id) (some "node_became_active")
            (("capabilities", texts capabilities) ∷ []) now c in
        evaluate_unassigned ids (get_active c'.fires) now c')
    else c

-- self._fire_events.add(event)
abbrev pub keep_event : FireEvent → Commander → Commander
keep_event event c = record c { fire_events = c.fire_events ++ event ∷ [] }

-- ignite, and transition to ACTIVE
abbrev pub light : FireEvent → ℕ → Commander → Commander
light event now c =
    let p = event.payload in
    let s = (ignite p.fire_id p.zone p.severity p.sensor_id p.location_coords now c.fires).0 in
    record c {
      fires = (Fires.transition p.fire_id active "response_dispatching" none none now s).0;
    }

-- missions.create, with the id of the next uuid
abbrev pub open_mission : Ids → String → ℕ → Commander → Commander × MissionRecord
open_mission ids fire_id now c =
    let n = c.gate.desk.drawn in
    let (missions, mission) = create (ids.uuid4 n) fire_id now c.missions in
    (
      record c {
        missions = missions;
        gate = record c.gate { desk = record c.gate.desk { drawn = suc n } };
      },
      mission,
    )

-- `if self._registry.get_available(SWARM_LEAD)`
abbrev pub assign_mission : MissionRecord → ℕ → Commander → Commander
assign_mission mission now c =
    if is_empty (get_available "SWARM_LEAD" c.registry) then c else record c {
      missions =
          (Missions.transition mission.mission_id assigned "swarm_leader_dispatched" none now
            c.missions).0;
    }

unfoldable pub on_detected : Ids → FireEvent → ℕ → Commander → Commander
unfolding evaluate
on_detected ids event now c =
    let p = event.payload in
    let (c₁, mission) = open_mission ids p.fire_id now (light event now (keep_event event c)) in
    let c₂ =
      log_event ids "FIRE_DETECTED" (some p.fire_id) none none
        (("zone", text p.zone)
          ∷ ("severity", text p.severity)
          ∷ ("sensor_id", text p.sensor_id)
          ∷ [])
        now c₁ in
    let context = build_context new_fire none none c₂ in
    assign_mission mission now
      (evaluate_found ids (Fires.get c₂.fires p.fire_id) (some context) now c₂)

-- the fire moves, the log says so, and the rules see it
abbrev pub note_move :
    Ids → FireEvent → wfc.Shared.Status.FireStatus → String → String → ℕ → Commander → Commander
note_move ids event state reason event_type now c =
    let f = event.payload.fire_id in
    let c₁ : Commander = record c {
      fires = (Fires.transition f state reason none none now c.fires).0;
    } in
    let c₂ = log_event ids event_type (some f) none none [] now c₁ in
    evaluate_found ids (Fires.get c₂.fires f) (some (build_context manual none none c₂)) now c₂

unfoldable pub on_contained : Ids → FireEvent → ℕ → Commander → Commander
unfolding evaluate
on_contained ids event now c = elim (Fires.get c.fires event.payload.fire_id) [
  | none ↦ c
  | some fire ↦
      note_move ids event contained "contained_event" "FIRE_CONTAINED" now (keep_event event c)
]

-- `if fire.assigned_node: self._registry.release_job(fire.assigned_node)`
abbrev pub release_leader : Option String → Commander → Commander
release_leader none c = c
release_leader (some node_id) c =
    if node_id == "" then c else record c { registry = release_job node_id c.registry }

abbrev pub complete_mission : Option MissionRecord → ℕ → Commander → Commander
complete_mission none now c = c
complete_mission (some mission) now c = record c {
  missions =
      (Missions.transition mission.mission_id completed "fire_suppressed" none now c.missions).0;
}

unfoldable pub on_suppressed : Ids → FireEvent → ℕ → Commander → Commander
unfolding evaluate get_for_fire
on_suppressed ids event now c = elim (Fires.get c.fires event.payload.fire_id) [
  | none ↦ c
  | some fire ↦
      let c' =
        note_move ids event suppressed "suppressed_event" "FIRE_SUPPRESSED" now
          (release_leader (assigned_node fire) (keep_event event c)) in
      complete_mission (get_for_fire c'.missions event.payload.fire_id) now c'
]

-- _handle_fire_event
unfoldable pub handle_fire_event : Ids → FireEvent → ℕ → Commander → Commander
unfolding on_detected on_contained on_suppressed
handle_fire_event ids event now c =
    if event.event_type == "FIRE_DETECTED"
    then on_detected ids event now c
    else if event.event_type == "FIRE_CONTAINED"
    then on_contained ids event now c
    else if event.event_type == "FIRE_SUPPRESSED"
    then on_suppressed ids event now c
    else c
