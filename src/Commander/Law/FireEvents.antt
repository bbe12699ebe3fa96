-- ===== src/Commander/Law/FireEvents.antt =====
-- The handlers of fire events under a law of steps.
use wfc.Prelude.{
  ℕ, refl, Bool, true, false, String, Option, none, some, List, [], ◌∷◌, ◌==◌, is_empty, contains,
  if◌then◌else◌,
}
use wfc.Shared.Status.{FireStatus, active, contained, suppressed}
use wfc.Shared.Commands.{text, texts}
use wfc.Fires
use wfc.Fires.{FireRecord, assigned_node}
use wfc.Fires.Histories.{ignite_call, transition_call, run}
use wfc.Fires.Histories
use wfc.Fires.Sync.{get_active}
use wfc.Missions.{MissionRecord, MissionStore, get_for_fire}
use wfc.Nodes.Selection.{get_available}
use wfc.Rules.{node_available, new_fire, manual}
use wfc.Commander.{FireEvent, Commander, evaluate, build_context, log_event}
use wfc.Commander.FireEvents.{
  evaluate_unassigned, on_node_became_available, keep_event, light, open_mission, assign_mission,
  on_detected, note_move, on_contained, release_leader, complete_mission, on_suppressed,
  handle_fire_event,
}
use wfc.Dispatch.{Ids}
use wfc.Commander.Law.{StepLaw, stays, aside, either, noted, moved}

module _ {ids : Ids} (law : StepLaw ids) where
  unassigned :
      (fires : List FireRecord) (now : ℕ) (c : Commander)
      → law.R c (evaluate_unassigned ids fires now c)
  unfolding evaluate_unassigned
  unassigned [] now c = stays law c
  unassigned (fire ∷ fires) now c =
      let context =
        build_context node_available none (some ("fire_dispatch" ∷ "no_responders" ∷ [])) c in
      let c' = if is_empty fire.assigned_nodes then evaluate ids fire (some context) now c else c in
      law.chain c c' _
        (either law (is_empty fire.assigned_nodes) c _ c (law.on_evaluate fire (some context) now c)
          (stays law c))
        (unassigned fires now c')

  pub available :
      (node_id : String) (capabilities : List String) (now : ℕ) (c : Commander)
      → law.R c (on_node_became_available ids node_id capabilities now c)
  unfolding on_node_became_available
  available node_id capabilities now c =
      let payload = ("capabilities", texts capabilities) ∷ [] in
      let c' =
        log_event ids "NODE_BECAME_AVAILABLE" none (some node_id) (some "node_became_active")
          payload now c in
      either law (contains capabilities "SWARM_LEAD") c
        (evaluate_unassigned ids (get_active c'.fires) now c') c
        (law.chain c c' _
          (law.on_log "NODE_BECAME_AVAILABLE" none (some node_id) (some "node_became_active")
            payload now c)
          (unassigned (get_active c'.fires) now c'))
        (stays law c)

  lit : (event : FireEvent) (now : ℕ) (c : Commander) → law.R c (light event now c)
  unfolding run Histories.call
  lit event now c =
      let p = event.payload in
      law.on_fires
        (ignite_call p.fire_id p.zone p.severity p.sensor_id p.location_coords now
          ∷ transition_call p.fire_id active "response_dispatching" none none now
          ∷ [])
        c

  opened : (fire_id : String) (now : ℕ) (c : Commander) → law.R c (open_mission ids fire_id now c).0
  opened fire_id now c = law.chain c _ _ (law.on_draw c) (aside law _ _ refl refl)

  unless_missions :
      (b : Bool) (m : MissionStore) (c : Commander)
      → law.R c (if b then c else record c { missions = m })
  unless_missions true m c = stays law c
  unless_missions false m c = aside law c _ refl refl

  assigned_R :
      (mission : MissionRecord) (now : ℕ) (c : Commander) → law.R c (assign_mission mission now c)
  assigned_R mission now c =
      unless_missions (is_empty (get_available "SWARM_LEAD" c.registry))
        (wfc.Missions.transition mission.mission_id wfc.Shared.Status.assigned
          "swarm_leader_dispatched" none now c.missions).0
        c

  detected : (event : FireEvent) (now : ℕ) (c : Commander) → law.R c (on_detected ids event now c)
  unfolding on_detected
  detected event now c =
      let p = event.payload in
      let c₀ = light event now (keep_event event c) in
      let (c₁, mission) = open_mission ids p.fire_id now c₀ in
      law.chain c (keep_event event c) _ (aside law c _ refl refl) (
        law.chain _ c₀ _ (lit event now (keep_event event c)) (
          law.chain c₀ c₁ _ (opened p.fire_id now c₀) (
            law.chain c₁ _ _
              (noted law "FIRE_DETECTED" (some p.fire_id) none none
                (("zone", text p.zone)
                  ∷ ("severity", text p.severity)
                  ∷ ("sensor_id", text p.sensor_id)
                  ∷ [])
                (build_context new_fire none none) p.fire_id now c₁)
              (assigned_R mission now _))))

  noted_move :
      (event : FireEvent) (state : FireStatus) (reason event_type : String) (now : ℕ)
      (c : Commander)
      → law.R c (note_move ids event state reason event_type now c)
  noted_move event state reason event_type now c =
      let f = event.payload.fire_id in
      law.chain c _ _ (moved law f state reason now c)
        (noted law event_type (some f) none none [] (build_context manual none none) f now _)

  held : (event : FireEvent) (now : ℕ) (c : Commander) → law.R c (on_contained ids event now c)
  unfolding on_contained
  held event now c = go (Fires.get c.fires event.payload.fire_id)
    where
      go :
          (o : Option FireRecord)
          → law.R c (elim o as (λ _. Commander) [
            | none ↦ c
            | some fire ↦
                note_move ids event contained "contained_event" "FIRE_CONTAINED" now
                  (keep_event event c)
          ])
      go none = stays law c
      go (some fire) =
          law.chain c (keep_event event c) _ (aside law c _ refl refl)
            (noted_move event contained "contained_event" "FIRE_CONTAINED" now (keep_event event c))

  released : (o : Option String) (c : Commander) → law.R c (release_leader o c)
  released none c = stays law c
  released (some node_id) c = go (node_id == "")
    where
      go :
          (b : Bool)
          → law.R c
              (if b then c else record c { registry = wfc.Nodes.release_job node_id c.registry })
      go true = stays law c
      go false = aside law c _ refl refl

  completed_R :
      (o : Option MissionRecord) (now : ℕ) (c : Commander) → law.R c (complete_mission o now c)
  completed_R none now c = stays law c
  completed_R (some mission) now c = aside law c _ refl refl

  put_out : (event : FireEvent) (now : ℕ) (c : Commander) → law.R c (on_suppressed ids event now c)
  unfolding on_suppressed
  put_out event now c = go (Fires.get c.fires event.payload.fire_id)
    where
      after : FireRecord → Commander
      after fire =
          note_move ids event suppressed "suppressed_event" "FIRE_SUPPRESSED" now
            (release_leader (assigned_node fire) (keep_event event c))

      go :
          (o : Option FireRecord)
          → law.R c (elim o as (λ _. Commander) [
            | none ↦ c
            | some fire ↦
                complete_mission
                  (get_for_fire (after fire).missions event.payload.fire_id)
                  now
                  (after fire)
          ])
      go none = stays law c
      go (some fire) =
          let c₁ = keep_event event c in
          let c₂ = release_leader (assigned_node fire) c₁ in
          law.chain c c₁ _ (aside law c _ refl refl) (
            law.chain c₁ c₂ _ (released (assigned_node fire) c₁) (
              law.chain c₂ (after fire) _
                (noted_move event suppressed "suppressed_event" "FIRE_SUPPRESSED" now c₂)
                (completed_R (get_for_fire (after fire).missions event.payload.fire_id) now
                  (after fire))))

  pub fire_event :
      (event : FireEvent) (now : ℕ) (c : Commander) → law.R c (handle_fire_event ids event now c)
  unfolding handle_fire_event
  fire_event event now c =
      either law (event.event_type == "FIRE_DETECTED") c _ _ (detected event now c) (
        either law (event.event_type == "FIRE_CONTAINED") c _ _ (held event now c) (
          either law (event.event_type == "FIRE_SUPPRESSED") c _ _ (put_out event now c)
            (stays law c)))
