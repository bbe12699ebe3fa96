-- ===== src/Commander/Law/Telemetry.antt =====
-- The handlers of telemetry and elections under a law of steps.
use Prim.Native.String.{◌++◌ as join}
use wfc.Prelude.{ℕ, refl, ◌||◌, String, Option, none, some, [], ◌∷◌, ◌++◌, ◌==◌, leb, or_else}
use wfc.Shared.Status.{FireStatus}
use wfc.Shared.Commands.{Payload, text, number, payload_text, payload_number}
use wfc.Shared.Texts.{decimal}
use wfc.Fires
use wfc.Fires.{FireRecord, add_assigned_node}
use wfc.Fires.Histories.{
  transition_call, assign_node_call, update_severity_call, update_leader_term_call, run,
}
use wfc.Fires.Histories
use wfc.Nodes
use wfc.Rules.{SwarmSnapshot, telemetry_update, rekindled, election_result}
use wfc.Rules.Lifecycle.{can_rekindle}
use wfc.SwarmStatus.{update}
use wfc.Commander.{Commander, build_context}
use wfc.Commander.Telemetry.{
  telemetry_rules, evaluate_reported, handle_swarm_status, FireIntensityUpdate, raise_intensity,
  intensity_context, raise_found, handle_fire_intensity, relight, relight_found, rekindle_named,
  handle_fire_rekindled, old_leader_value, is_unable, seat, accept, elect_found, elect_named,
  handle_swarm_election,
}
use wfc.Dispatch.{Ids}
use wfc.Commander.Law.{StepLaw, stays, aside, either, found, noted, moved}

module _ {ids : Ids} (law : StepLaw ids) where
  reported : (f : Option String) (now : ℕ) (c : Commander) → law.R c (evaluate_reported ids f now c)
  reported none now c = stays law c
  reported (some f) now c = either law (f == "") c c _ (stays law c) (
      found law (Fires.get c.fires f)
        (some (build_context telemetry_update none (some telemetry_rules) c)) now c)

  pub swarm_status :
      (o : Option SwarmSnapshot) (now : ℕ) (c : Commander)
      → law.R c (handle_swarm_status ids o now c)
  unfolding handle_swarm_status
  swarm_status none now c = stays law c
  swarm_status (some snap) now c =
      law.chain c _ _
        (aside law c (record c { swarm_status = update snap c.swarm_status }) refl refl)
        (reported snap.fire_id now (record c { swarm_status = update snap c.swarm_status }))

  raised :
      (u : FireIntensityUpdate) (state : FireStatus) (now : ℕ) (c : Commander)
      → law.R c (record c { fires = raise_intensity u state now c.fires })
  unfolding run Histories.call
  raised u state now c =
      law.on_fires
        (transition_call u.fire_id state
            (join "intensity_update_to_" (join u.new_intensity (join "_from_" u.leader_id))) none
            none now
          ∷ update_severity_call u.fire_id u.new_intensity "intensity_update" now
          ∷ [])
        c

  raised_found :
      (u : FireIntensityUpdate) (o : Option FireRecord) (now : ℕ) (c : Commander)
      → law.R c (raise_found ids u o now c)
  raised_found u none now c = stays law c
  raised_found u (some fire) now c =
      let c' : Commander = record c { fires = raise_intensity u fire.state now c.fires } in
      either law (u.new_intensity == fire.severity) c c _ (stays law c) (
        law.chain c c' _ (raised u fire.state now c)
          (found law (Fires.get c'.fires u.fire_id) (some (intensity_context u c')) now c'))

  pub fire_intensity :
      (o : Option FireIntensityUpdate) (now : ℕ) (c : Commander)
      → law.R c (handle_fire_intensity ids o now c)
  unfolding handle_fire_intensity
  fire_intensity none now c = stays law c
  fire_intensity (some u) now c = raised_found u (Fires.get c.fires u.fire_id) now c

  relit :
      (f : String) (payload : Payload) (now : ℕ) (c : Commander)
      → law.R c (relight ids f payload now c)
  relit f payload now c =
      law.chain c _ _ (moved law f wfc.Shared.Status.active "rekindled_detected" now c) (
        noted law "FIRE_REKINDLED" (some f) none (some "scout_detected_hotspot") payload
          (λ c'. record (build_context rekindled none (some ("fire_dispatch" ∷ [])) c') {
            rekindled_payload = some (payload_number payload "timestamp");
          })
          f now _)

  relit_found :
      (f : String) (payload : Payload) (o : Option FireRecord) (now : ℕ) (c : Commander)
      → law.R c (relight_found ids f payload o now c)
  relit_found f payload none now c = stays law c
  relit_found f payload (some fire) now c =
      either law (can_rekindle fire.state) c _ c (relit f payload now c) (stays law c)

  relit_named :
      (f : Option String) (payload : Payload) (now : ℕ) (c : Commander)
      → law.R c (rekindle_named ids f payload now c)
  relit_named none payload now c = stays law c
  relit_named (some f) payload now c =
      either law (f == "") c c _ (stays law c) (relit_found f payload (Fires.get c.fires f) now c)

  pub fire_rekindled :
      (payload : Payload) (now : ℕ) (c : Commander)
      → law.R c (handle_fire_rekindled ids payload now c)
  unfolding handle_fire_rekindled
  fire_rekindled payload now c = relit_named (payload_text payload "fire_id") payload now c

  seated :
      (f new_leader : String) (term now : ℕ) (c : Commander)
      → law.R c (record c { fires = seat f new_leader term now c.fires })
  unfolding run Histories.call
  seated f new_leader term now c =
      let reason = join "bully_election_term_" (decimal term) in
      law.chain c _ _ (law.on_fires (assign_node_call f (some new_leader) reason now ∷ []) c) (
        law.on_upsert f
          (record c { fires = (add_assigned_node f new_leader reason now c.fires).0 }))

  termed :
      (f : String) (term now : ℕ) (c : Commander)
      → law.R c (record c {
        fires = (wfc.Fires.update_leader_term f term "election_accepted" now c.fires).0;
      })
  unfolding run Histories.call
  termed f term now c = law.on_fires (update_leader_term_call f term "election_accepted" now ∷ []) c

  accepted :
      (payload : Payload) (f new_leader : String) (term now : ℕ) (c : Commander)
      → law.R c (accept ids payload f new_leader term now c)
  accepted payload f new_leader term now c = law.chain c _ _ (seated f new_leader term now c) (
      law.chain _ _ _
        (noted law "LEADER_REPLACED" (some f) (some new_leader)
          (some (join "bully_election_term_" (decimal term)))
          (old_leader_value (payload_text payload "old_leader_id")
            ++ (("term", number term)
                ∷ ("election_type", text (or_else (payload_text payload "election_type") "BULLY"))
                ∷ []))
          (build_context election_result
            (some (record { term = term; fire_id = some f; new_leader_id = some new_leader }))
            (some ("elected_leader" ∷ [])))
          f now _)
        (termed f term now _))

  elected_found :
      (payload : Payload) (f new_leader : String) (term : ℕ) (o : Option FireRecord) (now : ℕ)
      (c : Commander)
      → law.R c (elect_found ids payload f new_leader term o now c)
  elected_found payload f new_leader term none now c = stays law c
  elected_found payload f new_leader term (some fire) now c =
      either law (leb term fire.leader_term || is_unable (Nodes.get c.registry new_leader)) c c _
        (stays law c) (accepted payload f new_leader term now c)

  elected_named :
      (payload : Payload) (f new_leader : Option String) (now : ℕ) (c : Commander)
      → law.R c (elect_named ids payload f new_leader now c)
  elected_named payload none new_leader now c = stays law c
  elected_named payload (some f) none now c = stays law c
  elected_named payload (some f) (some new_leader) now c =
      either law (f == "" || new_leader == "") c c _ (stays law c) (
        elected_found payload f new_leader (or_else (payload_number payload "term") 0)
          (Fires.get c.fires f) now c)

  pub swarm_election :
      (payload : Payload) (now : ℕ) (c : Commander)
      → law.R c (handle_swarm_election ids payload now c)
  unfolding handle_swarm_election
  swarm_election payload now c =
      elected_named payload (payload_text payload "fire_id") (payload_text payload "new_leader_id")
        now c
