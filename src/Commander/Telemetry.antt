-- ===== src/Commander/Telemetry.antt =====
-- CommanderCore._handle_swarm_status, _handle_fire_intensity, _handle_fire_rekindled and
-- _handle_swarm_election. A payload that does not validate is `none`.
use Prim.Native.String.{◌++◌ as join}
use wfc.Prelude.{
  ℕ, Bool, true, ◌||◌, String, Option, none, some, List, [], ◌∷◌, ◌++◌, ◌==◌, leb, not, or_else,
  contains, if◌then◌else◌,
}
use wfc.Shared.Status.{FireStatus, active}
use wfc.Shared.Commands.{Payload, text, number, payload_text, payload_number}
use wfc.Shared.Texts.{decimal}
use wfc.Fires
use wfc.Fires.{
  FireRecord, FireStateStore, add_assigned_node, update_severity, update_leader_term, upsert_again,
}
use wfc.Nodes
use wfc.Nodes.{NodeRecord}
use wfc.Dispatch.{Ids}
use wfc.Rules.{
  SwarmSnapshot, RuleContext, telemetry_update, intensity_update, rekindled, election_result,
}
use wfc.Rules.Lifecycle.{can_rekindle}
use wfc.SwarmStatus.{update}
use wfc.Commander.{Commander, evaluate, evaluate_found, build_context, log_event}

abbrev pub telemetry_rules : List String
telemetry_rules =
    "swarm_attrition" ∷ "resource_exhaustion" ∷ "fire_expansion" ∷ "containment_failure" ∷ []

-- `if not snap.fire_id: return`
abbrev pub evaluate_reported : Ids → Option String → ℕ → Commander → Commander
evaluate_reported ids none now c = c
evaluate_reported ids (some fire_id) now c =
    if fire_id == ""
    then c
    else evaluate_found ids (Fires.get c.fires fire_id)
        (some (build_context telemetry_update none (some telemetry_rules) c)) now c

-- _handle_swarm_status
unfoldable pub handle_swarm_status : Ids → Option SwarmSnapshot → ℕ → Commander → Commander
unfolding evaluate
handle_swarm_status ids none now c = c
handle_swarm_status ids (some snap) now c =
    evaluate_reported ids snap.fire_id now (record c { swarm_status = update snap c.swarm_status })

-- a FireIntensityUpdate, as far as the commander reads it
pub record FireIntensityUpdate : Type 0 where
  pub fire_id : String
  pub leader_id : String
  pub new_intensity : String

-- the store is asked to move the fire to the state it is in, and to take the new severity
abbrev pub raise_intensity : FireIntensityUpdate → FireStatus → ℕ → FireStateStore → FireStateStore
raise_intensity u state now s =
    let reason = join "intensity_update_to_" (join u.new_intensity (join "_from_" u.leader_id)) in
    (update_severity u.fire_id u.new_intensity "intensity_update" now
      (Fires.transition u.fire_id state reason none none now s).0).0

abbrev pub intensity_context : FireIntensityUpdate → Commander → RuleContext
intensity_context u c =
    record (build_context intensity_update none
      (some ("severity_increase" ∷ "high_severity" ∷ "fire_expansion" ∷ [])) c) {
        new_intensity = some u.new_intensity;
      }

abbrev pub raise_found : Ids → FireIntensityUpdate → Option FireRecord → ℕ → Commander → Commander
raise_found ids u none now c = c
raise_found ids u (some fire) now c =
    if u.new_intensity == fire.severity
    then c
    else let c' : Commander = record c { fires = raise_intensity u fire.state now c.fires } in
      evaluate_found ids (Fires.get c'.fires u.fire_id) (some (intensity_context u c')) now c'

-- _handle_fire_intensity
unfoldable pub handle_fire_intensity : Ids → Option FireIntensityUpdate → ℕ → Commander → Commander
unfolding evaluate
handle_fire_intensity ids none now c = c
handle_fire_intensity ids (some u) now c = raise_found ids u (Fires.get c.fires u.fire_id) now c

-- the fire burns again, the log says so, and the rules see it
abbrev pub relight : Ids → String → Payload → ℕ → Commander → Commander
relight ids fire_id payload now c =
    let c₁ : Commander = record c {
      fires = (Fires.transition fire_id active "rekindled_detected" none none now c.fires).0;
    } in
    let c₂ =
      log_event ids "FIRE_REKINDLED" (some fire_id) none (some "scout_detected_hotspot") payload now
        c₁ in
    let context : RuleContext =
      record (build_context rekindled none (some ("fire_dispatch" ∷ [])) c₂) {
        rekindled_payload = some (payload_number payload "timestamp");
      } in
    evaluate_found ids (Fires.get c₂.fires fire_id) (some context) now c₂

abbrev pub relight_found : Ids → String → Payload → Option FireRecord → ℕ → Commander → Commander
relight_found ids fire_id payload none now c = c
relight_found ids fire_id payload (some fire) now c =
    if can_rekindle fire.state then relight ids fire_id payload now c else c

abbrev pub rekindle_named : Ids → Option String → Payload → ℕ → Commander → Commander
rekindle_named ids none payload now c = c
rekindle_named ids (some fire_id) payload now c =
    if fire_id == "" then c else relight_found ids fire_id payload (Fires.get c.fires fire_id) now c

-- _handle_fire_rekindled
unfoldable pub handle_fire_rekindled : Ids → Payload → ℕ → Commander → Commander
unfolding evaluate
handle_fire_rekindled ids payload now c =
    rekindle_named ids (payload_text payload "fire_id") payload now c

abbrev pub old_leader_value : Option String → Payload
old_leader_value none = []
old_leader_value (some old_leader) = ("old_leader", text old_leader) ∷ []

-- `rec is None or "SWARM_LEAD" not in rec.capabilities`
abbrev pub is_unable : Option NodeRecord → Bool
is_unable none = true
is_unable (some rec) = not (contains rec.capabilities "SWARM_LEAD")

-- the new leader is added, and the row written once more
abbrev pub seat : String → String → ℕ → ℕ → FireStateStore → FireStateStore
seat fire_id new_leader term now s =
    upsert_again fire_id
      (add_assigned_node fire_id new_leader (join "bully_election_term_" (decimal term)) now s).0

-- what follows when an election is accepted
abbrev pub accept : Ids → Payload → String → String → ℕ → ℕ → Commander → Commander
accept ids payload fire_id new_leader term now c =
    let c₁ : Commander = record c { fires = seat fire_id new_leader term now c.fires } in
    let c₂ =
      log_event ids "LEADER_REPLACED" (some fire_id) (some new_leader)
        (some (join "bully_election_term_" (decimal term)))
        (old_leader_value (payload_text payload "old_leader_id")
          ++ (("term", number term)
              ∷ ("election_type", text (or_else (payload_text payload "election_type") "BULLY"))
              ∷ []))
        now c₁ in
    let context =
      build_context election_result
        (some (record { term = term; fire_id = some fire_id; new_leader_id = some new_leader }))
        (some ("elected_leader" ∷ [])) c₂ in
    let c₃ = evaluate_found ids (Fires.get c₂.fires fire_id) (some context) now c₂ in
    record c₃ { fires = (update_leader_term fire_id term "election_accepted" now c₃.fires).0 }

abbrev pub elect_found :
    Ids → Payload → String → String → ℕ → Option FireRecord → ℕ → Commander → Commander
elect_found ids payload fire_id new_leader term none now c = c
elect_found ids payload fire_id new_leader term (some fire) now c =
    if leb term fire.leader_term || is_unable (Nodes.get c.registry new_leader)
    then c
    else accept ids payload fire_id new_leader term now c

abbrev pub elect_named : Ids → Payload → Option String → Option String → ℕ → Commander → Commander
elect_named ids payload (some fire_id) (some new_leader) now c =
    if fire_id == "" || new_leader == ""
    then c
    else elect_found ids payload fire_id new_leader (or_else (payload_number payload "term") 0)
        (Fires.get c.fires fire_id) now c
elect_named ids payload _ _ now c = c

-- _handle_swarm_election
unfoldable pub handle_swarm_election : Ids → Payload → ℕ → Commander → Commander
unfolding evaluate
handle_swarm_election ids payload now c =
    elect_named ids payload (payload_text payload "fire_id") (payload_text payload "new_leader_id")
      now c
