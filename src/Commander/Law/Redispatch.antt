-- ===== src/Commander/Law/Redispatch.antt =====
-- Redispatch, timeouts and lost leaders under a law of steps.
use Prim.Native.String.{◌++◌ as join}
use wfc.Prelude.{
  ℕ, ◌-◌, refl, ◌&&◌, String, Option, none, some, List, [], ◌∷◌, ◌==◌, ltb, is_empty, if◌then◌else◌,
}
use wfc.Shared.Commands.{text, payload_text}
use wfc.Fires
use wfc.Fires.{FireRecord, assign_node}
use wfc.Fires.Histories.{assign_node_call, run}
use wfc.Fires.Histories
use wfc.Missions.{get_for_fire}
use wfc.Nodes.{release_job}
use wfc.Tracker.{TrackRecord}
use wfc.Dispatch.{Ids}
use wfc.Rules.{redispatch}
use wfc.Commander.{Commander, evaluate, evaluate_found, build_context, log_event}
use wfc.Commander.Acks.{track, named}
use wfc.Commander.Redispatch.{
  is_finished, is_active_fire, second_pass, assign_found, leader_of, reassign, redispatch_fire,
  command_ack_timeout_seconds, issued_at, fire_is_finished, give_up, node_or_timeout, time_out,
  check_command, tracked, check_commands, issued_traces, check_command_timeouts, pause, lose_leader,
}
use wfc.Commander.Law.{StepLaw, stays, aside, either, found}
use wfc.Commander.Law.Acks.{freed}

module _ {ids : Ids} (law : StepLaw ids) where
  passed : (o : Option FireRecord) (now : ℕ) (c : Commander) → law.R c (second_pass ids o now c)
  passed none now c = stays law c
  passed (some fire) now c =
      either law (is_active_fire fire.state && is_empty fire.assigned_nodes) c _ c
        (law.on_evaluate fire (some (build_context redispatch none none c)) now c) (stays law c)

  assigned_found :
      (f : String) (o : Option String) (now : ℕ) (c : Commander) → law.R c (assign_found f o now c)
  assigned_found f none now c = stays law c
  assigned_found f (some n) now c =
      either law (n == "") c c
        (record c {
          missions =
              wfc.Commander.Redispatch.assign_to n (get_for_fire c.missions f) now c.missions;
        })
        (stays law c) (aside law c _ refl refl)

  cleared :
      (f reason : String) (now : ℕ) (c : Commander)
      → law.R c (record c { fires = (assign_node f none reason now c.fires).0 })
  unfolding run Histories.call
  cleared f reason now c = law.on_fires (assign_node_call f none reason now ∷ []) c

  reassigned : (f dead : String) (now : ℕ) (c : Commander) → law.R c (reassign ids f dead now c)
  reassigned f dead now c =
      let reason = join "leader_" (join dead "_offline") in
      let c₁ =
        log_event ids "LEADER_DIED" (some f) (some dead) (some "heartbeat_timeout") [] now c in
      let c₂ = log_event ids "FIRE_REDISPATCHED" (some f) (some dead) (some reason) [] now c₁ in
      let c₃ : Commander = record c₂ { fires = (assign_node f none reason now c₂.fires).0 } in
      let c₄ = evaluate_found ids (Fires.get c₃.fires f) none now c₃ in
      let c₅ = second_pass ids (Fires.get c₄.fires f) now c₄ in
      law.chain c c₁ _
        (law.on_log "LEADER_DIED" (some f) (some dead) (some "heartbeat_timeout") [] now c)
        (law.chain c₁ c₂ _
          (law.on_log "FIRE_REDISPATCHED" (some f) (some dead) (some reason) [] now c₁)
          (law.chain c₂ c₃ _ (cleared f reason now c₂) (
            law.chain c₃ c₄ _ (found law (Fires.get c₃.fires f) none now c₃) (
              law.chain c₄ c₅ _ (passed (Fires.get c₄.fires f) now c₄)
                (assigned_found f (leader_of (Fires.get c₅.fires f)) now c₅)))))

  pub redispatched :
      (f dead : String) (now : ℕ) (c : Commander) → law.R c (redispatch_fire ids f dead now c)
  unfolding redispatch_fire
  redispatched f dead now c = go (Fires.get c.fires f)
    where
      go :
          (o : Option FireRecord)
          → law.R c (elim o as (λ _. Commander) [
            | none ↦ c
            | some fire ↦ if is_finished fire.state then c else reassign ids f dead now c
          ])
      go none = stays law c
      go (some fire) =
          either law (is_finished fire.state) c c _ (stays law c) (reassigned f dead now c)

  gave_up : (trace_id n reason : String) (c : Commander) → law.R c (give_up trace_id n reason c)
  gave_up trace_id n reason c =
      law.chain c _ _ (law.on_track trace_id "COMMAND_ACK_FAILED" (("reason", text reason) ∷ []) c)
        (freed law (named (some n))
          (track trace_id "COMMAND_ACK_FAILED" (("reason", text reason) ∷ []) c).0)

  timed_out :
      (trace_id : String) (rec : TrackRecord) (f : Option String) (now : ℕ) (c : Commander)
      → law.R c (time_out ids trace_id rec f now c)
  timed_out trace_id rec none now c =
      gave_up trace_id rec.command.command.target_node "ack_timeout" c
  timed_out trace_id rec (some f) now c =
      let n = rec.command.command.target_node in
      either law (fire_is_finished (Fires.get c.fires f)) c _ _
        (gave_up trace_id n "fire_terminal" c)
        (law.chain c _ _ (gave_up trace_id n "ack_timeout" c)
          (redispatched f (node_or_timeout n) now (give_up trace_id n "ack_timeout" c)))

  checked :
      (trace_id : String) (now : ℕ) (o : Option TrackRecord) (c : Commander)
      → law.R c (check_command ids trace_id now o c)
  checked trace_id now none c = stays law c
  checked trace_id now (some rec) c =
      either law (ltb (now - issued_at rec.history now) command_ack_timeout_seconds) c c _
        (stays law c)
        (timed_out trace_id rec (named (payload_text rec.command.command.payload "fire_id")) now c)

  checked_all :
      (traces : List String) (now : ℕ) (c : Commander) → law.R c (check_commands ids traces now c)
  unfolding check_commands
  checked_all [] now c = stays law c
  checked_all (trace_id ∷ traces) now c =
      law.chain c _ _ (checked trace_id now (tracked trace_id c) c)
        (checked_all traces now (check_command ids trace_id now (tracked trace_id c) c))

  pub timeouts_checked : (now : ℕ) (c : Commander) → law.R c (check_command_timeouts ids now c)
  unfolding check_command_timeouts
  timeouts_checked now c = checked_all (issued_traces c.gate.desk.tracker) now c

  pub leader_lost : (n f : String) (now : ℕ) (c : Commander) → law.R c (lose_leader ids n f now c)
  unfolding lose_leader
  leader_lost n f now c =
      law.chain c _ _
        (aside law c
          (record c {
            registry = release_job n c.registry;
            missions = pause n (get_for_fire c.missions f) now c.missions;
          })
          refl refl)
        (redispatched f n now _)
