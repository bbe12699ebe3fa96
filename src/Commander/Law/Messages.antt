-- ===== src/Commander/Law/Messages.antt =====
-- handle_message, and any sequence of a commander's calls, under a law of steps.
use wfc.Prelude.{
  ℕ, ◌≡◌, refl, Bool, true, false, String, Option, none, some, List, [], ◌∷◌, ◌==◌, starts_with,
  if◌then◌else◌,
}
use wfc.Shared.Commands.{Payload}
use wfc.Missions.{evict_terminal}
use wfc.Dispatch.{Ids}
use wfc.Approval
use wfc.Approval.{Response, expire_stale}
use wfc.Lease
use wfc.Lease.{on_lease_message}
use wfc.Commander.{FireEvent, Commander}
use wfc.Commander.FireEvents.{on_node_became_available}
use wfc.Commander.Redispatch.{expire_round, lose_leader}
use wfc.Commander.Sync.{
  apply_snapshot, publish_snapshot_now, deactivate, activate, claim_lease, claim_if,
}
use wfc.Commander.Routing.{
  Formats, response_of, fire_event_read, handle_operational, handle_dict, handle_fields,
  handle_message,
}
use wfc.Commander.Law.{StepLaw, stays, aside, either}
use wfc.Commander.Law.FireEvents.{available, fire_event}
use wfc.Commander.Law.Telemetry.{swarm_status, fire_intensity, fire_rekindled, swarm_election}
use wfc.Commander.Law.Acks.{ack}
use wfc.Commander.Law.Redispatch.{timeouts_checked, leader_lost}

-- what happens to a commander, with the clock
pub data CommanderCall (Raw : Type 0) : Type 0 where
  message_call : String → Raw → ℕ → CommanderCall Raw
  available_call : String → List String → ℕ → CommanderCall Raw
  expire_call : ℕ → CommanderCall Raw
  lost_call : String → String → ℕ → CommanderCall Raw
  publish_call : ℕ → CommanderCall Raw
  activate_call : ℕ → CommanderCall Raw
  deactivate_call : ℕ → CommanderCall Raw
  claim_call : Bool → ℕ → CommanderCall Raw
  renew_call : ℕ → CommanderCall Raw

module _ {Raw : Type 0} (formats : Formats Raw) (ids : Ids) where
  unfoldable pub call : CommanderCall Raw → Commander → Commander
  call (message_call topic raw now) c = handle_message formats ids topic raw now c
  call (available_call n caps now) c = on_node_became_available ids n caps now c
  call (expire_call now) c = expire_round ids now c
  call (lost_call n f now) c = lose_leader ids n f now c
  call (publish_call now) c = publish_snapshot_now now c
  call (activate_call now) c = activate now c
  call (deactivate_call now) c = deactivate now c
  call (claim_call active now) c = claim_lease active now c
  call (renew_call now) c = record c { lease = Lease.renew now c.lease }

  unfoldable pub run : List (CommanderCall Raw) → Commander → Commander
  unfolding call
  run [] c = c
  run (x ∷ xs) c = run xs (call x c)

-- the laws of what goes past the handlers
pub record CallLaw (ids : Ids) : Type 1 where
  pub steps : StepLaw ids
  pub on_answer :
      (r : Response) (now : ℕ) (c : Commander)
      → steps.R c (record c { gate = Approval.handle ids r now c.gate })
  pub on_expire :
      (now : ℕ) (c : Commander) → steps.R c (record c { gate = (expire_stale now c.gate).0 })

module _ {Raw : Type 0} (formats : Formats Raw) {ids : Ids} (laws : CallLaw ids) where
  read :
      (o : Option FireEvent) (now : ℕ) (c : Commander)
      → laws.steps.R c (fire_event_read ids o now c)
  read none now c = stays laws.steps c
  read (some event) now c = fire_event laws.steps event now c

  operational :
      (topic : String) (raw : Raw) (p : Payload) (now : ℕ) (c : Commander)
      → laws.steps.R c (handle_operational formats ids topic raw p now c)
  operational topic raw p now c =
      either laws.steps (topic == "wfc/approval/response") c _ _
        (laws.on_answer (response_of p) now c)
        (either laws.steps (topic == "wfc/ack") c _ _ (ack laws.steps p now c) (
          either laws.steps (topic == "wfc/events/fire/intensity") c _ _
            (fire_intensity laws.steps (formats.intensity raw) now c)
            (either laws.steps (topic == "wfc/events/fire/rekindled") c _ _
              (fire_rekindled laws.steps p now c)
              (either laws.steps (starts_with topic "wfc/swarm/election/") c _ _
                (swarm_election laws.steps p now c)
                (either laws.steps (starts_with topic "wfc/swarm/status/") c _ _
                  (swarm_status laws.steps (formats.status raw) now c)
                  (either laws.steps (starts_with topic "wfc/events/fire") c _ _
                    (read (formats.fire_event raw) now c) (stays laws.steps c)))))))

  dict :
      (topic : String) (raw : Raw) (p : Payload) (now : ℕ) (c : Commander)
      → ((topic == "wfc/state/snapshot") ≡ true
          → laws.steps.R c (apply_snapshot (formats.snapshot raw) now c))
      → laws.steps.R c (handle_dict formats ids topic raw p now c)
  dict topic raw p now c merge =
      either laws.steps (starts_with topic "wfc/registry/announce/") c _ _
        (aside laws.steps c _ refl refl)
        (either laws.steps (topic == "wfc/system/lease") c _ _ (aside laws.steps c _ refl refl)
          (on_topic (topic == "wfc/state/snapshot") refl))
    where
      on_topic :
          (b : Bool)
          → (topic == "wfc/state/snapshot") ≡ b
          → laws.steps.R c (
              if b
              then apply_snapshot (formats.snapshot raw) now c
              else if c.lease.is_active
              then handle_operational formats ids topic raw p now c
              else c)
      on_topic true e = merge e
      on_topic false e =
          either laws.steps c.lease.is_active c _ c (operational topic raw p now c)
            (stays laws.steps c)

  pub message :
      (topic : String) (raw : Raw) (now : ℕ) (c : Commander)
      → ((topic == "wfc/state/snapshot") ≡ true
          → laws.steps.R c (apply_snapshot (formats.snapshot raw) now c))
      → laws.steps.R c (handle_message formats ids topic raw now c)
  unfolding handle_message
  message topic raw now c merge = go (formats.fields raw)
    where
      go : (o : Option Payload) → laws.steps.R c (handle_fields formats ids topic raw o now c)
      go none = stays laws.steps c
      go (some p) = dict topic raw p now c merge

  expired : (now : ℕ) (c : Commander) → laws.steps.R c (expire_round ids now c)
  unfolding expire_round
  expired now c =
      let c₁ : Commander = record c { gate = (expire_stale now c.gate).0 } in
      let c₂ : Commander = record c₁ { missions = (evict_terminal 3600 now c₁.missions).0 } in
      either laws.steps c.lease.is_active c _ c
        (laws.steps.chain c c₁ _ (laws.on_expire now c) (
          laws.steps.chain c₁ c₂ _ (aside laws.steps c₁ c₂ refl refl)
            (timeouts_checked laws.steps now c₂)))
        (stays laws.steps c)

  claimed : (b : Bool) (now : ℕ) (c : Commander) → laws.steps.R c (claim_if b now c)
  claimed false now c = stays laws.steps c
  claimed true now c = aside laws.steps c _ refl refl

  -- a call, where a snapshot that it merges obeys the law
  pub called :
      (x : CommanderCall Raw) (c : Commander)
      → ((topic : String) (raw : Raw) (now : ℕ)
          → x ≡ message_call topic raw now
          → (topic == "wfc/state/snapshot") ≡ true
          → laws.steps.R c (apply_snapshot (formats.snapshot raw) now c))
      → laws.steps.R c (call formats ids x c)
  unfolding call publish_snapshot_now activate deactivate claim_lease
  called (message_call topic raw now) c merge = message topic raw now c (merge topic raw now refl)
  called (available_call n caps now) c merge = available laws.steps n caps now c
  called (expire_call now) c merge = expired now c
  called (lost_call n f now) c merge = leader_lost laws.steps n f now c
  called (publish_call now) c merge = aside laws.steps c _ refl refl
  called (activate_call now) c merge = aside laws.steps c _ refl refl
  called (deactivate_call now) c merge = aside laws.steps c _ refl refl
  called (claim_call active now) c merge = claimed active now c
  called (renew_call now) c merge = aside laws.steps c _ refl refl
