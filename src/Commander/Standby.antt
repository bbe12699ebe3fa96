-- ===== src/Commander/Standby.antt =====
-- What a CommanderCore on standby leaves alone.
use wfc.Prelude.{
  ℕ, arith, ap, ◌∙◌, ◌≡◌, refl, Bool, true, false, String, Option, none, some, List, [], ◌∷◌, ◌==◌,
  starts_with, if◌then◌else◌,
}
use wfc.Shared.Commands.{Payload}
use wfc.Lease.{on_lease_message}
use wfc.Lease.Standing.{on_lease_message-is_active, claim-is_active, renew-is_active}
use wfc.Bridge
use wfc.Approval.{expire_stale}
use wfc.Missions.{evict_terminal}
use wfc.Dispatch.{Ids}
use wfc.Commander.{Commander}
use wfc.Commander.Redispatch.{check_command_timeouts, expire_round}
use wfc.Commander.Sync.{apply_snapshot, publish_snapshot_now, deactivate, claim_if, claim_lease}
use wfc.Commander.Routing.{
  Formats, lease_of, handle_operational, handle_dict, handle_fields, handle_message,
}
use wfc.Commander.Safety.{apply_snapshot-SameDesk}
use wfc.Commander.Law.Messages.{
  CommanderCall, message_call, expire_call, publish_call, deactivate_call, claim_call, renew_call,
  activate_call, available_call, lost_call, call, run,
}

-- on standby, with the same pending commands, the same tracker and nothing more published
abbrev KeptIdle : Commander → Commander → Type 0
KeptIdle c c' =
    (c'.lease.is_active ≡ false) × (c'.gate.store ≡ c.gate.store) × (c'.gate.desk ≡ c.gate.desk)

abbrev IsIdle : Commander → Commander → Type 0
IsIdle c c' = c.lease.is_active ≡ false → KeptIdle c c'

-- neither an activation nor what the node's own watch over other nodes reports
abbrev pub StandbyCall : {Raw : Type 0} → CommanderCall Raw → Type 0
StandbyCall (activate_call now) = ⊥
StandbyCall (available_call n caps now) = ⊥
StandbyCall (lost_call n f now) = ⊥
StandbyCall _ = Unit

abbrev pub AllStandby : {Raw : Type 0} → List (CommanderCall Raw) → Type 0
AllStandby [] = Unit
AllStandby (x ∷ xs) = StandbyCall x × AllStandby xs

module _ {Raw : Type 0} (formats : Formats Raw) (ids : Ids) where
  dict-IsIdle :
      (topic : String) (raw : Raw) (p : Payload) (now : ℕ) (c : Commander)
      → IsIdle c (handle_dict formats ids topic raw p now c)
  dict-IsIdle topic raw p now c standby =
      go (starts_with topic "wfc/registry/announce/") (topic == "wfc/system/lease")
        (topic == "wfc/state/snapshot") c.lease.is_active standby
    where
      go :
          (announced leased merged b : Bool)
          → b ≡ false
          → (let c' : Commander =
                if announced
                then record c {
                  registry = Bridge.on_message (formats.announcement raw) now c.registry;
                }
                else if leased
                then record c { lease = on_lease_message (lease_of p) now c.lease }
                else if merged
                then apply_snapshot (formats.snapshot raw) now c
                else if b
                then handle_operational formats ids topic raw p now c
                else c in
              KeptIdle c c')
      go true leased merged b off = (standby, refl, refl)
      go false true merged b off =
          (on_lease_message-is_active (lease_of p) now c.lease ∙ standby, refl, refl)
      go false false true b off =
          let (p, q, l) = apply_snapshot-SameDesk (formats.snapshot raw) now c in
          (ap (λ x. x.is_active) l ∙ standby, p, q)
      go false false false true off = absurd (ground arith)
      go false false false false off = (standby, refl, refl)

  message-IsIdle :
      (topic : String) (raw : Raw) (now : ℕ) (c : Commander)
      → IsIdle c (handle_message formats ids topic raw now c)
  unfolding handle_message
  message-IsIdle topic raw now c standby = go (formats.fields raw)
    where
      go :
          (o : Option Payload)
          → (let c' = handle_fields formats ids topic raw o now c in KeptIdle c c')
      go none = (standby, refl, refl)
      go (some p) = dict-IsIdle topic raw p now c standby

  expire-IsIdle : (now : ℕ) (c : Commander) → IsIdle c (expire_round ids now c)
  unfolding expire_round
  expire-IsIdle now c standby = go c.lease.is_active standby
    where
      go :
          (b : Bool)
          → b ≡ false
          → KeptIdle c (
              if b
              then check_command_timeouts ids now (record c {
                gate = (expire_stale now c.gate).0;
                missions = (evict_terminal 3600 now c.missions).0;
              })
              else c)
      go true off = absurd (ground arith)
      go false off = (standby, refl, refl)

  claim-IsIdle : (b : Bool) (now : ℕ) (c : Commander) → IsIdle c (claim_if b now c)
  claim-IsIdle false now c standby = (standby, refl, refl)
  claim-IsIdle true now c standby = (claim-is_active now c.lease ∙ standby, refl, refl)

  call-IsIdle :
      (x : CommanderCall Raw) (c : Commander) → StandbyCall x → IsIdle c (call formats ids x c)
  unfolding call publish_snapshot_now deactivate claim_lease
  call-IsIdle (message_call topic raw now) c ok = message-IsIdle topic raw now c
  call-IsIdle (expire_call now) c ok = expire-IsIdle now c
  call-IsIdle (publish_call now) c ok = λ standby. (standby, refl, refl)
  call-IsIdle (deactivate_call now) c ok = λ standby. (refl, refl, refl)
  call-IsIdle (claim_call active now) c ok = claim-IsIdle active now c
  call-IsIdle (renew_call now) c ok = λ standby. (renew-is_active now c.lease ∙ standby, refl, refl)
  call-IsIdle (activate_call now) c ok = absurd ok
  call-IsIdle (available_call n caps now) c ok = absurd ok
  call-IsIdle (lost_call n f now) c ok = absurd ok

  -- A commander on standby stays so and commands nothing, whatever messages come, fire events,
  -- acknowledgements, answers of operators and snapshots included, and whichever of its loops run, until it
  -- is activated or told of a node: it publishes no command and no request, tracks none, and changes no
  -- entry of the pending store.
  pub standby_commands_nothing :
      (xs : List (CommanderCall Raw)) (c : Commander)
      → AllStandby xs
      → c.lease.is_active ≡ false
      → (let c' = run formats ids xs c in
          (c'.lease.is_active ≡ false)
          × (c'.gate.store ≡ c.gate.store)
          × (c'.gate.desk ≡ c.gate.desk))
  unfolding run
  standby_commands_nothing [] c ok standby = (standby, refl, refl)
  standby_commands_nothing (x ∷ xs) c (ok, oks) standby =
      let (standby', p, q) = call-IsIdle x c ok standby in
      let (standby'', p', q') = standby_commands_nothing xs (call formats ids x c) oks standby' in
      (standby'', p' ∙ p, q' ∙ q)
