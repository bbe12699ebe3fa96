-- ===== src/Commander/Routing.antt =====
-- CommanderCore.handle_message. A payload is a value of the parameter `Raw`, which `Formats` reads: JSON
-- and the validation by pydantic. Nothing but log output follows a topic that no handler has.
use wfc.Prelude.{ℕ, String, Option, none, some, ◌==◌, starts_with, if◌then◌else◌}
use wfc.Shared.Commands.{Payload, payload_text, payload_number}
use wfc.Dispatch.{Ids}
use wfc.Approval
use wfc.Approval.{Response}
use wfc.Rules.{SwarmSnapshot}
use wfc.Bridge
use wfc.Bridge.{NodeAnnouncement}
use wfc.Lease.{LeaseMessage, on_lease_message}
use wfc.Commander.{FireEvent, Commander}
use wfc.Commander.FireEvents.{handle_fire_event}
use wfc.Commander.Telemetry.{
  FireIntensityUpdate, handle_swarm_status, handle_fire_intensity, handle_fire_rekindled,
  handle_swarm_election,
}
use wfc.Commander.Acks.{handle_ack}
use wfc.Commander.Sync.{SnapshotMessage, apply_snapshot}

-- how a payload is read: `fields` are the keys of a dict with their values, and `none` if it is no dict;
-- each other reader gives `none` where the payload does not validate
pub record Formats (Raw : Type 0) : Type 0 where
  pub fields : Raw → Option Payload
  pub announcement : Raw → Option NodeAnnouncement
  pub status : Raw → Option SwarmSnapshot
  pub intensity : Raw → Option FireIntensityUpdate
  pub fire_event : Raw → Option FireEvent
  pub snapshot : Raw → SnapshotMessage

abbrev pub lease_of : Payload → LeaseMessage
lease_of p = record {
  owner = payload_text p "owner";
  term = payload_number p "term";
  since = payload_number p "since";
}

abbrev pub response_of : Payload → Response
response_of p = record {
  pending_id = payload_text p "pending_id";
  decision = payload_text p "decision";
  operator_id = payload_text p "operator_id";
  reason = payload_text p "reason";
}

abbrev pub answer_approval : Ids → Payload → ℕ → Commander → Commander
answer_approval ids p now c = record c { gate = Approval.handle ids (response_of p) now c.gate }

abbrev pub fire_event_read : Ids → Option FireEvent → ℕ → Commander → Commander
fire_event_read ids none now c = c
fire_event_read ids (some event) now c = handle_fire_event ids event now c

module _ {Raw : Type 0} (formats : Formats Raw) where
  -- from the standby guard on
  abbrev pub handle_operational : Ids → String → Raw → Payload → ℕ → Commander → Commander
  handle_operational ids topic raw p now c =
      if topic == "wfc/approval/response"
      then answer_approval ids p now c
      else if topic == "wfc/ack"
      then handle_ack ids p now c
      else if topic == "wfc/events/fire/intensity"
      then handle_fire_intensity ids (formats.intensity raw) now c
      else if topic == "wfc/events/fire/rekindled"
      then handle_fire_rekindled ids p now c
      else if starts_with topic "wfc/swarm/election/"
      then handle_swarm_election ids p now c
      else if starts_with topic "wfc/swarm/status/"
      then handle_swarm_status ids (formats.status raw) now c
      else if starts_with topic "wfc/events/fire"
      then fire_event_read ids (formats.fire_event raw) now c
      else c

  abbrev pub handle_dict : Ids → String → Raw → Payload → ℕ → Commander → Commander
  handle_dict ids topic raw p now c =
      if starts_with topic "wfc/registry/announce/"
      then record c { registry = Bridge.on_message (formats.announcement raw) now c.registry }
      else if topic == "wfc/system/lease"
      then record c { lease = on_lease_message (lease_of p) now c.lease }
      else if topic == "wfc/state/snapshot"
      then apply_snapshot (formats.snapshot raw) now c
      else if c.lease.is_active
      then handle_operational ids topic raw p now c
      else c

  -- `if not isinstance(payload, dict): return`
  abbrev pub handle_fields : Ids → String → Raw → Option Payload → ℕ → Commander → Commander
  handle_fields ids topic raw none now c = c
  handle_fields ids topic raw (some p) now c = handle_dict ids topic raw p now c

  unfoldable pub handle_message : Ids → String → Raw → ℕ → Commander → Commander
  unfolding handle_ack handle_fire_intensity handle_fire_rekindled handle_swarm_election
      handle_swarm_status handle_fire_event apply_snapshot Bridge.on_message on_lease_message
      Approval.handle
  handle_message ids topic raw now c = handle_fields ids topic raw (formats.fields raw) now c
