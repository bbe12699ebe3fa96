-- ===== src/Commander/Sync.antt =====
-- CommanderCore._publish_snapshot_now, deactivate, activate, start, a round of _snapshot_loop, and
-- _apply_snapshot. A part that raises in the source leaves what was merged before it.
use wfc.Prelude.{
  ℕ, ◌-◌, Bool, true, false, not, String, Option, none, some, List, [], ◌∷◌, ◌==◌, ltb, is_none,
  if◌then◌else◌,
}
use wfc.Fires.{FireStateStore}
use wfc.Fires.Sync as FireSync
use wfc.Fires.Sync.{FireSnapshot}
use wfc.Missions.{MissionStore}
use wfc.Missions.Sync as MissionSync
use wfc.Missions.Sync.{MissionSnapshot}
use wfc.Nodes.{NodeRecord}
use wfc.Shared.Status.{NodeStatus}
use wfc.Events.{DomainEvent, EventLog, append, get_since, get_recent}
use wfc.Lease
use wfc.Lease.{stand_by, claim_or_reclaim_lease}
use wfc.Projector.{Projector, apply, replay}
use wfc.Commander.{SystemSnapshot, Commander}

-- of each node its status and its job
abbrev node_lines : List (String × NodeRecord) → List (String × (NodeStatus × Option String))
node_lines [] = []
node_lines ((node_id, rec) ∷ nodes) = (node_id, (rec.status, rec.current_job)) ∷ node_lines nodes

abbrev events_since : ℕ → Option EventLog → List DomainEvent
events_since since none = []
events_since since (some log) = get_since since log

-- the whole state, with the events since the last one
abbrev pub system_snapshot : ℕ → Commander → SystemSnapshot
system_snapshot now c = record {
  timestamp = now;
  fires = FireSync.snapshot_all c.fires;
  missions = MissionSync.snapshot_all c.missions;
  nodes = node_lines c.registry.nodes;
  events_delta = events_since c.last_snapshot_at c.gate.event_log;
}

-- _publish_snapshot_now
unfoldable pub publish_snapshot_now : ℕ → Commander → Commander
publish_snapshot_now now c = record c {
  snapshots = system_snapshot now c ∷ c.snapshots;
  last_snapshot_at = now;
}

unfoldable pub deactivate : ℕ → Commander → Commander
unfolding publish_snapshot_now
deactivate now c = record (publish_snapshot_now now c) {
  lease = stand_by c.lease;
  deactivation_grace_start = some now;
}

unfoldable pub activate : ℕ → Commander → Commander
activate now c = record c { lease = Lease.activate now c.lease }

abbrev pub grace_period_seconds : ℕ
grace_period_seconds = 30

abbrev is_recent : ℕ → Option ℕ → Bool
is_recent now none = false
is_recent now (some start) = ltb (now - start) grace_period_seconds

-- `in_grace` of _snapshot_loop, which is asked before the sleep
abbrev pub in_grace : ℕ → Commander → Bool
in_grace now c = is_recent now c.deactivation_grace_start

-- what follows the sleep of a round that began in grace or not, and whether the loop goes on
unfoldable pub snapshot_round : Bool → ℕ → Commander → Commander × Bool
unfolding publish_snapshot_now
snapshot_round grace now c =
    if not c.lease.is_active
    then (if grace then (publish_snapshot_now now c, true) else (c, false))
    else (publish_snapshot_now now c, true)

abbrev pub projected : Commander → Projector → Commander
projected c p = record c { fires = p.fires; missions = p.missions }

-- the startup replay of the last 500 events
abbrev replay_recent : ℕ → Option EventLog → Commander → Commander
replay_recent now none c = c
replay_recent now (some log) c =
    projected c
      (replay (get_recent 500 log) now (record { fires = c.fires; missions = c.missions }))

abbrev pub claim_if : Bool → ℕ → Commander → Commander
claim_if false now c = c
claim_if true now c = record c { lease = claim_or_reclaim_lease now c.lease }

-- `start` up to the wait for a retained lease
unfoldable pub begin : Bool → ℕ → Commander → Commander
unfolding replay get_recent
begin active now c =
    replay_recent now c.gate.event_log (record c { lease = record c.lease { is_active = active } })

-- `start` from that wait on
unfoldable pub claim_lease : Bool → ℕ → Commander → Commander
claim_lease active now c = claim_if active now c

-- a message on STATE_SNAPSHOT; an event that does not validate is `none`
pub record SnapshotMessage : Type 0 where
  pub fires : List FireSnapshot
  pub missions : List MissionSnapshot
  pub events_delta : List (Option DomainEvent)

-- `fire_id and self.fires.apply_snapshot_record(fire_id, fire_data)`
abbrev merge_fire : Option String → FireSnapshot → ℕ → FireStateStore → Option FireStateStore
merge_fire none d now s = some s
merge_fire (some fire_id) d now s =
    if fire_id == "" then some s else first_part (FireSync.apply_snapshot_record fire_id d now s)
  where
    first_part : Option (FireStateStore × Bool) → Option FireStateStore
    first_part none = none
    first_part (some (s', applied)) = some s'

-- the store, and whether no record raised
unfoldable pub merge_fires : List FireSnapshot → ℕ → FireStateStore → FireStateStore × Bool
merge_fires [] now s = (s, true)
merge_fires (d ∷ ds) now s = elim (merge_fire d.fire_id d now s) [
  | none ↦ (s, false)
  | some s' ↦ merge_fires ds now s'
]

abbrev merge_mission : Option String → MissionSnapshot → ℕ → MissionStore → Option MissionStore
merge_mission none d now s = some s
merge_mission (some mission_id) d now s =
    if mission_id == ""
    then some s
    else first_part (MissionSync.apply_snapshot_record mission_id d now s)
  where
    first_part : Option (MissionStore × Bool) → Option MissionStore
    first_part none = none
    first_part (some (s', applied)) = some s'

unfoldable pub merge_missions : List MissionSnapshot → ℕ → MissionStore → MissionStore × Bool
merge_missions [] now s = (s, true)
merge_missions (d ∷ ds) now s = elim (merge_mission d.mission_id d now s) [
  | none ↦ (s, false)
  | some s' ↦ merge_missions ds now s'
]

abbrev pub with_log : Commander → EventLog → Commander
with_log c log = record c { gate = record c.gate { event_log = some log } }

-- the event is applied if the log returned it with a number
abbrev pub absorb_into : DomainEvent → ℕ → EventLog → Commander → Commander
absorb_into e now log c =
    let (log', stored) = append e log in
    let c' = with_log c log' in
    if is_none stored.sequence
    then c'
    else projected c' (apply e now (record { fires = c'.fires; missions = c'.missions }))

abbrev pub absorb_event : DomainEvent → ℕ → Option EventLog → Commander → Commander
absorb_event e now none c = c
absorb_event e now (some log) c = absorb_into e now log c

unfoldable pub absorb_events : List (Option DomainEvent) → ℕ → Commander → Commander
unfolding apply
absorb_events [] now c = c
absorb_events (none ∷ es) now c = absorb_events es now c
absorb_events (some e ∷ es) now c = absorb_events es now (absorb_event e now c.gate.event_log c)

-- _apply_snapshot
unfoldable pub apply_snapshot : SnapshotMessage → ℕ → Commander → Commander
unfolding merge_fires merge_missions absorb_events
apply_snapshot m now c =
    let (fires, fires_ok) = merge_fires m.fires now c.fires in
    let c₁ : Commander = record c { fires = fires } in
    if fires_ok
    then (let (missions, missions_ok) = merge_missions m.missions now c₁.missions in
        let c₂ : Commander = record c₁ { missions = missions } in
        if missions_ok then absorb_events m.events_delta now c₂ else c₂)
    else c₁
