-- ===== src/Projector.antt =====
-- Commander_Repo/core/state/projector.py: FireProjector, which replays domain events into the stores
-- of fires and missions. One replay has one reading of the clock.
pub mod Stall
use wfc.Prelude.{
  ℕ, Bool, true, false, ◌&&◌, ◌||◌, not, String, Option, none, some, List, [], ◌∷◌, ◌==◌, ltb, leb,
  eqb, or_else, contains, if◌then◌else◌,
}
use wfc.Shared.Status.{FireStatus, active, contained, suppressed, MissionStatus, assigned, paused}
use wfc.Shared.Commands.{payload_text}
use wfc.Fires
use wfc.Fires.{FireRecord, FireStateStore, ignite, add_assigned_node, remove_assigned_node}
use wfc.Missions
use wfc.Missions.{MissionRecord, MissionStore, get_for_fire}
use wfc.Events.{DomainEvent}

pub record Projector : Type 0 where
  pub fires : FireStateStore
  pub missions : MissionStore

-- `fire and event.timestamp <= fire.updated_at`
abbrev pub is_behind : Option FireRecord → ℕ → Bool
is_behind none timestamp = false
is_behind (some r) timestamp = leb timestamp r.updated_at

abbrev pub detect : String → DomainEvent → ℕ → Projector → Projector
detect fire_id e now p =
    let s =
      (ignite fire_id (or_else (payload_text e.payload "zone") "unknown")
        (or_else (payload_text e.payload "severity") "MEDIUM")
        (or_else (payload_text e.payload "sensor_id") "unknown") none now p.fires).0 in
    record p { fires = (Fires.transition fire_id active "replay_fire_detected" none none now s).0 }

abbrev pub on_fire_detected : String → DomainEvent → ℕ → Projector → Projector
on_fire_detected fire_id e now p = elim (Fires.get p.fires fire_id) [
  | some r ↦ p
  | none ↦ detect fire_id e now p
]

abbrev is_held : FireStatus → Bool
is_held contained = true
is_held suppressed = true
is_held _ = false

abbrev is_out : FireStatus → Bool
is_out suppressed = true
is_out _ = false

-- the fire moves unless it is there already
abbrev move_unless :
    (FireStatus → Bool)
    → FireStatus
    → String
    → String
    → ℕ
    → Option FireRecord
    → Projector
    → Projector
move_unless there state reason fire_id now none p = p
move_unless there state reason fire_id now (some r) p =
    if there r.state
    then p
    else record p { fires = (Fires.transition fire_id state reason none none now p.fires).0 }

abbrev pub on_fire_contained : String → DomainEvent → ℕ → Projector → Projector
on_fire_contained fire_id e now p =
    let fire = Fires.get p.fires fire_id in
    if is_behind fire e.timestamp
    then p
    else move_unless is_held contained "replay_fire_contained" fire_id now fire p

abbrev pub on_fire_suppressed : String → DomainEvent → ℕ → Projector → Projector
on_fire_suppressed fire_id e now p =
    let fire = Fires.get p.fires fire_id in
    if is_behind fire e.timestamp
    then p
    else move_unless is_out suppressed "replay_fire_suppressed" fire_id now fire p

abbrev add_leader : String → String → ℕ → Option FireRecord → FireStateStore → FireStateStore
add_leader fire_id node_id now none s = s
add_leader fire_id node_id now (some r) s =
    if contains r.assigned_nodes node_id
    then s
    else (add_assigned_node fire_id node_id "replay_fire_dispatched" now s).0

abbrev is_assigned : MissionStatus → Bool
is_assigned assigned = true
is_assigned _ = false

abbrev is_assigned_or_paused : MissionStatus → Bool
is_assigned_or_paused assigned = true
is_assigned_or_paused paused = true
is_assigned_or_paused _ = false

abbrev move_mission :
    (MissionStatus → Bool)
    → MissionStatus
    → String
    → Option String
    → ℕ
    → Option MissionRecord
    → MissionStore
    → MissionStore
move_mission there state reason leader now none s = s
move_mission there state reason leader now (some m) s =
    if there m.state then s else (Missions.transition m.mission_id state reason leader now s).0

abbrev pub dispatched : String → String → DomainEvent → ℕ → Projector → Projector
dispatched fire_id node_id e now p =
    let fire = Fires.get p.fires fire_id in
    if is_behind fire e.timestamp then p else record {
      fires = add_leader fire_id node_id now fire p.fires;
      missions =
          move_mission is_assigned assigned "replay_fire_dispatched" (some node_id) now
            (get_for_fire p.missions fire_id) p.missions;
    }

-- `if not (fire_id and node_id): return`
abbrev pub on_fire_dispatched : String → DomainEvent → ℕ → Projector → Projector
on_fire_dispatched fire_id e now p = elim e.node_id [
  | none ↦ p
  | some node_id ↦ if node_id == "" then p else dispatched fire_id node_id e now p
]

abbrev drop_leader :
    String → Option String → ℕ → Option FireRecord → FireStateStore → FireStateStore
drop_leader fire_id (some node_id) now (some r) s =
    if contains r.assigned_nodes node_id
    then (remove_assigned_node fire_id node_id "replay_fire_redispatched" now s).0
    else s
drop_leader fire_id _ now _ s = s

abbrev pub on_fire_redispatched : String → DomainEvent → ℕ → Projector → Projector
on_fire_redispatched fire_id e now p =
    let fire = Fires.get p.fires fire_id in
    if is_behind fire e.timestamp then p else record {
      fires = drop_leader fire_id e.node_id now fire p.fires;
      missions =
          move_mission is_assigned_or_paused paused "replay_leader_died" none now
            (get_for_fire p.missions fire_id) p.missions;
    }

-- the handler of the event's type, if it has one
abbrev pub handle : String → DomainEvent → ℕ → Projector → Projector
handle fire_id e now p =
    if e.event_type == "FIRE_DETECTED"
    then on_fire_detected fire_id e now p
    else if e.event_type == "FIRE_CONTAINED"
    then on_fire_contained fire_id e now p
    else if e.event_type == "FIRE_SUPPRESSED"
    then on_fire_suppressed fire_id e now p
    else if e.event_type == "FIRE_DISPATCHED"
    then on_fire_dispatched fire_id e now p
    else if e.event_type == "FIRE_REDISPATCHED"
    then on_fire_redispatched fire_id e now p
    else p

-- `if not fire_id: return`, which every handler starts with
abbrev pub handle_named : Option String → DomainEvent → ℕ → Projector → Projector
handle_named none e now p = p
handle_named (some fire_id) e now p = if fire_id == "" then p else handle fire_id e now p

unfoldable pub apply : DomainEvent → ℕ → Projector → Projector
apply e now p = handle_named e.fire_id e now p

-- `(e.timestamp, e.sequence or 0)`, in order
abbrev is_before : DomainEvent → DomainEvent → Bool
is_before a b =
    ltb a.timestamp b.timestamp
    || (eqb a.timestamp b.timestamp && ltb (or_else a.sequence 0) (or_else b.sequence 0))

abbrev insert : DomainEvent → List DomainEvent → List DomainEvent
insert e [] = e ∷ []
insert e (d ∷ ds) = let rest = insert e ds in if is_before d e then d ∷ rest else e ∷ d ∷ ds

-- `sorted`, which is stable
unfoldable pub sorted : List DomainEvent → List DomainEvent
sorted [] = []
sorted (e ∷ es) = insert e (sorted es)

unfoldable pub apply_all : List DomainEvent → ℕ → Projector → Projector
unfolding apply
apply_all [] now p = p
apply_all (e ∷ es) now p = apply_all es now (apply e now p)

unfoldable pub replay : List DomainEvent → ℕ → Projector → Projector
unfolding apply_all sorted
replay events now p = apply_all (sorted events) now p
