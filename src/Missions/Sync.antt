-- ===== src/Missions/Sync.antt =====
-- MissionRecord.snapshot, MissionStore.snapshot_all and apply_snapshot_record: what the commanders tell
-- one another of the missions. The merge writes no row of the table.
pub mod Mirror
use wfc.Prelude.{
  ℕ, Bool, false, true, String, Option, none, some, List, map, ◌==◌, leb, eqb, or_else,
  if◌then◌else◌, [],
}
use wfc.Dict
use wfc.Shared.Status.{MissionStatus}
use wfc.Missions.{MissionEntry, MissionRecord, MissionStore, get_active}

-- A snapshot of one mission, as JSON brings it: each key may be missing.
pub record MissionSnapshot : Type 0 where
  pub mission_id : Option String
  pub fire_id : Option String
  pub state : Option MissionStatus
  pub assigned_node : Option String
  pub updated_at : Option ℕ

-- MissionRecord.snapshot
abbrev pub snapshot : MissionRecord → MissionSnapshot
snapshot r = record {
  mission_id = some r.mission_id;
  fire_id = some r.fire_id;
  state = some r.state;
  assigned_node = r.assigned_node;
  updated_at = some r.updated_at;
}

unfoldable pub snapshot_all : MissionStore → List MissionSnapshot
snapshot_all s = map snapshot (get_active s)

-- `existing is not None and existing.updated_at >= incoming_updated_at`
abbrev pub is_stale : Option MissionRecord → ℕ → Bool
is_stale none incoming = false
is_stale (some r) incoming = leb incoming r.updated_at

abbrev created_of : Option MissionRecord → ℕ → ℕ
created_of none now = now
created_of (some r) now = r.created_at

abbrev history_of : Option MissionRecord → List MissionEntry
history_of none = []
history_of (some r) = r.history

abbrev pub merged :
    String → String → MissionStatus → MissionSnapshot → Option MissionRecord → ℕ → MissionRecord
merged mission_id fire_id state d existing now =
    let incoming = or_else d.updated_at 0 in
    record {
      mission_id = mission_id;
      fire_id = fire_id;
      state = state;
      assigned_node = d.assigned_node;
      created_at = created_of existing now;
      updated_at = if eqb incoming 0 then now else incoming;
      history = history_of existing;
    }

-- the store after the merge, whose index leads to the mission
abbrev pub mirrored : MissionStore → String → String → MissionRecord → MissionStore
mirrored s mission_id fire_id rec = record s {
  missions = Dict.put s.missions mission_id rec;
  fire_index = if fire_id == "" then s.fire_index else Dict.put s.fire_index fire_id mission_id;
}

-- `none` is the ValidationError for a fire or a state that is missing
abbrev merge :
    String
    → MissionSnapshot
    → Option MissionRecord
    → ℕ
    → MissionStore
    → Option String
    → Option MissionStatus
    → Option (MissionStore × Bool)
merge mission_id d existing now s (some fire_id) (some state) =
    some (mirrored s mission_id fire_id (merged mission_id fire_id state d existing now), true)
merge mission_id d existing now s _ _ = none

-- `none` is the ValidationError, which leaves the store as it was
unfoldable pub apply_snapshot_record :
    String → MissionSnapshot → ℕ → MissionStore → Option (MissionStore × Bool)
apply_snapshot_record mission_id d now s =
    let existing = Dict.get s.missions mission_id in
    if is_stale existing (or_else d.updated_at 0)
    then some (s, false)
    else merge mission_id d existing now s d.fire_id d.state
