-- ===== src/Fires/Sync.antt =====
-- FireRecord.snapshot, FireStateStore.get_active, snapshot_all and apply_snapshot_record: what the
-- commanders tell one another of the fires, and the last-write-wins merge of it.
pub mod Merge
use wfc.Prelude.{
  ℕ, max, ◌≤◌, ◌<◌, ◌≡◌, refl, Bool, true, false, ◌||◌, not, String, Option, none, some, List, [],
  ◌∷◌, ◌++◌, arith, leb, eqb, or_else, contains, contains-append, eq_iff, if◌then◌else◌, IsDistinct,
  map, ◌==◌, append-IsDistinct, inl, inr, Bool-cases,
}
use wfc.Dict
use wfc.Dict.{Dict, get-put}
use wfc.Dict.Select.{select_values}
use wfc.Shared.Status.{FireStatus}
use wfc.Shared.Commands.{Coord}
use wfc.Fires.{FireRecord, FireStateStore, HistoryEntry, get, save, is_terminal}

-- A snapshot of one fire, as JSON brings it: each key may be missing.
pub record FireSnapshot : Type 0 where
  pub fire_id : Option String
  pub state : Option FireStatus
  pub zone : Option String
  pub severity : Option String
  pub sensor_id : Option String
  pub location_coords : Option Coord
  pub assigned_nodes : Option (List String)
  pub leader_term : Option ℕ
  pub mission_id : Option String
  pub updated_at : Option ℕ

-- FireRecord.snapshot
abbrev pub snapshot : FireRecord → FireSnapshot
snapshot r = record {
  fire_id = some r.fire_id;
  state = some r.state;
  zone = some r.zone;
  severity = some r.severity;
  sensor_id = some r.sensor_id;
  location_coords = r.location_coords;
  assigned_nodes = some r.assigned_nodes;
  leader_term = some r.leader_term;
  mission_id = r.mission_id;
  updated_at = some r.updated_at;
}

unfoldable pub get_active : FireStateStore → List FireRecord
get_active s = select_values (λ r. not (is_terminal r)) s.fires

unfoldable pub snapshot_all : FireStateStore → List FireSnapshot
unfolding get_active
snapshot_all s = map snapshot (get_active s)

-- the keys of `dict.fromkeys(xs)`, after those of `seen`
from_keys : List String → List String → List String
from_keys seen [] = seen
from_keys seen (x ∷ xs) = from_keys (if contains seen x then seen else seen ++ x ∷ []) xs

-- `list(dict.fromkeys(a + b))`
unfoldable pub merged_nodes : List String → List String → List String
unfolding from_keys
merged_nodes a b = from_keys [] (a ++ b)

abbrev nodes_of : Option FireRecord → List String
nodes_of none = []
nodes_of (some r) = r.assigned_nodes

abbrev term_of : Option FireRecord → ℕ
term_of none = 0
term_of (some r) = r.leader_term

abbrev created_of : Option FireRecord → ℕ → ℕ
created_of none now = now
created_of (some r) now = r.created_at

abbrev history_of : Option FireRecord → List HistoryEntry
history_of none = []
history_of (some r) = r.history

-- `existing is not None and existing.updated_at >= incoming_updated_at`
abbrev is_stale : Option FireRecord → ℕ → Bool
is_stale none incoming = false
is_stale (some r) incoming = leb incoming r.updated_at

abbrev merged :
    String
    → FireSnapshot
    → FireStatus
    → String
    → String
    → String
    → Option FireRecord
    → ℕ
    → FireRecord
merged fire_id d state zone severity sensor_id existing now =
    let incoming = or_else d.updated_at 0 in
    record {
      fire_id = fire_id;
      state = state;
      zone = zone;
      severity = severity;
      sensor_id = sensor_id;
      location_coords = d.location_coords;
      assigned_nodes = merged_nodes (nodes_of existing) (or_else d.assigned_nodes []);
      leader_term = max (or_else d.leader_term 0) (term_of existing);
      mission_id = d.mission_id;
      created_at = created_of existing now;
      updated_at = if eqb incoming 0 then now else incoming;
      history = history_of existing;
    }

-- FireRecord(...) of a snapshot: `none` is the ValidationError for a required text that is missing
abbrev validated :
    String
    → FireSnapshot
    → Option FireRecord
    → ℕ
    → Option FireStatus
    → Option String
    → Option String
    → Option String
    → Option FireRecord
validated fire_id d existing now (some state) (some zone) (some severity) (some sensor_id) =
    some (merged fire_id d state zone severity sensor_id existing now)
validated _ _ _ _ _ _ _ _ = none

abbrev saved_as : FireStateStore → String → Option FireRecord → Option (FireStateStore × Bool)
saved_as s fire_id none = none
saved_as s fire_id (some r) = some (save s fire_id r, true)

-- `none` is the ValidationError, which leaves the store as it was
unfoldable pub apply_snapshot_record :
    String → FireSnapshot → ℕ → FireStateStore → Option (FireStateStore × Bool)
apply_snapshot_record fire_id d now s =
    let existing = get s fire_id in
    if is_stale existing (or_else d.updated_at 0)
    then some (s, false)
    else saved_as s fire_id (validated fire_id d existing now d.state d.zone d.severity d.sensor_id)
