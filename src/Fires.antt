-- ===== src/Fires.antt =====
-- Commander_Repo/core/state/fire_state_store.py with the table of
-- core/persistence/repositories/fire_state_repo.py. A method returns the new store and its result.
-- `now` is the reading of the clock in the call; a log line is not modelled.
pub mod Changes
pub mod Histories
pub mod Lifecycle
pub mod Records
pub mod Restart
pub mod Sync
use wfc.Prelude.{
  ℕ, Bool, String, Option, none, some, List, [], ◌∷◌, ◌++◌, ◌==◌, eqb, head?, contains, without,
  length, if◌then◌else◌,
}
use wfc.Dict
use wfc.Dict.{Dict}
use wfc.Shared.Status.{FireStatus, ignited, fire_allowed, is_terminal_fire}
use wfc.Shared.Commands.{Coord}

pub record HistoryEntry : Type 0 where
  pub state : FireStatus
  pub reason : String
  pub timestamp : ℕ

pub record FireRecord : Type 0 where
  pub fire_id : String
  pub state : FireStatus
  pub zone : String
  pub severity : String
  pub sensor_id : String
  pub location_coords : Option Coord
  pub assigned_nodes : List String
  pub leader_term : ℕ
  pub mission_id : Option String
  pub created_at : ℕ
  pub updated_at : ℕ
  pub history : List HistoryEntry

-- FireRecord.assigned_node
abbrev pub assigned_node : FireRecord → Option String
assigned_node rec = head? rec.assigned_nodes

abbrev pub is_terminal : FireRecord → Bool
is_terminal rec = is_terminal_fire rec.state

-- a row of the table fire_states
pub record FireRow : Type 0 where
  pub fire_id : String
  pub state : FireStatus
  pub zone : String
  pub severity : String
  pub sensor_id : String
  pub location : Option Coord
  pub assigned_node : Option String
  pub mission_id : Option String
  pub created_at : ℕ
  pub updated_at : ℕ
  pub history : List HistoryEntry

abbrev to_row : FireRecord → FireRow
to_row rec = record {
  fire_id = rec.fire_id;
  state = rec.state;
  zone = rec.zone;
  severity = rec.severity;
  sensor_id = rec.sensor_id;
  location = rec.location_coords;
  assigned_node = assigned_node rec;
  mission_id = rec.mission_id;
  created_at = rec.created_at;
  updated_at = rec.updated_at;
  history = rec.history;
}

-- `ON CONFLICT(fire_id) DO UPDATE` leaves `created_at` as it is
abbrev on_conflict : Option FireRow → FireRow → FireRow
on_conflict none row = row
on_conflict (some old) row = record row { created_at = old.created_at }

-- FireStateRepository.upsert
unfoldable pub upsert : Dict FireRow → FireRecord → Dict FireRow
upsert rows rec = Dict.put rows rec.fire_id (on_conflict (Dict.get rows rec.fire_id) (to_row rec))

-- `[node] if node else []`
abbrev nodes_of_row : Option String → List String
nodes_of_row none = []
nodes_of_row (some node) = if node == "" then [] else node ∷ []

-- FireStateRepository._row_to_record
unfoldable pub row_to_record : FireRow → FireRecord
row_to_record row = record {
  fire_id = row.fire_id;
  state = row.state;
  zone = row.zone;
  severity = row.severity;
  sensor_id = row.sensor_id;
  location_coords = row.location;
  assigned_nodes = nodes_of_row row.assigned_node;
  leader_term = 0;
  mission_id = row.mission_id;
  created_at = row.created_at;
  updated_at = row.updated_at;
  history = row.history;
}

pub record FireStateStore : Type 0 where
  pub fires : Dict FireRecord
  pub repo : Option (Dict FireRow)

-- the loop of __init__ over FireStateRepository.get_all
hydrate_rows : Dict FireRow → Dict FireRecord → Dict FireRecord
hydrate_rows [] fires = fires
hydrate_rows ((k, row) ∷ rows) fires =
    let rec = row_to_record row in hydrate_rows rows (Dict.put fires rec.fire_id rec)

-- FireStateStore.__init__(db)
unfoldable pub open_store : Option (Dict FireRow) → FireStateStore
unfolding hydrate_rows
open_store none = record { fires = []; repo = none }
open_store (some rows) = record { fires = hydrate_rows rows []; repo = some rows }

abbrev persist : Option (Dict FireRow) → FireRecord → Option (Dict FireRow)
persist none rec = none
persist (some rows) rec = some (upsert rows rec)

-- `self._fires[fire_id] = rec`, then the upsert if there is a repository
unfoldable pub save : FireStateStore → String → FireRecord → FireStateStore
save s fire_id rec = record s { fires = Dict.put s.fires fire_id rec; repo = persist s.repo rec }

abbrev history_entry : FireStatus → String → ℕ → HistoryEntry
history_entry state reason now = record { state = state; reason = reason; timestamp = now }

abbrev extend : List HistoryEntry → HistoryEntry → List HistoryEntry
extend history entry = history ++ entry ∷ []

-- `reason or default`
abbrev reason_or : String → String → String
reason_or reason default = if reason == "" then default else reason

abbrev pub new_fire : String → String → String → String → Option Coord → ℕ → FireRecord
new_fire fire_id zone severity sensor_id location now = record {
  fire_id = fire_id;
  state = ignited;
  zone = zone;
  severity = severity;
  sensor_id = sensor_id;
  location_coords = location;
  assigned_nodes = [];
  leader_term = 0;
  mission_id = none;
  created_at = now;
  updated_at = now;
  history = history_entry ignited "fire_detected" now ∷ [];
}

unfoldable pub ignite :
    String
    → String
    → String
    → String
    → Option Coord
    → ℕ
    → FireStateStore
    → FireStateStore × FireRecord
ignite fire_id zone severity sensor_id location now s = elim (Dict.get s.fires fire_id) [
  | some rec ↦ (s, rec)
  | none ↦
      let rec = new_fire fire_id zone severity sensor_id location now in (save s fire_id rec, rec)
]

-- `if node is not None and node not in nodes: nodes.append(node)`
abbrev add_node : List String → Option String → List String
add_node nodes none = nodes
add_node nodes (some node) = if contains nodes node then nodes else nodes ++ node ∷ []

abbrev set_mission : Option String → Option String → Option String
set_mission none old = old
set_mission (some m) old = some m

abbrev pub moved : FireRecord → FireStatus → String → Option String → Option String → ℕ → FireRecord
moved rec new_state reason node mission now = record rec {
  state = new_state;
  updated_at = now;
  history = extend rec.history (history_entry new_state reason now);
  assigned_nodes = add_node rec.assigned_nodes node;
  mission_id = set_mission mission rec.mission_id;
}

unfoldable pub transition :
    String
    → FireStatus
    → String
    → Option String
    → Option String
    → ℕ
    → FireStateStore
    → FireStateStore × Option FireRecord
transition fire_id new_state reason node mission now s = elim (Dict.get s.fires fire_id) [
  | none ↦ (s, none)
  | some rec ↦
      if is_terminal rec
      then (s, some rec)
      else if fire_allowed rec.state new_state
      then (let rec' = moved rec new_state reason node mission now in
          (save s fire_id rec', some rec'))
      else (s, none)
]

abbrev touched : FireRecord → String → String → ℕ → FireRecord
touched rec reason default now = record rec {
  updated_at = now;
  history = extend rec.history (history_entry rec.state (reason_or reason default) now);
}

-- `None` clears the list
abbrev assign_nodes : List String → Option String → List String
assign_nodes nodes none = []
assign_nodes nodes (some node) = add_node nodes (some node)

unfoldable pub assign_node :
    String → Option String → String → ℕ → FireStateStore → FireStateStore × Option FireRecord
assign_node fire_id node reason now s = elim (Dict.get s.fires fire_id) [
  | none ↦ (s, none)
  | some rec ↦
      let rec' = record (touched rec reason "assigned_node_changed" now) {
        assigned_nodes = assign_nodes rec.assigned_nodes node;
      } in
      (save s fire_id rec', some rec')
]

abbrev pub add_assigned_node :
    String → String → String → ℕ → FireStateStore → FireStateStore × Option FireRecord
add_assigned_node fire_id node = assign_node fire_id (some node)

unfoldable pub remove_assigned_node :
    String → String → String → ℕ → FireStateStore → FireStateStore × Option FireRecord
remove_assigned_node fire_id node reason now s = elim (Dict.get s.fires fire_id) [
  | none ↦ (s, none)
  | some rec ↦
      let nodes = without rec.assigned_nodes node in
      if eqb (length nodes) (length rec.assigned_nodes)
      then (s, some rec)
      else let rec' = record (touched rec reason "remove_assigned_node" now) {
        assigned_nodes = nodes;
      } in
        (save s fire_id rec', some rec')
]

unfoldable pub update_severity :
    String → String → String → ℕ → FireStateStore → FireStateStore × Option FireRecord
update_severity fire_id severity reason now s = elim (Dict.get s.fires fire_id) [
  | none ↦ (s, none)
  | some rec ↦
      if rec.severity == severity
      then (s, some rec)
      else let rec' = record (touched rec reason "severity_update" now) { severity = severity } in
        (save s fire_id rec', some rec')
]

unfoldable pub update_leader_term :
    String → ℕ → String → ℕ → FireStateStore → FireStateStore × Option FireRecord
update_leader_term fire_id term reason now s = elim (Dict.get s.fires fire_id) [
  | none ↦ (s, none)
  | some rec ↦
      if eqb rec.leader_term term
      then (s, some rec)
      else let rec' = record (touched rec reason "leader_term_update" now) { leader_term = term } in
        (save s fire_id rec', some rec')
]

abbrev pub get : FireStateStore → String → Option FireRecord
get s fire_id = Dict.get s.fires fire_id

abbrev upsert_found : Option FireRecord → Option (Dict FireRow) → Option (Dict FireRow)
upsert_found (some rec) (some rows) = some (upsert rows rec)
upsert_found _ repo = repo

-- `self.fires._repo.upsert(self.fires.get(fire_id))` of CommanderCore, if there is a repository
abbrev pub upsert_again : String → FireStateStore → FireStateStore
upsert_again fire_id s = record s { repo = upsert_found (get s fire_id) s.repo }
