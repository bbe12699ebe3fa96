-- ===== src/Missions.antt =====
-- Commander_Repo/core/state/mission_store.py with the table of
-- core/persistence/repositories/mission_repo.py. A method returns the new store and its result;
-- `now` is the reading of the clock in the call, and `mission_id` the id that uuid4 gives.
pub mod Single
pub mod Sync
pub mod Eviction
use wfc.Prelude.{
  ℕ, ◌+◌, Bool, true, false, ◌&&◌, not, String, Option, none, some, List, [], ◌∷◌, ◌++◌, ◌==◌, ltb,
  leb, eqb, or_else, map, length, if◌then◌else◌,
}
use wfc.Dict
use wfc.Dict.{Dict}
use wfc.Dict.Select.{select_values}
use wfc.Shared.Status.{MissionStatus, created, mission_allowed, is_terminal_mission}

pub record MissionEntry : Type 0 where
  pub state : MissionStatus
  pub reason : String
  pub timestamp : ℕ

-- a MissionRecord; a row of the table missions has the same fields
pub record MissionRecord : Type 0 where
  pub mission_id : String
  pub fire_id : String
  pub state : MissionStatus
  pub assigned_node : Option String
  pub created_at : ℕ
  pub updated_at : ℕ
  pub history : List MissionEntry

abbrev pub is_terminal : MissionRecord → Bool
is_terminal rec = is_terminal_mission rec.state

pub record MissionStore : Type 0 where
  pub missions : Dict MissionRecord
  pub fire_index : Dict String
  pub repo : Option (Dict MissionRecord)

-- `ON CONFLICT(mission_id) DO UPDATE` leaves `fire_id` and `created_at` as they are
abbrev on_conflict : Option MissionRecord → MissionRecord → MissionRecord
on_conflict none row = row
on_conflict (some old) row = record row { fire_id = old.fire_id; created_at = old.created_at }

-- MissionRepository.upsert
unfoldable pub upsert : Dict MissionRecord → MissionRecord → Dict MissionRecord
upsert rows rec = Dict.put rows rec.mission_id (on_conflict (Dict.get rows rec.mission_id) rec)

abbrev persist : Option (Dict MissionRecord) → MissionRecord → Option (Dict MissionRecord)
persist none rec = none
persist (some rows) rec = some (upsert rows rec)

-- the loop of _hydrate over MissionRepository.get_all
hydrate_rows : Dict MissionRecord → MissionStore → MissionStore
hydrate_rows [] s = s
hydrate_rows ((k, rec) ∷ rows) s =
    let s' = record s {
      missions = Dict.put s.missions rec.mission_id rec;
      fire_index =
          if rec.fire_id == ""
          then s.fire_index
          else Dict.put s.fire_index rec.fire_id rec.mission_id;
    } in
    hydrate_rows rows s'

-- MissionStore.__init__(db)
unfoldable pub open_store : Option (Dict MissionRecord) → MissionStore
unfolding hydrate_rows
open_store none = record { missions = []; fire_index = []; repo = none }
open_store (some rows) =
    hydrate_rows rows (record { missions = []; fire_index = []; repo = some rows })

abbrev entry : MissionStatus → String → ℕ → MissionEntry
entry state reason now = record { state = state; reason = reason; timestamp = now }

abbrev pub new_mission : String → String → ℕ → MissionRecord
new_mission mission_id fire_id now = record {
  mission_id = mission_id;
  fire_id = fire_id;
  state = created;
  assigned_node = none;
  created_at = now;
  updated_at = now;
  history = entry created "mission_created" now ∷ [];
}

-- `self._missions.get(id) if id else None`
abbrev by_id : Dict MissionRecord → Option String → Option MissionRecord
by_id missions none = none
by_id missions (some id) = if id == "" then none else Dict.get missions id

unfoldable pub get_for_fire : MissionStore → String → Option MissionRecord
get_for_fire s fire_id = by_id s.missions (Dict.get s.fire_index fire_id)

-- the mission that `create` finds for the fire: one that is not terminal
abbrev still_open : Option MissionRecord → Option MissionRecord
still_open none = none
still_open (some rec) = if is_terminal rec then none else some rec

unfoldable pub create : String → String → ℕ → MissionStore → MissionStore × MissionRecord
unfolding get_for_fire
create mission_id fire_id now s = elim (still_open (get_for_fire s fire_id)) [
  | some existing ↦ (s, existing)
  | none ↦
      let rec = new_mission mission_id fire_id now in
      (
        record {
          missions = Dict.put s.missions mission_id rec;
          fire_index = Dict.put s.fire_index fire_id mission_id;
          repo = persist s.repo rec;
        },
        rec,
      )
]

abbrev set_leader : Option String → Option String → Option String
set_leader none old = old
set_leader (some leader) old = some leader

abbrev moved : MissionRecord → MissionStatus → String → Option String → ℕ → MissionRecord
moved rec new_state reason leader now = record rec {
  state = new_state;
  updated_at = now;
  assigned_node = set_leader leader rec.assigned_node;
  history = rec.history ++ entry new_state reason now ∷ [];
}

unfoldable pub transition :
    String
    → MissionStatus
    → String
    → Option String
    → ℕ
    → MissionStore
    → MissionStore × Option MissionRecord
transition mission_id new_state reason leader now s = elim (Dict.get s.missions mission_id) [
  | none ↦ (s, none)
  | some rec ↦
      if is_terminal rec
      then (s, some rec)
      else if mission_allowed rec.state new_state
      then (let rec' = moved rec new_state reason leader now in
          (
            record s { missions = Dict.put s.missions mission_id rec'; repo = persist s.repo rec' },
            some rec',
          ))
      else (s, none)
]

unfoldable pub get_active : MissionStore → List MissionRecord
get_active s = select_values (λ r. not (is_terminal r)) s.missions

-- `m.is_terminal() and m.updated_at < now - max_age_seconds`
abbrev pub is_old : ℕ → ℕ → MissionRecord → Bool
is_old max_age now r = is_terminal r && ltb (r.updated_at + max_age) now

-- the loop of evict_terminal
evict : List MissionRecord → MissionStore → MissionStore
evict [] s = s
evict (rec ∷ recs) s = evict recs (record s {
  missions = Dict.pop s.missions rec.mission_id;
  fire_index = Dict.pop s.fire_index rec.fire_id;
})

-- MissionRepository.delete_terminal
delete_terminal : ℕ → ℕ → Dict MissionRecord → Dict MissionRecord
delete_terminal max_age now [] = []
delete_terminal max_age now ((k, r) ∷ rows) =
    let rest = delete_terminal max_age now rows in
    if is_old max_age now r then rest else (k, r) ∷ rest

abbrev delete_rows :
    ℕ → ℕ → List MissionRecord → Option (Dict MissionRecord) → Option (Dict MissionRecord)
delete_rows max_age now (r ∷ rs) (some rows) = some (delete_terminal max_age now rows)
delete_rows max_age now _ repo = repo

-- the table's deletion reads the clock again, which is taken to be the same reading
unfoldable pub evict_terminal : ℕ → ℕ → MissionStore → MissionStore × ℕ
unfolding evict delete_terminal
evict_terminal max_age now s =
    let to_evict = select_values (is_old max_age now) s.missions in
    let s' = evict to_evict s in
    (record s' { repo = delete_rows max_age now to_evict s'.repo }, length to_evict)
