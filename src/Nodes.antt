-- ===== src/Nodes.antt =====
-- Commander_Repo/core/node_registry/registry.py with the table of
-- core/persistence/repositories/node_repo.py. The callback `on_node_available` is reported as the
-- list of its calls; an exception in it is suppressed. Distances are compared by their squares.
pub mod Selection
pub mod Calls
pub mod Status
use wfc.Prelude.{
  ℕ, ◌+◌, ◌*◌, ◌-◌, Bool, true, false, ◌&&◌, ◌||◌, not, String, Option, none, some, List, [], ◌∷◌,
  ◌==◌, ltb, leb, holds, is_none, or_else, contains, if◌then◌else◌, head?,
}
use wfc.Dict
use wfc.Dict.{Dict}
use wfc.Dict.Select.{select_keys, select_values}
use wfc.Shared.Status.{NodeStatus, unregistered, registered, active, offline, is_active_node}
use wfc.Shared.Commands.{Coord}

pub record NodeRecord : Type 0 where
  pub node_id : String
  pub node_type : String
  pub capabilities : List String
  pub status : NodeStatus
  pub last_seen : Option ℕ
  pub registered_at : ℕ
  pub zone : Option String
  pub location : Option Coord
  pub current_job : Option String

pub record NodeRegistry : Type 0 where
  pub nodes : Dict NodeRecord
  -- a row of the table nodes has the fields of the record
  pub repo : Option (Dict NodeRecord)

-- `ON CONFLICT(node_id) DO UPDATE` leaves `registered_at` as it is
abbrev on_conflict : Option NodeRecord → NodeRecord → NodeRecord
on_conflict none row = row
on_conflict (some old) row = record row { registered_at = old.registered_at }

-- NodeRepository.upsert
unfoldable pub upsert : Dict NodeRecord → NodeRecord → Dict NodeRecord
upsert rows rec = Dict.put rows rec.node_id (on_conflict (Dict.get rows rec.node_id) rec)

abbrev persist : Option (Dict NodeRecord) → NodeRecord → Option (Dict NodeRecord)
persist none rec = none
persist (some rows) rec = some (upsert rows rec)

-- `self._nodes[node_id] = rec`, then the upsert if there is a repository
unfoldable pub save : NodeRegistry → String → NodeRecord → NodeRegistry
save s node_id rec = record { nodes = Dict.put s.nodes node_id rec; repo = persist s.repo rec }

-- the loop of __init__ over NodeRepository.get_all
hydrate_rows : Dict NodeRecord → Dict NodeRecord → Dict NodeRecord
hydrate_rows [] nodes = nodes
hydrate_rows ((k, row) ∷ rows) nodes = hydrate_rows rows (Dict.put nodes row.node_id row)

-- NodeRegistry.__init__(db)
unfoldable pub open_registry : Option (Dict NodeRecord) → NodeRegistry
unfolding hydrate_rows
open_registry none = record { nodes = []; repo = none }
open_registry (some rows) = record { nodes = hydrate_rows rows []; repo = some rows }

-- what `register` was told of a node
pub record Announcement : Type 0 where
  pub node_type : String
  pub capabilities : Option (List String)
  pub zone : Option String
  pub location : Option Coord

abbrev pub is_offline : NodeStatus → Bool
is_offline offline = true
is_offline _ = false

abbrev same_texts : List String → List String → Bool
same_texts [] [] = true
same_texts (x ∷ xs) (y ∷ ys) = x == y && same_texts xs ys
same_texts _ _ = false

-- `capabilities is not None and capabilities != existing.capabilities`
abbrev is_news : Option (List String) → List String → Bool
is_news none old = false
is_news (some new) old = not (same_texts new old)

-- `updates` is not empty
abbrev has_updates : NodeRecord → Announcement → Bool
has_updates rec a =
    is_news a.capabilities rec.capabilities
    || not (is_none a.zone)
    || not (is_none a.location)
    || (is_offline rec.status && not (is_none rec.current_job))

abbrev keep_or {ℓ} : {A : Type ℓ} → Option A → Option A → Option A
keep_or none old = old
keep_or (some a) old = some a

abbrev updated : NodeRecord → Announcement → NodeRecord
updated rec a = record rec {
  capabilities =
      if is_news a.capabilities rec.capabilities
      then or_else a.capabilities rec.capabilities
      else rec.capabilities;
  zone = keep_or a.zone rec.zone;
  location = keep_or a.location rec.location;
  current_job = if is_offline rec.status then none else rec.current_job;
}

abbrev pub new_node : String → Announcement → ℕ → NodeRecord
new_node node_id a now = record {
  node_id = node_id;
  node_type = a.node_type;
  capabilities = or_else a.capabilities [];
  status = registered;
  last_seen = none;
  registered_at = now;
  zone = a.zone;
  location = a.location;
  current_job = none;
}

unfoldable pub register : String → Announcement → ℕ → NodeRegistry → NodeRegistry
register node_id a now s = elim (Dict.get s.nodes node_id) [
  | some rec ↦ if has_updates rec a then save s node_id (updated rec a) else s
  | none ↦ save s node_id (new_node node_id a now)
]

-- a call of `on_node_available`
abbrev pub Available : Type 0
Available = String × List String

-- grant_active does not write the table
unfoldable pub grant_active : String → NodeRegistry → NodeRegistry × Option Available
grant_active node_id s = elim (Dict.get s.nodes node_id) [
  | none ↦ (s, none)
  | some rec ↦ elim rec.status [
    | registered ↦ (
      record s { nodes = Dict.put s.nodes node_id (record rec { status = active }) },
      some (node_id, rec.capabilities),
    )
    | _ ↦ (s, none)
  ]
]

-- the status after a heartbeat
abbrev pub revived : NodeStatus → NodeStatus
revived registered = active
revived offline = active
revived status = status

-- `became_active`
abbrev pub becomes_active : NodeStatus → Bool
becomes_active registered = true
becomes_active offline = true
becomes_active _ = false

abbrev seen_alive : NodeRecord → ℕ → NodeRecord
seen_alive rec now = record rec { last_seen = some now; status = revived rec.status }

unfoldable pub heartbeat : String → ℕ → NodeRegistry → NodeRegistry × Option Available
heartbeat node_id now s = elim (Dict.get s.nodes node_id) [
  | none ↦ (s, none)
  | some rec ↦ (
    save s node_id (seen_alive rec now),
    if becomes_active rec.status then some (node_id, rec.capabilities) else none,
  )
]

unfoldable pub mark_offline : String → NodeRegistry → NodeRegistry
mark_offline node_id s = elim (Dict.get s.nodes node_id) [
  | none ↦ s
  | some rec ↦ save s node_id (record rec { status = offline })
]

-- mark_dead
abbrev pub mark_dead : String → NodeRegistry → NodeRegistry
mark_dead = mark_offline

unfoldable pub assign_job : String → String → NodeRegistry → NodeRegistry
assign_job node_id fire_id s = elim (Dict.get s.nodes node_id) [
  | none ↦ s
  | some rec ↦ save s node_id (record rec { current_job = some fire_id })
]

unfoldable pub release_job : String → NodeRegistry → NodeRegistry
release_job node_id s = elim (Dict.get s.nodes node_id) [
  | none ↦ s
  | some rec ↦ save s node_id (record rec { current_job = none })
]

abbrev pub get : NodeRegistry → String → Option NodeRecord
get s node_id = Dict.get s.nodes node_id
