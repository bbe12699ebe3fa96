-- ===== src/Nodes/Selection.antt =====
-- The queries of NodeRegistry over all nodes, in the order of registration.
pub mod Eligible
use mathlib.Core.Option
use wfc.Prelude.{
  least_of, ℕ, ◌+◌, ◌*◌, ◌-◌, Bool, true, false, ◌&&◌, ◌||◌, not, String, Option, none, some, List,
  [], ◌∷◌, ◌==◌, ltb, leb, holds, is_none, contains, if◌then◌else◌,
}
use wfc.Dict.Select.{select_keys, select_values}
use wfc.Shared.Status.{is_active_node}
use wfc.Shared.Commands.{Coord}
use wfc.Nodes.{NodeRecord, NodeRegistry, is_offline}

-- `capability in rec.capabilities and rec.status == ACTIVE`
abbrev pub is_capable : String → NodeRecord → Bool
is_capable capability rec = contains rec.capabilities capability && is_active_node rec.status

-- `not idle_only or rec.current_job is None`
abbrev pub is_free : Bool → NodeRecord → Bool
is_free idle_only rec = not idle_only || is_none rec.current_job

unfoldable pub get_alive : NodeRegistry → List String
get_alive s = select_keys (λ rec. is_active_node rec.status) s.nodes

unfoldable pub get_dead : NodeRegistry → List String
get_dead s = select_keys (λ rec. is_offline rec.status) s.nodes

unfoldable pub get_by_type : String → NodeRegistry → List String
get_by_type node_type s =
    select_keys (λ rec. rec.node_type == node_type && is_active_node rec.status) s.nodes

unfoldable pub get_by_capability : String → NodeRegistry → List String
get_by_capability capability s = select_keys (is_capable capability) s.nodes

abbrev pub is_available : String → NodeRecord → Bool
is_available capability rec = is_capable capability rec && is_none rec.current_job

unfoldable pub get_available : String → NodeRegistry → List String
get_available capability s = select_keys (is_available capability) s.nodes

abbrev pub is_in_zone : String → String → Bool → NodeRecord → Bool
is_in_zone capability zone idle_only rec =
    is_capable capability rec && holds rec.zone zone && is_free idle_only rec

unfoldable pub get_in_zone : String → String → Bool → NodeRegistry → List String
get_in_zone capability zone idle_only s = select_keys (is_in_zone capability zone idle_only) s.nodes

abbrev gap : ℕ → ℕ → ℕ
gap a b = (a - b) + (b - a)

-- the square of _distance
unfoldable pub sq_distance : Coord → Coord → ℕ
sq_distance a b = gap a.0 b.0 * gap a.0 b.0 + gap a.1 b.1 * gap a.1 b.1

abbrev distance_from : Coord → Option Coord → ℕ
distance_from target none = 0
distance_from target (some here) = sq_distance here target

-- `_distance(rec.location, location)` of a record that has a location
abbrev pub distance_of : Coord → NodeRecord → ℕ
distance_of target rec = distance_from target rec.location

abbrev pub is_candidate : String → Bool → NodeRecord → Bool
is_candidate capability idle_only rec =
    is_capable capability rec && not (is_none rec.location) && is_free idle_only rec

unfoldable pub get_closest : String → Coord → Bool → NodeRegistry → Option String
get_closest capability target idle_only s =
    Option.map (λ rec. rec.node_id)
      (least_of (distance_of target) (select_values (is_candidate capability idle_only) s.nodes))
