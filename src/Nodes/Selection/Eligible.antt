-- ===== src/Nodes/Selection/Eligible.antt =====
-- What the queries of NodeRegistry select: nodes that may be sent a command, and the nearest of them.
use mathlib.Core.Option
use wfc.Prelude.{
  least_of, least_of-mem, least_of-le, Option, ◌≤◌, ◌≡◌, refl, Bool, true, String, none, some,
  arith, Memᴰ, contains,
}
use wfc.Dict.{IsUnique}
use wfc.Dict.Select.{
  select_values, select_keys_sound, select_keys_complete, select_values_sound,
  select_values_complete,
}
use wfc.Shared.Status.{active}
use wfc.Shared.Commands.{Coord}
use wfc.Nodes.{NodeRecord, NodeRegistry, get}
use wfc.Nodes.Selection.{is_candidate, is_available, distance_of, get_available, get_closest}

-- a node that may be sent a command that wants the capability
pub record IsIdle (capability : String) (r : NodeRecord) : Type 0 where
  pub able : contains r.capabilities capability ≡ true
  pub alive : r.status ≡ active
  pub free : r.current_job ≡ none

available-IsIdle :
    (capability : String) (r : NodeRecord) → is_available capability r ≡ true → IsIdle capability r
available-IsIdle capability r h = record {
  able = ground arith;
  alive = ground arith;
  free = ground arith;
}

IsIdle-available :
    (capability : String) (r : NodeRecord) → IsIdle capability r → is_available capability r ≡ true
IsIdle-available capability r h = ground arith

module _ (capability : String) (s : NodeRegistry) (u : IsUnique s.nodes) where
  -- get_available lists a node exactly if it is registered, has the capability, is ACTIVE and has no
  -- job.
  pub get_available_exact :
      (n : String)
      → (Memᴰ n (get_available capability s)
          → (r : NodeRecord) × (get s n ≡ some r) × IsIdle capability r)
        × ((r : NodeRecord)
            → get s n ≡ some r
            → IsIdle capability r
            → Memᴰ n (get_available capability s))
  unfolding get_available
  get_available_exact n = (
    λ m.
        let (r, g, h) = select_keys_sound (is_available capability) s.nodes n u m in
        (r, g, available-IsIdle capability r h),
    λ r g h.
        select_keys_complete (is_available capability) s.nodes n r g
          (IsIdle-available capability r h),
  )

-- the record whose id is found
id_cases :
    (o : Option NodeRecord) (n : String)
    → Option.map (λ rec. rec.node_id) o ≡ some n
    → (r : NodeRecord) × (o ≡ some r) × (r.node_id ≡ n)
id_cases none n h = cc
id_cases (some r) n h = (r, refl, ground arith)

-- get_closest returns a registered node that is ACTIVE, has the capability and a location, has no
-- job if only idle nodes are asked for, and is as near as any other such node.
pub get_closest_nearest :
    (capability : String) (target : Coord) (idle_only : Bool) (s : NodeRegistry) (n : String)
    → IsUnique s.nodes
    → get_closest capability target idle_only s ≡ some n
    → (k : String) × (best : NodeRecord) × (get s k ≡ some best)
      × (best.node_id ≡ n)
      × (is_candidate capability idle_only best ≡ true)
      × ((j : String) (r : NodeRecord)
          → get s j ≡ some r
          → is_candidate capability idle_only r ≡ true
          → distance_of target best ≤ distance_of target r)
unfolding get_closest
get_closest_nearest capability target idle_only s n u h =
    let p = is_candidate capability idle_only in
    let key = distance_of target in
    let near = select_values p s.nodes in
    let (best, found, id) = id_cases (least_of key near) n h in
    let (k, g, ok) = select_values_sound p s.nodes best u (least_of-mem key near best found) in
    (
      k,
      best,
      g,
      id,
      ok,
      λ j r gr cand.
          least_of-le key near best r found (select_values_complete p s.nodes j r gr cand),
    )
