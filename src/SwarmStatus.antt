-- ===== src/SwarmStatus.antt =====
-- Commander_Repo/core/state/swarm_status_store.py: the last snapshot of each leader.
use wfc.Prelude.{ℕ, ◌+◌, Bool, true, String, Option, none, some, List, is_none, holds, ltb, not}
use wfc.Dict
use wfc.Dict.{Dict}
use wfc.Dict.Select.{select_values}
use wfc.Rules.{SwarmSnapshot}

abbrev pub SwarmStatusStore : Type 0
SwarmStatusStore = Dict SwarmSnapshot

unfoldable pub update : SwarmSnapshot → SwarmStatusStore → SwarmStatusStore
update snapshot s = Dict.put s snapshot.leader_id snapshot

unfoldable pub get : SwarmStatusStore → String → Option SwarmSnapshot
get s leader_id = Dict.get s leader_id

unfoldable pub get_for_fire : SwarmStatusStore → String → List SwarmSnapshot
get_for_fire s fire_id = select_values (λ snap. holds snap.fire_id fire_id) s

-- the values of get_all_active_dict, whose keys are the leaders of the snapshots
unfoldable pub get_all_active : SwarmStatusStore → List SwarmSnapshot
get_all_active s = select_values (λ snap. not (is_none snap.fire_id)) s

abbrev is_older : ℕ → ℕ → Option SwarmSnapshot → Bool
is_older max_age now none = true
is_older max_age now (some snap) = ltb (snap.timestamp + max_age) now

unfoldable pub is_stale : SwarmStatusStore → String → ℕ → ℕ → Bool
is_stale s leader_id max_age now = is_older max_age now (Dict.get s leader_id)
