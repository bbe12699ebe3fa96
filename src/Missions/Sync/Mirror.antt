-- ===== src/Missions/Sync/Mirror.antt =====
-- The repair of the index by a merge, so that a promoted backup makes no second mission.
use wfc.Prelude.{ℕ, ◌≡◌, refl, true, false, String, some, ◌==◌}
use wfc.Dict
use wfc.Dict.{get-put_self}
use wfc.Missions.{MissionRecord, MissionStore, is_terminal, get_for_fire, create}
use wfc.Missions.Sync.{snapshot, is_stale, merged, mirrored, apply_snapshot_record}

mirrored_found :
    (s : MissionStore) (k f : String) (q : MissionRecord)
    → (k == "") ≡ false
    → (f == "") ≡ false
    → get_for_fire (mirrored s k f q) f ≡ some q
unfolding get_for_fire
mirrored_found s k f q named fire =
    rw (fire, get-put_self s.fire_index f k, named) (get-put_self s.missions k q)

found_is_kept :
    (s : MissionStore) (id f : String) (t : ℕ) (q : MissionRecord)
    → get_for_fire s f ≡ some q
    → is_terminal q ≡ false
    → create id f t s ≡ (s, q)
unfolding create
found_is_kept s id f t q found live = rw (create, found, live) refl

-- After a commander merged the snapshot of another's active mission, which it does unless its own record
-- of it is as new, get_for_fire finds the mission for its fire, with the state, the node and the id of
-- the snapshot, and `create` with any id makes no second mission for the fire.
pub mirror_finds :
    (r : MissionRecord) (s : MissionStore) (now later : ℕ) (id : String)
    → is_terminal r ≡ false
    → (r.mission_id == "") ≡ false
    → (r.fire_id == "") ≡ false
    → is_stale (Dict.get s.missions r.mission_id) r.updated_at ≡ false
    → (s' : MissionStore) × (q : MissionRecord) × (apply_snapshot_record r.mission_id
          (snapshot r)
          now
          s
        ≡ some (s', true))
      × (get_for_fire s' r.fire_id ≡ some q)
      × (q.mission_id ≡ r.mission_id)
      × (q.state ≡ r.state)
      × (q.assigned_node ≡ r.assigned_node)
      × (create id r.fire_id later s' ≡ (s', q))
unfolding apply_snapshot_record
mirror_finds r s now later id live named fire fresh =
    let q =
      merged r.mission_id r.fire_id r.state (snapshot r) (Dict.get s.missions r.mission_id) now in
    let s' = mirrored s r.mission_id r.fire_id q in
    let found : get_for_fire s' r.fire_id ≡ some q =
      mirrored_found s r.mission_id r.fire_id q named fire in
    (
      s',
      q,
      rw fresh refl,
      found,
      refl,
      refl,
      refl,
      found_is_kept s' id r.fire_id later q found live,
    )
