-- ===== src/Fires/Sync/Merge.antt =====
-- The merge of a snapshot: leaders are united, terms only grow, and two commanders agree after it.
use wfc.Prelude.{
  ℕ, max, ◌<◌, ◌≡◌, ◌≢◌, refl, Bool, true, false, ◌||◌, String, some, List, [], ◌∷◌, ◌++◌, arith,
  leb, eqb, contains, contains-append, eq_iff, if◌then◌else◌, IsDistinct, append-IsDistinct,
}
use wfc.Dict.{get-put, get-put_self}
use wfc.Fires.{FireRecord, FireStateStore, get, save}
use wfc.Fires.Sync.{snapshot, from_keys, merged_nodes, merged, apply_snapshot_record}

from_keys-IsDistinct : (seen xs : List String) → IsDistinct seen → IsDistinct (from_keys seen xs)
unfolding from_keys
from_keys-IsDistinct seen [] d = d
from_keys-IsDistinct seen (x ∷ xs) d =
    from_keys-IsDistinct (if contains seen x then seen else seen ++ x ∷ []) xs
      (grown (contains seen x) refl)
  where
    grown : (b : Bool) → contains seen x ≡ b → IsDistinct (if b then seen else seen ++ x ∷ [])
    grown true e = d
    grown false e = append-IsDistinct seen x d e

contains-from_keys :
    (seen xs : List String) (y : String)
    → contains (from_keys seen xs) y ≡ (contains seen y || contains xs y)
unfolding from_keys contains
contains-from_keys seen [] y = ground arith
contains-from_keys seen (x ∷ xs) y = ground (
  arith,
  contains-from_keys (if contains seen x then seen else seen ++ x ∷ []) xs y,
  contains-append seen (x ∷ []) y,
  eq_iff x y,
)

-- The leaders of a merge are those of either side, each once.
pub merged_nodes_union :
    (a b : List String)
    → IsDistinct (merged_nodes a b)
      × ((y : String) → contains (merged_nodes a b) y ≡ (contains a y || contains b y))
unfolding merged_nodes contains
merged_nodes_union a b = (
  from_keys-IsDistinct [] (a ++ b) tt,
  λ y. ground (arith, contains-from_keys [] (a ++ b) y, contains-append a b y),
)

module _ (k : String) (s : FireStateStore) (a b : FireRecord) (now : ℕ) where
  -- Commander A has record `a` of a fire and is sent the snapshot of a newer record `b`: it takes
  -- over the state, zone, severity, sensor, place, mission and time of `b`, unites the leaders, keeps
  -- the larger term and its own creation time and history, and changes no other fire.
  pub newer_applies :
      get s k ≡ some a
      → a.updated_at < b.updated_at
      → (r : FireRecord) × (apply_snapshot_record k (snapshot b) now s ≡ some (save s k r, true))
        × (snapshot r ≡ record (snapshot b) {
          fire_id = some k;
          assigned_nodes = some (merged_nodes a.assigned_nodes b.assigned_nodes);
          leader_term = some (max b.leader_term a.leader_term);
        })
        × (r.created_at ≡ a.created_at)
        × (r.history ≡ a.history)
        × ((j : String) → k ≢ j → get (save s k r) j ≡ get s j)
  unfolding apply_snapshot_record save
  newer_applies g newer =
      let older : leb b.updated_at a.updated_at ≡ false = ground arith in
      let nonzero : eqb b.updated_at 0 ≡ false = ground arith in
      (
        merged k (snapshot b) b.state b.zone b.severity b.sensor_id (some a) now,
        rw g (rw older refl),
        rw nonzero refl,
        refl,
        refl,
        λ j ne. ground (
          arith,
          get-put s.fires k j
              (merged k (snapshot b) b.state b.zone b.severity b.sensor_id (some a) now),
          eq_iff k j,
        ),
      )

  -- After that exchange neither side has news for the other: the snapshot of `b` sent again, and the
  -- merged record sent to a commander that still has `b`, are both refused and change nothing.
  pub exchange_settles :
      (later : ℕ) (t : FireStateStore)
      → get s k ≡ some a
      → get t k ≡ some b
      → a.updated_at < b.updated_at
      → (r : FireRecord) × (apply_snapshot_record k (snapshot b) now s ≡ some (save s k r, true))
        × (apply_snapshot_record k (snapshot b) later (save s k r) ≡ some (save s k r, false))
        × (apply_snapshot_record k (snapshot r) later t ≡ some (t, false))
  unfolding apply_snapshot_record save
  exchange_settles later t g h newer =
      let older : leb b.updated_at a.updated_at ≡ false = ground arith in
      let nonzero : eqb b.updated_at 0 ≡ false = ground arith in
      let equal : leb b.updated_at b.updated_at ≡ true = ground arith in
      let r = merged k (snapshot b) b.state b.zone b.severity b.sensor_id (some a) now in
      (
        r,
        rw g (rw older refl),
        rw (get-put_self s.fires k r) (rw nonzero (rw equal refl)),
        rw h (rw nonzero (rw equal refl)),
      )
