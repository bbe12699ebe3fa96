-- ===== src/Missions/Eviction.antt =====
-- evict_terminal: which missions go, and what it does to the index by fire.
use mathlib.Core.Path.{subst}
use wfc.Prelude.{
  ℕ, ◌≡◌, ◌≢◌, refl, ◌∙◌, Bool, true, false, String, Option, none, some, List, [], ◌∷◌, map, arith,
  ◌==◌, eq_iff, eq_refl, inl, inr, Bool-cases, contains, if◌then◌else◌,
}
use wfc.Dict
use wfc.Dict.{Dict, get-put, get-pop, IsUnique}
use wfc.Dict.Select.{select_values}
use wfc.Missions.{
  MissionRecord, MissionStore, is_terminal, is_old, new_mission, get_for_fire, create, evict,
  evict_terminal,
}
use wfc.Missions.Single.{IsIndexed}

abbrev ids : List MissionRecord → List String
ids = map (λ r. r.mission_id)

abbrev fires : List MissionRecord → List String
fires = map (λ r. r.fire_id)

missions-evict :
    (recs : List MissionRecord) (s : MissionStore) (k : String)
    → Dict.get (evict recs s).missions k
      ≡ (if contains (ids recs) k then none else Dict.get s.missions k)
unfolding evict contains
missions-evict [] s k = refl
missions-evict (r ∷ recs) s k =
    missions-evict recs
      (record s {
        missions = Dict.pop s.missions r.mission_id;
        fire_index = Dict.pop s.fire_index r.fire_id;
      })
      k
    ∙ ground (arith, get-pop s.missions r.mission_id k)

fire_index-evict :
    (recs : List MissionRecord) (s : MissionStore) (k : String)
    → Dict.get (evict recs s).fire_index k
      ≡ (if contains (fires recs) k then none else Dict.get s.fire_index k)
unfolding evict contains
fire_index-evict [] s k = refl
fire_index-evict (r ∷ recs) s k =
    fire_index-evict recs
      (record s {
        missions = Dict.pop s.missions r.mission_id;
        fire_index = Dict.pop s.fire_index r.fire_id;
      })
      k
    ∙ ground (arith, get-pop s.fire_index r.fire_id k)

module _ (p : MissionRecord → Bool) where
  -- a field of a selected record is among those of the selection
  contains_selected :
      (f : MissionRecord → String) (d : Dict MissionRecord) (k : String) (r : MissionRecord)
      → Dict.get d k ≡ some r
      → p r ≡ true
      → contains (map f (select_values p d)) (f r) ≡ true
  unfolding contains select_values Dict.get
  contains_selected f [] k r g h = cc
  contains_selected f ((j, w) ∷ d) k r g h = elim (Bool-cases (j == k)) [
    | inl e ↦ let q : w ≡ r = ground arith in rw (q, h) (rw (eq_refl (f r)) refl)
    | inr e ↦ ground (arith, contains_selected f d k r (ground arith) h)
  ]

  -- the id of a record that is not selected is not among those of the selection
  contains_unselected :
      (d : Dict MissionRecord) (k : String)
      → IsUnique d
      → ((j : String) (r : MissionRecord) → Dict.get d j ≡ some r → r.mission_id ≡ j)
      → ((r : MissionRecord) → Dict.get d k ≡ some r → p r ≡ false)
      → contains (ids (select_values p d)) k ≡ false
  unfolding contains select_values Dict.get
  contains_unselected [] k u keyed h = refl
  contains_unselected ((j, w) ∷ d) k u keyed h =
      let id : w.mission_id ≡ j = keyed j w (rw (eq_refl j)) in
      let rest =
        contains_unselected d k u.1 (λ i r g. keyed i r (ground (arith, eq_iff j i, u.0)))
          (λ r g. h r (ground (arith, eq_iff j k, u.0))) in
      ground (arith, rest, h w, eq_iff w.mission_id k, eq_iff j k)

-- what an eviction leaves of a lookup
abbrev pub keep_young : ℕ → ℕ → Option MissionRecord → Option MissionRecord
keep_young max_age now none = none
keep_young max_age now (some r) = if is_old max_age now r then none else some r

-- `create` for a fire with no mission in the index adds one and touches no other
created_beside :
    (fresh f : String) (later : ℕ) (s : MissionStore) (m : String) (q : MissionRecord)
    → get_for_fire s f ≡ none
    → Dict.get s.missions m ≡ some q
    → fresh ≢ m
    → let s' = (create fresh f later s).0 in
      (Dict.get s'.missions m ≡ some q)
      × (Dict.get s'.missions fresh ≡ some (new_mission fresh f later))
unfolding create
created_beside fresh f later s m q none_found g ne =
    rw (none_found, create)
      (
        ground (arith, get-put s.missions fresh m (new_mission fresh f later), eq_iff fresh m),
        ground (arith, get-put s.missions fresh fresh (new_mission fresh f later), eq_refl fresh),
      )

module _ (max_age now : ℕ) (s : MissionStore) (u : IsUnique s.missions) (v : IsIndexed s) where
  -- An eviction takes out of memory exactly the missions that are terminal and older than
  -- `max_age`: every other mission is looked up as before.
  pub evict_exact :
      (k : String)
      → Dict.get (evict_terminal max_age now s).0.missions k
        ≡ keep_young max_age now (Dict.get s.missions k)
  unfolding evict_terminal
  evict_exact k = missions-evict old s k ∙ by_case (Dict.get s.missions k) refl
    where
      old : List MissionRecord
      old = select_values (is_old max_age now) s.missions

      by_case :
          (o : Option MissionRecord)
          → Dict.get s.missions k ≡ o
          → (if contains (ids old) k then none else Dict.get s.missions k)
            ≡ keep_young max_age now o
      by_case none e = ground arith
      by_case (some r) e = elim (Bool-cases (is_old max_age now r)) [
        | inl y ↦ ground (
          arith,
          v.keyed k r e,
          contains_selected (is_old max_age now) (λ q. q.mission_id) s.missions k r e y,
        )
        | inr n ↦ ground (
          arith,
          contains_unselected (is_old max_age now) s.missions k u v.keyed (λ q g. ground arith),
        )
      ]

  -- no index entry is left of the fire of an evicted mission
  index_dropped :
      (k : String) (r : MissionRecord)
      → Dict.get s.missions k ≡ some r
      → is_old max_age now r ≡ true
      → get_for_fire (evict_terminal max_age now s).0 r.fire_id ≡ none
  unfolding evict_terminal get_for_fire
  index_dropped k r g old =
      let dropped = fire_index-evict (select_values (is_old max_age now) s.missions) s r.fire_id in
      ground (
        arith,
        dropped,
        contains_selected (is_old max_age now) (λ q. q.fire_id) s.missions k r g old,
      )

  -- The eviction of an old mission drops the index entry of its fire, also where that entry leads to
  -- a newer mission that is active: the active mission stays in memory, `get_for_fire` no longer
  -- finds it, and the next `create` for the fire makes a second active mission.
  pub evict_allows_second :
      (k m fresh : String) (r q : MissionRecord) (later : ℕ)
      → Dict.get s.missions k ≡ some r
      → is_old max_age now r ≡ true
      → Dict.get s.missions m ≡ some q
      → is_terminal q ≡ false
      → r.fire_id ≡ q.fire_id
      → fresh ≢ m
      → let s' = (evict_terminal max_age now s).0 in
        let s'' = (create fresh q.fire_id later s').0 in
        (get_for_fire s' q.fire_id ≡ none)
        × (Dict.get s''.missions m ≡ some q)
        × (Dict.get s''.missions fresh ≡ some (new_mission fresh q.fire_id later))
  evict_allows_second k m fresh r q later gk old gm act same ne =
      let lost : get_for_fire (evict_terminal max_age now s).0 q.fire_id ≡ none =
        subst (λ f. get_for_fire (evict_terminal max_age now s).0 f ≡ none) same
          (index_dropped k r gk old) in
      let kept : Dict.get (evict_terminal max_age now s).0.missions m ≡ some q =
        rw (evict_exact m, gm) (ground arith) in
      let (beside, second) =
        created_beside fresh q.fire_id later (evict_terminal max_age now s).0 m q lost kept ne in
      (lost, beside, second)
