-- ===== src/Missions/Single.antt =====
-- One active mission for a fire.
use wfc.Prelude.{
  ℕ, ◌≡◌, ◌≢◌, refl, ap, false, String, Option, none, some, some, arith, ◌==◌, eq_iff, inl, inr,
  Bool-cases, Option-cases,
}
use wfc.Dict
use wfc.Dict.{get-put}
use wfc.Shared.Status.{MissionStatus, mission_allowed}
use wfc.Missions.{
  MissionRecord, MissionStore, is_terminal, new_mission, moved, still_open, get_for_fire, create,
  transition,
}

-- the index leads from the fire of each active mission to that mission, which stands under its id
pub record IsIndexed (s : MissionStore) : Type 0 where
  pub keyed : (k : String) (r : MissionRecord) → Dict.get s.missions k ≡ some r → r.mission_id ≡ k
  pub named : (k : String) (r : MissionRecord) → Dict.get s.missions k ≡ some r → k ≢ ""
  pub indexed :
      (k : String) (r : MissionRecord)
      → Dict.get s.missions k ≡ some r
      → is_terminal r ≡ false
      → Dict.get s.fire_index r.fire_id ≡ some k

-- Two active missions of one fire are the same mission.
pub one_active_mission :
    (s : MissionStore) (j k : String) (q r : MissionRecord)
    → IsIndexed s
    → Dict.get s.missions j ≡ some q
    → Dict.get s.missions k ≡ some r
    → is_terminal q ≡ false
    → is_terminal r ≡ false
    → q.fire_id ≡ r.fire_id
    → j ≡ k
one_active_mission s j k q r v gj gk aq ar e =
    let p : Dict.get s.fire_index q.fire_id ≡ some j = v.indexed j q gj aq in
    let t : Dict.get s.fire_index r.fire_id ≡ some k = v.indexed k r gk ar in
    ground (arith, p, t, ap (Dict.get s.fire_index) e)

-- an active mission is what `get_for_fire` finds, so that `create` makes no other
pub active_found :
    (s : MissionStore) (k : String) (r : MissionRecord)
    → IsIndexed s
    → Dict.get s.missions k ≡ some r
    → is_terminal r ≡ false
    → get_for_fire s r.fire_id ≡ some r
unfolding get_for_fire
active_found s k r v g a = ground (arith, v.indexed k r g a, v.named k r g, eq_iff k "")

module _ (m f : String) (now : ℕ) (s : MissionStore) (v : IsIndexed s)
    (closed : still_open (get_for_fire s f) ≡ none) where
  -- an active mission is not of the fire that has none
  other_fire :
      (k : String) (r : MissionRecord)
      → Dict.get s.missions k ≡ some r
      → is_terminal r ≡ false
      → f ≢ r.fire_id
  other_fire k r g a e =
      let found : get_for_fire s f ≡ some r = rw e (active_found s k r v g a) in
      ground (arith, found, closed, a)

  create_indexed :
      (k : String) (r : MissionRecord)
      → Dict.get (Dict.put s.missions m (new_mission m f now)) k ≡ some r
      → is_terminal r ≡ false
      → Dict.get (Dict.put s.fire_index f m) r.fire_id ≡ some k
  create_indexed k r g a = elim (Bool-cases (m == k)) [
    | inl y ↦ ground (
      arith,
      get-put s.missions m k (new_mission m f now),
      get-put s.fire_index f r.fire_id m,
      eq_iff m k,
      eq_iff f r.fire_id,
    )
    | inr y ↦
        let old : Dict.get s.missions k ≡ some r =
          ground (arith, get-put s.missions m k (new_mission m f now)) in
        ground (
          arith,
          get-put s.fire_index f r.fire_id m,
          eq_iff f r.fire_id,
          v.indexed k r old a,
          other_fire k r old a,
        )
  ]

-- `create` with a fresh id keeps one active mission for each fire: it makes a mission only for a
-- fire that has no active one.
pub create-IsIndexed :
    (mission_id fire_id : String) (now : ℕ) (s : MissionStore)
    → Dict.get s.missions mission_id ≡ none
    → mission_id ≢ ""
    → IsIndexed s
    → IsIndexed (create mission_id fire_id now s).0
unfolding create
create-IsIndexed m f now s fresh ne v = elim (Option-cases (still_open (get_for_fire s f))) [
  | inr (r, e) ↦ rw (e, create) v
  | inl e ↦
      rw (e, create)
        (record {
          keyed = λ k r g.
              ground (arith, get-put s.missions m k (new_mission m f now), v.keyed k r, eq_iff m k);
          named = λ k r g.
              ground (arith, get-put s.missions m k (new_mission m f now), v.named k r, eq_iff m k);
          indexed = create_indexed m f now s v e;
        })
]

moved-IsIndexed :
    (s : MissionStore) (k : String) (r r' : MissionRecord) (repo : Option (Dict.Dict MissionRecord))
    → IsIndexed s
    → Dict.get s.missions k ≡ some r
    → is_terminal r ≡ false
    → r'.mission_id ≡ r.mission_id
    → r'.fire_id ≡ r.fire_id
    → IsIndexed (record s { missions = Dict.put s.missions k r'; repo = repo })
moved-IsIndexed s k r r' repo v g a same_id same_fire = record {
  keyed =
      λ j q h. ground (arith, get-put s.missions k j r', v.keyed j q, v.keyed k r g, eq_iff k j);
  named =
      λ j q h. ground (arith, get-put s.missions k j r', v.named j q, v.named k r g, eq_iff k j);
  indexed = λ j q h b.
      ground (arith, get-put s.missions k j r', v.indexed j q, v.indexed k r g a, eq_iff k j);
}

-- `transition` keeps one active mission for each fire.
pub transition-IsIndexed :
    (k : String) (new_state : MissionStatus) (reason : String) (leader : Option String) (now : ℕ)
    (s : MissionStore)
    → IsIndexed s
    → IsIndexed (transition k new_state reason leader now s).0
unfolding transition
transition-IsIndexed k new_state reason leader now s v =
    elim (Option-cases (Dict.get s.missions k)) [
      | inl e ↦ rw (e, transition) v
      | inr (r, e) ↦ elim (Bool-cases (is_terminal r)) [
        | inl t ↦ rw (e, transition) (rw t v)
        | inr t ↦ elim (Bool-cases (mission_allowed r.state new_state)) [
          | inr n ↦ rw (e, transition) (rw (t, n) v)
          | inl y ↦
              rw (e, transition)
                (rw (t, y)
                  (moved-IsIndexed s k r (moved r new_state reason leader now) _ v e t refl refl))
        ]
      ]
    ]
