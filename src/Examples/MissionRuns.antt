-- ===== src/Examples/MissionRuns.antt =====
-- Runs of MissionStore.
use wfc.Prelude.{
  sym, ◌∙◌, ◌⊎◌, inl, inr, Bool-cases, ◌==◌, ◌≡◌, refl, some, none, true, String, [], ◌∷◌, arith,
  eq_iff, eq-false→ne,
}
use wfc.Dict
use wfc.Dict.{IsUnique}
use wfc.Shared.Status.{assigned, completed}
use wfc.Missions.{
  MissionRecord, MissionStore, new_mission, create, transition, get_for_fire, evict_terminal,
}
use wfc.Missions.Single.{IsIndexed, create-IsIndexed, transition-IsIndexed}
use wfc.Missions.Sync.{snapshot, apply_snapshot_record}
use wfc.Missions.Sync.Mirror.{mirror_finds}
use wfc.Missions.Eviction.{evict_allows_second}

abbrev finished : MissionRecord
finished = record (new_mission "m1" "f1" 1) { state = completed; updated_at = 2 }

abbrev going : MissionRecord
going = new_mission "m2" "f1" 3

abbrev no_missions : MissionStore
no_missions = record { missions = []; fire_index = []; repo = none }

-- a fire that burns again: its first mission is over, its second is not
abbrev burning_again : MissionStore
burning_again = record {
  missions = ("m1", finished) ∷ ("m2", going) ∷ [];
  fire_index = ("f1", "m2") ∷ [];
  repo = none;
}

has_first : Dict.get burning_again.missions "m1" ≡ some finished
unfolding Dict.get
has_first = refl

has_second : Dict.get burning_again.missions "m2" ≡ some going
unfolding Dict.get
has_second = refl

stored :
    (k : String) (r : MissionRecord)
    → Dict.get burning_again.missions k ≡ some r
    → ((k ≡ "m1") × (r ≡ finished)) ⊎ ((k ≡ "m2") × (r ≡ going))
unfolding Dict.get
stored k r g = elim (Bool-cases ("m1" == k)) [
  | inl e ↦ inl (sym ((eq_iff "m1" k).0 e), ground (arith, rw e at g))
  | inr n ↦ elim (Bool-cases ("m2" == k)) [
    | inl e ↦ inr (sym ((eq_iff "m2" k).0 e), ground (arith, rw (n, e) at g))
    | inr n' ↦ absurd (ground (arith, rw (n, n') at g))
  ]
]

burning_again-IsIndexed : IsIndexed burning_again
unfolding Dict.get
burning_again-IsIndexed = record {
  keyed = λ k r g. elim (stored k r g) [ inl (e, q) ↦ rw (e, q) | inr (e, q) ↦ rw (e, q) ];
  named = λ k r g h. elim (stored k r g) [
    | inl (e, q) ↦ eq-false→ne "m1" "" refl (sym e ∙ h)
    | inr (e, q) ↦ eq-false→ne "m2" "" refl (sym e ∙ h)
  ];
  indexed = λ k r g a. elim (stored k r g) [ inl (e, q) ↦ cc | inr (e, q) ↦ rw (e, q) ];
}

burning_again-IsUnique : IsUnique burning_again.missions
unfolding Dict.get
burning_again-IsUnique = (refl, (refl, tt))

-- the snapshot of a mission that a backup without missions hears of
mirror_finds_example :
    (s' : MissionStore) × (q : MissionRecord) × (apply_snapshot_record "m2"
        (snapshot going)
        7
        no_missions
      ≡ some (s', true))
    × (get_for_fire s' "f1" ≡ some q)
    × (q.mission_id ≡ "m2")
    × (q.state ≡ going.state)
    × (q.assigned_node ≡ none)
    × (create "m9" "f1" 8 s' ≡ (s', q))
mirror_finds_example =
    mirror_finds going no_missions 7 8 "m9" refl refl refl (unfold Dict.get in refl)

create-IsIndexed_example : IsIndexed (create "m3" "f2" 4 burning_again).0
create-IsIndexed_example =
    create-IsIndexed "m3" "f2" 4 burning_again (unfold Dict.get in refl) (λ e. cc)
      burning_again-IsIndexed

transition-IsIndexed_example : IsIndexed (transition "m2" assigned "" (some "n1") 5 burning_again).0
transition-IsIndexed_example =
    transition-IsIndexed "m2" assigned "" (some "n1") 5 burning_again burning_again-IsIndexed

evict_allows_second_example :
    let s = (evict_terminal 10 100 burning_again).0 in
    let s' = (create "m3" "f1" 101 s).0 in
    (get_for_fire s "f1" ≡ none)
    × (Dict.get s'.missions "m2" ≡ some going)
    × (Dict.get s'.missions "m3" ≡ some (new_mission "m3" "f1" 101))
evict_allows_second_example =
    evict_allows_second 10 100 burning_again burning_again-IsUnique burning_again-IsIndexed "m1"
      "m2" "m3" finished going 101 has_first refl has_second refl refl (eq-false→ne "m3" "m2" refl)
