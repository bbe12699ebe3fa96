-- ===== src/Examples/ProjectorRuns.antt =====
-- Runs of FireProjector.
use wfc.Prelude.{◌≡◌, refl, some, none, String, ◌≤◌, ℕ, List, [], ◌∷◌, Memᴰ, arith}
use wfc.Dict
use wfc.Shared.Status.{active}
use wfc.Fires
use wfc.Fires.{FireRecord}
use wfc.Events.{DomainEvent}
use wfc.Projector.{Projector, apply, apply_all}
use wfc.Projector.Stall.{replay_stalls}

abbrev event : String → ℕ → DomainEvent
event type time = record {
  event_id = "e1";
  event_type = type;
  fire_id = some "f1";
  node_id = none;
  reason = none;
  payload = [];
  sequence = none;
  timestamp = time;
  source = "COMMANDER";
}

abbrev empty : Projector
empty = record {
  fires = record { fires = []; repo = none };
  missions = record { missions = []; fire_index = []; repo = none };
}

-- the fire was out long before the restart
abbrev past : List DomainEvent
past = event "FIRE_CONTAINED" 5 ∷ event "FIRE_SUPPRESSED" 9 ∷ []

past_of_fire : (d : DomainEvent) → Memᴰ d past → (d.fire_id ≡ some "f1") × (d.timestamp ≤ 100)
past_of_fire d (Memᴰ.head e) = rw e (refl, ground arith)
past_of_fire d (Memᴰ.tail (Memᴰ.head e)) = rw e (refl, ground arith)
past_of_fire d (Memᴰ.tail (Memᴰ.tail none_left)) = elim none_left [ ]

replay_stalls_example :
    (r : FireRecord) × (Fires.get (apply_all (event "FIRE_DETECTED" 1 ∷ past) 100 empty).fires "f1"
      ≡ some r)
    × (r.state ≡ active)
    × (r.updated_at ≡ 100)
    × (apply_all (event "FIRE_DETECTED" 1 ∷ past) 100 empty
        ≡ apply (event "FIRE_DETECTED" 1) 100 empty)
replay_stalls_example =
    replay_stalls (event "FIRE_DETECTED" 1) past "f1" 100 empty refl refl refl
      (unfold Dict.get in refl) past_of_fire
