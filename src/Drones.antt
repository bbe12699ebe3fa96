-- ===== src/Drones.antt =====
-- Swarm_Repo/core/state/drone_registry.py, with the part of a DroneTelemetry that it and the leader read.
-- Batteries are in percent, and litres in tenths.
use wfc.Prelude.{
  ℕ, ◌+◌, Bool, true, false, not, String, Option, none, some, List, ◌==◌, ltb, length,
}
use wfc.Dict
use wfc.Dict.{Dict}
use wfc.Dict.Select.{select_values}
use wfc.Shared.Commands.{Coord}

pub record DroneTelemetry : Type 0 where
  pub drone_id : String
  pub leader_id : String
  pub timestamp : ℕ
  pub position : Coord
  pub battery_pct : ℕ
  pub payload_litres : ℕ
  pub task : String
  pub connectivity : String
  pub thermal_peak_temp_c : Option ℕ

pub record DroneRecord : Type 0 where
  pub drone_id : String
  pub role : String
  pub location : Coord
  pub last_telemetry : Option DroneTelemetry
  pub last_seen : ℕ
  pub registered_at : ℕ

pub record DroneRegistry : Type 0 where
  pub drones : Dict DroneRecord
  pub stale_threshold : ℕ

abbrev pub new_drone : String → String → Coord → ℕ → DroneRecord
new_drone drone_id role location now = record {
  drone_id = drone_id;
  role = role;
  location = location;
  last_telemetry = none;
  last_seen = now;
  registered_at = now;
}

unfoldable pub register : String → String → Coord → ℕ → DroneRegistry → DroneRegistry
register drone_id role location now s = elim (Dict.get s.drones drone_id) [
  | some rec ↦ s
  | none ↦ record s { drones = Dict.put s.drones drone_id (new_drone drone_id role location now) }
]

unfoldable pub unregister : String → DroneRegistry → DroneRegistry
unregister drone_id s = record s { drones = Dict.pop s.drones drone_id }

-- a payload is a number that is not negative, so that the third case of the source is never reached
abbrev pub inferred_role : Option ℕ → String
inferred_role none = "FIREFIGHTING"
inferred_role (some temperature) = "SCOUT"

abbrev reported : DroneTelemetry → ℕ → DroneRecord → DroneRecord
reported telem now rec = record rec {
  last_telemetry = some telem;
  last_seen = now;
  location = telem.position;
}

unfoldable pub update_telemetry : String → DroneTelemetry → ℕ → DroneRegistry → DroneRegistry
update_telemetry drone_id telem now s = elim (Dict.get s.drones drone_id) [
  | some rec ↦ record s { drones = Dict.put s.drones drone_id (reported telem now rec) }
  | none ↦ record s {
    drones = Dict.put s.drones drone_id (
        reported telem now
          (new_drone drone_id (inferred_role telem.thermal_peak_temp_c) telem.position now));
  }
]

unfoldable pub get_all : DroneRegistry → List DroneRecord
get_all s = Dict.values s.drones

unfoldable pub get_by_role : String → DroneRegistry → List DroneRecord
get_by_role role s = select_values (λ d. d.role == role) s.drones

abbrev is_heard : Option DroneTelemetry → Bool
is_heard none = true
is_heard (some telem) = not (telem.connectivity == "LOST")

unfoldable pub get_active : DroneRegistry → List DroneRecord
get_active s = select_values (λ d. is_heard d.last_telemetry) s.drones

-- `now - d.last_seen > self._stale_threshold`
abbrev pub is_silent : ℕ → ℕ → DroneRecord → Bool
is_silent threshold now d = ltb (d.last_seen + threshold) now

unfoldable pub get_lost : ℕ → DroneRegistry → List DroneRecord
get_lost now s = select_values (is_silent s.stale_threshold now) s.drones

abbrev pub is_idle : Option DroneTelemetry → Bool
is_idle none = false
is_idle (some telem) = telem.task == "IDLE"

unfoldable pub get_idle : DroneRegistry → List DroneRecord
get_idle s = select_values (λ d. is_idle d.last_telemetry) s.drones

unfoldable pub get : DroneRegistry → String → Option DroneRecord
get s drone_id = Dict.get s.drones drone_id

unfoldable pub count : DroneRegistry → ℕ
count s = length s.drones
