-- ===== src/Tracker/Restart.antt =====
-- CommandTracker.__init__ with CommandRepository.get_all: what a restarted tracker reads back.
pub mod Memory
pub mod Duplicates
use wfc.Prelude.{Bool, true, false, String, Option, none, some, List, [], ◌∷◌, ◌==◌, if◌then◌else◌}
use wfc.Dict
use wfc.Dict.{Dict}
use wfc.Shared.Commands.{payload_text}
use wfc.Tracker.{
  Envelope, TrackStatus, Note, issued_note, missing_event_id, duplicate_event, unknown_event_type,
  invalid_transition, duplicate_state_event, applied, TrackTables, CommandTracker,
}

-- `h["payload"].get("event_id")`
abbrev pub event_id_of : Note → Option String
event_id_of (issued_note envelope) = none
event_id_of (missing_event_id event_type payload) = none
event_id_of (duplicate_event event_id event_type) = some event_id
event_id_of (unknown_event_type event_type) = none
event_id_of (invalid_transition old new event_type) = none
event_id_of (duplicate_state_event state event_type) = none
event_id_of (applied event_type payload) = payload_text payload "event_id"

-- the rows of one trace, in order
unfoldable pub notes_of : String → List (String × Note) → List Note
notes_of trace_id [] = []
notes_of trace_id ((k, note) ∷ rows) =
    let rest = notes_of trace_id rows in if k == trace_id then note ∷ rest else rest

-- `if eid: self._seen_event_ids.add(eid)`
abbrev pub add_id : Option String → List String → List String
add_id none ids = ids
add_id (some e) ids = if e == "" then ids else e ∷ ids

unfoldable pub hydrate_ids : List Note → List String → List String
hydrate_ids [] ids = ids
hydrate_ids (note ∷ notes) ids = hydrate_ids notes (add_id (event_id_of note) ids)

unfoldable pub hydrate :
    Dict (Envelope × TrackStatus) → List (String × Note) → CommandTracker → CommandTracker
unfolding hydrate_ids notes_of
hydrate [] rows t = t
hydrate ((trace_id, (envelope, status)) ∷ commands) rows t =
    let notes = notes_of trace_id rows in
    hydrate commands rows (record t {
      commands =
          Dict.put t.commands trace_id
            (record { command = envelope; status = status; history = notes });
      seen_event_ids = hydrate_ids notes t.seen_event_ids;
    })

-- CommandTracker.__init__(db)
unfoldable pub open_tracker : Option TrackTables → CommandTracker
unfolding hydrate
open_tracker none = record { commands = []; seen_event_ids = []; repo = none }
open_tracker (some tables) =
    hydrate tables.commands tables.history
      (record { commands = []; seen_event_ids = []; repo = some tables })
