-- ===== src/Tracker.antt =====
-- Commander_Repo/core/commands_monitor/command_tracker.py and lifecycle_rules.py, with the tables
-- of core/persistence/repositories/command_repo.py. Event ids are texts; an entry of a history is
-- named for the `_make_event` that makes it.
pub mod Updates
pub mod Runs
pub mod Restart
use wfc.Prelude.{
  ℕ, Bool, true, false, String, Option, none, some, List, [], ◌∷◌, ◌++◌, ◌==◌, contains, is_none,
  if◌then◌else◌,
}
use wfc.Dict
use wfc.Dict.{Dict}
use wfc.Dict.Select.{select_keys}
use wfc.Shared.Commands.{Command, Payload, payload_text}

pub data TrackStatus : Type 0 where
  issued received executed failed : TrackStatus

-- `new in VALID_TRANSITIONS[old]`
abbrev pub track_allowed : TrackStatus → TrackStatus → Bool
track_allowed issued received = true
track_allowed received executed = true
track_allowed received failed = true
track_allowed _ _ = false

-- `status in TERMINAL_STATES`
abbrev pub is_terminal_track : TrackStatus → Bool
is_terminal_track executed = true
is_terminal_track failed = true
is_terminal_track _ = false

-- EVENT_TO_STATE.get(event_type)
unfoldable pub event_to_state : String → Option TrackStatus
event_to_state event_type =
    if event_type == "COMMAND_ISSUED"
    then some issued
    else if event_type == "COMMAND_RECEIVED"
    then some received
    else if event_type == "COMMAND_EXECUTED"
    then some executed
    else if event_type == "COMMAND_FAILED"
    then some failed
    else none

-- STATUS_TO_EVENT_TYPE.get(status)
unfoldable pub status_to_event_type : String → Option String
status_to_event_type status =
    if status == "RECEIVED"
    then some "COMMAND_RECEIVED"
    else if status == "EXECUTED"
    then some "COMMAND_EXECUTED"
    else if status == "FAILED"
    then some "COMMAND_FAILED"
    else none

abbrev pub same_status : TrackStatus → TrackStatus → Bool
same_status issued issued = true
same_status received received = true
same_status executed executed = true
same_status failed failed = true
same_status _ _ = false

-- the message that CommandDispatcher.send publishes and registers
pub record Envelope : Type 0 where
  pub trace_id : String
  pub command : Command
  pub timestamp : ℕ

pub data Note : Type 0 where
  issued_note : Envelope → Note
  missing_event_id : String → Payload → Note
  duplicate_event : String → String → Note
  unknown_event_type : String → Note
  invalid_transition : TrackStatus → TrackStatus → String → Note
  duplicate_state_event : TrackStatus → String → Note
  applied : String → Payload → Note

pub record TrackRecord : Type 0 where
  pub command : Envelope
  pub status : TrackStatus
  pub history : List Note

-- the tables commands and command_history
pub record TrackTables : Type 0 where
  pub commands : Dict (Envelope × TrackStatus)
  pub history : List (String × Note)

pub record CommandTracker : Type 0 where
  pub commands : Dict TrackRecord
  pub seen_event_ids : List String
  pub repo : Option TrackTables

abbrev with_status :
    Option (Envelope × TrackStatus) → Envelope → TrackStatus → Envelope × TrackStatus
with_status none envelope status = (envelope, status)
with_status (some (old, _)) envelope status = (old, status)

-- upsert_command, then append_history
abbrev pub repo_create : Option TrackTables → String → Envelope → Option TrackTables
repo_create none trace_id envelope = none
repo_create (some t) trace_id envelope = some (record {
  commands =
      Dict.put t.commands trace_id (with_status (Dict.get t.commands trace_id) envelope issued);
  history = t.history ++ (trace_id, issued_note envelope) ∷ [];
})

abbrev pub set_status :
    Dict (Envelope × TrackStatus) → String → TrackStatus → Dict (Envelope × TrackStatus)
set_status rows trace_id status = elim (Dict.get rows trace_id) [
  | none ↦ rows
  | some (envelope, _) ↦ Dict.put rows trace_id (envelope, status)
]

-- update_status, then append_history
abbrev pub repo_update : Option TrackTables → String → TrackStatus → Note → Option TrackTables
repo_update none trace_id status note = none
repo_update (some t) trace_id status note = some (record {
  commands = set_status t.commands trace_id status;
  history = t.history ++ (trace_id, note) ∷ [];
})

unfoldable pub create : String → Envelope → CommandTracker → CommandTracker
create trace_id envelope t = elim (Dict.get t.commands trace_id) [
  | some rec ↦ t
  | none ↦ record t {
    commands =
        Dict.put t.commands trace_id
          (record { command = envelope; status = issued; history = issued_note envelope ∷ [] });
    repo = repo_create t.repo trace_id envelope;
  }
]

-- `record["history"].append(...)`: the record is shared, so the store sees the entry
abbrev pub noted : CommandTracker → String → TrackRecord → Note → CommandTracker
noted t trace_id rec note = record t {
  commands = Dict.put t.commands trace_id (record rec { history = rec.history ++ note ∷ [] });
}

abbrev seen : CommandTracker → String → CommandTracker
seen t event_id = record t { seen_event_ids = event_id ∷ t.seen_event_ids }

-- steps 5 to 7 of `update`
abbrev move :
    CommandTracker → String → TrackRecord → String → Payload → TrackStatus → CommandTracker × Bool
move t trace_id rec event_type payload new_state =
    if track_allowed rec.status new_state
    then (if same_status new_state rec.status
        then (noted t trace_id rec (duplicate_state_event rec.status event_type), false)
        else (
          record t {
            commands = Dict.put t.commands trace_id (record rec {
              status = new_state;
              history = rec.history ++ applied event_type payload ∷ [];
            });
            repo = repo_update t.repo trace_id new_state (applied event_type payload);
          },
          true,
        ))
    else (noted t trace_id rec (invalid_transition rec.status new_state event_type), false)

-- step 4 of `update` and what follows it
abbrev recognise :
    CommandTracker
    → String
    → TrackRecord
    → String
    → Payload
    → Option TrackStatus
    → CommandTracker × Bool
recognise t trace_id rec event_type payload none =
    (noted t trace_id rec (unknown_event_type event_type), false)
recognise t trace_id rec event_type payload (some new_state) =
    move t trace_id rec event_type payload new_state

-- steps 2 and 3 of `update` and what follows them
abbrev identify :
    CommandTracker → String → TrackRecord → String → Payload → Option String → CommandTracker × Bool
identify t trace_id rec event_type payload none =
    (noted t trace_id rec (missing_event_id event_type payload), false)
identify t trace_id rec event_type payload (some event_id) =
    if contains t.seen_event_ids event_id
    then (noted t trace_id rec (duplicate_event event_id event_type), false)
    else recognise (seen t event_id) trace_id rec event_type payload (event_to_state event_type)

unfoldable pub update : String → String → Payload → CommandTracker → CommandTracker × Bool
update trace_id event_type payload t = elim (Dict.get t.commands trace_id) [
  | none ↦ (t, false)
  | some rec ↦ identify t trace_id rec event_type payload (payload_text payload "event_id")
]

abbrev is_issued : TrackStatus → Bool
is_issued issued = true
is_issued _ = false

-- the trace ids of get_issued
unfoldable pub get_issued : CommandTracker → List String
get_issued t = select_keys (λ rec. is_issued rec.status) t.commands

abbrev status_is_terminal : Option TrackRecord → Bool
status_is_terminal none = false
status_is_terminal (some rec) = is_terminal_track rec.status

unfoldable pub is_terminal : CommandTracker → String → Bool
is_terminal t trace_id = status_is_terminal (Dict.get t.commands trace_id)
