-- ===== src/Examples/CommandRuns.antt =====
-- Runs of CommandTracker, DomainEventLog and CommandDispatcher.
use Prim.Native.String.{◌++◌ as join}
use wfc.Prelude.{◌≡◌, refl, some, none, String, ◌≤◌, true, false, List, [], ◌∷◌}
use wfc.Dict
use wfc.Shared.Commands.{Command, respond_to_fire, Payload, text, payload_text}
use wfc.Tracker.{CommandTracker, TrackRecord, TrackStatus, Envelope, issued, executed, update}
use wfc.Tracker.Updates.{Applies, update-Applies}
use wfc.Tracker.Runs.{
  TrackCall, create_call, update_call, run, applied_count, event_applied_once, at_most_two_applied,
}
use wfc.Events.{DomainEvent, empty_log}
use wfc.Events.Log.{IsWellKept}
use wfc.Dispatch.{Ids, Desk, deterministic_trace_id, send}
use wfc.Dispatch.Resend.{resent_is_refused}

abbrev respond : Command
respond = record {
  command_id = "c1";
  target_node = "n1";
  command_type = respond_to_fire;
  payload = ("fire_id", text "f1") ∷ [];
  timestamp = 1;
}

abbrev envelope : Envelope
envelope = record { trace_id = "t1"; command = respond; timestamp = 1 }

abbrev no_commands : CommandTracker
no_commands = record { commands = []; seen_event_ids = []; repo = none }

abbrev one_command : CommandTracker
one_command = record no_commands {
  commands = ("t1", record { command = envelope; status = issued; history = [] }) ∷ [];
}

abbrev ack : String → Payload
ack id = ("event_id", text id) ∷ []

update-Applies_example :
    ((rec : TrackRecord) (event_id : String) (new_state : TrackStatus)
      → Applies one_command "t1" "COMMAND_RECEIVED" (ack "e1") rec event_id new_state
      → (update "t1" "COMMAND_RECEIVED" (ack "e1") one_command).1 ≡ true)
    × ((update "t1" "COMMAND_RECEIVED" (ack "e1") one_command).1 ≡ true
        → (rec : TrackRecord) × (event_id : String) × (new_state : TrackStatus) × Applies
            one_command "t1" "COMMAND_RECEIVED"
            (ack "e1")
            rec
            event_id
            new_state)
update-Applies_example = update-Applies "t1" "COMMAND_RECEIVED" (ack "e1") one_command

received_applies : (update "t1" "COMMAND_RECEIVED" (ack "e1") one_command).1 ≡ true
unfolding update Dict.get payload_text wfc.Prelude.contains wfc.Tracker.event_to_state
received_applies = refl

named_ack : (id : String) → payload_text (ack id) "event_id" ≡ some id
unfolding payload_text Dict.get
named_ack id = refl

abbrev busy : List TrackCall
busy =
    create_call "t2" envelope
    ∷ update_call "t1" "COMMAND_EXECUTED" (ack "e2")
    ∷ update_call "t2" "COMMAND_RECEIVED" (ack "e1")
    ∷ []

event_applied_once_example :
    (update "t1" "COMMAND_RECEIVED"
      (ack "e1")
      (run busy (update "t1" "COMMAND_RECEIVED" (ack "e1") one_command).0)).1
    ≡ false
event_applied_once_example =
    event_applied_once "t1" "t1" "COMMAND_RECEIVED" "COMMAND_RECEIVED" (ack "e1") (ack "e1") busy
      one_command "e1" received_applies (named_ack "e1") (named_ack "e1")

at_most_two_applied_example : applied_count "t1" busy one_command ≤ 2
at_most_two_applied_example = at_most_two_applied "t1" busy one_command

abbrev verified : DomainEvent
verified = record {
  event_id = "e1";
  event_type = "FIRE_VERIFIED";
  fire_id = some "f1";
  node_id = none;
  reason = none;
  payload = [];
  sequence = none;
  timestamp = 1;
  source = "commander";
}

empty_log-IsWellKept : IsWellKept empty_log
empty_log-IsWellKept = record { counted = tt; once = tt }

-- uuids that show what they are made of
abbrev plain_ids : Ids
plain_ids = record { uuid4 = λ n. "random"; uuid5 = λ key. join "named:" key }

abbrev finished_record : TrackRecord
finished_record = record { command = envelope; status = executed; history = [] }

abbrev old_trace : String
old_trace = "named:RESPOND_TO_FIRE:f1:n1"

abbrev after_first : CommandTracker
after_first = record no_commands { commands = (old_trace, finished_record) ∷ [] }

abbrev desk : Desk
desk = record { tracker = some after_first; outbox = []; drawn = 0 }

has_old :
    Dict.get after_first.commands (deterministic_trace_id plain_ids respond_to_fire "f1" "n1")
    ≡ some finished_record
unfolding Dict.get deterministic_trace_id
has_old = refl

names_fire : payload_text respond.payload "fire_id" ≡ some "f1"
unfolding payload_text Dict.get
names_fire = refl

resent_is_refused_example :
    ((send plain_ids respond 9 desk).1 ≡ deterministic_trace_id plain_ids respond_to_fire "f1" "n1")
    × ((send plain_ids respond 9 desk).0.tracker ≡ some after_first)
    × ((update (send plain_ids respond 9 desk).1 "COMMAND_RECEIVED" (ack "e9") after_first).1
        ≡ false)
resent_is_refused_example =
    resent_is_refused plain_ids respond 9 desk "f1" after_first finished_record "COMMAND_RECEIVED"
      (ack "e9") refl names_fire refl refl has_old refl
