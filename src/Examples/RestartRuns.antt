-- ===== src/Examples/RestartRuns.antt =====
-- A run of CommandTracker over a restart.
use wfc.Prelude.{◌≡◌, refl, some, true, false, List, [], ◌∷◌}
use wfc.Dict
use wfc.Shared.Commands.{dispatch_drone, Payload, text, payload_text}
use wfc.Tracker.{CommandTracker, TrackTables, Envelope, issued, issued_note, update}
use wfc.Tracker.Runs.{TrackCall, update_call, run}
use wfc.Tracker.Restart.{open_tracker}
use wfc.Tracker.Restart.Duplicates.{refused_after_restart}

abbrev scouting : Envelope
scouting = record {
  trace_id = "t1";
  command = record {
    command_id = "c1";
    target_node = "n1";
    command_type = dispatch_drone;
    payload = [];
    timestamp = 1;
  };
  timestamp = 1;
}

abbrev rows : TrackTables
rows = record {
  commands = ("t1", (scouting, issued)) ∷ [];
  history = ("t1", issued_note scouting) ∷ [];
}

abbrev durable : CommandTracker
durable = record {
  commands =
      ("t1", record { command = scouting; status = issued; history = issued_note scouting ∷ [] })
      ∷ [];
  seen_event_ids = [];
  repo = some rows;
}

abbrev report : Payload
report = ("event_id", text "e1") ∷ []

abbrev second_report : Payload
second_report = ("event_id", text "e2") ∷ []

abbrev meanwhile : List TrackCall
meanwhile = update_call "t1" "COMMAND_EXECUTED" second_report ∷ []

is_named : payload_text report "event_id" ≡ some "e1"
unfolding payload_text Dict.get
is_named = refl

is_applied : (update "t1" "COMMAND_RECEIVED" report durable).1 ≡ true
unfolding update Dict.get payload_text wfc.Prelude.contains wfc.Tracker.event_to_state
is_applied = refl

refused_after_restart_example :
    (update "t1" "COMMAND_RECEIVED" report (
      run meanwhile
        (open_tracker (run meanwhile (update "t1" "COMMAND_RECEIVED" report durable).0).repo))).1
    ≡ false
refused_after_restart_example =
    refused_after_restart "t1" "COMMAND_RECEIVED" "t1" "COMMAND_RECEIVED" report report meanwhile
      meanwhile durable rows (scouting, issued) "e1" refl (unfold Dict.get in refl) is_named refl
      is_applied is_named
