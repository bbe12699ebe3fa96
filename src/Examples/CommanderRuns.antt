-- ===== src/Examples/CommanderRuns.antt =====
-- Runs of CommanderCore and of the nodes that own one.
use wfc.Prelude.{
  ◌≡◌, ◌≤◌, ◌+◌, refl, true, false, String, some, none, List, [], ◌∷◌, length, arith, eqb,
}
use wfc.Dict
use wfc.Dict.{IsUnique}
use wfc.Shared.Status.{active, suppressed, pending, rejected}
use wfc.Shared.Commands.{Command, Payload, text, escalate_fire, respond_to_fire}
use wfc.Fires.{FireRecord, get}
use wfc.Events.{empty_log}
use wfc.Tracker.{Envelope, TrackRecord, CommandTracker, issued, issued_note}
use wfc.Approval.{PendingCommand}
use wfc.Lease.{fresh_lease}
use wfc.Commander.{Commander, FireEvent}
use wfc.Commander.Sync.{deactivate}
use wfc.Commander.Routing.{Formats}
use wfc.Commander.Law.Messages.{
  CommanderCall, message_call, expire_call, renew_call, publish_call, run,
}
use wfc.Commander.Standby.{standby_commands_nothing}
use wfc.Commander.Loops.{snapshot_loop, resume, deactivated_loop_ends}
use wfc.Commander.Timeouts.{IsStuck, check_rounds, timeout_never_recorded}
use wfc.CommandNodes.{Outlook, aborted, confirm}
use wfc.CommandNodes.Takeover.{Verdict, takeover_decided}
use wfc.Examples.Uuids.{size, plain_ids}

abbrev escalate : Command
escalate = record {
  command_id = "c1";
  target_node = "n1";
  command_type = escalate_fire;
  payload = [];
  timestamp = 1;
}

abbrev held : PendingCommand
held = record {
  pending_id = "p1";
  command = escalate;
  status = pending;
  created_at = 1;
  expires_at = none;
  decided_at = none;
  operator_id = none;
  reason = none;
}

abbrev refused : PendingCommand
refused = record held { pending_id = "p2"; status = rejected }

abbrev burning : FireRecord
burning = record {
  fire_id = "f1";
  state = active;
  zone = "zone-a";
  severity = "LOW";
  sensor_id = "s1";
  location_coords = none;
  assigned_nodes = [];
  leader_term = 0;
  mission_id = none;
  created_at = 1;
  updated_at = 1;
  history = [];
}

-- a commander with a fire, and two pending commands of which one is refused
abbrev pub commander : Commander
commander = record {
  registry = record { nodes = []; repo = none };
  gate = record {
    desk = record { tracker = none; outbox = []; drawn = 0 };
    ttl = none;
    store = ("p1", held) ∷ ("p2", refused) ∷ [];
    repo = none;
    event_log = some empty_log;
  };
  fires = record { fires = ("f1", burning) ∷ []; repo = none };
  missions = record { missions = []; fire_index = []; repo = none };
  alerts = [];
  fire_events = [];
  swarm_status = [];
  lease = fresh_lease "central" true;
  snapshots = [];
  last_snapshot_at = 0;
  deactivation_grace_start = none;
}

abbrev put_out : FireEvent
put_out = record {
  event_id = "e1";
  event_type = "FIRE_SUPPRESSED";
  timestamp = 5;
  source = "s1";
  payload = record {
    fire_id = "f1";
    zone = "zone-a";
    severity = "LOW";
    sensor_id = "s1";
    location_coords = none;
  };
}

-- payloads that are dicts already, and of the other formats one fire event
abbrev dicts : Formats Payload
dicts = record {
  fields = some;
  announcement = λ p. none;
  status = λ p. none;
  intensity = λ p. none;
  fire_event = λ p. some put_out;
  snapshot = λ p. record { fires = []; missions = []; events_delta = [] };
}

abbrev yes_to : String → Payload
yes_to id = ("pending_id", text id) ∷ ("decision", text "APPROVED") ∷ []

-- an answer, and the lease renewed
abbrev answered : List (CommanderCall Payload)
answered = message_call "wfc/approval/response" (yes_to "p1") 2 ∷ renew_call 5 ∷ []

-- an event of a fire, an answer to what is decided already, and a round of each loop
abbrev busy : List (CommanderCall Payload)
busy =
    message_call "wfc/events/fire" [] 6
    ∷ message_call "wfc/approval/response" (yes_to "p2") 7
    ∷ expire_call 8
    ∷ publish_call 9
    ∷ []

abbrev sent_envelope : Envelope
sent_envelope = record { trace_id = "uuid"; command = escalate; timestamp = 2 }

abbrev standby : Commander
standby = record commander { lease = fresh_lease "backup" false }

standby_commands_nothing_example :
    (let c' = run dicts plain_ids busy standby in
      (c'.lease.is_active ≡ false)
      × (c'.gate.store ≡ standby.gate.store)
      × (c'.gate.desk ≡ standby.gate.desk))
standby_commands_nothing_example =
    standby_commands_nothing dicts plain_ids busy standby (tt, (tt, (tt, (tt, tt)))) refl

-- the loop asked at 3, without grace, and sleeps until 13
deactivated_loop_ends_example :
    (let r = resume 4 false 13 (deactivate 7 commander) in
      let r' = snapshot_loop 4 7 (deactivate 7 commander) in
      (r.1 ≡ true)
      × (length r.0.snapshots ≤ length commander.snapshots + 1)
      × (r'.1 ≡ true)
      × (length r'.0.snapshots ≤ length commander.snapshots + 4))
deactivated_loop_ends_example =
    deactivated_loop_ends false 3 7 commander (omega arith) (omega arith)

-- the primary is slow for three seconds, and its lease fresh
abbrev slow : Outlook
slow = record {
  lease = λ k. record (fresh_lease "backup" false) { last_lease_seen_at = 99 };
  alive = λ k. eqb k 3;
}

takeover_decided_example : Verdict slow 100 0 (confirm 11 slow 100 0)
takeover_decided_example = takeover_decided slow 100

slow_is_spared : confirm 11 slow 100 0 ≡ aborted
unfolding confirm
slow_is_spared = refl

abbrev respond : Envelope
respond = record {
  trace_id = "t1";
  command = record escalate {
    command_type = respond_to_fire;
    payload = ("fire_id", text "f1") ∷ [];
  };
  timestamp = 10;
}

abbrev unanswered : TrackRecord
unanswered = record { command = respond; status = issued; history = issued_note respond ∷ [] }

abbrev waiting : CommandTracker
waiting = record { commands = ("t1", unanswered) ∷ []; seen_event_ids = []; repo = none }

-- the fire is out, and the command for it unanswered
abbrev late : Commander
late = record commander {
  gate = record commander.gate { desk = record { tracker = some waiting; outbox = []; drawn = 0 } };
  fires = record { fires = ("f1", record burning { state = suppressed }) ∷ []; repo = none };
}

late-IsStuck : IsStuck "t1" "f1" 10 1 late
unfolding Dict.get wfc.Shared.Commands.payload_text
late-IsStuck = record {
  tracker = waiting;
  rec = unanswered;
  first = respond;
  rest = [];
  at_desk = refl;
  found = refl;
  unanswered = refl;
  began = refl;
  clock = refl;
  size = refl;
  names = refl;
  over = refl;
}

timeout_never_recorded_example :
    IsStuck "t1" "f1" 10 3 (check_rounds plain_ids "t1" (40 ∷ 45 ∷ []) late)
timeout_never_recorded_example =
    timeout_never_recorded plain_ids "t1" "f1" 10 1 (40 ∷ 45 ∷ []) late late-IsStuck
      (omega arith, (omega arith, tt))
