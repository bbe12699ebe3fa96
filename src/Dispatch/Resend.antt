-- ===== src/Dispatch/Resend.antt =====
-- command_dispatcher.py together with command_tracker.py: a command that is sent again.
use wfc.Prelude.{ℕ, ◌≡◌, refl, ap, Bool, true, false, ◌==◌, String, some, arith, ◌++◌, [], ◌∷◌}
use wfc.Dict
use wfc.Shared.Commands.{Command, Payload, payload_text}
use wfc.Tracker.{CommandTracker, TrackRecord, Envelope, create, update, is_terminal_track}
use wfc.Tracker.Updates.{Outcome, dropped, rejected, accepted, update-Outcome}
use wfc.Dispatch.{Ids, Desk, command_message, is_idempotent, deterministic_trace_id, send}

Outcome-terminal :
    {k event_type : String} {payload : Payload} {t : CommandTracker} {r : CommandTracker × Bool}
    (rec : TrackRecord)
    → Outcome k event_type payload t r
    → Dict.get t.commands k ≡ some rec
    → is_terminal_track rec.status ≡ true
    → r.1 ≡ false
Outcome-terminal rec (dropped q) g h = rw q
Outcome-terminal rec (rejected rec' rec'' s w u q f) g h = f
Outcome-terminal rec (accepted rec' rec'' id new_state a s w u f) g h =
    ground (arith, a.known, a.allowed)

-- send and the trace id of a command whose kind and fire name it
named-send :
    (ids : Ids) (c : Command) (now : ℕ) (d : Desk) (f : String) (t : CommandTracker)
    → is_idempotent c.command_type ≡ true
    → payload_text c.payload "fire_id" ≡ some f
    → (f == "") ≡ false
    → d.tracker ≡ some t
    → let k = deterministic_trace_id ids c.command_type f c.target_node in
      let envelope : Envelope = record { trace_id = k; command = c; timestamp = now } in
      send ids c now d ≡ (
        record d {
          tracker = some (create k envelope t);
          outbox = d.outbox ++ command_message c.target_node envelope ∷ [];
        },
        k,
      )
unfolding send
named-send ids c now d f t i n ne at = rw (n, i, ne, at) refl

-- registering a known command again is a no-op
known-create :
    (k : String) (envelope : Envelope) (t : CommandTracker) (rec : TrackRecord)
    → Dict.get t.commands k ≡ some rec
    → create k envelope t ≡ t
unfolding create
known-create k envelope t rec e = rw (e, create) refl

-- If a command whose kind has a name-based trace id (RESPOND_TO_FIRE, CONTAIN_FIRE, STAND_DOWN) and
-- whose payload names a fire is sent while the tracker has a record of that trace id whose status is
-- EXECUTED or FAILED, then the command is published with that trace id, the tracker is unchanged, and
-- no event whatever that is then reported for the trace id is applied.
pub resent_is_refused :
    (ids : Ids) (c : Command) (now : ℕ) (d : Desk) (f : String) (t : CommandTracker)
    (rec : TrackRecord) (event_type : String) (payload : Payload)
    → is_idempotent c.command_type ≡ true
    → payload_text c.payload "fire_id" ≡ some f
    → (f == "") ≡ false
    → d.tracker ≡ some t
    → Dict.get t.commands (deterministic_trace_id ids c.command_type f c.target_node) ≡ some rec
    → is_terminal_track rec.status ≡ true
    → ((send ids c now d).1 ≡ deterministic_trace_id ids c.command_type f c.target_node)
      × ((send ids c now d).0.tracker ≡ some t)
      × ((update (send ids c now d).1 event_type payload t).1 ≡ false)
resent_is_refused ids c now d f t rec event_type payload i n ne at e h =
    rw (named-send ids c now d f t i n ne at) (
      refl,
      ap some (known-create _ _ t rec e),
      Outcome-terminal rec (update-Outcome _ event_type payload t) e h,
    )
