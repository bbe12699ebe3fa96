-- ===== src/Commander/Timeouts.antt =====
-- What a round of CommanderCore._check_command_timeouts does to a command whose fire is out.
use wfc.Prelude.{
  ℕ, suc, ◌+◌, ◌-◌, ◌≤◌, ◌≡◌, ◌∙◌, refl, ap, Bool, true, false, String, Option, none, some, List,
  [], ◌∷◌, ◌++◌, arith, length, length-append, ltb, if◌then◌else◌,
}
use wfc.Dict
use wfc.Dict.{get-put_self}
use wfc.Shared.Commands.{Payload, text, payload_text}
use wfc.Fires
use wfc.Tracker
use wfc.Tracker.{
  TrackStatus, issued, Envelope, Note, issued_note, missing_event_id, TrackRecord, CommandTracker,
  noted,
}
use wfc.Dispatch.{Ids}
use wfc.Commander.{Commander}
use wfc.Commander.Acks.{named, update_tracker, track, free_node}
use wfc.Commander.Redispatch.{
  fire_is_finished, issued_at, give_up, time_out, node_or_timeout, redispatch_fire, check_command,
  record_in, tracked, command_ack_timeout_seconds,
}

-- the command `trace_id`, issued at `since` for the fire `f`, which is out, has a history of `n` entries
pub record IsStuck (trace_id f : String) (since n : ℕ) (c : Commander) : Type 0 where
  pub tracker : CommandTracker
  pub rec : TrackRecord
  pub first : Envelope
  pub rest : List Note
  pub at_desk : c.gate.desk.tracker ≡ some tracker
  pub found : Dict.get tracker.commands trace_id ≡ some rec
  pub unanswered : rec.status ≡ issued
  pub began : rec.history ≡ issued_note first ∷ rest
  pub clock : first.timestamp ≡ since
  pub size : length rec.history ≡ n
  pub names : named (payload_text rec.command.command.payload "fire_id") ≡ some f
  pub over : fire_is_finished (Fires.get c.fires f) ≡ true

update_unnamed :
    (trace_id event_type : String) (payload : Payload) (t : CommandTracker) (rec : TrackRecord)
    → Dict.get t.commands trace_id ≡ some rec
    → payload_text payload "event_id" ≡ none
    → Tracker.update trace_id event_type payload t
      ≡ (noted t trace_id rec (missing_event_id event_type payload), false)
unfolding Tracker.update
update_unnamed trace_id event_type payload t rec e n = rw (e, Tracker.update, n) refl

freed-gate : (o : Option String) (c : Commander) → (free_node o c).gate ≡ c.gate
freed-gate none c = refl
freed-gate (some n) c = refl

freed-fires : (o : Option String) (c : Commander) → (free_node o c).fires ≡ c.fires
freed-fires none c = refl
freed-fires (some n) c = refl

gave_up-tracker :
    (trace_id n reason : String) (c : Commander) (t : CommandTracker) (rec : TrackRecord)
    → c.gate.desk.tracker ≡ some t
    → Dict.get t.commands trace_id ≡ some rec
    → (give_up trace_id n reason c).gate.desk.tracker
      ≡ some (
          noted t trace_id rec
            (missing_event_id "COMMAND_ACK_FAILED" (("reason", text reason) ∷ [])))
unfolding payload_text Dict.get
gave_up-tracker trace_id n reason c t rec at_desk found =
    let payload : Payload = ("reason", text reason) ∷ [] in
    ap (λ g. g.desk.tracker)
      (freed-gate (named (some n)) (track trace_id "COMMAND_ACK_FAILED" payload c).0)
    ∙ ap (λ o. (update_tracker trace_id "COMMAND_ACK_FAILED" payload o).0) at_desk
    ∙ ap (λ r. some r.0) (update_unnamed trace_id "COMMAND_ACK_FAILED" payload t rec found refl)

gave_up-fires :
    (trace_id n reason : String) (c : Commander) → (give_up trace_id n reason c).fires ≡ c.fires
gave_up-fires trace_id n reason c =
    freed-fires (named (some n))
      (track trace_id "COMMAND_ACK_FAILED" (("reason", text reason) ∷ []) c).0

-- a round that finds it gives it up
late_round :
    (ids : Ids) (trace_id f : String) (now : ℕ) (rec : TrackRecord) (o : Option TrackRecord)
    (c : Commander)
    → o ≡ some rec
    → ltb (now - issued_at rec.history now) command_ack_timeout_seconds ≡ false
    → named (payload_text rec.command.command.payload "fire_id") ≡ some f
    → fire_is_finished (Fires.get c.fires f) ≡ true
    → check_command ids trace_id now o c
      ≡ give_up trace_id rec.command.command.target_node "fire_terminal" c
late_round ids trace_id f now rec o c e late names over = rw e (go _ late _ names)
  where
    go :
        (b : Bool)
        → b ≡ false
        → (o : Option String) → o ≡ some f
        → (if b then c else time_out ids trace_id rec o now c)
          ≡ give_up trace_id rec.command.command.target_node "fire_terminal" c
    go b p o q = rw (p, q) (either _ over)
      where
        either :
            (b : Bool)
            → b ≡ true
            → (let n = rec.command.command.target_node in
                (if b
                  then give_up trace_id n "fire_terminal" c
                  else redispatch_fire ids f
                      (node_or_timeout n)
                      now
                      (give_up trace_id n "ack_timeout" c))
                ≡ give_up trace_id n "fire_terminal" c)
        either b h = rw h refl

issued_at-first :
    (notes rest : List Note) (first : Envelope) (now : ℕ)
    → notes ≡ issued_note first ∷ rest
    → issued_at notes now ≡ first.timestamp
issued_at-first notes rest first now e = rw e refl

checked-IsStuck :
    (ids : Ids) (trace_id f : String) (since n now : ℕ) (c : Commander)
    → since + command_ack_timeout_seconds ≤ now
    → IsStuck trace_id f since n c
    → IsStuck trace_id f since (suc n) (check_command ids trace_id now (tracked trace_id c) c)
checked-IsStuck ids trace_id f since n now c late s =
    let note = missing_event_id "COMMAND_ACK_FAILED" (("reason", text "fire_terminal") ∷ []) in
    let node = s.rec.command.command.target_node in
    let old = issued_at-first s.rec.history s.rest s.first now s.began in
    rw
      (late_round ids trace_id f now s.rec (tracked trace_id c) c
        (ap (record_in trace_id) s.at_desk ∙ s.found) (ground (arith, late, old, s.clock)) s.names
        s.over)
      (record {
        tracker = noted s.tracker trace_id s.rec note;
        rec = record s.rec { history = s.rec.history ++ note ∷ [] };
        first = s.first;
        rest = s.rest ++ note ∷ [];
        at_desk = gave_up-tracker trace_id node "fire_terminal" c s.tracker s.rec s.at_desk s.found;
        found = get-put_self s.tracker.commands trace_id _;
        unanswered = s.unanswered;
        began = ap (λ h. h ++ note ∷ []) s.began;
        clock = s.clock;
        size = omega (arith, s.size, length-append s.rec.history (note ∷ []));
        names = s.names;
        over =
            ap (λ g. fire_is_finished (Fires.get g f))
              (gave_up-fires trace_id node "fire_terminal" c)
            ∙ s.over;
      })

-- rounds of the check that come to this command, at the given times
abbrev pub check_rounds : Ids → String → List ℕ → Commander → Commander
check_rounds ids trace_id [] c = c
check_rounds ids trace_id (now ∷ times) c =
    check_rounds ids trace_id times (check_command ids trace_id now (tracked trace_id c) c)

-- the timeout has passed at every one of the times
abbrev pub AllLate : ℕ → List ℕ → Type 0
AllLate since [] = Unit
AllLate since (now ∷ times) = (since + command_ack_timeout_seconds ≤ now) × AllLate since times

-- A command that was issued for a fire which is out, and is not answered, never leaves the state ISSUED by
-- the timeout: at every later round it is found late again, its status stays, and its history grows by one
-- entry, since the tracker refuses the event that has no id.
pub timeout_never_recorded :
    (ids : Ids) (trace_id f : String) (since n : ℕ) (times : List ℕ) (c : Commander)
    → IsStuck trace_id f since n c
    → AllLate since times
    → IsStuck trace_id f since (n + length times) (check_rounds ids trace_id times c)
timeout_never_recorded ids trace_id f since n [] c s late = rw (none_more n) s
  where
    none_more : (a : ℕ) → a + 0 ≡ a
    none_more a = omega arith
timeout_never_recorded ids trace_id f since n (now ∷ times) c s (l, late) =
    let r =
      timeout_never_recorded ids trace_id f since (suc n) times _
        (checked-IsStuck ids trace_id f since n now c l s) late in
    rw (sum n (length times)) r
  where
    sum : (a b : ℕ) → a + suc b ≡ suc a + b
    sum a b = omega arith
