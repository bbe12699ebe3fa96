-- ===== src/Tracker/Runs.antt =====
-- Any sequence of commands registered and events reported.
use wfc.Prelude.{
  ℕ, ◌+◌, ◌≤◌, ◌≡◌, Bool, true, false, String, Option, none, some, List, [], ◌∷◌, arith, ◌==◌,
  eq_iff, contains, inl, inr, Option-cases, if◌then◌else◌,
}
use wfc.Dict
use wfc.Dict.{Dict, get-put}
use wfc.Shared.Commands.{Payload, payload_text}
use wfc.Tracker.{
  CommandTracker, TrackRecord, TrackStatus, Envelope, issued_note, issued, received, executed,
  failed, create, update,
}
use wfc.Tracker.Updates.{Outcome, dropped, rejected, accepted, update-Outcome}

pub data TrackCall : Type 0 where
  create_call : String → Envelope → TrackCall
  update_call : String → String → Payload → TrackCall

unfoldable pub call : TrackCall → CommandTracker → CommandTracker
call (create_call trace_id envelope) t = create trace_id envelope t
call (update_call trace_id event_type payload) t = (update trace_id event_type payload t).0

unfoldable pub run : List TrackCall → CommandTracker → CommandTracker
unfolding call
run [] t = t
run (c ∷ cs) t = run cs (call c t)

seen-create :
    (trace_id : String) (envelope : Envelope) (t : CommandTracker)
    → (create trace_id envelope t).seen_event_ids ≡ t.seen_event_ids
unfolding create
seen-create trace_id envelope t = ground arith

Outcome-seen :
    {trace_id event_type : String} {payload : Payload} {t : CommandTracker}
    {r : CommandTracker × Bool} (e : String)
    → Outcome trace_id event_type payload t r
    → contains t.seen_event_ids e ≡ true
    → contains r.0.seen_event_ids e ≡ true
unfolding contains
Outcome-seen e (dropped q) h = rw q h
Outcome-seen e (rejected rec rec' g s w u f) h = u e h
Outcome-seen e (accepted rec rec' id new_state a s w u f) h = rw u (ground arith)

pub run-seen :
    (cs : List TrackCall) (t : CommandTracker) (e : String)
    → contains t.seen_event_ids e ≡ true
    → contains (run cs t).seen_event_ids e ≡ true
unfolding run
run-seen [] t e h = h
run-seen (create_call k envelope ∷ cs) t e h =
    run-seen cs (create k envelope t) e (rw (seen-create k envelope t) h)
run-seen (update_call k event_type payload ∷ cs) t e h =
    run-seen cs (update k event_type payload t).0 e
      (Outcome-seen e (update-Outcome k event_type payload t) h)

Outcome-applied_seen :
    {trace_id event_type : String} {payload : Payload} {t : CommandTracker}
    {r : CommandTracker × Bool} (e : String)
    → Outcome trace_id event_type payload t r
    → r.1 ≡ true
    → payload_text payload "event_id" ≡ some e
    → contains r.0.seen_event_ids e ≡ true
unfolding contains
Outcome-applied_seen e (dropped q) h n = cc
Outcome-applied_seen e (rejected rec rec' g s w u f) h n = cc
Outcome-applied_seen e (accepted rec rec' id new_state a s w u f) h n =
    rw u (ground (arith, a.named, eq_iff id e))

pub Outcome-seen_refused :
    {trace_id event_type : String} {payload : Payload} {t : CommandTracker}
    {r : CommandTracker × Bool} (e : String)
    → Outcome trace_id event_type payload t r
    → payload_text payload "event_id" ≡ some e
    → contains t.seen_event_ids e ≡ true
    → r.1 ≡ false
Outcome-seen_refused e (dropped q) n h = rw q
Outcome-seen_refused e (rejected rec rec' g s w u f) n h = f
Outcome-seen_refused e (accepted rec rec' id new_state a s w u f) n h =
    ground (arith, a.named, a.unseen)

-- An event id is applied at most once, over all commands: once `update` applied an event with it, no
-- later `update` with it, of any command and whatever was called in between, applies anything.
pub event_applied_once :
    (k k' event_type event_type' : String) (payload payload' : Payload) (cs : List TrackCall)
    (t : CommandTracker) (e : String)
    → (update k event_type payload t).1 ≡ true
    → payload_text payload "event_id" ≡ some e
    → payload_text payload' "event_id" ≡ some e
    → (update k' event_type' payload' (run cs (update k event_type payload t).0)).1 ≡ false
event_applied_once k k' event_type event_type' payload payload' cs t e h n n' =
    let t' = (update k event_type payload t).0 in
    let now_seen = Outcome-applied_seen e (update-Outcome k event_type payload t) h n in
    Outcome-seen_refused e (update-Outcome k' event_type' payload' (run cs t')) n'
      (run-seen cs t' e now_seen)

abbrev rank : TrackStatus → ℕ
rank issued = 0
rank received = 1
rank executed = 2
rank failed = 2

abbrev rank_of : Option TrackRecord → ℕ
rank_of none = 0
rank_of (some rec) = rank rec.status

rank_at : CommandTracker → String → ℕ
rank_at t k = rank_of (Dict.get t.commands k)

-- 1 if the call applies an event of the command `k`, and 0 if not
abbrev pub counted : String → String → Bool → ℕ
counted j k b = if j == k then (if b then 1 else 0) else 0

-- how many events of the command `k` a sequence of calls applies
unfoldable pub applied_count : String → List TrackCall → CommandTracker → ℕ
applied_count k [] t = 0
applied_count k (create_call j envelope ∷ cs) t = applied_count k cs (create j envelope t)
applied_count k (update_call j event_type payload ∷ cs) t =
    counted j k (update j event_type payload t).1
    + applied_count k cs (update j event_type payload t).0

abbrev fresh_record : Envelope → TrackRecord
fresh_record envelope = record {
  command = envelope;
  status = issued;
  history = issued_note envelope ∷ [];
}

rank-create :
    (j k : String) (envelope : Envelope) (t : CommandTracker)
    → rank_at t k ≤ rank_at (create j envelope t) k
unfolding rank_at create
rank-create j k envelope t = elim (Option-cases (Dict.get t.commands j)) [
  | inr (rec, e) ↦ rw (e, create) (omega arith)
  | inl e ↦
      rw (e, create) (ground (arith, get-put t.commands j k (fresh_record envelope), eq_iff j k))
]

rank-Outcome :
    {j event_type : String} {payload : Payload} {t : CommandTracker} {r : CommandTracker × Bool}
    (k : String)
    → Outcome j event_type payload t r
    → rank_at t k + counted j k r.1 ≤ rank_at r.0 k
unfolding rank_at
rank-Outcome {j} k (dropped q) = rw q (ground arith)
rank-Outcome {j} {t} k (rejected rec rec' g s w u f) =
    rw (f, w) (ground (arith, get-put t.commands j k rec', eq_iff j k))
rank-Outcome {j} {t} k (accepted rec rec' id new_state a s w u f) =
    rw (f, w) (ground (arith, get-put t.commands j k rec', eq_iff j k, a.known, a.allowed))

rank-le : (t : CommandTracker) (k : String) → rank_at t k ≤ 2
unfolding rank_at
rank-le t k = ground arith

rank-applied_count :
    (k : String) (cs : List TrackCall) (t : CommandTracker) → rank_at t k + applied_count k cs t ≤ 2
unfolding applied_count
rank-applied_count k [] t = omega (arith, rank-le t k)
rank-applied_count k (create_call j envelope ∷ cs) t =
    omega (arith, rank-create j k envelope t, rank-applied_count k cs (create j envelope t))
rank-applied_count k (update_call j event_type payload ∷ cs) t = omega (
  arith,
  rank-Outcome k (update-Outcome j event_type payload t),
  rank-applied_count k cs (update j event_type payload t).0,
)

-- Whatever commands are registered and whatever events arrive, in any order and however often, at
-- most two events of one command are ever applied.
pub at_most_two_applied :
    (k : String) (cs : List TrackCall) (t : CommandTracker) → applied_count k cs t ≤ 2
at_most_two_applied k cs t = omega (arith, rank-applied_count k cs t)
