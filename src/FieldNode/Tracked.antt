-- ===== src/FieldNode/Tracked.antt =====
-- What a run of acknowledgements does to the commander's tracker.
use Prim.Native.String.{◌++◌ as join}
use mathlib.Core.Path.{subst}
use wfc.Prelude.{
  ℕ, ◌≡◌, refl, sym, ap, ◌∙◌, true, false, String, some, List, [], ◌∷◌, ◌++◌, arith, ◌==◌, eq_iff,
  append_cancel_left, contains, inl, inr, Bool-cases, or_else,
}
use wfc.Dict
use wfc.Dict.{get-put, get-put_self}
use wfc.Shared.Commands.{Payload, text, payload_text}
use wfc.Tracker
use wfc.Tracker.{
  TrackStatus, issued, received, executed, failed, TrackRecord, CommandTracker, track_allowed,
  is_terminal_track, same_status, event_to_state,
}
use wfc.Tracker.Updates.{update-Outcome, dropped, rejected, accepted}
use wfc.FieldNode.{Ack, ack_of}

-- what the tracker reads of an acknowledgement
abbrev pub ack_payload : Ack → Payload
ack_payload a = ("event_id", text a.event_id) ∷ []

-- the tracker is told of each in turn
abbrev pub deliver : List Ack → CommandTracker → CommandTracker
deliver [] t = t
deliver (a ∷ acks) t = deliver acks (Tracker.update a.trace_id a.event_type (ack_payload a) t).0

-- the command is tracked, in that state
abbrev pub IsIn : String → TrackStatus → CommandTracker → Type 0
IsIn trace_id status t =
    (rec : TrackRecord) × (Dict.get t.commands trace_id ≡ some rec) × (rec.status ≡ status)

-- no event of the command with that status was seen
abbrev pub IsUnseen : String → String → CommandTracker → Type 0
IsUnseen trace_id status t = contains t.seen_event_ids (join trace_id (join ":" status)) ≡ false

-- an acknowledgement that the tracker applies
pub acked :
    (trace_id node_id status : String) (now : ℕ) (old new : TrackStatus) (t : CommandTracker)
    → IsIn trace_id old t
    → IsUnseen trace_id status t
    → event_to_state (ack_of trace_id node_id status now).event_type ≡ some new
    → track_allowed old new ≡ true
    → (let a = ack_of trace_id node_id status now in
        let t' = (Tracker.update trace_id a.event_type (ack_payload a) t).0 in
        IsIn trace_id new t' × (t'.seen_event_ids ≡ a.event_id ∷ t.seen_event_ids))
unfolding Tracker.update payload_text Dict.get
acked trace_id node_id status now old new t (rec, e, s) unseen known ok =
    let moves : track_allowed rec.status new ≡ true = rw s ok in
    let other : same_status new rec.status ≡ false = ground arith in
    rw (e, Tracker.update, unseen, known, moves, other)
      ((_, get-put_self t.commands trace_id _, refl), refl)

pub deliver-append :
    (xs ys : List Ack) (t : CommandTracker) → deliver (xs ++ ys) t ≡ deliver ys (deliver xs t)
deliver-append [] ys t = refl
deliver-append (a ∷ xs) ys t =
    deliver-append xs ys (Tracker.update a.trace_id a.event_type (ack_payload a) t).0

-- an event of another command leaves this one
apart :
    (trace_id k event_type : String) (payload : Payload) (t : CommandTracker) (status : TrackStatus)
    → (k == trace_id) ≡ false
    → IsIn trace_id status t
    → IsIn trace_id status (Tracker.update k event_type payload t).0
apart trace_id k event_type payload t status other (rec, e, s) =
    elim (update-Outcome k event_type payload t) [
      | dropped d ↦ rw d (rec, e, s)
      | rejected rec₁ rec' g w u f n ↦
          (rec, rw u (get-put t.commands k trace_id rec' ∙ rw other e), s)
      | accepted rec₁ rec' id new app w u f y ↦
          (rec, rw u (get-put t.commands k trace_id rec' ∙ rw other e), s)
    ]

-- nothing is applied to a command that is EXECUTED or FAILED
stays_ended :
    (trace_id event_type : String) (payload : Payload) (t : CommandTracker) (status : TrackStatus)
    → is_terminal_track status ≡ true
    → IsIn trace_id status t
    → IsIn trace_id status (Tracker.update trace_id event_type payload t).0
stays_ended trace_id event_type payload t status over (rec, e, s) =
    elim (update-Outcome trace_id event_type payload t) [
      | dropped d ↦ rw d (rec, e, s)
      | rejected rec₁ rec' g w u f n ↦
          let same : rec₁ ≡ rec = cc in
          (rec', rw u (get-put_self t.commands trace_id rec'), w ∙ rw same s)
      | accepted rec₁ rec' id new app w u f y ↦
          let same : rec₁ ≡ rec = ap (λ o. or_else o rec) (sym app.known ∙ e) in
          let gone : rec₁.status ≡ status = rw same s in absurd (ground (arith, app.allowed, gone))
    ]

pub delivered_after :
    (acks : List Ack) (trace_id : String) (t : CommandTracker) (status : TrackStatus)
    → is_terminal_track status ≡ true
    → IsIn trace_id status t
    → IsIn trace_id status (deliver acks t)
delivered_after [] trace_id t status over i = i
delivered_after (a ∷ acks) trace_id t status over i =
    delivered_after acks trace_id _ status over (elim (Bool-cases (a.trace_id == trace_id)) [
      | inr other ↦ apart trace_id a.trace_id a.event_type (ack_payload a) t status other i
      | inl same ↦
          subst (λ k. IsIn trace_id status (Tracker.update k a.event_type (ack_payload a) t).0)
            (sym ((eq_iff a.trace_id trace_id).0 same))
            (stays_ended trace_id a.event_type (ack_payload a) t status over i)
    ])

pub ids_differ : (t a b : String) → (a == b) ≡ false → (join t a == join t b) ≡ false
ids_differ t a b h = elim (Bool-cases (join t a == join t b)) [
  | inr other ↦ other
  | inl same ↦
      let e = append_cancel_left t a b ((eq_iff (join t a) (join t b)).0 same) in
      let again = (eq_iff a b).1 e in absurd (ground arith)
]
