-- ===== src/Tracker/Updates.antt =====
-- What CommandTracker.update applies: each event at most once, each command at most two events.
use wfc.Prelude.{
  ◌≡◌, refl, Bool, true, false, String, Option, none, some, ◌∷◌, arith, contains, inl, inr,
  Bool-cases, Option-cases,
}
use wfc.Dict
use wfc.Dict.{Dict, get-put}
use wfc.Shared.Commands.{Payload, payload_text}
use wfc.Tracker.{
  CommandTracker, TrackRecord, TrackStatus, track_allowed, same_status, event_to_state, seen,
  recognise, update, identify,
}

-- `update` applies an event of the command `rec` exactly if this holds
pub record Applies (t : CommandTracker) (trace_id event_type : String) (payload : Payload)
    (rec : TrackRecord) (event_id : String) (new_state : TrackStatus) : Type 0 where
  pub known : Dict.get t.commands trace_id ≡ some rec
  pub named : payload_text payload "event_id" ≡ some event_id
  pub unseen : contains t.seen_event_ids event_id ≡ false
  pub recognised : event_to_state event_type ≡ some new_state
  pub allowed : track_allowed rec.status new_state ≡ true

-- what one call of `update` came to
pub data Outcome (trace_id event_type : String) (payload : Payload) (t : CommandTracker)
    (r : CommandTracker × Bool) : Type 0 where
  dropped : r ≡ (t, false) → Outcome trace_id event_type payload t r
  rejected :
      (rec rec' : TrackRecord)
      → Dict.get t.commands trace_id ≡ some rec
      → rec'.status ≡ rec.status
      → r.0.commands ≡ Dict.put t.commands trace_id rec'
      → ((e : String) → contains t.seen_event_ids e ≡ true → contains r.0.seen_event_ids e ≡ true)
      → r.1 ≡ false
      → Outcome trace_id event_type payload t r
  accepted :
      (rec rec' : TrackRecord) (event_id : String) (new_state : TrackStatus)
      → Applies t trace_id event_type payload rec event_id new_state
      → rec'.status ≡ new_state
      → r.0.commands ≡ Dict.put t.commands trace_id rec'
      → r.0.seen_event_ids ≡ event_id ∷ t.seen_event_ids
      → r.1 ≡ true
      → Outcome trace_id event_type payload t r

not_same : (a b : TrackStatus) → track_allowed a b ≡ true → same_status b a ≡ false
not_same a b h = ground arith

module _ (trace_id event_type : String) (payload : Payload) (t : CommandTracker) where
  recognise-Outcome :
      (rec : TrackRecord) (event_id : String)
      → Dict.get t.commands trace_id ≡ some rec
      → payload_text payload "event_id" ≡ some event_id
      → contains t.seen_event_ids event_id ≡ false
      → (state : Option TrackStatus) → event_to_state event_type ≡ state
      → Outcome trace_id event_type payload t
          (recognise (seen t event_id) trace_id rec event_type payload state)
  unfolding contains
  recognise-Outcome rec id g n u none e = rejected rec _ g refl refl (λ x h. ground arith) refl
  recognise-Outcome rec id g n u (some new_state) e =
      elim (Bool-cases (track_allowed rec.status new_state)) [
        | inl ok ↦
            rw (ok, not_same rec.status new_state ok)
              (accepted rec _ id new_state
                (record { known = g; named = n; unseen = u; recognised = e; allowed = ok }) refl
                refl refl refl)
        | inr bad ↦ rw bad (rejected rec _ g refl refl (λ x h. ground arith) refl)
      ]

  identify-Outcome :
      (rec : TrackRecord)
      → Dict.get t.commands trace_id ≡ some rec
      → (name : Option String) → payload_text payload "event_id" ≡ name
      → Outcome trace_id event_type payload t (identify t trace_id rec event_type payload name)
  identify-Outcome rec g none n = rejected rec _ g refl refl (λ x h. h) refl
  identify-Outcome rec g (some id) n = elim (Bool-cases (contains t.seen_event_ids id)) [
    | inl old ↦ rw old (rejected rec _ g refl refl (λ x h. h) refl)
    | inr new ↦ rw new (recognise-Outcome rec id g n new (event_to_state event_type) refl)
  ]

  pub update-Outcome : Outcome trace_id event_type payload t (update trace_id event_type payload t)
  unfolding update
  update-Outcome = elim (Option-cases (Dict.get t.commands trace_id)) [
    | inl e ↦ rw (e, update) (dropped refl)
    | inr (rec, e) ↦ rw (e, update) (identify-Outcome rec e (payload_text payload "event_id") refl)
  ]

  applied_only_if :
      {r : CommandTracker × Bool}
      → Outcome trace_id event_type payload t r
      → r.1 ≡ true
      → (rec : TrackRecord) × (event_id : String) × (new_state : TrackStatus) × Applies t trace_id
          event_type payload rec event_id new_state
  applied_only_if (dropped e) h = cc
  applied_only_if (rejected rec rec' g s w u f) h = cc
  applied_only_if (accepted rec rec' id new_state a s w u f) h = (rec, id, new_state, a)

  -- `update` says that it applied an event exactly if the command is known, the event has an id that
  -- no event had before, its type is known, and the table allows the move.
  pub update-Applies :
      ((rec : TrackRecord) (event_id : String) (new_state : TrackStatus)
        → Applies t trace_id event_type payload rec event_id new_state
        → (update trace_id event_type payload t).1 ≡ true)
      × ((update trace_id event_type payload t).1 ≡ true
          → (rec : TrackRecord) × (event_id : String) × (new_state : TrackStatus) × Applies t
              trace_id event_type payload rec event_id new_state)
  unfolding update
  update-Applies = (λ rec event_id new_state a. ground arith, applied_only_if update-Outcome)
