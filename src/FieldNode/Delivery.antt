-- ===== src/FieldNode/Delivery.antt =====
-- The acknowledgements of a node, as the commander's tracker takes them.
use Prim.Native.String.{◌++◌ as join}
use mathlib.Core.Path.{subst}
use wfc.Prelude.{
  ℕ, ◌≡◌, refl, sym, ap, ◌∙◌, Bool, true, false, String, Option, none, some, List, [], ◌∷◌, ◌++◌,
  ◌==◌, contains, if◌then◌else◌,
}
use wfc.Shared.Commands.{Payload}
use wfc.Tracker
use wfc.Tracker.{
  TrackStatus, issued, received, executed, failed, TrackRecord, CommandTracker, track_allowed,
  is_terminal_track, same_status, event_to_state,
}
use wfc.FieldNode.{
  Ack, ack_of, CommandMessage, FieldNode, named_trace, known_type, send_ack, conclude, perform,
  handle_trace, handle_command,
}
use wfc.FieldNode.Tracked.{
  acked, deliver-append, delivered_after, ids_differ, deliver, IsIn, IsUnseen,
}

append_none : {A : Type 0} → (xs : List A) → xs ≡ xs ++ []
append_none [] = refl
append_none (x ∷ xs) = ap (λ l. x ∷ l) (append_none xs)

append_two : {A : Type 0} → (xs : List A) (a b : A) → (xs ++ a ∷ []) ++ b ∷ [] ≡ xs ++ a ∷ b ∷ []
append_two [] a b = refl
append_two (x ∷ xs) a b = ap (λ l. x ∷ l) (append_two xs a b)

module _ {S : Type 0} (execute : String → Payload → String → S → S × Bool) where
  -- what is sent for a known command that is new to the node
  new_command :
      (m : CommandMessage) (trace_id command_type : String) (now : ℕ) (n : FieldNode S)
      → named_trace m.trace_id ≡ some trace_id
      → known_type m.command_type ≡ some command_type
      → contains n.handled_trace_ids trace_id ≡ false
      → handle_command execute m now n
        ≡ conclude execute trace_id now
            (execute command_type m.payload trace_id n.state)
            (send_ack trace_id "RECEIVED" now n)
  unfolding handle_command
  new_command m trace_id command_type now n named known fresh = rw (named, fresh, known) refl

  -- what a node sends is sent after what it sent before
  Extends : FieldNode S → FieldNode S → Type 0
  Extends n n' = (more : List Ack) × (n'.acks ≡ n.acks ++ more)

  performed-Extends :
      (trace_id : String) (o : Option String) (payload : Payload) (now : ℕ) (n : FieldNode S)
      → Extends n (perform execute trace_id o payload now (send_ack trace_id "RECEIVED" now n))
  unfolding Extends
  performed-Extends trace_id none payload now n = (_, append_two n.acks _ _)
  performed-Extends trace_id (some command_type) payload now n =
      go (execute command_type payload trace_id n.state).1
    where
      go :
          (ok : Bool)
          → Extends n (
              conclude execute trace_id now
                ((execute command_type payload trace_id n.state).0, ok)
                (send_ack trace_id "RECEIVED" now n))
      go true = (_, append_two n.acks _ _)
      go false = (_, append_two n.acks _ _)

  handled-Extends :
      (m : CommandMessage) (now : ℕ) (n : FieldNode S) → Extends n (handle_command execute m now n)
  unfolding Extends handle_command
  handled-Extends m now n = traced (named_trace m.trace_id)
    where
      fresh_or_not :
          (trace_id : String) (b : Bool)
          → Extends n (
              if b
              then send_ack trace_id "EXECUTED" now n
              else perform execute trace_id
                  (known_type m.command_type)
                  m.payload
                  now
                  (send_ack trace_id "RECEIVED" now n))
      fresh_or_not trace_id true = (_, refl)
      fresh_or_not trace_id false =
          performed-Extends trace_id (known_type m.command_type) m.payload now n

      traced : (o : Option String) → Extends n (handle_trace execute o m now n)
      traced none = ([], append_none n.acks)
      traced (some trace_id) = fresh_or_not trace_id (contains n.handled_trace_ids trace_id)

  -- the same message, at each of the times
  abbrev pub redeliver : CommandMessage → List ℕ → FieldNode S → FieldNode S
  redeliver m [] n = n
  redeliver m (now ∷ times) n = redeliver m times (handle_command execute m now n)

  redelivered :
      (m : CommandMessage) (trace_id : String) (times : List ℕ) (n : FieldNode S)
      (t : CommandTracker) (status : TrackStatus)
      → is_terminal_track status ≡ true
      → IsIn trace_id status (deliver n.acks t)
      → IsIn trace_id status (deliver (redeliver m times n).acks t)
  unfolding Extends
  redelivered m trace_id [] n t status over i = i
  redelivered m trace_id (now ∷ times) n t status over i =
      let (more, e) = handled-Extends m now n in
      redelivered m trace_id times (handle_command execute m now n) t status over (
        subst (λ acks. IsIn trace_id status (deliver acks t)) (sym e)
          (subst (IsIn trace_id status) (sym (deliver-append n.acks more t))
            (delivered_after more trace_id (deliver n.acks t) status over i)))

  -- what the tracker makes of the first two acknowledgements
  two_acks :
      (trace_id node_id status : String) (now : ℕ) (new : TrackStatus) (t : CommandTracker)
      → IsIn trace_id issued t
      → IsUnseen trace_id "RECEIVED" t
      → IsUnseen trace_id status t
      → (":RECEIVED" == join ":" status) ≡ false
      → event_to_state (ack_of trace_id node_id status now).event_type ≡ some new
      → track_allowed received new ≡ true
      → IsIn trace_id new (
          deliver
            (ack_of trace_id node_id "RECEIVED" now ∷ ack_of trace_id node_id status now ∷ [])
            t)
  unfolding contains event_to_state Tracker.status_to_event_type
  two_acks trace_id node_id status now new t at_first fresh unseen differ known ok =
      let (r, seen) =
        acked trace_id node_id "RECEIVED" now issued received t at_first fresh refl refl in
      (acked trace_id node_id status now received new _ r
        (ap (λ l. contains l (join trace_id (join ":" status))) seen
          ∙ rw (ids_differ trace_id ":RECEIVED" (join ":" status) differ, unseen) refl)
        known ok).0

  -- the tracker, told of two more acknowledgements of a node
  told_last :
      (n : FieldNode S) (trace_id status : String) (now : ℕ) (new : TrackStatus)
      (t : CommandTracker)
      → IsIn trace_id new (
          deliver
            (ack_of trace_id n.node_id "RECEIVED" now ∷ ack_of trace_id n.node_id status now ∷ [])
            (deliver n.acks t))
      → IsIn trace_id new (
          deliver
            ((n.acks ++ ack_of trace_id n.node_id "RECEIVED" now ∷ [])
              ++ ack_of trace_id n.node_id status now ∷ [])
            t)
  told_last n trace_id status now new t told =
      subst (IsIn trace_id new)
        (sym (ap (λ l. deliver l t) (append_two n.acks _ _) ∙ deliver-append n.acks _ t)) told

  -- how the tracker is to see a command that came to an end, or raised
  abbrev pub status_after : Bool → TrackStatus
  status_after true = executed
  status_after false = failed

  concluded :
      (trace_id : String) (now : ℕ) (s : S) (ok : Bool) (n : FieldNode S) (t : CommandTracker)
      → IsIn trace_id issued (deliver n.acks t)
      → IsUnseen trace_id "RECEIVED" (deliver n.acks t)
      → IsUnseen trace_id "EXECUTED" (deliver n.acks t)
      → IsUnseen trace_id "FAILED" (deliver n.acks t)
      → IsIn trace_id (status_after ok) (
          deliver
            (conclude execute trace_id now (s, ok) (send_ack trace_id "RECEIVED" now n)).acks
            t)
  unfolding event_to_state Tracker.status_to_event_type
  concluded trace_id now s true n t at_first u₁ u₂ u₃ =
      told_last n trace_id "EXECUTED" now executed t (
        two_acks trace_id n.node_id "EXECUTED" now executed (deliver n.acks t) at_first u₁ u₂ refl
          refl refl)
  concluded trace_id now s false n t at_first u₁ u₂ u₃ =
      told_last n trace_id "FAILED" now failed t (
        two_acks trace_id n.node_id "FAILED" now failed (deliver n.acks t) at_first u₁ u₃ refl refl
          refl)

  -- A command of a known type that is new to a node is delivered to it once and then any number of times
  -- more, and the tracker, told of what the node acknowledged before, knows of it only that it was issued.
  -- Then the acknowledgements of the node bring the tracker to EXECUTED if the first execution came to an
  -- end, and to FAILED if it raised, whatever the further deliveries do.
  pub acks_complete :
      (m : CommandMessage) (trace_id command_type : String) (now : ℕ) (times : List ℕ)
      (n : FieldNode S) (t : CommandTracker)
      → named_trace m.trace_id ≡ some trace_id
      → known_type m.command_type ≡ some command_type
      → contains n.handled_trace_ids trace_id ≡ false
      → IsIn trace_id issued (deliver n.acks t)
      → IsUnseen trace_id "RECEIVED" (deliver n.acks t)
      → IsUnseen trace_id "EXECUTED" (deliver n.acks t)
      → IsUnseen trace_id "FAILED" (deliver n.acks t)
      → IsIn trace_id
          (status_after (execute command_type m.payload trace_id n.state).1)
          (deliver (redeliver m (now ∷ times) n).acks t)
  acks_complete m trace_id command_type now times n t named known fresh at_first u₁ u₂ u₃ =
      let (s, ok) = execute command_type m.payload trace_id n.state in
      redelivered m trace_id times (handle_command execute m now n) t (status_after ok) (ends ok) (
        subst (λ k. IsIn trace_id (status_after ok) (deliver k.acks t))
          (sym (new_command m trace_id command_type now n named known fresh))
          (concluded trace_id now s ok n t at_first u₁ u₂ u₃))
    where
      ends : (b : Bool) → is_terminal_track (status_after b) ≡ true
      ends true = refl
      ends false = refl
