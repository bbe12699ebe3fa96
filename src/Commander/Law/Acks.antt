-- ===== src/Commander/Law/Acks.antt =====
-- _handle_ack under a law of steps.
use Prim.Native.String.{◌++◌ as join, slice}
use wfc.Prelude.{ℕ, refl, String, Option, none, some, [], ◌∷◌, ◌==◌, or_else, if◌then◌else◌}
use wfc.Dict
use wfc.Shared.Commands.{Payload, text, payload_text}
use wfc.Tracker.{status_to_event_type}
use wfc.Dispatch.{Ids}
use wfc.Commander.{Commander}
use wfc.Commander.Acks.{
  text_or, track, fire_of_trace, first_of, ack_event, log_ack, is_failed, named, free_node,
  begin_work, alert_failed, act_on_ack, ack_named, handle_ack,
}
use wfc.Commander.Law.{StepLaw, stays, aside, either}

module _ {ids : Ids} (law : StepLaw ids) where
  logged :
      (o : Option (String × String)) (trace_id status : String) (f n : Option String) (now : ℕ)
      (c : Commander)
      → law.R c (log_ack ids o trace_id status f n now c)
  logged none trace_id status f n now c = stays law c
  logged (some (event_type, lower)) trace_id status f n now c =
      law.on_log event_type f n
        (some (join "ack_" (join lower (join "_trace_" (slice trace_id 0 8)))))
        (("trace_id", text trace_id) ∷ ("status", text status) ∷ []) now c

  pub freed : (o : Option String) (c : Commander) → law.R c (free_node o c)
  freed none c = stays law c
  freed (some n) c = aside law c _ refl refl

  begun : (o : Option String) (now : ℕ) (c : Commander) → law.R c (begin_work o now c)
  begun none now c = stays law c
  begun (some n) now c = aside law c _ refl refl

  acted :
      (payload : Payload) (trace_id status : String) (now : ℕ) (c : Commander)
      → law.R c (act_on_ack ids payload trace_id status now c)
  acted payload trace_id status now c =
      let n = payload_text payload "node_id" in
      let f =
        first_of (payload_text payload "fire_id") (fire_of_trace trace_id c.gate.desk.tracker) in
      let c₁ = log_ack ids (ack_event status) trace_id status f n now c in
      let c₂ = if is_failed status then free_node (named n) c₁ else c₁ in
      let c₃ = if status == "RECEIVED" then begin_work (named n) now c₂ else c₂ in
      law.chain c c₁ _ (logged (ack_event status) trace_id status f n now c) (
        law.chain c₁ c₂ _
          (either law (is_failed status) c₁ _ c₁ (freed (named n) c₁) (stays law c₁))
          (law.chain c₂ c₃ _
            (either law (status == "RECEIVED") c₂ _ c₂ (begun (named n) now c₂) (stays law c₂))
            (either law (is_failed status) c₃ (alert_failed trace_id now c₃) c₃
              (aside law c₃ _ refl refl) (stays law c₃))))

  answered :
      (payload : Payload) (trace_id status : Option String) (now : ℕ) (c : Commander)
      → law.R c (ack_named ids payload trace_id status now c)
  answered payload none status now c = stays law c
  answered payload (some trace_id) none now c = stays law c
  answered payload (some trace_id) (some status) now c =
      let event_type =
        text_or (payload_text payload "event_type")
          (or_else (status_to_event_type status) status) in
      let event_id = text_or (payload_text payload "event_id") (join trace_id (join ":" status)) in
      let payload' = Dict.put payload "event_id" (text event_id) in
      let (c', accepted) = track trace_id event_type payload' c in
      law.chain c c' _ (law.on_track trace_id event_type payload' c) (
        either law accepted c' (act_on_ack ids payload trace_id status now c') c'
          (acted payload trace_id status now c') (stays law c'))

  pub ack : (payload : Payload) (now : ℕ) (c : Commander) → law.R c (handle_ack ids payload now c)
  unfolding handle_ack
  ack payload now c =
      answered payload (named (payload_text payload "trace_id"))
        (named (payload_text payload "status")) now c
