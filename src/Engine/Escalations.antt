-- ===== src/Engine/Escalations.antt =====
-- RuleEngine.evaluate asks for at most one escalation of a fire.
use wfc.Prelude.{
  ℕ, ◌+◌, ◌≤◌, ◌≡◌, refl, true, false, String, Option, none, some, List, [], ◌∷◌, ◌++◌, arith, ◌==◌,
  eq_iff, inl, inr, Bool-cases, Option-cases, if◌then◌else◌, Bool, ◌&&◌,
}
use wfc.Shared.Commands.{Command, Payload, command_risk, needs_approval}
use wfc.Fires.{FireRecord}
use wfc.Events.{
  DomainEvent, EventLog, append, has_event, exists_row, is_about, numbered, exists_by_id,
}
use wfc.Dispatch.{Ids}
use wfc.Approval.{Gate, submit, add}
use wfc.Rules.{Order, RuleContext}
use wfc.Engine.{
  RuleEngine, engine_event, log_event, make_command, drawn_two, is_respond, if_respond, request,
  hold, send_safe, was_escalated, handle_order, evaluate, pending_alert,
}
use Prim.Native.String.{◌++◌ as join}
use wfc.Engine.Steps.{evaluate_R}
use wfc.Engine.Published.{raise_alert-gate}

-- `1` for a row of the fire and the type
abbrev one_for : String → String → DomainEvent → ℕ
one_for f t e = if is_about f e && e.event_type == t then 1 else 0

-- how many rows of the fire and the type a log has
unfoldable pub count_rows : String → String → List DomainEvent → ℕ
count_rows f t [] = 0
count_rows f t (e ∷ rows) = one_for f t e + count_rows f t rows

count_rows-append :
    (f t : String) (rows : List DomainEvent) (e : DomainEvent)
    → count_rows f t (rows ++ e ∷ []) ≡ count_rows f t rows + one_for f t e
unfolding count_rows
count_rows-append f t [] e = omega arith
count_rows-append f t (d ∷ rows) e = omega (arith, count_rows-append f t rows e)

count_rows-absent :
    (f t : String) (rows : List DomainEvent) → exists_row f t rows ≡ false → count_rows f t rows ≡ 0
unfolding count_rows exists_row
count_rows-absent f t [] h = refl
count_rows-absent f t (e ∷ rows) h = ground (arith, count_rows-absent f t rows)

abbrev pub count_in : String → Option EventLog → ℕ
count_in f none = 0
count_in f (some log) = count_rows f "ESCALATION_REQUESTED" log.rows

append-count :
    (f : String) (log : EventLog) (e : DomainEvent)
    → count_in f (some (append e log).0)
      ≤ count_in f (some log) + one_for f "ESCALATION_REQUESTED" e
unfolding append
append-count f log e = elim (Bool-cases (exists_by_id log.rows e.event_id)) [
  | inl old ↦ rw (old, append) (omega arith)
  | inr new ↦
      rw (new, append)
        (omega (arith, count_rows-append f "ESCALATION_REQUESTED" log.rows (numbered e _)))
]

-- the log has no more escalations of a fire than one, unless it had
abbrev pub KeepsOnce : Gate → Gate → Type 0
KeepsOnce g g' = (f : String) → count_in f g.event_log ≤ 1 → count_in f g'.event_log ≤ 1

dispatched-KeepsOnce :
    (ids : Ids) (f : String) (n : Option String) (reason : String) (payload : Payload) (now : ℕ)
    (g : Gate)
    → KeepsOnce g (log_event ids "FIRE_DISPATCHED" f n reason payload now g)
dispatched-KeepsOnce ids f n reason payload now g k h = elim (Option-cases g.event_log) [
  | inl e ↦ rw e (rw e at h)
  | inr (log, e) ↦ rw e (
      ground (
        arith,
        rw e at h,
        append-count k log
            (engine_event (ids.uuid4 g.desk.drawn) "FIRE_DISPATCHED" f n reason payload now),
      ))
]

requested-KeepsOnce :
    (ids : Ids) (f reason : String) (now : ℕ) (g : Gate)
    → was_escalated f g.event_log ≡ false
    → KeepsOnce g (log_event ids "ESCALATION_REQUESTED" f none reason [] now g)
unfolding has_event
requested-KeepsOnce ids f reason now g new k h = elim (Option-cases g.event_log) [
  | inl e ↦ rw e (omega arith)
  | inr (log, e) ↦ rw e (
      ground (
        arith,
        rw e at h,
        rw e at new,
        count_rows-absent f "ESCALATION_REQUESTED" log.rows,
        eq_iff f k,
        append-count k log
            (engine_event (ids.uuid4 g.desk.drawn) "ESCALATION_REQUESTED" f none reason [] now),
      ))
]

submit-event_log :
    (ids : Ids) (c : Command) (b : Bool) (now : ℕ) (g : Gate)
    → (submit ids c b now g).0.event_log ≡ g.event_log
unfolding submit add
submit-event_log ids c true now g = refl
submit-event_log ids c false now g = refl

if_respond-KeepsOnce :
    (ids : Ids) (rule_name f : String) (c : Command) (now : ℕ) (e : RuleEngine)
    → KeepsOnce e.gate (if_respond ids rule_name f c now e).gate
if_respond-KeepsOnce ids rule_name f c now e = elim (Bool-cases (is_respond c.command_type)) [
  | inl y ↦ rw y (dispatched-KeepsOnce ids f _ _ _ now e.gate)
  | inr n ↦ rw n (λ k h. h)
]

send_safe-KeepsOnce :
    (ids : Ids) (rule_name f : String) (c : Command) (now : ℕ) (e : RuleEngine)
    → KeepsOnce e.gate (send_safe ids rule_name f c now e).gate
send_safe-KeepsOnce ids rule_name f c now e k h =
    if_respond-KeepsOnce ids rule_name f c now
      (record e { gate = (submit ids c false now e.gate).0 }) k
      (rw (submit-event_log ids c false now e.gate) h)

hold-KeepsOnce :
    (ids : Ids) (rule_name f : String) (c : Command) (now : ℕ) (e : RuleEngine)
    → was_escalated f e.gate.event_log ≡ false
    → KeepsOnce e.gate (hold ids rule_name f c now e).gate
hold-KeepsOnce ids rule_name f c now e new k h =
    let reason = join "escalation_requested_by_" rule_name in
    let g = log_event ids "ESCALATION_REQUESTED" f none reason [] now e.gate in
    let (g', ref) = request ids rule_name f c now e.gate in
    let e' : RuleEngine = record e { gate = g' } in
    rw
      (raise_alert-gate (join "pending:" ref) (pending_alert ref now)
        (if_respond ids rule_name f c now e'))
      (if_respond-KeepsOnce ids rule_name f c now e' k (
        rw (submit-event_log ids c true now g)
          (requested-KeepsOnce ids f reason now e.gate new k h)))

handle_order-KeepsOnce :
    (ids : Ids) (rule_name f : String) (now : ℕ) (o : Order) (e : RuleEngine)
    → KeepsOnce e.gate (handle_order ids rule_name f now o e).gate
unfolding handle_order
handle_order-KeepsOnce ids rule_name f now o e =
    let c = make_command ids o now e.gate in
    let e' : RuleEngine = record e { gate = drawn_two e.gate } in
    elim (Bool-cases (needs_approval (command_risk o.command_type))) [
      | inr safe ↦ rw safe (send_safe-KeepsOnce ids rule_name f c now e')
      | inl risky ↦ elim (Bool-cases (was_escalated f e.gate.event_log)) [
        | inl old ↦ rw (risky, old) (λ k h. h)
        | inr new ↦ rw (risky, new) (hold-KeepsOnce ids rule_name f c now e' new)
      ]
    ]

evaluate-KeepsOnce :
    (ids : Ids) (fire : FireRecord) (context : Option RuleContext) (now : ℕ) (e : RuleEngine)
    → KeepsOnce e.gate (evaluate ids fire context now e).gate
evaluate-KeepsOnce ids =
    evaluate_R ids (λ e e'. KeepsOnce e.gate e'.gate) (λ e k h. h) (λ a b c p q k h. q k (p k h))
      (handle_order-KeepsOnce ids) (λ rule_name f u now e k h. h)
      (λ id a e. rw (raise_alert-gate id a e) (λ k h. h))

-- If the event log has at most one ESCALATION_REQUESTED of a fire, then it still has at most one after
-- any evaluation of any fire, with any context, however many rules ask for an escalation.
pub escalates_once :
    (ids : Ids) (fire : FireRecord) (context : Option RuleContext) (now : ℕ) (e : RuleEngine)
    (f : String)
    → count_in f e.gate.event_log ≤ 1
    → count_in f (evaluate ids fire context now e).gate.event_log ≤ 1
escalates_once ids fire context now e f h = evaluate-KeepsOnce ids fire context now e f h
