-- ===== src/Engine/Published.antt =====
-- What RuleEngine.evaluate publishes.
use wfc.Prelude.{
  ℕ, ◌≡◌, refl, true, false, String, Option, none, [], arith, ◌⊎◌, inl, inr, Bool-cases,
  Option-cases, Memᴰ,
}
use mathlib.Core.List.Memᴰ
use Prim.Native.String.{◌++◌ as join}
use wfc.Shared.Commands.{Command, Payload, command_risk, needs_approval}
use wfc.Fires.{FireRecord}
use wfc.Tracker.{Envelope}
use wfc.Dispatch.{Ids, command_message, send}
use wfc.Approval.{Gate, submit, add}
use wfc.Approval.Decisions.{IsRisky}
use wfc.Rules.{Order, RuleContext}
use wfc.Engine.{
  request, pending_alert, Alert, RuleEngine, raise_alert, log_event, make_command, is_respond,
  if_respond, send_safe, hold, was_escalated, drawn_two, handle_order, evaluate,
}
use wfc.Engine.Steps.{evaluate_R}

-- every command that is published anew is safe
abbrev pub Quiet : Gate → Gate → Type 0
Quiet g g' =
    (target : String) (e : Envelope)
    → Memᴰ (command_message target e) g'.desk.outbox
    → Memᴰ (command_message target e) g.desk.outbox ⊎ (¬ IsRisky e.command)

Quiet-trans : (g g' g'' : Gate) → Quiet g g' → Quiet g' g'' → Quiet g g''
Quiet-trans g g' g'' q q' target e m = elim (q' target e m) [
  | inl old ↦ q target e old
  | inr safe ↦ inr safe
]

log_event-Quiet :
    (ids : Ids) (t f : String) (n : Option String) (reason : String) (payload : Payload) (now : ℕ)
    (g : Gate)
    → Quiet g (log_event ids t f n reason payload now g)
log_event-Quiet ids t f n reason payload now g = elim (Option-cases g.event_log) [
  | inl e ↦ rw e (λ target x m. inl m)
  | inr (log, e) ↦ rw e (λ target x m. inl m)
]

-- a held command is not published
held-Quiet : (ids : Ids) (c : Command) (now : ℕ) (g : Gate) → Quiet g (submit ids c true now g).0
unfolding submit add
held-Quiet ids c now g target e m = elim (Memᴰ.append_cases g.desk.outbox m) [
  | inl old ↦ inl old
  | inr new ↦ absurd (apart (Memᴰ.eq_of_singleton new))
]
  where
    apart :
        {a b : String} {x : Command} {t : ℕ} {u : Option ℕ}
        → ¬ (command_message a e ≡ wfc.Dispatch.pending_message b x t u)
    apart q = cc

safe-Quiet :
    (ids : Ids) (c : Command) (now : ℕ) (g : Gate)
    → needs_approval (command_risk c.command_type) ≡ false
    → Quiet g (submit ids c false now g).0
unfolding submit send
safe-Quiet ids c now g safe target e m = elim (Memᴰ.append_cases g.desk.outbox m) [
  | inl old ↦ inl old
  | inr new ↦
      let same : e.command ≡ c = same_command (Memᴰ.eq_of_singleton new) in
      inr (rw same (λ r. ground arith))
]
  where
    same_command :
        {a b : String} {x y : Envelope}
        → command_message a x ≡ command_message b y
        → x.command ≡ y.command
    same_command q = ground arith

if_respond-Quiet :
    (ids : Ids) (rule_name f : String) (c : Command) (now : ℕ) (e : RuleEngine)
    → Quiet e.gate (if_respond ids rule_name f c now e).gate
if_respond-Quiet ids rule_name f c now e = elim (Bool-cases (is_respond c.command_type)) [
  | inl y ↦ rw y (log_event-Quiet ids _ f _ _ _ now e.gate)
  | inr n ↦ rw n (λ target x m. inl m)
]

pub raise_alert-gate :
    (id : String) (a : Alert) (e : RuleEngine) → (raise_alert id a e).gate ≡ e.gate
raise_alert-gate id a e = elim (Option-cases e.alerts) [
  | inl q ↦ rw q refl
  | inr (rows, q) ↦ rw q refl
]

hold-Quiet :
    (ids : Ids) (rule_name f : String) (c : Command) (now : ℕ) (e : RuleEngine)
    → Quiet e.gate (hold ids rule_name f c now e).gate
hold-Quiet ids rule_name f c now e =
    let g =
      log_event ids "ESCALATION_REQUESTED" f none (join "escalation_requested_by_" rule_name) [] now
        e.gate in
    let (g', ref) = request ids rule_name f c now e.gate in
    let e' : RuleEngine = record e { gate = g' } in
    let e'' = if_respond ids rule_name f c now e' in
    rw (raise_alert-gate (join "pending:" ref) (pending_alert ref now) e'') (
      Quiet-trans e.gate g' e''.gate
        (Quiet-trans e.gate g g' (log_event-Quiet ids _ f _ _ _ now e.gate)
          (held-Quiet ids c now g))
        (if_respond-Quiet ids rule_name f c now e'))

send_safe-Quiet :
    (ids : Ids) (rule_name f : String) (c : Command) (now : ℕ) (e : RuleEngine)
    → needs_approval (command_risk c.command_type) ≡ false
    → Quiet e.gate (send_safe ids rule_name f c now e).gate
send_safe-Quiet ids rule_name f c now e safe =
    let e' : RuleEngine = record e { gate = (submit ids c false now e.gate).0 } in
    Quiet-trans e.gate e'.gate (if_respond ids rule_name f c now e').gate
      (safe-Quiet ids c now e.gate safe) (if_respond-Quiet ids rule_name f c now e')

handle_order-Quiet :
    (ids : Ids) (rule_name f : String) (now : ℕ) (o : Order) (e : RuleEngine)
    → Quiet e.gate (handle_order ids rule_name f now o e).gate
unfolding handle_order
handle_order-Quiet ids rule_name f now o e =
    let c = make_command ids o now e.gate in
    let e' : RuleEngine = record e { gate = drawn_two e.gate } in
    elim (Bool-cases (needs_approval (command_risk o.command_type))) [
      | inr safe ↦ rw safe (send_safe-Quiet ids rule_name f c now e' safe)
      | inl risky ↦ elim (Bool-cases (was_escalated f e.gate.event_log)) [
        | inl old ↦ rw (risky, old) (λ target x m. inl m)
        | inr new ↦ rw (risky, new) (hold-Quiet ids rule_name f c now e')
      ]
    ]

evaluate-Quiet :
    (ids : Ids) (fire : FireRecord) (context : Option RuleContext) (now : ℕ) (e : RuleEngine)
    → Quiet e.gate (evaluate ids fire context now e).gate
evaluate-Quiet ids =
    evaluate_R ids (λ e e'. Quiet e.gate e'.gate) (λ e target x m. inl m)
      (λ a b c p q. Quiet-trans a.gate b.gate c.gate p q) (handle_order-Quiet ids)
      (λ rule_name f u now e target x m. inl m)
      (λ id a e. rw (raise_alert-gate id a e) (λ target x m. inl m))

-- Evaluating a fire, with any context, never publishes a command that COMMAND_RISK does not call safe:
-- if such a command is published afterwards, then it was published before.
pub never_publishes_risky :
    (ids : Ids) (fire : FireRecord) (context : Option RuleContext) (now : ℕ) (e : RuleEngine)
    (target : String) (x : Envelope)
    → Memᴰ (command_message target x) (evaluate ids fire context now e).gate.desk.outbox
    → IsRisky x.command
    → Memᴰ (command_message target x) e.gate.desk.outbox
never_publishes_risky ids fire context now e target x m risky =
    elim (evaluate-Quiet ids fire context now e target x m) [
      | inl old ↦ old
      | inr safe ↦ absurd (safe risky)
    ]
