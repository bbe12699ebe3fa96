-- ===== src/Engine/Approved.antt =====
-- What RuleEngine.evaluate does to the approval gate: only orderly steps.
use Prim.Native.String.{◌++◌ as join}
use mathlib.Core.Path.{subst}
use wfc.Prelude.{
  ℕ, ◌≤◌, ◌≡◌, refl, true, false, String, Option, none, [], arith, inl, inr, Bool-cases,
  Option-cases,
}
use wfc.Shared.Commands.{Command, Payload, command_risk, needs_approval}
use wfc.Fires.{FireRecord}
use wfc.Dispatch.{Ids}
use wfc.Approval.{Gate, submit}
use wfc.Approval.Fresh.{Safe, Safe-trans, same-Safe, submit-Safe}
use wfc.Rules.{Order, RuleContext}
use wfc.Engine.{
  request, pending_alert, RuleEngine, log_event, make_command, is_respond, if_respond, send_safe,
  hold, was_escalated, drawn_two, handle_order, evaluate,
}
use wfc.Engine.Steps.{evaluate_R}
use wfc.Engine.Published.{raise_alert-gate}

log_event_keeps :
    (ids : Ids) (t f : String) (n : Option String) (reason : String) (payload : Payload) (now : ℕ)
    (g : Gate)
    → ((log_event ids t f n reason payload now g).store ≡ g.store)
      × ((log_event ids t f n reason payload now g).desk.outbox ≡ g.desk.outbox)
      × (g.desk.drawn ≤ (log_event ids t f n reason payload now g).desk.drawn)
log_event_keeps ids t f n reason payload now g = elim (Option-cases g.event_log) [
  | inl e ↦ rw e (refl, refl, omega arith)
  | inr (log, e) ↦ rw e (refl, refl, omega arith)
]

module _ (ids : Ids) (different : (m n : ℕ) → ids.uuid4 m ≡ ids.uuid4 n → m ≡ n) where
  log_event-Safe :
      (t f : String) (n : Option String) (reason : String) (payload : Payload) (now : ℕ) (g : Gate)
      → Safe ids g (log_event ids t f n reason payload now g)
  log_event-Safe t f n reason payload now g =
      let (p, q, le) = log_event_keeps ids t f n reason payload now g in
      same-Safe ids g (log_event ids t f n reason payload now g) p q le

  if_respond-Safe :
      (rule_name f : String) (c : Command) (now : ℕ) (e : RuleEngine)
      → Safe ids e.gate (if_respond ids rule_name f c now e).gate
  if_respond-Safe rule_name f c now e = elim (Bool-cases (is_respond c.command_type)) [
    | inl y ↦ rw y (log_event-Safe _ f _ _ _ now e.gate)
    | inr n ↦ rw n (same-Safe ids e.gate e.gate refl refl (omega arith))
  ]

  send_safe-Safe :
      (rule_name f : String) (c : Command) (now : ℕ) (e : RuleEngine)
      → needs_approval (command_risk c.command_type) ≡ false
      → Safe ids e.gate (send_safe ids rule_name f c now e).gate
  send_safe-Safe rule_name f c now e safe =
      let g = (submit ids c false now e.gate).0 in
      let e' : RuleEngine = record e { gate = g } in
      Safe-trans ids e.gate g (if_respond ids rule_name f c now e').gate
        (subst (λ b. Safe ids e.gate (submit ids c b now e.gate).0) safe
          (submit-Safe ids different c now e.gate))
        (if_respond-Safe rule_name f c now e')

  hold-Safe :
      (rule_name f : String) (c : Command) (now : ℕ) (e : RuleEngine)
      → needs_approval (command_risk c.command_type) ≡ true
      → Safe ids e.gate (hold ids rule_name f c now e).gate
  hold-Safe rule_name f c now e risky =
      let reason = join "escalation_requested_by_" rule_name in
      let g = log_event ids "ESCALATION_REQUESTED" f none reason [] now e.gate in
      let (g', ref) = request ids rule_name f c now e.gate in
      let e' : RuleEngine = record e { gate = g' } in
      rw
        (raise_alert-gate (join "pending:" ref) (pending_alert ref now)
          (if_respond ids rule_name f c now e'))
        (Safe-trans ids e.gate g' (if_respond ids rule_name f c now e').gate
          (Safe-trans ids e.gate g g' (log_event-Safe _ f _ _ _ now e.gate) (
            subst (λ b. Safe ids g (submit ids c b now g).0) risky
              (submit-Safe ids different c now g)))
          (if_respond-Safe rule_name f c now e'))

  handle_order-Safe :
      (rule_name f : String) (now : ℕ) (o : Order) (e : RuleEngine)
      → Safe ids e.gate (handle_order ids rule_name f now o e).gate
  unfolding handle_order
  handle_order-Safe rule_name f now o e =
      let c = make_command ids o now e.gate in
      let e' : RuleEngine = record e { gate = drawn_two e.gate } in
      let drew : Safe ids e.gate e'.gate = same-Safe ids e.gate e'.gate refl refl (omega arith) in
      elim (Bool-cases (needs_approval (command_risk o.command_type))) [
        | inr safe ↦
            rw safe
              (Safe-trans ids e.gate e'.gate _ drew (send_safe-Safe rule_name f c now e' safe))
        | inl risky ↦ elim (Bool-cases (was_escalated f e.gate.event_log)) [
          | inl old ↦ rw (risky, old) drew
          | inr new ↦
              rw (risky, new)
                (Safe-trans ids e.gate e'.gate _ drew (hold-Safe rule_name f c now e' risky))
        ]
      ]

  pub evaluate-Safe :
      (fire : FireRecord) (context : Option RuleContext) (now : ℕ) (e : RuleEngine)
      → Safe ids e.gate (evaluate ids fire context now e).gate
  evaluate-Safe =
      evaluate_R ids (λ e e'. Safe ids e.gate e'.gate)
        (λ e. same-Safe ids e.gate e.gate refl refl (omega arith))
        (λ a b c p q. Safe-trans ids a.gate b.gate c.gate p q) handle_order-Safe
        (λ rule_name f u now e. same-Safe ids e.gate e.gate refl refl (omega arith))
        (λ id a e.
          rw (raise_alert-gate id a e) (same-Safe ids e.gate e.gate refl refl (omega arith)))
