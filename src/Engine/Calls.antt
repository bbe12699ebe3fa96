-- ===== src/Engine/Calls.antt =====
-- RuleEngine.evaluate changes fires through FireStateStore's methods, and nodes through assign_job.
use wfc.Prelude.{
  ap, ◌∙◌, ℕ, ◌≡◌, refl, sym, true, false, String, Option, none, some, List, [], ◌∷◌, ◌++◌, arith,
  ◌⊎◌, inl, inr, Bool-cases, Option-cases, if◌then◌else◌,
}
use wfc.Shared.Status.{FireStatus}
use wfc.Shared.Commands.{Command}
use wfc.Fires.{FireRecord, FireStateStore, get}
use wfc.Fires.Histories.{
  FireCall, transition_call, assign_node_call, remove_assigned_node_call, update_severity_call, run,
}
use wfc.Fires.Histories
use wfc.Fires.Lifecycle.{◌⟶*◌, follows_table}
use wfc.Nodes.{NodeRegistry, assign_job}
use wfc.Dispatch.{Ids}
use wfc.Approval.{Gate, submit}
use Prim.Native.String.{◌++◌ as join}
use wfc.Rules.{Order, RuleContext, StateUpdates}
use wfc.Shared.Commands.{command_risk, needs_approval}
use wfc.Engine.{
  request, pending_alert, Alert, RuleEngine, raise_alert, if_respond, is_respond, hold, send_safe,
  handle_order, was_escalated, make_command, drawn_two, set_state, set_severity, take_leader,
  apply_updates, evaluate,
}
use wfc.Engine.Steps.{evaluate_R}

run-append : (cs ds : List FireCall) (s : FireStateStore) → run (cs ++ ds) s ≡ run ds (run cs s)
unfolding run
run-append [] ds s = refl
run-append (c ∷ cs) ds s = run-append cs ds (Histories.call c s)

-- `s'` comes of `s` by calls of the store's methods
abbrev pub IsRun : FireStateStore → FireStateStore → Type 0
IsRun s s' = (cs : List FireCall) × (s' ≡ run cs s)

IsRun-refl : (s : FireStateStore) → IsRun s s
unfolding run
IsRun-refl s = ([], refl)

IsRun-trans : (a b c : FireStateStore) → IsRun a b → IsRun b c → IsRun a c
IsRun-trans a b c (cs, p) (ds, q) = (cs ++ ds, rw (q, p, run-append cs ds a))

-- the nodes that are given jobs, in turn
unfoldable pub assign_jobs : List (String × String) → NodeRegistry → NodeRegistry
assign_jobs [] r = r
assign_jobs ((node_id, fire_id) ∷ jobs) r = assign_jobs jobs (assign_job node_id fire_id r)

assign_jobs-append :
    (xs ys : List (String × String)) (r : NodeRegistry)
    → assign_jobs (xs ++ ys) r ≡ assign_jobs ys (assign_jobs xs r)
unfolding assign_jobs
assign_jobs-append [] ys r = refl
assign_jobs-append ((n, f) ∷ xs) ys r = assign_jobs-append xs ys (assign_job n f r)

-- how the fires and the nodes of an engine may change
pub record IsLawful (e e' : RuleEngine) : Type 0 where
  pub fires_run :
      (s : FireStateStore)
      → e.fires ≡ some s
      → (s' : FireStateStore) × (e'.fires ≡ some s') × IsRun s s'
  pub nodes_run : (jobs : List (String × String)) × (e'.registry ≡ assign_jobs jobs e.registry)

IsLawful-same : (e e' : RuleEngine) → e'.fires ≡ e.fires → e'.registry ≡ e.registry → IsLawful e e'
unfolding assign_jobs
IsLawful-same e e' p q = record {
  fires_run = λ s h. (s, rw p h, IsRun-refl s);
  nodes_run = ([], q);
}

IsLawful-trans : (a b c : RuleEngine) → IsLawful a b → IsLawful b c → IsLawful a c
IsLawful-trans a b c l m = record {
  fires_run = λ s h.
      let (t, p, r) = l.fires_run s h in
      let (u, q, r') = m.fires_run t p in (u, q, IsRun-trans s t u r r');
  nodes_run =
      let (xs, p) = l.nodes_run in
      let (ys, q) = m.nodes_run in (xs ++ ys, rw (q, p, assign_jobs-append xs ys a.registry));
}

pub raise_alert-keeps :
    (id : String) (a : Alert) (e : RuleEngine)
    → ((raise_alert id a e).fires ≡ e.fires) × ((raise_alert id a e).registry ≡ e.registry)
raise_alert-keeps id a e = elim (Option-cases e.alerts) [
  | inl q ↦ rw q (refl, refl)
  | inr (rows, q) ↦ rw q (refl, refl)
]

raise_alert-IsLawful : (id : String) (a : Alert) (e : RuleEngine) → IsLawful e (raise_alert id a e)
raise_alert-IsLawful id a e =
    let (p, q) = raise_alert-keeps id a e in IsLawful-same e (raise_alert id a e) p q

if_respond-IsLawful :
    (ids : Ids) (rule_name f : String) (c : Command) (now : ℕ) (e : RuleEngine)
    → IsLawful e (if_respond ids rule_name f c now e)
unfolding assign_jobs run Histories.call
if_respond-IsLawful ids rule_name f c now e = elim (Bool-cases (is_respond c.command_type)) [
  | inr n ↦ rw n (IsLawful-same e e refl refl)
  | inl y ↦ rw y (record {
    fires_run = λ s h. rw h (_, refl, (assign_node_call f (some c.target_node) _ now ∷ [], refl));
    nodes_run = ((c.target_node, f) ∷ [], refl);
  })
]

gated-IsLawful :
    (ids : Ids) (rule_name f : String) (c : Command) (now : ℕ) (e : RuleEngine) (g : Gate)
    → IsLawful e (if_respond ids rule_name f c now (record e { gate = g }))
gated-IsLawful ids rule_name f c now e g =
    let e' : RuleEngine = record e { gate = g } in
    IsLawful-trans e e' (if_respond ids rule_name f c now e') (IsLawful-same e e' refl refl)
      (if_respond-IsLawful ids rule_name f c now e')

send_safe-IsLawful :
    (ids : Ids) (rule_name f : String) (c : Command) (now : ℕ) (e : RuleEngine)
    → IsLawful e (send_safe ids rule_name f c now e)
send_safe-IsLawful ids rule_name f c now e =
    gated-IsLawful ids rule_name f c now e (submit ids c false now e.gate).0

hold-IsLawful :
    (ids : Ids) (rule_name f : String) (c : Command) (now : ℕ) (e : RuleEngine)
    → IsLawful e (hold ids rule_name f c now e)
hold-IsLawful ids rule_name f c now e =
    let (g, ref) = request ids rule_name f c now e.gate in
    IsLawful-trans e (if_respond ids rule_name f c now (record e { gate = g })) _
      (gated-IsLawful ids rule_name f c now e g)
      (raise_alert-IsLawful (join "pending:" ref) (pending_alert ref now) _)

handle_order-IsLawful :
    (ids : Ids) (rule_name f : String) (now : ℕ) (o : Order) (e : RuleEngine)
    → IsLawful e (handle_order ids rule_name f now o e)
unfolding handle_order
handle_order-IsLawful ids rule_name f now o e =
    let c = make_command ids o now e.gate in
    let e' : RuleEngine = record e { gate = drawn_two e.gate } in
    let drew : IsLawful e e' = IsLawful-same e e' refl refl in
    elim (Bool-cases (needs_approval (command_risk o.command_type))) [
      | inr safe ↦
          rw safe (IsLawful-trans e e' _ drew (send_safe-IsLawful ids rule_name f c now e'))
      | inl risky ↦ elim (Bool-cases (was_escalated f e.gate.event_log)) [
        | inl old ↦ rw (risky, old) drew
        | inr new ↦
            rw (risky, new) (IsLawful-trans e e' _ drew (hold-IsLawful ids rule_name f c now e'))
      ]
    ]

set_state-IsRun :
    (rule_name f : String) (u : Option (FireStatus × String)) (clear : wfc.Prelude.Bool) (now : ℕ)
    (s : FireStateStore)
    → IsRun s (set_state rule_name f u clear now s)
unfolding run Histories.call
set_state-IsRun rule_name f none clear now s = ([], refl)
set_state-IsRun rule_name f (some (state, reason)) true now s =
    (transition_call f state _ none none now ∷ assign_node_call f none _ now ∷ [], refl)
set_state-IsRun rule_name f (some (state, reason)) false now s =
    (transition_call f state _ none none now ∷ [], refl)

set_severity-IsRun :
    (rule_name f : String) (u : Option String) (now : ℕ) (s : FireStateStore)
    → IsRun s (set_severity rule_name f u now s)
unfolding run Histories.call
set_severity-IsRun rule_name f none now s = ([], refl)
set_severity-IsRun rule_name f (some severity) now s =
    (update_severity_call f severity _ now ∷ [], refl)

take_leader-IsRun :
    (rule_name : String) (u : Option (String × String)) (now : ℕ) (s : FireStateStore)
    → IsRun s (take_leader rule_name u now s)
unfolding run Histories.call
take_leader-IsRun rule_name none now s = ([], refl)
take_leader-IsRun rule_name (some (old, stolen)) now s =
    (remove_assigned_node_call old stolen _ now ∷ [], refl)

apply_updates-IsLawful :
    (rule_name f : String) (u : StateUpdates) (now : ℕ) (e : RuleEngine)
    → IsLawful e (record e { fires = apply_updates rule_name f u now e.fires })
unfolding apply_updates assign_jobs
apply_updates-IsLawful rule_name f u now e = record {
  fires_run = λ s h.
      let a = set_state rule_name f u.state u.clear_assigned_nodes now s in
      let b = set_severity rule_name f u.severity now a in
      rw h (
        _,
        refl,
        IsRun-trans s a _ (set_state-IsRun rule_name f u.state u.clear_assigned_nodes now s) (
            IsRun-trans a b _ (set_severity-IsRun rule_name f u.severity now a)
              (take_leader-IsRun rule_name u.preempt now b)),
      );
  nodes_run = ([], refl);
}

evaluate-IsLawful :
    (ids : Ids) (fire : FireRecord) (context : Option RuleContext) (now : ℕ) (e : RuleEngine)
    → IsLawful e (evaluate ids fire context now e)
evaluate-IsLawful ids =
    evaluate_R ids IsLawful (λ e. IsLawful-same e e refl refl) IsLawful-trans
      (handle_order-IsLawful ids) apply_updates-IsLawful raise_alert-IsLawful

-- Evaluating a fire, in an engine that has a store of fires, changes the fires only by calls of
-- FireStateStore's methods, in some order, and the nodes only by calls of assign_job.
pub evaluate_runs :
    (ids : Ids) (fire : FireRecord) (context : Option RuleContext) (now : ℕ) (e : RuleEngine)
    (s : FireStateStore)
    → e.fires ≡ some s
    → (cs : List FireCall) × (jobs : List (String × String)) × ((evaluate ids fire context now
          e).fires
        ≡ some (run cs s))
      × ((evaluate ids fire context now e).registry ≡ assign_jobs jobs e.registry)
evaluate_runs ids fire context now e s h =
    let lawful = evaluate-IsLawful ids fire context now e in
    let (s', p, (cs, q)) = lawful.fires_run s h in
    let (jobs, w) = lawful.nodes_run in (cs, jobs, p ∙ ap some q, w)

-- Evaluating a fire loses no fire that the engine's store has, and moves each by FIRE_TRANSITIONS alone.
pub evaluate_follows_table :
    (ids : Ids) (fire : FireRecord) (context : Option RuleContext) (now : ℕ) (e : RuleEngine)
    (s : FireStateStore) (k : String) (r : FireRecord)
    → e.fires ≡ some s
    → get s k ≡ some r
    → (s' : FireStateStore) × (r' : FireRecord) × ((evaluate ids fire context now e).fires
        ≡ some s')
      × (get s' k ≡ some r')
      × (r.state ⟶* r'.state)
evaluate_follows_table ids fire context now e s k r h g =
    let (s', p, (cs, q)) = (evaluate-IsLawful ids fire context now e).fires_run s h in
    let (r', g', w) = follows_table cs s k r g in (s', r', p, rw q g', w)
