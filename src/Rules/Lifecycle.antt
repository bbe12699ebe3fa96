-- ===== src/Rules/Lifecycle.antt =====
-- Commander_Repo/core/rule_engine/rules/: elected_leader.py, severity_increase.py, rekindled.py,
-- containment_failure.py and fire_verification.py.
use Prim.Native.String.{◌++◌ as join}
use wfc.Prelude.{
  ℕ, Bool, true, false, ◌&&◌, ◌||◌, not, String, Option, none, some, List, [], ◌∷◌, ◌==◌, leb,
  holds, head?, contains, if◌then◌else◌,
}
use wfc.Dict.Select.{select_values}
use wfc.Shared.Status.{FireStatus, active, spreading, extinguished, suppressed, is_active_node}
use wfc.Shared.Commands.{text, number, coords, confirm_leadership, dispatch_drone}
use wfc.Fires.{FireRecord}
use wfc.Nodes.{NodeRecord, NodeRegistry, get}
use wfc.Rules.{
  EvalTrigger, rekindled, intensity_update, no_updates, RuleResult, skipped, triggered,
  SwarmSnapshot, Election, RuleContext, Evaluation, state_name, is_burning, is_contained,
  is_telemetry, is_new_fire, order, is_alive,
}

-- `rec is not None and "SWARM_LEAD" in rec.capabilities`
abbrev can_lead : Option NodeRecord → Bool
can_lead none = false
can_lead (some r) = contains r.capabilities "SWARM_LEAD"

abbrev confirm : FireRecord → NodeRegistry → ℕ → Option String → RuleResult
confirm fire registry term none = skipped
confirm fire registry term (some leader) =
    if can_lead (get registry leader)
    then triggered
        (order leader confirm_leadership (
            ("fire_id", text fire.fire_id)
            ∷ ("current_state", text (state_name fire.state))
            ∷ ("severity", text fire.severity)
            ∷ ("location_coords", coords fire.location_coords)
            ∷ ("term_accepted", number term)
            ∷ [])
          ∷ [])
        no_updates
    else skipped

abbrev elect : FireRecord → NodeRegistry → Option Election → RuleResult
elect fire registry none = skipped
elect fire registry (some e) =
    if leb e.term fire.leader_term || not (holds e.fire_id fire.fire_id)
    then skipped
    else confirm fire registry e.term e.new_leader_id

-- ElectedLeaderRule.evaluate
unfoldable pub elected_leader : Evaluation
elected_leader fire registry context fires = elect fire registry context.election_metadata

abbrev is_intensity : EvalTrigger → Bool
is_intensity intensity_update = true
is_intensity _ = false

abbrev raise_severity : FireRecord → Option String → RuleResult
raise_severity fire none = skipped
raise_severity fire (some intensity) =
    if intensity == fire.severity
    then skipped
    else triggered [] (record no_updates {
      severity = some intensity;
      transition_to = some (if is_burning fire.state then spreading else fire.state);
    })

-- SeverityIncreaseRule.evaluate
unfoldable pub severity_increase : Evaluation
severity_increase fire registry context fires =
    if is_intensity context.trigger then raise_severity fire context.new_intensity else skipped

abbrev is_rekindled : EvalTrigger → Bool
is_rekindled rekindled = true
is_rekindled _ = false

-- `state in (SUPPRESSED, EXTINGUISHED)`
abbrev pub can_rekindle : FireStatus → Bool
can_rekindle suppressed = true
can_rekindle extinguished = true
can_rekindle _ = false

-- without the attribute the rule raises, which the engine takes for a result that is not triggered
abbrev rekindle : Option (Option ℕ) → RuleResult
rekindle none = skipped
rekindle (some timestamp) =
    triggered []
      (record no_updates { state = some (active, "fire_rekindled"); rekindled_at = timestamp })

-- RekindleDetectionRule.evaluate
unfoldable pub rekindle_detection : Evaluation
rekindle_detection fire registry context fires =
    if is_rekindled context.trigger && can_rekindle fire.state
    then rekindle context.rekindled_payload
    else skipped

abbrev reactivate : String → RuleResult
reactivate reason =
    triggered [] (record no_updates { state = some (active, reason); clear_assigned_nodes = true })

-- `snap.fire_id == fire.fire_id and snap.spread_rate not in (None, "SLOW")`
abbrev spreads : FireRecord → SwarmSnapshot → Bool
spreads fire snap = holds snap.fire_id fire.fire_id && is_fast snap.spread_rate
  where
    is_fast : Option String → Bool
    is_fast none = false
    is_fast (some rate) = not (rate == "SLOW")

abbrev any_spreads : FireRecord → List SwarmSnapshot → Bool
any_spreads fire [] = false
any_spreads fire (snap ∷ snaps) = spreads fire snap || any_spreads fire snaps

abbrev check_spread : FireRecord → RuleContext → RuleResult
check_spread fire context =
    if is_telemetry context.trigger && any_spreads fire context.swarm_snapshots
    then triggered [] (record no_updates { state = some (active, "contained_but_spreading") })
    else skipped

-- the loop over the assigned leaders, and what comes after it
abbrev check_leaders : List String → FireRecord → NodeRegistry → RuleContext → RuleResult
check_leaders [] fire registry context = check_spread fire context
check_leaders (id ∷ ids) fire registry context =
    let rest = check_leaders ids fire registry context in
    if is_alive (get registry id)
    then rest
    else reactivate (join "leader_" (join id "_dead_on_contained_fire"))

abbrev hold_line : List String → FireRecord → NodeRegistry → RuleContext → RuleResult
hold_line [] fire registry context = reactivate "contained_fire_has_no_assigned_leader"
hold_line (id ∷ ids) fire registry context = check_leaders (id ∷ ids) fire registry context

-- ContainmentFailureRule.evaluate
unfoldable pub containment_failure : Evaluation
containment_failure fire registry context fires =
    if is_contained fire.state then hold_line fire.assigned_nodes fire registry context else skipped

abbrev send_scout : FireRecord → Option NodeRecord → RuleResult
send_scout fire none = skipped
send_scout fire (some scout) =
    triggered
      (order scout.node_id dispatch_drone (
          ("fire_id", text fire.fire_id)
          ∷ ("task", text "VERIFY")
          ∷ ("location", coords fire.location_coords)
          ∷ [])
        ∷ [])
      no_updates

-- FireVerificationRule.evaluate
unfoldable pub fire_verification : Evaluation
fire_verification fire registry context fires =
    if is_new_fire context.trigger && fire.severity == "LOW"
    then send_scout fire (
        head? (
          select_values (λ r. contains r.capabilities "SCOUT" && is_active_node r.status)
            registry.nodes))
    else skipped
