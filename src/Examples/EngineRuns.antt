-- ===== src/Examples/EngineRuns.antt =====
-- Runs of RuleEngine and of two of its rules.
use wfc.Prelude.{
  Bool-cases, inl, inr, eq_iff, ◌==◌, contains, ◌≡◌, refl, some, none, String, ℕ, ◌≤◌, true, false,
  List, [], ◌∷◌, Option, Memᴰ, arith, is_empty,
}
use wfc.Dict
use wfc.Dict.{IsUnique}
use wfc.Shared.Status.{active}
use wfc.Shared.Commands.{Command, escalate_fire}
use wfc.Fires.{assigned_node, FireRecord, FireStateStore, get}
use wfc.Fires.Histories.{FireCall, run}
use wfc.Nodes
use wfc.Nodes.{NodeRecord, NodeRegistry, Announcement, new_node}
use wfc.Nodes.Selection.{get_available, get_in_zone}
use wfc.Nodes.Status.{IsKeyed}
use wfc.Tracker.{Envelope}
use wfc.Events.{empty_log}
use wfc.Dispatch.{Ids, command_message}
use wfc.Approval.{Gate}
use wfc.Rules.{no_updates, RuleContext, new_fire, triggered, is_burning}
use wfc.Rules.Staffing.{fire_dispatch, respond, select_target}
use wfc.Rules.Staffing.Targets.{IsFreeLeader, fire_dispatch_targets, fire_dispatch_triggers}
use wfc.Rules.Preemption.{priority, steal_orders, steal_updates}
use wfc.Rules.Preemption.Victim.{IsVictim, priority-IsVictim}
use wfc.Engine.{RuleEngine, evaluate}
use wfc.Engine.Published.{never_publishes_risky}
use wfc.Engine.Escalations.{count_in, escalates_once}
use wfc.Engine.Calls.{assign_jobs, evaluate_runs}

abbrev blaze : String → String → List String → FireRecord
blaze id severity leaders = record {
  fire_id = id;
  state = active;
  zone = "zone-a";
  severity = severity;
  sensor_id = "s1";
  location_coords = none;
  assigned_nodes = leaders;
  leader_term = 0;
  mission_id = none;
  created_at = 1;
  updated_at = 1;
  history = [];
}

abbrev big : FireRecord
big = blaze "f1" "HIGH" []

abbrev small : FireRecord
small = blaze "f2" "LOW" ("n1" ∷ [])

abbrev both : FireStateStore
both = record { fires = ("f1", big) ∷ ("f2", small) ∷ []; repo = none }

abbrev leads : Announcement
leads = record {
  node_type = "leader";
  capabilities = some ("SWARM_LEAD" ∷ []);
  zone = none;
  location = none;
}

abbrev leader : NodeRecord
leader = record (new_node "n1" leads 0) { status = active }

abbrev crew : NodeRegistry
crew = record { nodes = ("n1", leader) ∷ []; repo = none }

one : (k : String) (r : NodeRecord) → Nodes.get crew k ≡ some r → r.node_id ≡ k
unfolding Dict.get
one k r g = elim (Bool-cases ("n1" == k)) [
  | inl e ↦ ground (arith, rw e at g, eq_iff "n1" k)
  | inr n ↦ absurd (absent (rw n at g))
]
  where
    absent : ¬ (none ≡ some r)
    absent q = cc

crew-IsKeyed : IsKeyed crew
unfolding Dict.get
crew-IsKeyed = record { unique = (refl, tt); keyed = λ k r g. one k r g }

abbrev no_crew : NodeRegistry
no_crew = record { nodes = []; repo = none }

abbrev at_birth : RuleContext
at_birth = record {
  trigger = new_fire;
  swarm_snapshots = [];
  election_metadata = none;
  telemetry_rules = none;
  shares_fires = true;
  new_intensity = none;
  rekindled_payload = none;
}

dispatched : fire_dispatch big crew at_birth none ≡ triggered (respond big "n1" ∷ []) no_updates
unfolding fire_dispatch get_available wfc.Dict.Select.select_keys contains select_target get_in_zone
dispatched = refl

fire_dispatch_targets_example :
    (n : String) × (respond big "n1" ∷ [] ≡ respond big n ∷ [])
    × (no_updates ≡ no_updates)
    × (is_burning big.state ≡ true)
    × (assigned_node big ≡ none)
    × IsFreeLeader crew n
fire_dispatch_targets_example =
    fire_dispatch_targets crew crew-IsKeyed big at_birth none (respond big "n1" ∷ []) no_updates
      dispatched

n1-IsFreeLeader : IsFreeLeader crew "n1"
unfolding Dict.get contains
n1-IsFreeLeader = (leader, refl, record { able = refl; alive = refl; free = refl })

fire_dispatch_triggers_example :
    (m : String) × (fire_dispatch big crew at_birth none
      ≡ triggered (respond big m ∷ []) no_updates)
fire_dispatch_triggers_example =
    fire_dispatch_triggers crew crew-IsKeyed big at_birth none "n1" (unfold Dict.get in refl) refl
      refl n1-IsFreeLeader

preempted :
    priority big no_crew at_birth (some both)
    ≡ triggered (steal_orders big small "n1") (steal_updates small "n1")
unfolding priority get_available wfc.Dict.Select.select_keys wfc.Dict.Select.select_values
    wfc.Prelude.least
preempted = refl

both-IsUnique : IsUnique both.fires
unfolding Dict.get
both-IsUnique = (refl, (refl, tt))

priority-IsVictim_example :
    (is_empty (get_available "SWARM_LEAD" no_crew) ≡ true)
    × (is_empty big.assigned_nodes ≡ true)
    × ((victim : FireRecord) × (leader' : String) × (steal_orders big small "n1"
          ≡ steal_orders big victim leader')
        × (steal_updates small "n1" ≡ steal_updates victim leader')
        × IsVictim both big victim leader')
priority-IsVictim_example =
    priority-IsVictim big no_crew at_birth both (steal_orders big small "n1")
      (steal_updates small "n1") both-IsUnique preempted

abbrev plain_ids : Ids
plain_ids = record { uuid4 = λ n. "u1"; uuid5 = λ key. key }

abbrev escalate : Command
escalate = record {
  command_id = "c1";
  target_node = "hq";
  command_type = escalate_fire;
  payload = [];
  timestamp = 1;
}

abbrev old_envelope : Envelope
old_envelope = record { trace_id = "t1"; command = escalate; timestamp = 1 }

abbrev engine : RuleEngine
engine = record {
  registry = crew;
  gate = record {
    desk = record { tracker = none; outbox = command_message "hq" old_envelope ∷ []; drawn = 0 };
    ttl = none;
    store = [];
    repo = none;
    event_log = some empty_log;
  };
  fires = some both;
  alerts = some [];
}

-- the rule fire_dispatch alone
abbrev dispatching : RuleContext
dispatching = record at_birth { telemetry_rules = some ("fire_dispatch" ∷ []) }

published_before :
    Memᴰ
      (command_message "hq" old_envelope)
      (evaluate plain_ids big (some dispatching) 9 engine).gate.desk.outbox
unfolding evaluate contains fire_dispatch get_in_zone wfc.Dict.Select.select_keys get_available
    wfc.Approval.submit wfc.Dispatch.send
published_before = Memᴰ.head refl

never_publishes_risky_example : Memᴰ (command_message "hq" old_envelope) engine.gate.desk.outbox
never_publishes_risky_example =
    never_publishes_risky plain_ids big (some dispatching) 9 engine "hq" old_envelope
      published_before refl

no_rows : count_in "f1" (some empty_log) ≤ 1
unfolding wfc.Engine.Escalations.count_rows
no_rows = omega arith

escalates_once_example :
    count_in "f1" (evaluate plain_ids big (some at_birth) 9 engine).gate.event_log ≤ 1
escalates_once_example = escalates_once plain_ids big (some at_birth) 9 engine "f1" no_rows

evaluate_runs_example :
    (cs : List FireCall) × (jobs : List (String × String)) × ((evaluate plain_ids big
        (some at_birth)
        9
        engine).fires
      ≡ some (run cs both))
    × ((evaluate plain_ids big (some at_birth) 9 engine).registry ≡ assign_jobs jobs crew)
evaluate_runs_example = evaluate_runs plain_ids big (some at_birth) 9 engine both refl

has_small : get both "f2" ≡ some small
unfolding Dict.get
has_small = refl
