-- ===== src/SwarmLeader/Orders.antt =====
-- What the commands of the commander make the drones do.
use mathlib.Core.List.Memᴰ
use mathlib.Core.Path.{subst}
use wfc.Prelude.{
  ℕ, ◌≡◌, refl, sym, ap, ◌∙◌, false, String, Option, none, some, List, [], ◌∷◌, ◌++◌, Memᴰ,
  contains, Bool, true, ◌⊎◌, inl, inr,
}
use wfc.Shared.Commands.{Coord, Payload}
use wfc.Dispatch.{Ids}
use wfc.Tracker.{CommandTracker, issued, failed}
use wfc.Drones.{DroneRecord, get_all}
use wfc.Tactics.{
  DroneAssignment, DroneCommand, assign_stand_down, dispatch_assignments, recall, command_of,
}
use wfc.Tactics.Dispatching.{IsSent, dispatch_serves}
use wfc.FieldNode.{CommandMessage, FieldNode, named_trace}
use wfc.FieldNode.Delivery.{status_after, redeliver, acks_complete}
use wfc.FieldNode.Tracked.{IsIn, IsUnseen, deliver}
use wfc.SwarmLeader.{SwarmLeader, execute_command, cmd_stand_down}

module _ (ring : Coord → String → Option ℕ → ℕ → ℕ → Coord) (ids : Ids) where
  reinforce_raises :
      (p : Payload) (trace_id : String) (s : SwarmLeader)
      → ((execute_command ring ids "REINFORCE_FIRE" p trace_id s).1 ≡ false)
  unfolding execute_command
  reinforce_raises p trace_id s = refl

  -- A REINFORCE_FIRE that reaches a leader for the first time, and any number of times more, and of which the
  -- tracker, told of what the leader acknowledged before, knows only that it was issued, ends FAILED in the
  -- tracker, whatever its payload and whatever drones the leader has.
  pub reinforce_always_fails :
      (p : Payload) (trace : Option String) (trace_id : String) (now : ℕ) (times : List ℕ)
      (n : FieldNode SwarmLeader) (t : CommandTracker)
      → named_trace trace ≡ some trace_id
      → contains n.handled_trace_ids trace_id ≡ false
      → IsIn trace_id issued (deliver n.acks t)
      → IsUnseen trace_id "RECEIVED" (deliver n.acks t)
      → IsUnseen trace_id "EXECUTED" (deliver n.acks t)
      → IsUnseen trace_id "FAILED" (deliver n.acks t)
      → (let m : CommandMessage = record {
        trace_id = trace;
        command_type = some "REINFORCE_FIRE";
        payload = p;
      } in
          IsIn trace_id failed
            (deliver (redeliver (execute_command ring ids) m (now ∷ times) n).acks t))
  unfolding contains
  reinforce_always_fails p trace trace_id now times n t named fresh at_first u₁ u₂ u₃ =
      let m : CommandMessage = record {
        trace_id = trace;
        command_type = some "REINFORCE_FIRE";
        payload = p;
      } in
      subst
        (λ b.
          IsIn trace_id (status_after (execute_command ring ids) b)
            (deliver (redeliver (execute_command ring ids) m (now ∷ times) n).acks t))
        (reinforce_raises p trace_id n.state)
        (acks_complete (execute_command ring ids) m trace_id "REINFORCE_FIRE" now times n t named
          refl fresh at_first u₁ u₂ u₃)

recall_all :
    (ds : List DroneRecord) (a : DroneAssignment)
    → Memᴰ a (assign_stand_down ds)
    → command_of a ≡ some (recall a)
unfolding assign_stand_down
recall_all [] a m = absurd (Memᴰ.not-nil m)
recall_all (d ∷ ds) a (Memᴰ.head e) = rw e refl
recall_all (d ∷ ds) a (Memᴰ.tail m) = recall_all ds a m

assigned_down :
    (ds : List DroneRecord) (d : DroneRecord)
    → Memᴰ d ds
    → (a : DroneAssignment) × Memᴰ a (assign_stand_down ds) × (a.drone_id ≡ d.drone_id)
unfolding assign_stand_down
assigned_down [] d m = absurd (Memᴰ.not-nil m)
assigned_down (x ∷ ds) d (Memᴰ.head e) = (_, Memᴰ.head refl, ap (λ y. y.drone_id) (sym e))
assigned_down (x ∷ ds) d (Memᴰ.tail m) = let (a, n, e) = assigned_down ds d m in (a, Memᴰ.tail n, e)

-- what STAND_DOWN and ABORT_MISSION make of the leader
abbrev pub IsRecalled : SwarmLeader → DroneRecord → SwarmLeader × Bool → Type 0
IsRecalled s d r =
    (new : List DroneCommand) × (c : DroneCommand) × (r.0.sent ≡ s.sent ++ new)
    × Memᴰ c new
    × (c.target_node ≡ d.drone_id)
    × (c.command_type ≡ "RECALL_DRONE")
    × (r.0.current_fire_id ≡ none)
    × (r.0.current_fire_pos ≡ none)
    × (r.1 ≡ true)

stood_down-IsRecalled :
    (s : SwarmLeader) (d : DroneRecord)
    → Memᴰ d (get_all s.drones)
    → IsRecalled s d (cmd_stand_down s, true)
unfolding cmd_stand_down
stood_down-IsRecalled s d m =
    let (a, n, e) = assigned_down (get_all s.drones) d m in
    let (b, n', e', le, sent, once) = dispatch_serves (assign_stand_down (get_all s.drones)) a n in
    let at_b = recall_all (get_all s.drones) b n' in
    (
      dispatch_assignments (assign_stand_down (get_all s.drones)),
      recall b,
      refl,
      subst (λ o. IsSent o (dispatch_assignments (assign_stand_down (get_all s.drones)))) at_b sent,
      e' ∙ e,
      refl,
      refl,
      refl,
      refl,
    )

-- A STAND_DOWN or an ABORT_MISSION that a leader executes, with whatever payload, comes to its end: every
-- drone that the leader has registered is sent a new RECALL_DRONE, and the leader is left without a fire and
-- without the place of one.
pub stand_down_recalls :
    (ring : Coord → String → Option ℕ → ℕ → ℕ → Coord) (ids : Ids) (command_type : String)
    (p : Payload) (trace_id : String) (s : SwarmLeader) (d : DroneRecord)
    → (command_type ≡ "STAND_DOWN") ⊎ (command_type ≡ "ABORT_MISSION")
    → Memᴰ d (get_all s.drones)
    → IsRecalled s d (execute_command ring ids command_type p trace_id s)
unfolding execute_command
stand_down_recalls ring ids command_type p trace_id s d (inl e) m =
    rw e (stood_down-IsRecalled s d m)
stand_down_recalls ring ids command_type p trace_id s d (inr e) m =
    rw e (stood_down-IsRecalled s d m)
