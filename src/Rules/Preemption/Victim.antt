-- ===== src/Rules/Preemption/Victim.antt =====
-- From whom PriorityRule takes a leader.
use wfc.Prelude.{
  sym, ℕ, ◌≤◌, ◌<◌, ◌≡◌, refl, true, ◌&&◌, String, Option, none, some, List, arith, inl, inr,
  Bool-cases, Option-cases, leb, head?, is_empty, least_of, least_of-mem, least_of-le,
}
use wfc.Dict.{IsUnique}
use wfc.Dict.Select.{select_values, select_values_sound, select_values_complete}
use wfc.Fires.{FireRecord, FireStateStore, get}
use wfc.Nodes.{NodeRegistry}
use wfc.Nodes.Selection.{get_available}
use wfc.Rules.{Order, StateUpdates, skipped, triggered, RuleContext, is_new_fire}
use wfc.Rules.Preemption.{
  priority_of, is_robbable, steal_orders, steal_updates, preempt_from, priority,
}

-- `victim` stands in the store, has `leader` first, has a lower priority than the fire, and no other
-- fire that could be robbed has a lower one
pub record IsVictim (s : FireStateStore) (fire victim : FireRecord) (leader : String) : Type 0 where
  pub key : String
  pub found : get s key ≡ some victim
  pub robbable : is_robbable fire victim ≡ true
  pub led : head? victim.assigned_nodes ≡ some leader
  pub lower : priority_of victim.severity < priority_of fire.severity
  pub lowest :
      (j : String) (f : FireRecord)
      → get s j ≡ some f
      → is_robbable fire f ≡ true
      → priority_of victim.severity ≤ priority_of f.severity

not_skipped : {orders : List Order} {u : StateUpdates} → ¬ (skipped ≡ triggered orders u)
not_skipped q = cc

orders_of : {a b : List Order} {x y : StateUpdates} → triggered a x ≡ triggered b y → a ≡ b
orders_of q = cc

updates_of : {a b : List Order} {x y : StateUpdates} → triggered a x ≡ triggered b y → x ≡ y
updates_of q = cc

module _ (fire : FireRecord) {orders : List Order} {u : StateUpdates} where
  preempt_from_cases :
      (o : Option FireRecord)
      → preempt_from fire o ≡ triggered orders u
      → (victim : FireRecord) × (leader : String) × (o ≡ some victim)
        × (head? victim.assigned_nodes ≡ some leader)
        × (priority_of victim.severity < priority_of fire.severity)
        × (orders ≡ steal_orders fire victim leader)
        × (u ≡ steal_updates victim leader)
  preempt_from_cases none h = absurd (not_skipped h)
  preempt_from_cases (some victim) h =
      elim (Bool-cases (leb (priority_of fire.severity) (priority_of victim.severity))) [
        | inl e ↦ absurd (not_skipped (rw e at h))
        | inr e ↦ elim (Option-cases (head? victim.assigned_nodes)) [
          | inl q ↦ absurd (not_skipped (rw (e, q) at h))
          | inr (leader, q) ↦
              let same : triggered (steal_orders fire victim leader) (steal_updates victim leader)
                  ≡ triggered orders u =
                rw (e, q) at h in
              (victim, leader, refl, q, ground arith, sym (orders_of same), sym (updates_of same))
        ]
      ]

-- Whenever PriorityRule triggers, with a store that has each fire once: no swarm leader is available,
-- the fire has no leader, and the two commands and the update are those that take the first leader of
-- a fire of the store that is not terminal, is another fire, has a strictly lower priority, and the
-- lowest of all such fires.
pub priority-IsVictim :
    (fire : FireRecord) (registry : NodeRegistry) (context : RuleContext) (s : FireStateStore)
    (orders : List Order) (u : StateUpdates)
    → IsUnique s.fires
    → priority fire registry context (some s) ≡ triggered orders u
    → (is_empty (get_available "SWARM_LEAD" registry) ≡ true)
      × (is_empty fire.assigned_nodes ≡ true)
      × ((victim : FireRecord) × (leader : String) × (orders ≡ steal_orders fire victim leader)
          × (u ≡ steal_updates victim leader)
          × IsVictim s fire victim leader)
unfolding priority
priority-IsVictim fire registry context s orders u unique h =
    elim (Bool-cases (
      is_new_fire context.trigger
      && is_empty (get_available "SWARM_LEAD" registry)
      && is_empty fire.assigned_nodes)) [
        | inr shut ↦ absurd (not_skipped (rw shut at h))
        | inl ready ↦
            let key : FireRecord → ℕ = λ f. priority_of f.severity in
            let fires = select_values (is_robbable fire) s.fires in
            let (victim, leader, found, led, lower, sent, told) =
              preempt_from_cases fire (least_of key fires) (rw ready at h) in
            let (k, g, ok) =
              select_values_sound (is_robbable fire) s.fires victim unique
                (least_of-mem key fires victim found) in
            (
              ground arith,
              ground arith,
              (
                victim,
                leader,
                sent,
                told,
                record {
                  key = k;
                  found = g;
                  robbable = ok;
                  led = led;
                  lower = lower;
                  lowest = λ j f gf rf.
                      least_of-le key fires victim f found
                        (select_values_complete (is_robbable fire) s.fires j f gf rf);
                },
              ),
            )
      ]
