-- ===== src/Heartbeat/Alternation.antt =====
-- on_node_failed and on_node_recovered take turns for each node.
use wfc.Prelude.{
  ℕ, ◌+◌, ◌≡◌, Bool, true, false, String, none, List, [], ◌∷◌, arith, ◌==◌, eq_iff, ltb, contains,
  contains-without, inl, inr, Bool-cases, if◌then◌else◌,
}
use wfc.Dict
use wfc.Dict.{Dict, get-put, get-pop, IsUnique}
use wfc.Heartbeat.{
  HeartbeatMonitor, MonitorEvent, node_failed, node_recovered, update, declare_dead, check_all,
  tick,
}

-- the last event of the node says that it failed
unfoldable pub is_down : List MonitorEvent → String → Bool
is_down [] k = false
is_down (node_failed j now ∷ log) k = if j == k then true else is_down log k
is_down (node_recovered j now ∷ log) k = if j == k then false else is_down log k

-- a failure is reported of a node that is up, and a recovery of one that is down
abbrev pub Alternates : List MonitorEvent → Type 0
Alternates [] = Unit {0}
Alternates (node_failed j now ∷ log) = (is_down log j ≡ false) × Alternates log
Alternates (node_recovered j now ∷ log) = (is_down log j ≡ true) × Alternates log

-- the set of dead nodes is what the callbacks last said, and no dead node has a time on record
pub record IsConsistent (m : HeartbeatMonitor) : Type 0 where
  pub turns : Alternates m.log
  pub dead_is_down : (k : String) → contains m.dead_nodes k ≡ is_down m.log k
  pub dead_unseen : (k : String) → contains m.dead_nodes k ≡ true → Dict.get m.last_seen k ≡ none

module _ (n : String) (now : ℕ) (m : HeartbeatMonitor) (c : IsConsistent m) where
  update-IsConsistent : IsConsistent (update n now m)
  unfolding update is_down
  update-IsConsistent = elim (Bool-cases (contains m.dead_nodes n)) [
    | inl e ↦
        rw (e, update)
          (record {
            turns = (ground (arith, c.dead_is_down n), c.turns);
            dead_is_down = λ k. ground (arith, contains-without m.dead_nodes n k, c.dead_is_down k);
            dead_unseen = λ k h. ground (
              arith,
              contains-without m.dead_nodes n k,
              get-put m.last_seen n k now,
              c.dead_unseen k,
            );
          })
    | inr e ↦
        rw (e, update)
          (record {
            turns = c.turns;
            dead_is_down = c.dead_is_down;
            dead_unseen =
                λ k h. ground (arith, get-put m.last_seen n k now, c.dead_unseen k, eq_iff n k);
          })
  ]

  declare_dead-IsConsistent : IsConsistent (declare_dead n now m)
  unfolding declare_dead is_down contains
  declare_dead-IsConsistent = elim (Bool-cases (contains m.dead_nodes n)) [
    | inl e ↦ rw (e, declare_dead) c
    | inr e ↦
        rw (e, declare_dead)
          (record {
            turns = (ground (arith, c.dead_is_down n), c.turns);
            dead_is_down = λ k. ground (arith, c.dead_is_down k);
            dead_unseen = λ k h. ground (arith, get-pop m.last_seen n k, c.dead_unseen k);
          })
  ]

check_all-IsConsistent :
    (items : Dict ℕ) (now : ℕ) (m : HeartbeatMonitor)
    → IsConsistent m
    → IsConsistent (check_all items now m)
unfolding check_all
check_all-IsConsistent [] now m c = c
check_all-IsConsistent ((n, last) ∷ items) now m c =
    elim (Bool-cases (ltb (last + m.timeout) now)) [
      | inl e ↦
          rw (e, check_all)
            (check_all-IsConsistent items now (declare_dead n now m)
              (declare_dead-IsConsistent n now m c))
      | inr e ↦ rw (e, check_all) (check_all-IsConsistent items now m c)
    ]

-- a heartbeat or a tick
pub data MonitorCall : Type 0 where
  update_call : String → ℕ → MonitorCall
  tick_call : ℕ → MonitorCall

unfoldable pub run : List MonitorCall → HeartbeatMonitor → HeartbeatMonitor
run [] m = m
run (update_call n now ∷ cs) m = run cs (update n now m)
run (tick_call now ∷ cs) m = run cs (tick now m)

-- After any heartbeats and ticks, with any clock, the failures and recoveries of each node
-- alternate, the first a failure; the nodes held dead are those whose last event is a failure, and
-- none of them has a time on record.
pub run-IsConsistent :
    (cs : List MonitorCall) (m : HeartbeatMonitor) → IsConsistent m → IsConsistent (run cs m)
unfolding run tick
run-IsConsistent [] m c = c
run-IsConsistent (update_call n now ∷ cs) m c =
    run-IsConsistent cs (update n now m) (update-IsConsistent n now m c)
run-IsConsistent (tick_call now ∷ cs) m c =
    run-IsConsistent cs (tick now m) (check_all-IsConsistent m.last_seen now m c)
