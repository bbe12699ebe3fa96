-- ===== src/Heartbeat/Ticks.antt =====
-- What one tick declares dead.
use wfc.Prelude.{
  ℕ, ◌+◌, ◌<◌, ◌≡◌, refl, ◌∙◌, true, false, String, some, [], ◌∷◌, arith, ◌==◌, eq_iff, eq_refl,
  ltb, contains, inl, inr, Bool-cases, if◌then◌else◌,
}
use wfc.Dict
use wfc.Dict.{Dict, get-pop, IsUnique}
use wfc.Heartbeat.{HeartbeatMonitor, declare_dead, check_all, tick}

-- one round of the loop
abbrev step : String → ℕ → ℕ → HeartbeatMonitor → HeartbeatMonitor
step n last now m = if ltb (last + m.timeout) now then declare_dead n now m else m

module _ (n : String) (last now : ℕ) (m : HeartbeatMonitor) where
  timeout-step : (step n last now m).timeout ≡ m.timeout
  unfolding declare_dead
  timeout-step = ground arith

  dead-step :
      (k : String)
      → contains m.dead_nodes k ≡ true
      → contains (step n last now m).dead_nodes k ≡ true
  unfolding declare_dead contains
  dead-step k h = ground arith

  dead-step_late :
      ltb (last + m.timeout) now ≡ true → contains (step n last now m).dead_nodes n ≡ true
  unfolding declare_dead contains
  dead-step_late late = ground (arith, eq_refl n)

  step_other :
      (k : String)
      → (n ≡ k → ltb (last + m.timeout) now ≡ false)
      → (Dict.get (step n last now m).last_seen k ≡ Dict.get m.last_seen k)
        × (contains (step n last now m).dead_nodes k ≡ contains m.dead_nodes k)
  unfolding declare_dead contains
  step_other k h = elim (Bool-cases (n == k)) [
    | inl e ↦ rw (h ((eq_iff n k).0 e)) (refl, refl)
    | inr e ↦ (ground (arith, get-pop m.last_seen n k), ground arith)
  ]

dead-check_all :
    (items : Dict ℕ) (now : ℕ) (m : HeartbeatMonitor) (k : String)
    → contains m.dead_nodes k ≡ true
    → contains (check_all items now m).dead_nodes k ≡ true
unfolding check_all
dead-check_all [] now m k h = h
dead-check_all ((n, last) ∷ items) now m k h =
    dead-check_all items now (step n last now m) k (dead-step n last now m k h)

late-check_all :
    (items : Dict ℕ) (now : ℕ) (m : HeartbeatMonitor) (k : String) (t : ℕ)
    → Dict.get items k ≡ some t
    → ltb (t + m.timeout) now ≡ true
    → contains (check_all items now m).dead_nodes k ≡ true
unfolding check_all Dict.get
late-check_all [] now m k t g h = cc
late-check_all ((n, last) ∷ items) now m k t g h = elim (Bool-cases (n == k)) [
  | inl e ↦
      let same_key : n ≡ k = (eq_iff n k).0 e in
      let same_time : last ≡ t = ground arith in
      dead-check_all items now (step n last now m) k
        (rw (← same_key) (dead-step_late n last now m (rw same_time h)))
  | inr e ↦
      late-check_all items now (step n last now m) k t (ground arith)
        (rw (timeout-step n last now m) h)
]

early-check_all :
    (items : Dict ℕ) (now : ℕ) (m : HeartbeatMonitor) (k : String)
    → IsUnique items
    → ((t : ℕ) → Dict.get items k ≡ some t → ltb (t + m.timeout) now ≡ false)
    → (Dict.get (check_all items now m).last_seen k ≡ Dict.get m.last_seen k)
      × (contains (check_all items now m).dead_nodes k ≡ contains m.dead_nodes k)
unfolding check_all Dict.get
early-check_all [] now m k u h = (refl, refl)
early-check_all ((n, last) ∷ items) now m k u h =
    let (seen, dead) = step_other n last now m k (λ e. h last (rw (← e) (rw (eq_refl n) refl))) in
    let (seen', dead') =
      early-check_all items now (step n last now m) k u.1
        (λ t g. rw (timeout-step n last now m) (h t (ground (arith, eq_iff n k, u.0)))) in
    (seen' ∙ seen, dead' ∙ dead)

-- A tick holds dead every node whose last heartbeat is more than the timeout ago, and leaves every
-- other node that it keeps a time of alone: its time, and whether it is held dead.
pub tick_exact :
    (now : ℕ) (m : HeartbeatMonitor) (k : String) (t : ℕ)
    → IsUnique m.last_seen
    → Dict.get m.last_seen k ≡ some t
    → (t + m.timeout < now → contains (tick now m).dead_nodes k ≡ true)
      × (¬ (t + m.timeout < now)
          → (Dict.get (tick now m).last_seen k ≡ some t)
            × (contains (tick now m).dead_nodes k ≡ contains m.dead_nodes k))
unfolding tick
tick_exact now m k t u g = (
  λ late. late-check_all m.last_seen now m k t g (ground arith),
  λ early.
      let (seen, dead) =
        early-check_all m.last_seen now m k u
          (λ t' g'. let same : t' ≡ t = ground arith in rw same (ground arith)) in
      (seen ∙ g, dead),
)
