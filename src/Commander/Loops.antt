-- ===== src/Commander/Loops.antt =====
-- CommanderCore._snapshot_loop, with a clock that moves by the sleeps alone.
use wfc.Prelude.{
  ℕ, suc, zero, ◌+◌, ◌*◌, ◌≤◌, ◌≡◌, refl, Bool, true, false, ◌&&◌, not, some, length, arith,
  if◌then◌else◌, inl, inr, Bool-cases,
}
use wfc.Commander.{Commander}
use wfc.Commander.Sync.{
  grace_period_seconds, in_grace, snapshot_round, publish_snapshot_now, deactivate,
}

abbrev pub state_snapshot_seconds : ℕ
state_snapshot_seconds = 10

-- the loop after a round that goes on or not
abbrev after_round : Commander × Bool → Commander × Bool → Commander × Bool
after_round (c, goes_on) rest = if goes_on then rest else (c, true)

-- at most that many rounds, and whether the loop has ended
unfoldable pub snapshot_loop : ℕ → ℕ → Commander → Commander × Bool
unfolding snapshot_round
snapshot_loop zero now c = (c, false)
snapshot_loop (suc fuel) now c =
    let grace = in_grace now c in
    let woken = snapshot_round grace (now + state_snapshot_seconds) c in
    let rest = snapshot_loop fuel (now + state_snapshot_seconds) woken.0 in
    if not c.lease.is_active && not grace then (c, true) else after_round woken rest

-- the loop from the end of a sleep on, before which it asked whether there was grace
unfoldable pub resume : ℕ → Bool → ℕ → Commander → Commander × Bool
unfolding snapshot_round snapshot_loop
resume fuel grace now c =
    let woken = snapshot_round grace now c in
    let rest = snapshot_loop fuel now woken.0 in after_round woken rest

loop_over :
    (fuel now : ℕ) (c : Commander)
    → c.lease.is_active ≡ false
    → in_grace now c ≡ false
    → snapshot_loop (suc fuel) now c ≡ (c, true)
unfolding snapshot_loop
loop_over fuel now c standby late = go c.lease.is_active (in_grace now c) _ standby late
  where
    go :
        (a g : Bool) (x : Commander × Bool)
        → a ≡ false
        → g ≡ false
        → (if not a && not g then (c, true) else x) ≡ (c, true)
    go a g x p q = rw (p, q) refl

round_in_grace :
    (now : ℕ) (c : Commander) → snapshot_round true now c ≡ (publish_snapshot_now now c, true)
unfolding snapshot_round
round_in_grace now c = go c.lease.is_active
  where
    go :
        (a : Bool)
        → (let r : Commander × Bool = (publish_snapshot_now now c, true) in
            (if not a then r else r) ≡ r)
    go true = refl
    go false = refl

loop_on :
    (fuel now : ℕ) (c : Commander)
    → in_grace now c ≡ true
    → let t = now + state_snapshot_seconds in
      snapshot_loop (suc fuel) now c ≡ snapshot_loop fuel t (publish_snapshot_now t c)
unfolding snapshot_loop
loop_on fuel now c early = go c.lease.is_active (in_grace now c) early
  where
    t : ℕ
    t = now + state_snapshot_seconds

    go :
        (a g : Bool)
        → g ≡ true
        → (if not a && not g
            then (c, true)
            else after_round (snapshot_round g t c) (snapshot_loop fuel t (snapshot_round g t c).0))
          ≡ snapshot_loop fuel t (publish_snapshot_now t c)
    go true g q = rw (q, round_in_grace t c) refl
    go false g q = rw (q, round_in_grace t c) refl

-- the loop of a commander on standby, whose grace started at `start`
standby_loop :
    (fuel now start : ℕ) (c : Commander)
    → c.lease.is_active ≡ false
    → c.deactivation_grace_start ≡ some start
    → start ≤ now
    → start + grace_period_seconds ≤ now + fuel * state_snapshot_seconds
    → ((snapshot_loop (suc fuel) now c).1 ≡ true)
      × (length (snapshot_loop (suc fuel) now c).0.snapshots ≤ length c.snapshots + fuel)
unfolding publish_snapshot_now
standby_loop zero now start c standby e le enough =
    let late : in_grace now c ≡ false = rw e (ground arith) in
    rw (loop_over zero now c standby late) (refl, omega arith)
standby_loop (suc fuel) now start c standby e le enough = elim (Bool-cases (in_grace now c)) [
  | inl early ↦
      let t = now + state_snapshot_seconds in
      let (ends, few) =
        standby_loop fuel t start (publish_snapshot_now t c) standby e (omega (arith, le))
          (omega (arith, enough)) in
      rw (loop_on (suc fuel) now c early) (ends, omega (arith, few))
  | inr late ↦ rw (loop_over (suc fuel) now c standby late) (refl, omega arith)
]

-- the sleep of a loop that was told of no grace before it
resume_over :
    (fuel now : ℕ) (c : Commander) → c.lease.is_active ≡ false → resume fuel false now c ≡ (c, true)
unfolding resume snapshot_round
resume_over fuel now c standby = rw standby refl

resume_in_grace :
    (fuel now : ℕ) (c : Commander)
    → resume fuel true now c ≡ snapshot_loop fuel now (publish_snapshot_now now c)
unfolding resume
resume_in_grace fuel now c = rw (round_in_grace now c) refl

-- A snapshot loop sleeps when its commander is deactivated, at any time of its sleep, and is otherwise left
-- alone. Then it ends after four further checks at most. If the check before the sleep found no grace, it ends
-- as it wakes, and no snapshot follows the one of `deactivate`; if it found one, four at most do. And a loop
-- that is at its check at that time ends within four checks too, with three at most.
pub deactivated_loop_ends :
    (grace : Bool) (checked now : ℕ) (c : Commander)
    → checked ≤ now
    → now ≤ checked + state_snapshot_seconds
    → (let r = resume 4 grace (checked + state_snapshot_seconds) (deactivate now c) in
        let r' = snapshot_loop 4 now (deactivate now c) in
        (r.1 ≡ true)
        × (length r.0.snapshots ≤ length c.snapshots + (if grace then 5 else 1))
        × (r'.1 ≡ true)
        × (length r'.0.snapshots ≤ length c.snapshots + 4))
unfolding deactivate publish_snapshot_now
deactivated_loop_ends false checked now c le ge =
    let (ends, few) =
      standby_loop 3 now now (deactivate now c) refl refl (omega arith) (omega arith) in
    rw (resume_over 4 (checked + state_snapshot_seconds) (deactivate now c) refl)
      (refl, omega arith, ends, omega (arith, few))
deactivated_loop_ends true checked now c le ge =
    let t = checked + state_snapshot_seconds in
    let (ends, few) =
      standby_loop 3 now now (deactivate now c) refl refl (omega arith) (omega arith) in
    let (ends', few') =
      standby_loop 3 t now (publish_snapshot_now t (deactivate now c)) refl refl (omega (arith, ge))
        (omega (arith, le)) in
    rw (resume_in_grace 4 t (deactivate now c))
      (ends', omega (arith, few'), ends, omega (arith, few))
