-- ===== src/Lease/Failover.antt =====
-- Two commanders and their broker, where a published lease reaches both at once and is retained.
pub mod Belief
pub mod Agreement
pub mod Deposed
use wfc.Prelude.{
  ℕ, ◌≤◌, ◌≡◌, refl, true, false, Option, none, some, arith, leb, head?, if◌then◌else◌,
}
use wfc.Lease.{
  LeaseMessage, Lease, fresh_lease, on_lease_message, claim_or_reclaim_lease, activate, stand_by,
  renew,
}

pub record Pair : Type 0 where
  pub central : Lease
  pub backup : Lease
  pub retained : Option LeaseMessage

-- the message reaches both, and the broker keeps it
abbrev pub broadcast : Option LeaseMessage → ℕ → Pair → Pair
broadcast none now s = s
broadcast (some m) now s = record {
  central = on_lease_message m now s.central;
  backup = on_lease_message m now s.backup;
  retained = some m;
}

-- what a commander that starts or subscribes hears of the retained message
abbrev pub hear_retained : Option LeaseMessage → ℕ → Lease → Lease
hear_retained none now l = l
hear_retained (some m) now l = on_lease_message m now l

-- CommanderCore.start(active=True) of a central that was down: it knows nothing but what is retained
abbrev pub start_central : ℕ → Pair → Pair
start_central now s =
    let l =
      claim_or_reclaim_lease now
        (hear_retained s.retained now (fresh_lease s.central.node_id true)) in
    broadcast (head? l.published) now (record s { central = l })

-- CommanderCore.start(active=False) of the backup
abbrev pub start_backup : ℕ → Pair → Pair
start_backup now s = record s {
  backup = hear_retained s.retained now (fresh_lease s.backup.node_id false);
}

-- a takeover by a backup that is not active already
abbrev pub promote_backup : ℕ → Pair → Pair
promote_backup now s =
    if s.backup.is_active
    then s
    else let l = activate now s.backup in
      broadcast (head? l.published) now (record s { backup = l })

abbrev pub demote_backup : Pair → Pair
demote_backup s = record s { backup = stand_by s.backup }

abbrev pub renew_central : ℕ → Pair → Pair
renew_central now s =
    if s.central.is_active
    then (let l = renew now s.central in
        broadcast (head? l.published) now (record s { central = l }))
    else s

abbrev pub renew_backup : ℕ → Pair → Pair
renew_backup now s =
    if s.backup.is_active
    then (let l = renew now s.backup in broadcast (head? l.published) now (record s { backup = l }))
    else s

-- one step of the two commanders
pub data FailoverStep : Pair → Pair → Type 0 where
  central_starts : (now : ℕ) (s : Pair) → FailoverStep s (start_central now s)
  backup_starts : (now : ℕ) (s : Pair) → FailoverStep s (start_backup now s)
  backup_promoted : (now : ℕ) (s : Pair) → FailoverStep s (promote_backup now s)
  backup_demoted : (s : Pair) → FailoverStep s (demote_backup s)
  central_renews : (now : ℕ) (s : Pair) → FailoverStep s (renew_central now s)
  backup_renews : (now : ℕ) (s : Pair) → FailoverStep s (renew_backup now s)

pub data FailoverSteps : Pair → Pair → Type 0 where
  done : (s : Pair) → FailoverSteps s s
  then_step : {s s' s'' : Pair} → FailoverSteps s s' → FailoverStep s' s'' → FailoverSteps s s''
