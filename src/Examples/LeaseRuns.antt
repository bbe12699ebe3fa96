-- ===== src/Examples/LeaseRuns.antt =====
-- Runs of the lease, by one commander and by two.
use wfc.Prelude.{ℕ, ◌≡◌, ◌<◌, refl, true, false, some, none, List, [], ◌∷◌, head?}
use wfc.Lease.{LeaseMessage, Lease, fresh_lease, on_lease_message, activate}
use wfc.Lease.Terms.{LeaseCall, message_call, renew_call, stand_by_call, run, takeover_outranks}
use wfc.Lease.Failover.{
  Pair, FailoverSteps, done, then_step, start_central, promote_backup, demote_backup, renew_central,
  central_starts, backup_promoted, backup_demoted, central_renews,
}
use wfc.Lease.Failover.Agreement.{commanders_agree}
use wfc.Lease.Failover.Belief.{IsAgreed}
use wfc.Lease.Failover.Deposed.{BothCommand, deposed_stays_active}

abbrev of_central : ℕ → LeaseMessage
of_central term = record { owner = some "central"; term = some term; since = some 1 }

-- a later message of an older term, and a round of the loops
abbrev later_calls : List LeaseCall
later_calls = message_call (of_central 2) 3 ∷ renew_call 4 ∷ stand_by_call ∷ []

abbrev backup : Lease
backup = run later_calls (on_lease_message (of_central 3) 2 (fresh_lease "backup" false))

takeover_outranks_example :
    (term : ℕ) × (3 < term)
    × ((activate 9 backup).lease_term ≡ term)
    × (head? (activate 9 backup).published
        ≡ some (record { owner = some backup.node_id; term = some term; since = some 9 }))
takeover_outranks_example =
    takeover_outranks (of_central 3) 3 2 9 later_calls (fresh_lease "backup" false) "central" refl
      refl (λ e. refl) (unfold wfc.Lease.Terms.AllNamed in (("central", refl), tt))
      (unfold run on_lease_message wfc.Lease.renew in refl)

-- two commanders that were just made
abbrev new_pair : Pair
new_pair = record {
  central = fresh_lease "central" false;
  backup = fresh_lease "backup" false;
  retained = none;
}

new_pair-IsAgreed : IsAgreed new_pair
new_pair-IsAgreed = record {
  central_believes = (refl, refl);
  backup_believes = (refl, refl);
  idle = λ e. (refl, refl);
}

-- the central starts, is slow, and starts again once the backup has taken over and stood down
abbrev after_outage : Pair
after_outage =
    start_central 30
      (demote_backup (promote_backup 20 (renew_central 6 (start_central 1 new_pair))))

outage : FailoverSteps new_pair after_outage
outage =
    then_step
      (then_step
        (then_step (then_step (then_step (done new_pair) (central_starts 1 _)) (central_renews 6 _))
          (backup_promoted 20 _))
        (backup_demoted _))
      (central_starts 30 _)

commanders_agree_example :
    (after_outage.central.lease_owner ≡ after_outage.backup.lease_owner)
    × (after_outage.central.lease_term ≡ after_outage.backup.lease_term)
commanders_agree_example = commanders_agree new_pair-IsAgreed outage

-- a central at work and its backup
abbrev at_work : Pair
at_work = record {
  central = record (fresh_lease "central" true) { lease_owner = some "central"; lease_term = 1 };
  backup = record (fresh_lease "backup" false) { lease_owner = some "central"; lease_term = 1 };
  retained = some (of_central 1);
}

at_work-IsAgreed : IsAgreed at_work
at_work-IsAgreed = record {
  central_believes = ("central", refl, refl, refl);
  backup_believes = ("central", refl, refl, refl);
  idle = λ e. cc;
}

deposed_stays_active_example : BothCommand 25 "backup" (promote_backup 20 at_work)
deposed_stays_active_example = deposed_stays_active 20 25 at_work at_work-IsAgreed refl refl
