-- ===== src/Examples/BackupRuns.antt =====
-- A backup leader that has not heard its leader.
use wfc.Prelude.{arith, ℕ, ◌≡◌, refl, true, some, none, List, [], ◌∷◌, contains}
use wfc.Dict
use wfc.Election.{fresh_state}
use wfc.Examples.SwarmRuns.{leader, at_centre}
use wfc.Examples.Uuids.{plain_ids}
use wfc.SwarmLeader.Monitor.{
  Promotion, Backup, LeaderEvent, heartbeat, timer_out, monitor_round, analysis_round, monitor,
  run_events,
}
use wfc.SwarmLeader.Forgetting.{AllUnknown, silence_is_noted_once}

abbrev backup : Backup
backup = record {
  leader = record leader { current_leader_id = some "n0"; leader_last_seen = some 5 };
  engine = record {
    node_id = "n1";
    zone = "A";
    peers = "n2" ∷ [];
    state = fresh_state 0;
    timer = none;
    sent = [];
    outcomes = [];
  };
  capabilities = "HEARTBEAT" ∷ "LEADER_BACKUP" ∷ [];
  is_backup = true;
  promotions = [];
}

-- the higher peer does not answer, the backup wins, and its leader's heartbeats come again
abbrev afterwards : List (LeaderEvent × ℕ)
afterwards =
    (heartbeat (some "n0"), 17)
    ∷ (timer_out 1, 21)
    ∷ (monitor_round, 22)
    ∷ (analysis_round, 23)
    ∷ []

abbrev promotions_of : List Promotion
promotions_of = (run_events at_centre plain_ids 10 afterwards (monitor 10 16 backup)).promotions

-- the promotion as it is announced
promoted_test :
    promotions_of
    ≡ record {
      capabilities = "HEARTBEAT" ∷ "SWARM_LEAD" ∷ [];
      fire_id = some "f1";
      previous_leader = "unknown";
      elected_at = 21;
      term = 1;
      swarm_size = 1;
      active_drones = 1;
    }
      ∷ []
unfolding run_events monitor contains wfc.Dict.Select.select_values
promoted_test = refl

silence_is_noted_once_example :
    ((monitor 10 16 backup).leader.election_state.term ≡ 1)
    × (monitor 10 90 (run_events at_centre plain_ids 10 afterwards (monitor 10 16 backup))
        ≡ run_events at_centre plain_ids 10 afterwards (monitor 10 16 backup))
    × AllUnknown (run_events at_centre plain_ids 10 afterwards (monitor 10 16 backup)).promotions
silence_is_noted_once_example =
    silence_is_noted_once at_centre plain_ids 10 backup "n0" 5 16 afterwards 90 refl refl
      (omega arith) refl refl (tt, (tt, (tt, (tt, tt))))
