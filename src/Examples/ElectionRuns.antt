-- ===== src/Examples/ElectionRuns.antt =====
-- Runs of LeaderElection.
use wfc.Prelude.{◌≡◌, refl, some, none, ◌≤◌, List, [], ◌∷◌}
use wfc.Election.{LeaderElection, fresh_state, ElectionPayload, mark_ok_received}
use wfc.Election.Terms.{ElectionCall, start_call, message_call, timeout_call, run}
use wfc.Election.Victories.{wins, one_victory_per_term, answered_never_wins}

abbrev node : LeaderElection
node = record {
  node_id = "n2";
  zone = "zone-a";
  peers = "n1" ∷ "n3" ∷ [];
  state = fresh_state 1;
  timer = none;
  sent = [];
  outcomes = [];
}

abbrev answer : ElectionPayload
answer = record { type = some "ELECTION_OK"; term = some 2; from_node_id = some "n3" }

-- two elections, a late timer, and an answer
abbrev contest : List ElectionCall
contest = start_call 1 ∷ timeout_call 2 ∷ timeout_call 2 ∷ start_call 5 ∷ message_call answer 6 ∷ []

one_victory_per_term_example : wins 2 (run contest node).outcomes ≤ 1
one_victory_per_term_example = one_victory_per_term contest node 1 2 refl refl

abbrev answered_node : LeaderElection
answered_node = record node { state = mark_ok_received (fresh_state 2) }

abbrev late : List ElectionCall
late = timeout_call 2 ∷ message_call answer 6 ∷ []

answered_never_wins_example : wins 2 (run late answered_node).outcomes ≡ wins 2 []
answered_never_wins_example = answered_never_wins late answered_node refl (
    unfold run wfc.Election.Terms.call wfc.Election.timeout_handler
      wfc.Election.on_election_message in
    refl)
