-- ===== src/Election.antt =====
-- Swarm_Repo/core/election/election_state.py and leader_election.py: the bully election of a backup
-- leader. What is published stands in `sent`, the calls of on_win and on_lost in `outcomes`, the newest
-- first. A timer that runs out is a call of `timeout_handler` with its term, at any time: a cancelled
-- timer may be late already.
pub mod Terms
pub mod Victories
use Prim.Native.String.{compare}
use Prim.Native.Nat.{Ordering}
use wfc.Prelude.{
  ℕ, suc, ◌+◌, Bool, true, false, ◌&&◌, not, String, Option, none, some, List, [], ◌∷◌, ◌++◌, ◌==◌,
  ltb, or_else, is_empty, if◌then◌else◌,
}

pub record ElectionState : Type 0 where
  pub term : ℕ
  pub in_election : Bool
  pub received_ok : Bool
  pub won : Bool
  pub started_at : Option ℕ

-- a state that is not in an election, as ElectionState.__init__ makes it
abbrev pub fresh_state : ℕ → ElectionState
fresh_state term = record {
  term = term;
  in_election = false;
  received_ok = false;
  won = false;
  started_at = none;
}

-- accept_term: the state after it, and whether the term is accepted
unfoldable pub accept_term : ℕ → ElectionState → ElectionState × Bool
accept_term incoming s =
    if ltb incoming s.term
    then (s, false)
    else if ltb s.term incoming
    then (fresh_state incoming, true)
    else (s, true)

-- ElectionState.start_election
abbrev pub begin : ℕ → ElectionState → ElectionState
begin now s = record {
  term = suc s.term;
  in_election = true;
  received_ok = false;
  won = false;
  started_at = some now;
}

abbrev pub mark_ok_received : ElectionState → ElectionState
mark_ok_received s = record s { received_ok = true }

abbrev pub mark_won : ElectionState → ElectionState
mark_won s = record s { won = true; in_election = false }

abbrev pub mark_lost : ElectionState → ElectionState
mark_lost s = record s { in_election = false }

pub data ElectionMessage : Type 0 where
  election_start : String → String → ℕ → ElectionMessage
  election_ok : String → ℕ → ElectionMessage
  election_win : String → String → ℕ → ElectionMessage

-- a call of on_win or on_lost, with the term of the state at the call
pub data Outcome : Type 0 where
  win_in : ℕ → Outcome
  lost_in : ℕ → Outcome

pub record LeaderElection : Type 0 where
  pub node_id : String
  pub zone : String
  pub peers : List String
  pub state : ElectionState
  -- the term that the running timer was started with
  pub timer : Option ℕ
  pub sent : List (String × ElectionMessage)
  pub outcomes : List Outcome

-- `a > b` and `a >= b` of texts
abbrev pub text_gt : String → String → Bool
text_gt a b = elim (compare a b) [ Ordering.gt ↦ true | _ ↦ false ]

abbrev pub text_ge : String → String → Bool
text_ge a b = elim (compare a b) [ Ordering.lt ↦ false | _ ↦ true ]

-- `[p for p in self._peers if p > self._node_id]`
abbrev pub higher_peers : List String → String → List String
higher_peers [] node_id = []
higher_peers (p ∷ ps) node_id =
    let rest = higher_peers ps node_id in if text_gt p node_id then p ∷ rest else rest

abbrev send_each : List String → ElectionMessage → List (String × ElectionMessage)
send_each [] m = []
send_each (p ∷ ps) m = (p, m) ∷ send_each ps m

unfoldable pub declare_victory : ℕ → LeaderElection → LeaderElection
declare_victory term e = record e {
  state = mark_won e.state;
  sent = e.sent ++ send_each e.peers (election_win e.node_id e.zone term);
  outcomes = win_in e.state.term ∷ e.outcomes;
}

-- ELECTION_START to the higher peers, and the timer
abbrev pub challenge : List String → ℕ → LeaderElection → LeaderElection
challenge peers term e = record e {
  sent = e.sent ++ send_each peers (election_start e.node_id e.zone term);
  timer = some term;
}

unfoldable pub start_election : ℕ → LeaderElection → LeaderElection
unfolding declare_victory
start_election now e =
    let e' : LeaderElection = record e { state = begin now e.state } in
    let peers = higher_peers e.peers e.node_id in
    if is_empty peers then declare_victory e'.state.term e' else challenge peers e'.state.term e'

-- a message, of which each key may be missing
pub record ElectionPayload : Type 0 where
  pub type : Option String
  pub term : Option ℕ
  pub from_node_id : Option String

unfoldable pub handle_election_start : String → ℕ → ℕ → LeaderElection → LeaderElection
unfolding start_election
handle_election_start from_node term now e =
    if text_ge from_node e.node_id
    then e
    else let e' : LeaderElection = record e {
      sent = e.sent ++ (from_node, election_ok e.node_id term) ∷ [];
    } in
      if e.state.in_election then e' else start_election now e'

unfoldable pub handle_election_ok : LeaderElection → LeaderElection
handle_election_ok e = record e {
  state = mark_lost (mark_ok_received e.state);
  timer = none;
  outcomes = lost_in e.state.term ∷ e.outcomes;
}

unfoldable pub handle_election_win : LeaderElection → LeaderElection
handle_election_win e = record e {
  state = mark_lost e.state;
  timer = none;
  outcomes = lost_in e.state.term ∷ e.outcomes;
}

abbrev pub by_type : String → ElectionPayload → ℕ → LeaderElection → LeaderElection
by_type type p now e =
    if type == "ELECTION_START"
    then handle_election_start (or_else p.from_node_id "") (or_else p.term 1) now e
    else if type == "ELECTION_OK"
    then handle_election_ok e
    else if type == "ELECTION_WIN"
    then handle_election_win e
    else e

unfoldable pub on_election_message : ElectionPayload → ℕ → LeaderElection → LeaderElection
unfolding accept_term handle_election_start handle_election_ok handle_election_win
on_election_message p now e =
    let (s, accepted) = accept_term (or_else p.term 1) e.state in
    if accepted then by_type (or_else p.type "") p now (record e { state = s }) else e

unfoldable pub timeout_handler : ℕ → LeaderElection → LeaderElection
unfolding declare_victory
timeout_handler term e =
    if e.state.in_election && not e.state.received_ok then declare_victory term e else e
