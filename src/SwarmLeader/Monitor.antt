-- ===== src/SwarmLeader/Monitor.antt =====
-- Swarm_Repo/core/node/swarm_leader_node.py: a backup leader with its election. The ElectionState is one
-- object of the node and its LeaderElection: a call of the election takes it from the node, and leaves it
-- there.
use wfc.Prelude.{
  ℕ, ◌+◌, Bool, true, false, not, ◌&&◌, String, Option, none, some, List, [], ◌∷◌, ◌++◌, ◌==◌, ltb,
  contains, length, if◌then◌else◌,
}
use wfc.Shared.Commands.{Coord, Payload}
use wfc.Dispatch.{Ids}
use wfc.Drones
use wfc.Drones.{DroneTelemetry}
use wfc.Election.{
  Outcome, win_in, LeaderElection, ElectionPayload, start_election, on_election_message,
  timeout_handler,
}
use wfc.SwarmLeader.{SwarmLeader, execute_command}
use wfc.SwarmLeader.Roll.{Announced, on_telemetry, on_registry_announce, check_lost_drones}

-- what is announced with SWARM_LEAD after a won election, and the event on the election topic
pub record Promotion : Type 0 where
  pub capabilities : List String
  pub fire_id : Option String
  pub previous_leader : String
  pub elected_at : ℕ
  pub term : ℕ
  pub swarm_size : ℕ
  pub active_drones : ℕ

-- a node that was made with is_backup; `promotions` are the newest first
pub record Backup : Type 0 where
  pub leader : SwarmLeader
  pub engine : LeaderElection
  pub capabilities : List String
  pub is_backup : Bool
  pub promotions : List Promotion

-- `self._current_leader_id or "unknown"`
abbrev pub known_leader : Option String → String
known_leader none = "unknown"
known_leader (some leader_id) = if leader_id == "" then "unknown" else leader_id

unfoldable pub remove_first : String → List String → List String
remove_first x [] = []
remove_first x (c ∷ cs) = let rest = remove_first x cs in if c == x then cs else c ∷ rest

abbrev pub promoted_capabilities : List String → List String
promoted_capabilities caps =
    let left = remove_first "LEADER_BACKUP" caps in
    if contains left "SWARM_LEAD" then left else left ++ "SWARM_LEAD" ∷ []

unfoldable pub on_election_win : ℕ → Backup → Backup
unfolding remove_first Drones.get_active Drones.count
on_election_win now b =
    let caps = promoted_capabilities b.capabilities in
    let s = b.leader in
    let p : Promotion = record {
      capabilities = caps;
      fire_id = s.current_fire_id;
      previous_leader = known_leader s.current_leader_id;
      elected_at = now;
      term = s.election_state.term;
      swarm_size = Drones.count s.drones;
      active_drones = length (Drones.get_active s.drones);
    } in
    record b { capabilities = caps; is_backup = false; promotions = p ∷ b.promotions }

-- the call of on_win or on_lost that is the newest, if there is a new one
abbrev pub on_outcome : Bool → List Outcome → ℕ → Backup → Backup
on_outcome true (win_in term ∷ older) now b = on_election_win now b
on_outcome _ _ now b = b

-- the state of the election is that of the node
abbrev pub with_engine : LeaderElection → Backup → Backup
with_engine e b = record b { engine = e; leader = record b.leader { election_state = e.state } }

abbrev pub put_back : ℕ → LeaderElection → ℕ → Backup → Backup
put_back before e now b =
    on_outcome (ltb before (length e.outcomes)) e.outcomes now (with_engine e b)

-- a call of the election, which makes at most one callback, as the last thing that it does
unfoldable pub call_election : (LeaderElection → LeaderElection) → ℕ → Backup → Backup
unfolding on_election_win
call_election f now b =
    put_back (length b.engine.outcomes) (f (record b.engine { state = b.leader.election_state }))
      now b

abbrev pub without_leader : Backup → Backup
without_leader b = record b { leader = record b.leader { current_leader_id = none } }

-- the leader was heard last at `seen`
abbrev pub look : ℕ → ℕ → ℕ → Backup → Backup
look hb_timeout seen now b =
    if ltb (seen + hb_timeout) now && not b.leader.election_state.in_election
    then call_election (start_election now) now (without_leader b)
    else b

abbrev look_if_seen : ℕ → Option ℕ → ℕ → Backup → Backup
look_if_seen hb_timeout none now b = b
look_if_seen hb_timeout (some seen) now b = look hb_timeout seen now b

abbrev look_for : ℕ → Option String → ℕ → Backup → Backup
look_for hb_timeout none now b = b
look_for hb_timeout (some leader_id) now b = look_if_seen hb_timeout b.leader.leader_last_seen now b

-- one round of _leader_monitor_loop
unfoldable pub monitor : ℕ → ℕ → Backup → Backup
unfolding call_election start_election
monitor hb_timeout now b = look_for hb_timeout b.leader.current_leader_id now b

-- `node_id and node_id == self._current_leader_id`
abbrev pub is_leader : Option String → Option String → Bool
is_leader (some node_id) (some leader_id) = not (node_id == "") && node_id == leader_id
is_leader _ _ = false

-- a message on a heartbeat topic
abbrev pub on_heartbeat : Option String → ℕ → SwarmLeader → SwarmLeader
on_heartbeat node_id now s =
    if is_leader node_id s.current_leader_id then record s { leader_last_seen = some now } else s

-- what happens to a backup leader: the branches of handle_message, a command that is executed, a timer of
-- the election that runs out, and the rounds of its loops; of _analysis_loop it is the first part
pub data LeaderEvent : Type 0 where
  telemetry : DroneTelemetry → LeaderEvent
  heartbeat : Option String → LeaderEvent
  election_message : ElectionPayload → LeaderEvent
  announce : Announced → LeaderEvent
  command : String → Payload → String → LeaderEvent
  timer_out : ℕ → LeaderEvent
  monitor_round : LeaderEvent
  analysis_round : LeaderEvent

module _ (ring : Coord → String → Option ℕ → ℕ → ℕ → Coord) (ids : Ids) (hb_timeout : ℕ) where
  -- what an event makes of the node, but for the election
  abbrev pub on_leader : LeaderEvent → ℕ → SwarmLeader → SwarmLeader
  on_leader (telemetry telem) now s = on_telemetry telem now s
  on_leader (heartbeat node_id) now s = on_heartbeat node_id now s
  on_leader (announce a) now s = on_registry_announce a now s
  on_leader (command command_type p trace_id) now s =
      (execute_command ring ids command_type p trace_id s).0
  on_leader analysis_round now s = check_lost_drones now s
  on_leader _ now s = s

  abbrev pub handle_event : LeaderEvent → ℕ → Backup → Backup
  handle_event (election_message p) now b = call_election (on_election_message p now) now b
  handle_event (timer_out term) now b = call_election (timeout_handler term) now b
  handle_event monitor_round now b = monitor hb_timeout now b
  handle_event e now b = record b { leader = on_leader e now b.leader }

  unfoldable pub run_events : List (LeaderEvent × ℕ) → Backup → Backup
  unfolding call_election on_election_message timeout_handler monitor on_telemetry
      on_registry_announce execute_command check_lost_drones
  run_events [] b = b
  run_events ((e, now) ∷ es) b = run_events es (handle_event e now b)
