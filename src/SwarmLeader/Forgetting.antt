-- ===== src/SwarmLeader/Forgetting.antt =====
-- The leader that a backup leader knows of, through its own work and its elections.
use mathlib.Core.List.Memᴰ
use wfc.Prelude.{
  ℕ, suc, ◌+◌, ◌<◌, ◌≡◌, refl, ap, ◌∙◌, Bool, true, false, String, Option, none, some, List, [],
  ◌∷◌, Memᴰ, ◌==◌, ltb, is_empty, arith, contains, length, if◌then◌else◌,
}
use wfc.Shared.Commands.{Coord}
use wfc.Dispatch.{Ids}
use wfc.Drones
use wfc.Drones.{DroneTelemetry, DroneRecord}
use wfc.Election.{
  Outcome, win_in, lost_in, LeaderElection, begin, higher_peers, challenge, start_election,
  declare_victory,
}
use wfc.SwarmLeader.Roll.{on_telemetry, check_lost_drones, with_lost}
use wfc.SwarmLeader.Monitor.{
  Promotion, Backup, on_election_win, on_outcome, with_engine, call_election, monitor,
  without_leader, is_leader, LeaderEvent, telemetry, heartbeat, election_message, announce, command,
  timer_out, monitor_round, analysis_round, handle_event, run_events,
}
use wfc.SwarmLeader.Keeps.{
  either-KeepsLeader, act_on_lost-KeepsLeader, registry_announce-KeepsLeader,
  execute_command-KeepsLeader,
}

-- an announcement is not that of a leader
abbrev pub IsNotLeading : LeaderEvent → Type 0
IsNotLeading (announce a) = contains a.capabilities "SWARM_LEAD" ≡ false
IsNotLeading _ = Unit

abbrev pub NoLeader : List (LeaderEvent × ℕ) → Type 0
NoLeader [] = Unit
NoLeader ((e, now) ∷ es) = IsNotLeading e × NoLeader es

-- every promotion says that the previous leader is unknown
abbrev pub AllUnknown : List Promotion → Type 0
AllUnknown ps = (p : Promotion) → Memᴰ p ps → p.previous_leader ≡ "unknown"

record IsForgetful (b : Backup) : Type 0 where
  leaderless : b.leader.current_leader_id ≡ none
  unknown : AllUnknown b.promotions

on_election_win-IsForgetful :
    (now : ℕ) (b : Backup) → IsForgetful b → IsForgetful (on_election_win now b)
unfolding on_election_win
on_election_win-IsForgetful now b i = record { leaderless = i.leaderless; unknown = λ p m. go p m }
  where
    go : (p : Promotion) → Memᴰ p (on_election_win now b).promotions → p.previous_leader ≡ "unknown"
    go p (Memᴰ.head e) = ap (λ q. q.previous_leader) e ∙ rw i.leaderless refl
    go p (Memᴰ.tail m) = i.unknown p m

on_outcome-IsForgetful :
    (new : Bool) (outcomes : List Outcome) (now : ℕ) (b : Backup)
    → IsForgetful b
    → IsForgetful (on_outcome new outcomes now b)
on_outcome-IsForgetful true [] now b i = i
on_outcome-IsForgetful true (win_in term ∷ older) now b i = on_election_win-IsForgetful now b i
on_outcome-IsForgetful true (lost_in term ∷ older) now b i = i
on_outcome-IsForgetful false outcomes now b i = i

call_election-IsForgetful :
    (f : LeaderElection → LeaderElection) (now : ℕ) (b : Backup)
    → IsForgetful b
    → IsForgetful (call_election f now b)
unfolding call_election
call_election-IsForgetful f now b i =
    let e = f (record b.engine { state = b.leader.election_state }) in
    on_outcome-IsForgetful (ltb (length b.engine.outcomes) (length e.outcomes)) e.outcomes now
      (with_engine e b) (record { leaderless = i.leaderless; unknown = i.unknown })

-- the leader after a callback is the one before it
on_outcome-leader :
    (new : Bool) (outcomes : List Outcome) (now : ℕ) (b : Backup)
    → (on_outcome new outcomes now b).leader ≡ b.leader
unfolding on_election_win
on_outcome-leader true [] now b = refl
on_outcome-leader true (win_in term ∷ older) now b = refl
on_outcome-leader true (lost_in term ∷ older) now b = refl
on_outcome-leader false outcomes now b = refl

start_election-term :
    (now : ℕ) (e : LeaderElection) → (start_election now e).state.term ≡ suc e.state.term
unfolding start_election declare_victory
start_election-term now e = either (is_empty (higher_peers e.peers e.node_id))
  where
    begun : LeaderElection
    begun = record e { state = begin now e.state }

    either :
        (b : Bool)
        → (if b
            then declare_victory begun.state.term begun
            else challenge (higher_peers e.peers e.node_id) begun.state.term begun).state.term
          ≡ suc e.state.term
    either true = refl
    either false = refl

started_term :
    (now : ℕ) (b : Backup)
    → (call_election (start_election now) now b).leader.election_state.term
      ≡ suc b.leader.election_state.term
unfolding call_election
started_term now b =
    let e = start_election now (record b.engine { state = b.leader.election_state }) in
    ap (λ s. s.election_state.term)
      (on_outcome-leader (ltb (length b.engine.outcomes) (length e.outcomes)) e.outcomes now
        (with_engine e b))
    ∙ start_election-term now (record b.engine { state = b.leader.election_state })

module _ (ring : Coord → String → Option ℕ → ℕ → ℕ → Coord) (ids : Ids) (hb_timeout : ℕ) where
  found_silent :
      (b : Backup) (leader_id : String) (seen now : ℕ)
      → b.leader.current_leader_id ≡ some leader_id
      → b.leader.leader_last_seen ≡ some seen
      → seen + hb_timeout < now
      → b.leader.election_state.in_election ≡ false
      → monitor hb_timeout now b ≡ call_election (start_election now) now (without_leader b)
  unfolding monitor
  found_silent b leader_id seen now known heard silent idle =
      let late : ltb (seen + hb_timeout) now ≡ true = ground arith in
      rw (known, heard, late, idle) refl

  -- a backup that knows no leader starts no election by itself
  leaderless_monitor :
      (now : ℕ) (b : Backup) → b.leader.current_leader_id ≡ none → monitor hb_timeout now b ≡ b
  unfolding monitor
  leaderless_monitor now b e = rw e refl

  handle_event-IsForgetful :
      (e : LeaderEvent) (now : ℕ) (b : Backup)
      → IsNotLeading e
      → IsForgetful b
      → IsForgetful (handle_event ring ids hb_timeout e now b)
  unfolding on_telemetry check_lost_drones
  handle_event-IsForgetful (telemetry telem) now b n i = record {
    leaderless =
        either-KeepsLeader (telem.leader_id == b.leader.node_id) b.leader _ b.leader refl refl
        ∙ i.leaderless;
    unknown = i.unknown;
  }
  handle_event-IsForgetful (heartbeat node_id) now b n i = record {
    leaderless =
        either-KeepsLeader (is_leader node_id b.leader.current_leader_id) b.leader _ b.leader refl
          refl
        ∙ i.leaderless;
    unknown = i.unknown;
  }
  handle_event-IsForgetful (election_message p) now b n i = call_election-IsForgetful _ now b i
  handle_event-IsForgetful (announce a) now b n i = record {
    leaderless = registry_announce-KeepsLeader a now b.leader n ∙ i.leaderless;
    unknown = i.unknown;
  }
  handle_event-IsForgetful (command command_type p trace_id) now b n i = record {
    leaderless =
        execute_command-KeepsLeader ring ids command_type p trace_id b.leader ∙ i.leaderless;
    unknown = i.unknown;
  }
  handle_event-IsForgetful (timer_out term) now b n i = call_election-IsForgetful _ now b i
  handle_event-IsForgetful monitor_round now b n i = rw (leaderless_monitor now b i.leaderless) i
  handle_event-IsForgetful analysis_round now b n i = record {
    leaderless =
        act_on_lost-KeepsLeader now (Drones.get_lost now b.leader.drones) (with_lost now b.leader)
        ∙ i.leaderless;
    unknown = i.unknown;
  }

  run_events-IsForgetful :
      (es : List (LeaderEvent × ℕ)) (b : Backup)
      → NoLeader es
      → IsForgetful b
      → IsForgetful (run_events ring ids hb_timeout es b)
  unfolding run_events
  run_events-IsForgetful [] b n i = i
  run_events-IsForgetful ((e, now) ∷ es) b (n, ns) i =
      run_events-IsForgetful es _ ns (handle_event-IsForgetful e now b n i)

  -- A backup that was not promoted yet looks for its leader, which it has not heard for longer than the
  -- timeout, and is not in an election. Then it starts one, in the next term. And unless a leader announces
  -- itself, whatever else happens afterwards, in whatever order: no later look at the leader does anything, so
  -- that no second election is started by a silence, and every promotion says that the previous leader is
  -- unknown.
  pub silence_is_noted_once :
      (b : Backup) (leader_id : String) (seen now : ℕ) (es : List (LeaderEvent × ℕ)) (later : ℕ)
      → b.leader.current_leader_id ≡ some leader_id
      → b.leader.leader_last_seen ≡ some seen
      → seen + hb_timeout < now
      → b.leader.election_state.in_election ≡ false
      → b.promotions ≡ []
      → NoLeader es
      → (let started = monitor hb_timeout now b in
          let ended = run_events ring ids hb_timeout es started in
          (started.leader.election_state.term ≡ suc b.leader.election_state.term)
          × (monitor hb_timeout later ended ≡ ended)
          × AllUnknown ended.promotions)
  silence_is_noted_once b leader_id seen now es later known heard silent idle unpromoted n =
      let found = found_silent b leader_id seen now known heard silent idle in
      let i : IsForgetful (monitor hb_timeout now b) = rw found (
        call_election-IsForgetful (start_election now) now (without_leader b) (record {
          leaderless = refl;
          unknown = λ p m. absurd (Memᴰ.not-nil (rw unpromoted at m));
        })) in
      let k = run_events-IsForgetful es (monitor hb_timeout now b) n i in
      (
        ap (λ q. q.leader.election_state.term) found ∙ started_term now (without_leader b),
        leaderless_monitor later (run_events ring ids hb_timeout es (monitor hb_timeout now b))
            k.leaderless,
        k.unknown,
      )
