-- ===== src/Election/Terms.antt =====
-- How the calls of one backup leader move its term and its outcomes.
use wfc.Prelude.{
  ◌++◌, ℕ, ◌<◌, ◌≡◌, refl, true, false, Bool, ◌&&◌, not, String, List, [], ◌∷◌, arith, ◌==◌, ltb,
  inl, inr, Bool-cases, if◌then◌else◌, is_empty, or_else,
}
use wfc.Election.{
  election_ok, fresh_state, accept_term, begin, mark_won, win_in, lost_in, LeaderElection,
  higher_peers, declare_victory, start_election, ElectionPayload, text_ge, handle_election_start,
  handle_election_ok, handle_election_win, by_type, on_election_message, timeout_handler,
}

pub data ElectionCall : Type 0 where
  start_call : ℕ → ElectionCall
  message_call : ElectionPayload → ℕ → ElectionCall
  timeout_call : ℕ → ElectionCall

unfoldable pub call : ElectionCall → LeaderElection → LeaderElection
call (start_call now) e = start_election now e
call (message_call p now) e = on_election_message p now e
call (timeout_call term) e = timeout_handler term e

unfoldable pub run : List ElectionCall → LeaderElection → LeaderElection
unfolding call
run [] e = e
run (c ∷ cs) e = run cs (call c e)

-- what one part of a call may do to the state and the outcomes
pub data Turn (e e' : LeaderElection) : Type 0 where
  rest : e'.state ≡ e.state → e'.outcomes ≡ e.outcomes → Turn e e'
  -- a newer term is heard of
  hear :
      (term : ℕ)
      → e.state.term < term
      → e'.state ≡ fresh_state term
      → e'.outcomes ≡ e.outcomes
      → Turn e e'
  -- an election is begun, in the next term
  stand : (now : ℕ) → e'.state ≡ begin now e.state → e'.outcomes ≡ e.outcomes → Turn e e'
  -- an open election is won: nobody answered
  win :
      e.state.in_election ≡ true
      → e.state.received_ok ≡ false
      → e'.state ≡ mark_won e.state
      → e'.outcomes ≡ win_in e.state.term ∷ e.outcomes
      → Turn e e'
  -- the node steps back
  lose :
      (ok : Bool)
      → e'.state ≡ record e.state { in_election = false; received_ok = ok }
      → (e.state.received_ok ≡ true → ok ≡ true)
      → e'.outcomes ≡ lost_in e.state.term ∷ e.outcomes
      → Turn e e'

-- turns, one after another
pub data Turns : LeaderElection → LeaderElection → Type 0 where
  done : (e : LeaderElection) → Turns e e
  next : (e e' e'' : LeaderElection) → Turn e e' → Turns e' e'' → Turns e e''

one-Turn : {e e' : LeaderElection} → Turn e e' → Turns e e'
one-Turn {e} {e'} t = next e e' e' t (done e')

start_election-Turns : (now : ℕ) (e : LeaderElection) → Turns e (start_election now e)
unfolding start_election declare_victory
start_election-Turns now e =
    let e' : LeaderElection = record e { state = begin now e.state } in
    elim (Bool-cases (is_empty (higher_peers e.peers e.node_id))) [
      | inl alone ↦
          rw alone (next e e' _ (stand now refl refl) (one-Turn (win refl refl refl refl)))
      | inr led ↦ rw led (one-Turn (stand now refl refl))
    ]

timeout_handler-Turns : (term : ℕ) (e : LeaderElection) → Turns e (timeout_handler term e)
unfolding timeout_handler declare_victory
timeout_handler-Turns term e = elim (Bool-cases (e.state.in_election && not e.state.received_ok)) [
  | inr shut ↦ rw shut (done e)
  | inl ready ↦ rw ready (one-Turn (win (ground arith) (ground arith) refl refl))
]

-- what is only sent changes no state
after_sending :
    (e e' e'' : LeaderElection)
    → e'.state ≡ e.state
    → e'.outcomes ≡ e.outcomes
    → Turns e' e''
    → Turns e e''
after_sending e e' e'' p q ts = next e e' e'' (rest p q) ts

unless-Turns :
    (b : Bool) (now : ℕ) (e : LeaderElection) → Turns e (if b then e else start_election now e)
unless-Turns true now e = done e
unless-Turns false now e = start_election-Turns now e

handle_election_start-Turns :
    (from_node : String) (term now : ℕ) (e : LeaderElection)
    → Turns e (handle_election_start from_node term now e)
unfolding handle_election_start
handle_election_start-Turns from_node term now e = elim (Bool-cases (text_ge from_node e.node_id)) [
  | inl high ↦ rw high (done e)
  | inr low ↦
      let e' : LeaderElection = record e {
        sent = e.sent ++ (from_node, election_ok e.node_id term) ∷ [];
      } in
      rw low (after_sending e e' _ refl refl (unless-Turns e.state.in_election now e'))
]

by_type-Turns :
    (type : String) (p : ElectionPayload) (now : ℕ) (e : LeaderElection)
    → Turns e (by_type type p now e)
unfolding handle_election_ok handle_election_win
by_type-Turns type p now e = elim (Bool-cases (type == "ELECTION_START")) [
  | inl y ↦ rw y (handle_election_start-Turns _ _ now e)
  | inr n ↦ elim (Bool-cases (type == "ELECTION_OK")) [
    | inl y ↦ rw (n, y) (one-Turn (lose true refl (λ h. refl) refl))
    | inr n' ↦ elim (Bool-cases (type == "ELECTION_WIN")) [
      | inl y ↦ rw (n, n', y) (one-Turn (lose e.state.received_ok refl (λ h. h) refl))
      | inr n'' ↦ rw (n, n', n'') (done e)
    ]
  ]
]

on_election_message-Turns :
    (p : ElectionPayload) (now : ℕ) (e : LeaderElection) → Turns e (on_election_message p now e)
unfolding on_election_message accept_term
on_election_message-Turns p now e =
    let term = or_else p.term 1 in
    elim (Bool-cases (ltb term e.state.term)) [
      | inl stale ↦ rw stale (done e)
      | inr n ↦ elim (Bool-cases (ltb e.state.term term)) [
        | inl newer ↦
            let e' : LeaderElection = record e { state = fresh_state term } in
            rw (n, newer)
              (next e e' _ (hear term (ground arith) refl refl)
                (by_type-Turns (or_else p.type "") p now e'))
        | inr same ↦ rw (n, same) (by_type-Turns (or_else p.type "") p now e)
      ]
    ]

pub call-Turns : (c : ElectionCall) (e : LeaderElection) → Turns e (call c e)
unfolding call
call-Turns (start_call now) e = start_election-Turns now e
call-Turns (message_call p now) e = on_election_message-Turns p now e
call-Turns (timeout_call term) e = timeout_handler-Turns term e
