-- ===== src/Election/Victories.antt =====
-- One backup leader wins a term at most once, and a node that stepped back does not win.
use wfc.Prelude.{
  ℕ, suc, ◌+◌, ◌≤◌, ◌<◌, ◌≡◌, refl, sym, ◌∙◌, true, false, List, [], ◌∷◌, arith, eqb, if◌then◌else◌,
}
use mathlib.Core.Path.{subst}
use wfc.Election.{fresh_state, Outcome, win_in, lost_in, LeaderElection}
use wfc.Election.Terms.{
  ElectionCall, call, run, Turn, rest, hear, stand, win, lose, Turns, done, next, call-Turns,
}

-- how often on_win was called in the term
unfoldable pub wins : ℕ → List Outcome → ℕ
wins t [] = 0
wins t (win_in u ∷ os) = (if eqb u t then 1 else 0) + wins t os
wins t (lost_in u ∷ os) = wins t os

-- no term is won twice or before its time, and the term of an open election is not won
pub record IsSettled (e : LeaderElection) : Type 0 where
  pub once : (t : ℕ) → wins t e.outcomes ≤ 1
  pub future : (t : ℕ) → e.state.term < t → wins t e.outcomes ≡ 0
  pub unwon : e.state.in_election ≡ true → wins e.state.term e.outcomes ≡ 0

Turn-IsSettled : {e e' : LeaderElection} → Turn e e' → IsSettled e → IsSettled e'
unfolding wins
Turn-IsSettled (rest p q) v = record {
  once = λ t. rw q (v.once t);
  future = λ t h. rw q (v.future t (rw p at h));
  unwon = λ h. rw (p, q) (v.unwon (rw p at h));
}
Turn-IsSettled {e} {e'} (hear term newer p q) v = record {
  once = λ t. rw q (v.once t);
  future = λ t h. let h' : term < t = rw p at h in rw q (v.future t (omega arith));
  unwon = λ h. let h' : false ≡ true = rw p at h in ground arith;
}
Turn-IsSettled {e} {e'} (stand now p q) v = record {
  once = λ t. rw q (v.once t);
  future = λ t h. let h' : suc e.state.term < t = rw p at h in rw q (v.future t (omega arith));
  unwon = λ h. rw (p, q) (v.future (suc e.state.term) (omega arith));
}
Turn-IsSettled {e} {e'} (win ready silent p q) v = record {
  once = λ t. rw q (ground (arith, v.once t, v.unwon ready));
  future = λ t h. let h' : e.state.term < t = rw p at h in rw q (ground (arith, v.future t h'));
  unwon = λ h. let h' : false ≡ true = rw p at h in ground arith;
}
Turn-IsSettled {e} {e'} (lose ok p keep q) v = record {
  once = λ t. rw q (v.once t);
  future = λ t h. let h' : e.state.term < t = rw p at h in rw q (v.future t h');
  unwon = λ h. let h' : false ≡ true = rw p at h in ground arith;
}

Turns-IsSettled : {e e' : LeaderElection} → Turns e e' → IsSettled e → IsSettled e'
Turns-IsSettled (done e) v = v
Turns-IsSettled (next e e' e'' t ts) v = Turns-IsSettled ts (Turn-IsSettled t v)

run-IsSettled : (cs : List ElectionCall) (e : LeaderElection) → IsSettled e → IsSettled (run cs e)
unfolding run
run-IsSettled [] e v = v
run-IsSettled (c ∷ cs) e v = run-IsSettled cs (call c e) (Turns-IsSettled (call-Turns c e) v)

-- A backup leader that was just made, whatever its first term, calls on_win at most once in each term,
-- whatever calls, messages and late timers come, in whatever order.
pub one_victory_per_term :
    (cs : List ElectionCall) (e : LeaderElection) (first t : ℕ)
    → e.state ≡ fresh_state first
    → e.outcomes ≡ []
    → wins t (run cs e).outcomes ≤ 1
unfolding wins
one_victory_per_term cs e first t p q =
    (run-IsSettled cs e (record {
      once = λ u. rw q (omega arith);
      future = λ u h. rw q refl;
      unwon = λ h. rw q refl;
    })).once
      t

Turn-term_le : {e e' : LeaderElection} → Turn e e' → e.state.term ≤ e'.state.term
Turn-term_le (rest p q) = rw p (omega arith)
Turn-term_le (hear term newer p q) = rw p (omega arith)
Turn-term_le (stand now p q) = rw p (omega arith)
Turn-term_le (win ready silent p q) = rw p (omega arith)
Turn-term_le (lose ok p keep q) = rw p (omega arith)

-- the term grows, and if it stays, then a node that was answered is still answered and has not won
pub record IsLater (e e' : LeaderElection) : Type 0 where
  pub term_le : e.state.term ≤ e'.state.term
  pub answered :
      e'.state.term ≡ e.state.term
      → e.state.received_ok ≡ true
      → (e'.state.received_ok ≡ true)
        × (wins e.state.term e'.outcomes ≡ wins e.state.term e.outcomes)

Turn-answered :
    {e e' : LeaderElection}
    → Turn e e'
    → e'.state.term ≡ e.state.term
    → e.state.received_ok ≡ true
    → (e'.state.received_ok ≡ true) × (wins e.state.term e'.outcomes ≡ wins e.state.term e.outcomes)
unfolding wins
Turn-answered (rest p q) same ok = (rw p ok, rw q refl)
Turn-answered {e} {e'} (hear term newer p q) same ok =
    let bad : term ≡ e.state.term = rw p at same in absurd (omega arith)
Turn-answered {e} {e'} (stand now p q) same ok =
    let bad : suc e.state.term ≡ e.state.term = rw p at same in absurd (omega arith)
Turn-answered {e} {e'} (win ready silent p q) same ok =
    let bad : true ≡ false = sym ok ∙ silent in ground arith
Turn-answered (lose b p keep q) same ok = (rw p (keep ok), rw q refl)

Turns-IsLater : {e e' : LeaderElection} → Turns e e' → IsLater e e'
Turns-IsLater (done e) = record { term_le = omega arith; answered = λ same ok. (ok, refl) }
Turns-IsLater (next e e' e'' t ts) =
    let l = Turns-IsLater ts in
    let le = Turn-term_le t in
    record {
      term_le = omega (arith, le, l.term_le);
      answered = λ same ok.
          let here : e'.state.term ≡ e.state.term = omega (arith, le, l.term_le, same) in
          let (ok', w) = Turn-answered t here ok in
          let (ok'', w') = l.answered (same ∙ sym here) ok' in
          (ok'', subst (λ u. wins u e''.outcomes ≡ wins u e'.outcomes) here w' ∙ w);
    }

run-IsLater : (cs : List ElectionCall) (e : LeaderElection) → IsLater e (run cs e)
unfolding run
run-IsLater [] e = Turns-IsLater (done e)
run-IsLater (c ∷ cs) e = later_trans (Turns-IsLater (call-Turns c e)) (run-IsLater cs (call c e))
  where
    later_trans : {a b c : LeaderElection} → IsLater a b → IsLater b c → IsLater a c
    later_trans {a} {b} {c} l m = record {
      term_le = omega (arith, l.term_le, m.term_le);
      answered = λ same ok.
          let here : b.state.term ≡ a.state.term = omega (arith, l.term_le, m.term_le, same) in
          let (ok', w) = l.answered here ok in
          let (ok'', w') = m.answered (same ∙ sym here) ok' in
          (ok'', subst (λ u. wins u c.outcomes ≡ wins u b.outcomes) here w' ∙ w);
    }

-- No call, message or late timer lowers the term of a backup leader.
pub term_grows :
    (cs : List ElectionCall) (e : LeaderElection) → e.state.term ≤ (run cs e).state.term
term_grows cs e = (run-IsLater cs e).term_le

-- A backup leader that received ELECTION_OK in its term does not win that term: after any calls,
-- messages and late timers that leave the term as it is, on_win was not called in it again.
pub answered_never_wins :
    (cs : List ElectionCall) (e : LeaderElection)
    → e.state.received_ok ≡ true
    → (run cs e).state.term ≡ e.state.term
    → wins e.state.term (run cs e).outcomes ≡ wins e.state.term e.outcomes
answered_never_wins cs e ok same = ((run-IsLater cs e).answered same ok).1
