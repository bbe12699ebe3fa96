-- ===== src/Fires/Histories.antt =====
-- Any sequence of calls of FireStateStore's methods, with the clock of each call.
use wfc.Prelude.{
  ℕ, refl, arith, ◌==◌, eq_iff, inl, inr, Bool-cases, ◌≡◌, String, Option, some, List, [], ◌∷◌,
}
use mathlib.Core.Path.{subst}
use wfc.Dict.{get-put}
use wfc.Shared.Status.{FireStatus}
use wfc.Shared.Commands.{Coord}
use wfc.Fires.{
  FireRecord, FireStateStore, new_fire, save, get, ignite, transition, assign_node,
  remove_assigned_node, update_severity, update_leader_term,
}
use wfc.Fires.Changes.{
  Change, same, Saved, untouched, saved, Origin, born, changed, ignite-Saved, transition-Saved,
  assign_node-Saved, remove_assigned_node-Saved, update_severity-Saved, update_leader_term-Saved,
}

pub data FireCall : Type 0 where
  ignite_call : String → String → String → String → Option Coord → ℕ → FireCall
  transition_call : String → FireStatus → String → Option String → Option String → ℕ → FireCall
  assign_node_call : String → Option String → String → ℕ → FireCall
  remove_assigned_node_call : String → String → String → ℕ → FireCall
  update_severity_call : String → String → String → ℕ → FireCall
  update_leader_term_call : String → ℕ → String → ℕ → FireCall

unfoldable pub call : FireCall → FireStateStore → FireStateStore
call (ignite_call f zone severity sensor location now) s =
    (ignite f zone severity sensor location now s).0
call (transition_call f new_state reason leader mission now) s =
    (transition f new_state reason leader mission now s).0
call (assign_node_call f leader reason now) s = (assign_node f leader reason now s).0
call (remove_assigned_node_call f leader reason now) s =
    (remove_assigned_node f leader reason now s).0
call (update_severity_call f severity reason now) s = (update_severity f severity reason now s).0
call (update_leader_term_call f term reason now) s = (update_leader_term f term reason now s).0

unfoldable pub run : List FireCall → FireStateStore → FireStateStore
unfolding call
run [] s = s
run (c ∷ cs) s = run cs (call c s)

pub call-Saved : (c : FireCall) (s : FireStateStore) → Saved s (call c s)
unfolding call
call-Saved (ignite_call f zone severity sensor location now) s =
    ignite-Saved f s zone severity sensor location now
call-Saved (transition_call f new_state reason leader mission now) s =
    transition-Saved f s new_state reason leader mission now
call-Saved (assign_node_call f leader reason now) s = assign_node-Saved f s leader reason now
call-Saved (remove_assigned_node_call f leader reason now) s =
    remove_assigned_node-Saved f s leader reason now
call-Saved (update_severity_call f severity reason now) s =
    update_severity-Saved f s severity reason now
call-Saved (update_leader_term_call f term reason now) s =
    update_leader_term-Saved f s term reason now

module _ {s s' : FireStateStore} where
  -- a record of the store after a call is new or a change of the one before
  pub Saved-Origin :
      Saved s s' → (k : String) (r' : FireRecord) → get s' k ≡ some r' → Origin s k r'
  unfolding save
  Saved-Origin (untouched e) k r' g = changed r' (rw (← e) g) (same refl)
  Saved-Origin (saved f q o e) k r' g = elim (Bool-cases (f == k)) [
    | inl y ↦
        let same_key : f ≡ k = (eq_iff f k).0 y in
        let found : q ≡ r' = ground (arith, get-put s.fires f k q) in
        subst (λ j. Origin s j r') same_key (subst (λ x. Origin s f x) found o)
    | inr y ↦ changed r' (ground (arith, get-put s.fires f k q)) (same refl)
  ]

  -- no call forgets a fire
  pub Saved-present :
      Saved s s'
      → (k : String) (r : FireRecord) → get s k ≡ some r
      → (r' : FireRecord) × (get s' k ≡ some r')
  unfolding save
  Saved-present (untouched e) k r g = (r, rw e g)
  Saved-present (saved f q o e) k r g = elim (Bool-cases (f == k)) [
    | inl y ↦ (q, ground (arith, get-put s.fires f k q))
    | inr y ↦ (r, ground (arith, get-put s.fires f k q))
  ]

-- What holds of a new record and is kept by every change holds of every record of the store.
module _ (P : String → FireRecord → Type 0)
    (at_birth : (k zone severity sensor_id : String) (location : Option Coord) (now : ℕ)
      → P k (new_fire k zone severity sensor_id location now))
    (kept : (k : String) (r r' : FireRecord) → Change r r' → P k r → P k r') where
  abbrev pub AllFires : FireStateStore → Type 0
  AllFires s = (k : String) (r : FireRecord) → get s k ≡ some r → P k r

  call-AllFires : (c : FireCall) (s : FireStateStore) → AllFires s → AllFires (call c s)
  call-AllFires c s h k r' g = from (Saved-Origin (call-Saved c s) k r' g)
    where
      from : Origin s k r' → P k r'
      from (born zone severity sensor location now fresh e) =
          rw e (at_birth k zone severity sensor location now)
      from (changed r g' ch) = kept k r r' ch (h k r g')

  pub run-AllFires : (cs : List FireCall) (s : FireStateStore) → AllFires s → AllFires (run cs s)
  unfolding run
  run-AllFires [] s h = h
  run-AllFires (c ∷ cs) s h = run-AllFires cs (call c s) (call-AllFires c s h)
