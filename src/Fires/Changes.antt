-- ===== src/Fires/Changes.antt =====
-- What the methods of FireStateStore can do to one record, as a relation on records: the proofs
-- about records of Fires/{Lifecycle,Records} go by cases of it.
use wfc.Prelude.{
  ℕ, ◌≡◌, refl, true, false, String, Option, none, some, List, ◌==◌, inl, inr, Bool-cases,
  Option-cases, IsDistinct, contains, without, append-IsDistinct, without-IsDistinct, eqb, length,
}
use wfc.Dict
use wfc.Dict.{get-put}
use wfc.Shared.Status.{FireStatus, fire_allowed}
use wfc.Shared.Commands.{Coord}
use wfc.Fires.{
  FireRecord, FireStateStore, is_terminal, moved, touched, new_fire, add_node, assign_nodes, save,
  get, ignite, transition, assign_node, remove_assigned_node, update_severity, update_leader_term,
}

pub add_node-IsDistinct :
    (nodes : List String) (chosen : Option String)
    → IsDistinct nodes
    → IsDistinct (add_node nodes chosen)
add_node-IsDistinct nodes none d = d
add_node-IsDistinct nodes (some n) d = elim (Bool-cases (contains nodes n)) [
  | inl e ↦ rw e d
  | inr e ↦ rw e (append-IsDistinct nodes n d e)
]

assign_nodes-IsDistinct :
    (nodes : List String) (chosen : Option String)
    → IsDistinct nodes
    → IsDistinct (assign_nodes nodes chosen)
assign_nodes-IsDistinct nodes none d = tt
assign_nodes-IsDistinct nodes (some n) d = add_node-IsDistinct nodes (some n) d

-- how a record may change
pub data Change (r r' : FireRecord) : Type 0 where
  same : r' ≡ r → Change r r'
  move :
      (new_state : FireStatus) (reason : String) (node mission : Option String) (now : ℕ)
      → is_terminal r ≡ false
      → fire_allowed r.state new_state ≡ true
      → r' ≡ moved r new_state reason node mission now
      → Change r r'
  retouch :
      (reason default severity : String) (now term : ℕ) (nodes : List String)
      → (IsDistinct r.assigned_nodes → IsDistinct nodes)
      → r' ≡ record (touched r reason default now) {
        severity = severity;
        leader_term = term;
        assigned_nodes = nodes;
      }
      → Change r r'

-- where the record of a key comes from: it is new, or a change of the one before
pub data Origin (s : FireStateStore) (k : String) (r' : FireRecord) : Type 0 where
  born :
      (zone severity sensor_id : String) (location : Option Coord) (now : ℕ)
      → get s k ≡ none
      → r' ≡ new_fire k zone severity sensor_id location now
      → Origin s k r'
  changed : (r : FireRecord) → get s k ≡ some r → Change r r' → Origin s k r'

-- what a method does to the store: nothing, or one record saved under its key
pub data Saved (s s' : FireStateStore) : Type 0 where
  untouched : s' ≡ s → Saved s s'
  saved : (k : String) (r' : FireRecord) → Origin s k r' → s' ≡ save s k r' → Saved s s'

module _ (fire_id : String) (s : FireStateStore) where
  pub ignite-Saved :
      (zone severity sensor_id : String) (location : Option Coord) (now : ℕ)
      → Saved s (ignite fire_id zone severity sensor_id location now s).0
  unfolding ignite save
  ignite-Saved zone severity sensor_id location now =
      elim (Option-cases (Dict.get s.fires fire_id)) [
        | inr (r, e) ↦ rw (e, ignite) (untouched refl)
        | inl e ↦
            rw (e, ignite) (saved fire_id _ (born zone severity sensor_id location now e refl) refl)
      ]

  pub transition-Saved :
      (new_state : FireStatus) (reason : String) (leader mission : Option String) (now : ℕ)
      → Saved s (transition fire_id new_state reason leader mission now s).0
  unfolding transition
  transition-Saved new_state reason leader mission now =
      elim (Option-cases (Dict.get s.fires fire_id)) [
        | inl e ↦ rw (e, transition) (untouched refl)
        | inr (r, e) ↦ elim (Bool-cases (is_terminal r)) [
          | inl t ↦ rw (e, transition) (rw t (untouched refl))
          | inr t ↦ elim (Bool-cases (fire_allowed r.state new_state)) [
            | inl a ↦
                rw (e, transition)
                  (rw (t, a)
                    (saved fire_id _
                      (changed r e (move new_state reason leader mission now t a refl)) refl))
            | inr a ↦ rw (e, transition) (rw (t, a) (untouched refl))
          ]
        ]
      ]

  pub assign_node-Saved :
      (chosen : Option String) (reason : String) (now : ℕ)
      → Saved s (assign_node fire_id chosen reason now s).0
  unfolding assign_node
  assign_node-Saved chosen reason now = elim (Option-cases (Dict.get s.fires fire_id)) [
    | inl e ↦ rw (e, assign_node) (untouched refl)
    | inr (r, e) ↦
        rw (e, assign_node)
          (saved fire_id _
            (changed r e (
              retouch reason "assigned_node_changed" r.severity now r.leader_term
                (assign_nodes r.assigned_nodes chosen)
                (assign_nodes-IsDistinct r.assigned_nodes chosen) refl))
            refl)
  ]

  pub remove_assigned_node-Saved :
      (leader reason : String) (now : ℕ)
      → Saved s (remove_assigned_node fire_id leader reason now s).0
  unfolding remove_assigned_node
  remove_assigned_node-Saved leader reason now = elim (Option-cases (Dict.get s.fires fire_id)) [
    | inl e ↦ rw (e, remove_assigned_node) (untouched refl)
    | inr (r, e) ↦
        elim (Bool-cases
          (eqb (length (without r.assigned_nodes leader)) (length r.assigned_nodes))) [
            | inl t ↦ rw (e, remove_assigned_node) (rw t (untouched refl))
            | inr t ↦
                rw (e, remove_assigned_node)
                  (rw t (
                    saved fire_id _
                      (changed r e (
                        retouch reason "remove_assigned_node" r.severity now r.leader_term
                          (without r.assigned_nodes leader)
                          (without-IsDistinct r.assigned_nodes leader) refl))
                      refl))
          ]
  ]

  pub update_severity-Saved :
      (severity reason : String) (now : ℕ)
      → Saved s (update_severity fire_id severity reason now s).0
  unfolding update_severity
  update_severity-Saved severity reason now = elim (Option-cases (Dict.get s.fires fire_id)) [
    | inl e ↦ rw (e, update_severity) (untouched refl)
    | inr (r, e) ↦ elim (Bool-cases (r.severity == severity)) [
      | inl t ↦ rw (e, update_severity) (rw t (untouched refl))
      | inr t ↦
          rw (e, update_severity)
            (rw t (
              saved fire_id _
                (changed r e (
                  retouch reason "severity_update" severity now r.leader_term r.assigned_nodes
                    (λ d. d) refl))
                refl))
    ]
  ]

  pub update_leader_term-Saved :
      (term : ℕ) (reason : String) (now : ℕ)
      → Saved s (update_leader_term fire_id term reason now s).0
  unfolding update_leader_term
  update_leader_term-Saved term reason now = elim (Option-cases (Dict.get s.fires fire_id)) [
    | inl e ↦ rw (e, update_leader_term) (untouched refl)
    | inr (r, e) ↦ elim (Bool-cases (eqb r.leader_term term)) [
      | inl t ↦ rw (e, update_leader_term) (rw t (untouched refl))
      | inr t ↦
          rw (e, update_leader_term)
            (rw t (
              saved fire_id _
                (changed r e (
                  retouch reason "leader_term_update" r.severity now term r.assigned_nodes (λ d. d)
                    refl))
                refl))
    ]
  ]
