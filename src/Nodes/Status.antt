-- ===== src/Nodes/Status.antt =====
-- The life of a node in the registry: its key, and what makes it ACTIVE.
use mathlib.Core.Path.{subst}
use wfc.Prelude.{
  ℕ, ◌≡◌, refl, ap, String, Option, some, List, [], ◌∷◌, arith, ◌==◌, eq_iff, inl, inr, Bool-cases,
  ◌⊎◌, Memᴰ,
}
use wfc.Dict
use wfc.Dict.{get-put, IsUnique, put-IsUnique}
use wfc.Shared.Status.{active}
use wfc.Nodes.{NodeRecord, NodeRegistry, get}
use wfc.Nodes.Calls.{
  NodeCall, grant_active_call, heartbeat_call, call, run, Edit, announced, refreshed, granted,
  alive, lost, tasked, Edited, untouched, edited, call-Edited,
}

-- every record stands once, under its own id
pub record IsKeyed (s : NodeRegistry) : Type 0 where
  pub unique : IsUnique s.nodes
  pub keyed : (k : String) (r : NodeRecord) → get s k ≡ some r → r.node_id ≡ k

Edit-node_id :
    {c : NodeCall} {k : String} {old : Option NodeRecord} {r : NodeRecord}
    → Edit c k old r
    → ((q : NodeRecord) → old ≡ some q → q.node_id ≡ k)
    → r.node_id ≡ k
Edit-node_id (announced a now e p) h = rw p
Edit-node_id (refreshed q a e p) h = rw p (h q e)
Edit-node_id (granted q c e p) h = rw p (h q e)
Edit-node_id (alive q now c e p) h = rw p (h q e)
Edit-node_id (lost q e p) h = rw p (h q e)
Edit-node_id (tasked q job e p) h = rw p (h q e)

Edited-IsKeyed : {c : NodeCall} {s s' : NodeRegistry} → Edited c s s' → IsKeyed s → IsKeyed s'
Edited-IsKeyed (untouched e) h = record { unique = rw e h.unique; keyed = rw e h.keyed }
Edited-IsKeyed {s} (edited k r d e) h = record {
  unique = rw e (put-IsUnique s.nodes k r h.unique);
  keyed = λ j q g. ground (
    arith,
    get-put s.nodes k j r,
    ap (λ (t : Dict.Dict NodeRecord). Dict.get t j) e,
    h.keyed j q,
    eq_iff k j,
    Edit-node_id d (h.keyed k),
  );
}

-- Any calls of the registry's methods leave every record once, under its own id.
run-IsKeyed : (cs : List NodeCall) (s : NodeRegistry) → IsKeyed s → IsKeyed (run cs s)
unfolding run
run-IsKeyed [] s h = h
run-IsKeyed (c ∷ cs) s h = run-IsKeyed cs (call c s) (Edited-IsKeyed (call-Edited c s) h)

-- a call that grants ACTIVE to the node `k`
pub data Wakes (k : String) (c : NodeCall) : Type 0 where
  by_heartbeat : (now : ℕ) → c ≡ heartbeat_call k now → Wakes k c
  by_grant : c ≡ grant_active_call k → Wakes k c

abbrev pub IsActive : NodeRegistry → String → Type 0
IsActive s k = (r : NodeRecord) × (get s k ≡ some r) × (r.status ≡ active)

Edit-active :
    {c : NodeCall} {k : String} {old : Option NodeRecord} {r : NodeRecord}
    → Edit c k old r
    → r.status ≡ active
    → Wakes k c ⊎ ((q : NodeRecord) × (old ≡ some q) × (q.status ≡ active))
Edit-active (announced a now e p) h = ground arith
Edit-active (refreshed q a e p) h = inr (q, e, ground arith)
Edit-active (granted q c e p) h = inl (by_grant c)
Edit-active (alive q now c e p) h = inl (by_heartbeat now c)
Edit-active (lost q e p) h = ground arith
Edit-active (tasked q job e p) h = inr (q, e, ground arith)

Edited-IsActive :
    {c : NodeCall} {s s' : NodeRegistry} (k : String)
    → Edited c s s'
    → IsActive s' k
    → Wakes k c ⊎ IsActive s k
Edited-IsActive k (untouched e) (r, g, h) = inr (r, rw (← e) g, h)
Edited-IsActive {c} {s} k (edited j q d e) (r, g, h) =
    let after : Dict.get (Dict.put s.nodes j q) k ≡ some r = rw (← e) g in
    elim (Bool-cases (j == k)) [
      | inl y ↦
          let same_key : j ≡ k = (eq_iff j k).0 y in
          let found : q ≡ r = ground (arith, get-put s.nodes j k q) in
          subst (λ i. Wakes i c ⊎ IsActive s i) same_key (Edit-active d (rw found h))
      | inr y ↦ inr (r, ground (arith, get-put s.nodes j k q), h)
    ]

-- A node that is ACTIVE after any calls was ACTIVE before, or one of the calls was its heartbeat or
-- its grant_active: registration never makes a node ACTIVE.
pub run-IsActive :
    (cs : List NodeCall) (s : NodeRegistry) (k : String)
    → IsActive (run cs s) k
    → ((c : NodeCall) × Memᴰ c cs × Wakes k c) ⊎ IsActive s k
unfolding run
run-IsActive [] s k h = inr h
run-IsActive (c ∷ cs) s k h = elim (run-IsActive cs (call c s) k h) [
  | inl (d, m, w) ↦ inl (d, Memᴰ.tail m, w)
  | inr a ↦ elim (Edited-IsActive k (call-Edited c s) a) [
    | inl w ↦ inl (c, Memᴰ.head refl, w)
    | inr b ↦ inr b
  ]
]
