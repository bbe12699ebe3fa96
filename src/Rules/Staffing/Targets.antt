-- ===== src/Rules/Staffing/Targets.antt =====
-- Whom FireDispatchRule sends to a fire.
use wfc.Prelude.{
  ◌≡◌, refl, sym, ap, ◌∙◌, true, false, String, Option, none, some, List, [], ◌∷◌, arith, ◌==◌,
  ne→eq-false, inl, inr, Bool-cases, Option-cases, Memᴰ, ◌&&◌, is_none, head?,
}
use mathlib.Core.List.Memᴰ
use wfc.Dict.Select.{select_keys_sound}
use wfc.Shared.Commands.{Coord}
use wfc.Fires.{FireRecord, FireStateStore, assigned_node}
use wfc.Nodes.{NodeRecord, NodeRegistry, get}
use wfc.Nodes.Selection.{get_closest, get_in_zone, get_available, is_in_zone}
use wfc.Nodes.Selection.Eligible.{IsIdle, get_available_exact, get_closest_nearest}
use wfc.Nodes.Status.{IsKeyed}
use wfc.Rules.{Order, StateUpdates, no_updates, skipped, triggered, RuleContext, is_burning}
use wfc.Rules.Staffing.{named, by_proximity, select_target, respond, fire_dispatch}

unnamed : (n : String) (o : Option String) → named o ≡ some n → o ≡ some n
unnamed n none q = q
unnamed n (some id) q = elim (Bool-cases (id == "")) [
  | inl y ↦ absurd (absent (rw y at q))
  | inr shut ↦ rw shut at q
]
  where
    absent : ¬ (none ≡ some n)
    absent e = cc

-- the registry has the node, able to lead, ACTIVE and without a job
abbrev pub IsFreeLeader : NodeRegistry → String → Type 0
IsFreeLeader registry n = (r : NodeRecord) × (get registry n ≡ some r) × IsIdle "SWARM_LEAD" r

module _ (registry : NodeRegistry) (v : IsKeyed registry) where
  head_mem : (xs : List String) (n : String) → head? xs ≡ some n → Memᴰ n xs
  head_mem [] n h = cc
  head_mem (x ∷ xs) n h = Memᴰ.head (sym (ground arith))

  available-IsFreeLeader :
      (n : String) → head? (get_available "SWARM_LEAD" registry) ≡ some n → IsFreeLeader registry n
  available-IsFreeLeader n h =
      (get_available_exact "SWARM_LEAD" registry v.unique n).0 (head_mem _ n h)

  zone-IsFreeLeader :
      (zone n : String)
      → head? (get_in_zone "SWARM_LEAD" zone true registry) ≡ some n
      → IsFreeLeader registry n
  unfolding get_in_zone
  zone-IsFreeLeader zone n h =
      let (r, g, ok) =
        select_keys_sound (is_in_zone "SWARM_LEAD" zone true) registry.nodes n v.unique
          (head_mem _ n h) in
      (r, g, record { able = ground arith; alive = ground arith; free = ground arith })

  closest-IsFreeLeader :
      (place : Coord) (n : String)
      → get_closest "SWARM_LEAD" place true registry ≡ some n
      → IsFreeLeader registry n
  closest-IsFreeLeader place n h =
      let (k, r, g, id, ok, least) =
        get_closest_nearest "SWARM_LEAD" place true registry n v.unique h in
      let here : k ≡ n = rw (← v.keyed k r g) id in
      (r, rw (← here) g, record { able = ground arith; alive = ground arith; free = ground arith })

  proximity-IsFreeLeader :
      (place : Option Coord) (n : String)
      → by_proximity place registry ≡ some n
      → IsFreeLeader registry n
  proximity-IsFreeLeader none n h = cc
  proximity-IsFreeLeader (some place) n h = closest-IsFreeLeader place n (unnamed n _ h)

  select_target-IsFreeLeader :
      (fire : FireRecord) (n : String)
      → select_target fire registry ≡ some n
      → IsFreeLeader registry n
  unfolding select_target
  select_target-IsFreeLeader fire n h =
      elim (Option-cases (by_proximity fire.location_coords registry)) [
        | inr (a, e) ↦ proximity-IsFreeLeader fire.location_coords n (ground arith)
        | inl e ↦ elim (Option-cases (head? (get_in_zone "SWARM_LEAD" fire.zone true registry))) [
          | inr (a, e') ↦ zone-IsFreeLeader fire.zone n (ground arith)
          | inl e' ↦ available-IsFreeLeader n (ground arith)
        ]
      ]

  blanked :
      (m : String) (r : NodeRecord) → m ≡ "" → get registry "" ≡ none → get registry m ≡ some r → ⊥
  blanked m r q b g = absurd (gap (sym b ∙ ap (get registry) (sym q) ∙ g))
    where
      gap : ¬ (none ≡ some r)
      gap e = cc

  -- a free leader is always found
  select_target-found :
      (fire : FireRecord) (n : String)
      → IsFreeLeader registry n
      → (m : String) × (select_target fire registry ≡ some m)
  unfolding select_target
  select_target-found fire n (r, g, idle) =
      elim (Option-cases (by_proximity fire.location_coords registry)) [
        | inr (a, e) ↦ (a, rw e)
        | inl e ↦ elim (Option-cases (head? (get_in_zone "SWARM_LEAD" fire.zone true registry))) [
          | inr (a, e') ↦ (a, rw (e, e'))
          | inl e' ↦
              let m = (get_available_exact "SWARM_LEAD" registry v.unique n).1 r g idle in
              let (a, p) = first (get_available "SWARM_LEAD" registry) m in (a, rw (e, e', p))
        ]
      ]
    where
      first : (xs : List String) → Memᴰ n xs → (a : String) × (head? xs ≡ some a)
      first [] m = absurd (Memᴰ.not-nil m)
      first (x ∷ xs) m = (x, refl)

  module _ (fire : FireRecord) (context : RuleContext) (fires : Option FireStateStore) where
    -- In a registry that keeps each record once under its own id: whenever FireDispatchRule triggers,
    -- the fire is ACTIVE and has no leader, and the rule sends one command, RESPOND_TO_FIRE, to a node
    -- that can lead a swarm, is ACTIVE and has no job.
    pub fire_dispatch_targets :
        (orders : List Order) (u : StateUpdates)
        → fire_dispatch fire registry context fires ≡ triggered orders u
        → (n : String) × (orders ≡ respond fire n ∷ [])
          × (u ≡ no_updates)
          × (is_burning fire.state ≡ true)
          × (assigned_node fire ≡ none)
          × IsFreeLeader registry n
    unfolding fire_dispatch
    fire_dispatch_targets orders u h =
        elim (Bool-cases (is_burning fire.state && is_none (assigned_node fire))) [
          | inr shut ↦ absurd (skip (rw shut at h))
          | inl ready ↦ elim (Option-cases (named (select_target fire registry))) [
            | inl e ↦ absurd (skip (rw (ready, e) at h))
            | inr (n, e) ↦
                let same : triggered (respond fire n ∷ []) no_updates ≡ triggered orders u =
                  rw (ready, e) at h in
                (
                  n,
                  sym (orders_of same),
                  sym (updates_of same),
                  ground arith,
                  ground arith,
                  select_target-IsFreeLeader fire n (unnamed n (select_target fire registry) e),
                )
          ]
        ]
      where
        skip : ¬ (skipped ≡ triggered orders u)
        skip q = cc

        orders_of : {a b : List Order} {x y : StateUpdates} → triggered a x ≡ triggered b y → a ≡ b
        orders_of q = cc

        updates_of : {a b : List Order} {x y : StateUpdates} → triggered a x ≡ triggered b y → x ≡ y
        updates_of q = cc

    -- In such a registry that has no node with an empty id: if the fire is ACTIVE and has no leader, and
    -- some node can lead a swarm, is ACTIVE and has no job, then FireDispatchRule triggers.
    pub fire_dispatch_triggers :
        (n : String)
        → get registry "" ≡ none
        → is_burning fire.state ≡ true
        → assigned_node fire ≡ none
        → IsFreeLeader registry n
        → (m : String) × (fire_dispatch fire registry context fires
            ≡ triggered (respond fire m ∷ []) no_updates)
    unfolding fire_dispatch
    fire_dispatch_triggers n blank burning unled free =
        let (m, e) = select_target-found fire n free in
        let (r, g, idle) = select_target-IsFreeLeader fire m e in
        let full : (m == "") ≡ false = ne→eq-false m "" (λ q. blanked m r q blank g) in
        (m, rw (burning, unled, e, full) refl)
