-- ===== src/Projector/Stall.antt =====
-- The timestamp guard of FireProjector, and what it does to a replay.
use wfc.Prelude.{
  ℕ, false, ◌≤◌, ◌≡◌, refl, sym, ◌∙◌, ap, ◌⊎◌, Memᴰ, true, false, String, Option, none, some, List,
  [], ◌∷◌, or_else, arith, ◌==◌, inl, inr, Bool-cases, if◌then◌else◌,
}
use wfc.Fires
use wfc.Dict.{get-put_self}
use wfc.Shared.Status.{active, ignited}
use wfc.Shared.Commands.{payload_text}
use wfc.Fires.{FireRecord, FireStateStore, new_fire, moved, ignite, transition, save}
use wfc.Events.{DomainEvent}
use wfc.Projector.{
  Projector, is_behind, detect, on_fire_detected, dispatched, on_fire_dispatched, handle,
  handle_named, apply, apply_all,
}

-- the store has the fire, changed at `now` or later
abbrev pub IsAhead : String → ℕ → Projector → Type 0
IsAhead f now p = (r : FireRecord) × (Fires.get p.fires f ≡ some r) × (now ≤ r.updated_at)

module _ (f : String) (e : DomainEvent) (now : ℕ) (p : Projector)
    (ahead : IsAhead f e.timestamp p) where
  behind : is_behind (Fires.get p.fires f) e.timestamp ≡ true
  behind = let (r, g, le) = ahead in rw g (ground arith)

  detected_same : on_fire_detected f e now p ≡ p
  detected_same =
      let (r, g, le) = ahead in
      ap (λ fire. elim fire as (λ _. Projector) [ some r ↦ p | none ↦ detect f e now p ]) g

  dispatched_same : on_fire_dispatched f e now p ≡ p
  dispatched_same = go e.node_id
    where
      go :
          (n : Option String)
          → elim n as (λ _. Projector) [
            | none ↦ p
            | some node_id ↦ if node_id == "" then p else dispatched f node_id e now p
          ]
            ≡ p
      go none = refl
      go (some node_id) = elim (Bool-cases (node_id == "")) [
        | inl y ↦ rw y refl
        | inr n ↦ rw (n, behind) refl
      ]

  handle_same : handle f e now p ≡ p
  handle_same = elim (Bool-cases (e.event_type == "FIRE_DETECTED")) [
    | inl y ↦ rw y detected_same
    | inr a ↦ elim (Bool-cases (e.event_type == "FIRE_CONTAINED")) [
      | inl y ↦ rw (a, y, behind) refl
      | inr b ↦ elim (Bool-cases (e.event_type == "FIRE_SUPPRESSED")) [
        | inl y ↦ rw (a, b, y, behind) refl
        | inr c ↦ elim (Bool-cases (e.event_type == "FIRE_DISPATCHED")) [
          | inl y ↦ rw (a, b, c, y) dispatched_same
          | inr d ↦ elim (Bool-cases (e.event_type == "FIRE_REDISPATCHED")) [
            | inl y ↦ rw (a, b, c, d, y, behind) refl
            | inr g ↦ rw (a, b, c, d, g) refl
          ]
        ]
      ]
    ]
  ]

-- an event of another name, or of none, is not handled
apply-same :
    (f : String) (e : DomainEvent) (now : ℕ) (p : Projector)
    → e.fire_id ≡ some f
    → IsAhead f e.timestamp p
    → apply e now p ≡ p
unfolding apply
apply-same f e now p own ahead = rw own (go (Bool-cases (f == "")))
  where
    go : ((f == "") ≡ true) ⊎ ((f == "") ≡ false) → handle_named (some f) e now p ≡ p
    go (inl y) = rw y refl
    go (inr n) = rw n (handle_same f e now p ahead)

ignited_first :
    (f zone severity sensor_id : String) (now : ℕ) (s : FireStateStore)
    → Fires.get s f ≡ none
    → (ignite f zone severity sensor_id none now s).0
      ≡ save s f (new_fire f zone severity sensor_id none now)
unfolding ignite
ignited_first f zone severity sensor_id now s fresh = rw (fresh, ignite) refl

found_moves :
    (f reason : String) (now : ℕ) (s : FireStateStore) (q : FireRecord)
    → Fires.get s f ≡ some q
    → q.state ≡ ignited
    → (Fires.transition f active reason none none now s).0
      ≡ save s f (moved q active reason none none now)
unfolding transition
found_moves f reason now s q found new = rw (found, new, transition) refl

get-save : (f : String) (s : FireStateStore) (q : FireRecord) → Fires.get (save s f q) f ≡ some q
unfolding save
get-save f s q = get-put_self s.fires f q

moved_next :
    (f reason : String) (now : ℕ) (s : FireStateStore) (q : FireRecord)
    → q.state ≡ ignited
    → Fires.get (Fires.transition f active reason none none now (save s f q)).0 f
      ≡ some (moved q active reason none none now)
moved_next f reason now s q new =
    rw (found_moves f reason now (save s f q) q (get-save f s q) new) (get-save f (save s f q) _)

ignite_then_move :
    (f zone severity sensor_id : String) (now : ℕ) (s : FireStateStore)
    → Fires.get s f ≡ none
    → (r : FireRecord) × (Fires.get
          (Fires.transition f active "replay_fire_detected" none none now
            (ignite f zone severity sensor_id none now s).0).0
          f
        ≡ some r)
      × (r.updated_at ≡ now)
      × (r.state ≡ active)
ignite_then_move f zone severity sensor_id now s fresh =
    rw (ignited_first f zone severity sensor_id now s fresh)
      (_, moved_next f _ now s _ refl, refl, refl)

-- the new record is changed last at the clock's reading, whatever the event's time
detect-IsAhead :
    (f : String) (e : DomainEvent) (now : ℕ) (p : Projector)
    → Fires.get p.fires f ≡ none
    → (r : FireRecord) × (Fires.get (detect f e now p).fires f ≡ some r)
      × (r.updated_at ≡ now)
      × (r.state ≡ active)
detect-IsAhead f e now p fresh =
    let zone = or_else (payload_text e.payload "zone") "unknown" in
    let severity = or_else (payload_text e.payload "severity") "MEDIUM" in
    let sensor_id = or_else (payload_text e.payload "sensor_id") "unknown" in
    ignite_then_move f zone severity sensor_id now p.fires fresh

all_same :
    (es : List DomainEvent) (f : String) (now : ℕ) (p : Projector)
    → ((d : DomainEvent) → Memᴰ d es → (d.fire_id ≡ some f) × IsAhead f d.timestamp p)
    → apply_all es now p ≡ p
unfolding apply_all
all_same [] f now p own = refl
all_same (e ∷ es) f now p own =
    let (id, ahead) = own e (Memᴰ.head refl) in
    rw (apply-same f e now p id ahead) (all_same es f now p (λ d m. own d (Memᴰ.tail m)))

detects :
    (e : DomainEvent) (f : String) (now : ℕ) (p : Projector)
    → e.event_type ≡ "FIRE_DETECTED"
    → e.fire_id ≡ some f
    → (f == "") ≡ false
    → Fires.get p.fires f ≡ none
    → apply e now p ≡ detect f e now p
unfolding apply
detects e f now p kind own named fresh =
    rw (own, named, kind)
      (ap (λ fire. elim fire as (λ _. Projector) [ some r ↦ p | none ↦ detect f e now p ]) fresh)

-- If a FIRE_DETECTED of a fire that the store does not have is applied first, the fire becomes ACTIVE
-- with the clock's reading as its time, and no further event of the fire that happened before that
-- reading has any effect, of whatever type: what a replay at startup leaves of the fire is its detection.
pub replay_stalls :
    (first : DomainEvent) (es : List DomainEvent) (f : String) (now : ℕ) (p : Projector)
    → first.event_type ≡ "FIRE_DETECTED"
    → first.fire_id ≡ some f
    → (f == "") ≡ false
    → Fires.get p.fires f ≡ none
    → ((d : DomainEvent) → Memᴰ d es → (d.fire_id ≡ some f) × (d.timestamp ≤ now))
    → (r : FireRecord) × (Fires.get (apply_all (first ∷ es) now p).fires f ≡ some r)
      × (r.state ≡ active)
      × (r.updated_at ≡ now)
      × (apply_all (first ∷ es) now p ≡ apply first now p)
replay_stalls first es f now p kind own named fresh later =
    let p' = detect f first now p in
    let (r, g, t, a) = detect-IsAhead f first now p fresh in
    let e : apply first now p ≡ p' = detects first f now p kind own named fresh in
    let still : apply_all es now p' ≡ p' =
      all_same es f now p' (λ d m. let (id, le) = later d m in (id, (r, g, rw t le))) in
    let whole : apply_all (first ∷ es) now p ≡ p' =
      unfold apply_all in ap (apply_all es now) e ∙ still in
    (r, ap (λ q. Fires.get q.fires f) whole ∙ g, a, t, whole ∙ sym e)
