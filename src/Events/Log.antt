-- ===== src/Events/Log.antt =====
-- The event log: append-only, numbered without gaps, and idempotent on event ids.
use wfc.Prelude.{
  ℕ, suc, ◌+◌, ◌≡◌, refl, ap, ◌∙◌, true, false, String, some, List, [], ◌∷◌, ◌++◌, arith, ◌==◌,
  eq_iff, eq_refl, length, inl, inr, Bool-cases, if◌then◌else◌, holds,
}
use wfc.Events.{
  DomainEvent, EventLog, exists_by_id, sequence_of, numbered, append, exists_row, has_event,
  has_event_id,
}

exists_by_id-append :
    (rows : List DomainEvent) (e : DomainEvent) (i : String)
    → exists_by_id (rows ++ e ∷ []) i ≡ (if e.event_id == i then true else exists_by_id rows i)
unfolding exists_by_id
exists_by_id-append [] e i = refl
exists_by_id-append (d ∷ rows) e i = ground (arith, exists_by_id-append rows e i)

sequence_of-append :
    (rows : List DomainEvent) (e : DomainEvent)
    → exists_by_id rows e.event_id ≡ false
    → sequence_of (rows ++ e ∷ []) e.event_id ≡ e.sequence
unfolding exists_by_id sequence_of
sequence_of-append [] e h = ground (arith, eq_refl e.event_id)
sequence_of-append (d ∷ rows) e h = ground (arith, sequence_of-append rows e)

-- Writing an event a second time, as the backup does when it replays a snapshot, leaves the log as
-- it is and returns the event with the number of the first time.
pub append_twice :
    (e : DomainEvent) (log : EventLog) → let (log', e') = append e log in append e log' ≡ (log', e')
unfolding append
append_twice e log = elim (Bool-cases (exists_by_id log.rows e.event_id)) [
  | inl old ↦
      let once : append e log ≡ (log, numbered e (sequence_of log.rows e.event_id)) = rw old refl in
      rw once once
  | inr new ↦
      let e' = numbered e (some (suc (length log.rows))) in
      let once : append e log ≡ (record { rows = log.rows ++ e' ∷ [] }, e') = rw new refl in
      let there : exists_by_id (log.rows ++ e' ∷ []) e.event_id ≡ true =
        ground (arith, exists_by_id-append log.rows e' e.event_id, eq_refl e.event_id) in
      rw once (rw there (rw (sequence_of-append log.rows e' new) refl))
]

-- from `n` on, the rows have the numbers n + 1, n + 2, ...
abbrev pub CountFrom : ℕ → List DomainEvent → Type 0
CountFrom n [] = Unit {0}
CountFrom n (e ∷ rows) = (e.sequence ≡ some (suc n)) × CountFrom (suc n) rows

-- no event id stands twice
abbrev pub IsOnce : List DomainEvent → Type 0
IsOnce [] = Unit {0}
IsOnce (e ∷ rows) = (exists_by_id rows e.event_id ≡ false) × IsOnce rows

pub record IsWellKept (log : EventLog) : Type 0 where
  pub counted : CountFrom 0 log.rows
  pub once : IsOnce log.rows

CountFrom-append :
    (n : ℕ) (rows : List DomainEvent) (e : DomainEvent)
    → CountFrom n rows
    → e.sequence ≡ some (suc (n + length rows))
    → CountFrom n (rows ++ e ∷ [])
CountFrom-append n [] e c h = (h ∙ ap some (omega arith), tt)
CountFrom-append n (d ∷ rows) e c h =
    (c.0, CountFrom-append (suc n) rows e c.1 (h ∙ ap some (omega arith)))

IsOnce-append :
    (rows : List DomainEvent) (e : DomainEvent)
    → IsOnce rows
    → exists_by_id rows e.event_id ≡ false
    → IsOnce (rows ++ e ∷ [])
unfolding exists_by_id
IsOnce-append [] e o h = (refl, tt)
IsOnce-append (d ∷ rows) e o h = (
  ground (
    arith,
    exists_by_id-append rows e d.event_id,
    eq_iff d.event_id e.event_id,
    eq_iff e.event_id d.event_id,
  ),
  IsOnce-append rows e o.1 (ground arith),
)

-- Appends keep the rows numbered 1, 2, 3, ... without a gap, and each event id in one row at most.
pub append-IsWellKept :
    (e : DomainEvent) (log : EventLog) → IsWellKept log → IsWellKept (append e log).0
unfolding append
append-IsWellKept e log w = elim (Bool-cases (exists_by_id log.rows e.event_id)) [
  | inl old ↦ rw (old, append) w
  | inr new ↦
      let e' = numbered e (some (suc (length log.rows))) in
      rw (new, append)
        (record {
          counted = CountFrom-append 0 log.rows e' w.counted (ap some (omega arith));
          once = IsOnce-append log.rows e' w.once new;
        })
]

exists_row-append :
    (f t : String) (rows : List DomainEvent) (e : DomainEvent)
    → exists_row f t (rows ++ e ∷ []) ≡ (
        if holds e.fire_id f
        then (if e.event_type == t then true else exists_row f t rows)
        else exists_row f t rows)
unfolding exists_row
exists_row-append f t [] e = ground arith
exists_row-append f t (d ∷ rows) e = ground (arith, exists_row-append f t rows e)

-- An append never makes `has_event` forget an event, and after the append of an event with a new id
-- `has_event` knows its fire and type.
pub has_event-append :
    (e : DomainEvent) (log : EventLog) (f t : String)
    → (has_event f t log ≡ true → has_event f t (append e log).0 ≡ true)
      × (has_event_id e.event_id log ≡ false
          → e.fire_id ≡ some f
          → has_event f e.event_type (append e log).0 ≡ true)
unfolding append has_event has_event_id
has_event-append e log f t = elim (Bool-cases (exists_by_id log.rows e.event_id)) [
  | inl old ↦ rw (old, append) (λ h. h, λ new about. ground arith)
  | inr new ↦
      let e' = numbered e (some (suc (length log.rows))) in
      rw (new, append)
        (
          λ h. ground (arith, exists_row-append f t log.rows e'),
          λ _ about. ground (
            arith,
            exists_row-append f e.event_type log.rows e',
            eq_refl f,
            eq_refl e.event_type,
          ),
        )
]
