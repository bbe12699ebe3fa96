-- ===== src/Events.antt =====
-- Commander_Repo/core/state/domain_event_log.py with the table of
-- core/persistence/repositories/domain_event_repo.py, which is append-only. The number of a row is
-- its place, from 1.
pub mod Log
use wfc.Prelude.{
  ℕ, zero, suc, ◌+◌, ◌-◌, Bool, true, false, ◌&&◌, String, Option, none, some, List, [], ◌∷◌, ◌++◌,
  ◌==◌, ltb, holds, length, if◌then◌else◌,
}
use wfc.Shared.Commands.{Payload}

pub record DomainEvent : Type 0 where
  pub event_id : String
  pub event_type : String
  pub fire_id : Option String
  pub node_id : Option String
  pub reason : Option String
  pub payload : Payload
  pub sequence : Option ℕ
  pub timestamp : ℕ
  pub source : String

-- the rows in the order of their numbers
pub record EventLog : Type 0 where
  pub rows : List DomainEvent

abbrev pub empty_log : EventLog
empty_log = record { rows = [] }

-- exists_by_id
unfoldable pub exists_by_id : List DomainEvent → String → Bool
exists_by_id [] event_id = false
exists_by_id (e ∷ rows) event_id =
    let rest = exists_by_id rows event_id in if e.event_id == event_id then true else rest

-- `SELECT id FROM domain_events WHERE event_id = ?`
unfoldable pub sequence_of : List DomainEvent → String → Option ℕ
sequence_of [] event_id = none
sequence_of (e ∷ rows) event_id =
    let rest = sequence_of rows event_id in if e.event_id == event_id then e.sequence else rest

abbrev pub numbered : DomainEvent → Option ℕ → DomainEvent
numbered e n = record e { sequence = n }

-- DomainEventRepository.insert: INSERT OR IGNORE
unfoldable pub append : DomainEvent → EventLog → EventLog × DomainEvent
append e log =
    if exists_by_id log.rows e.event_id
    then (log, numbered e (sequence_of log.rows e.event_id))
    else let e' = numbered e (some (suc (length log.rows))) in
      (record { rows = log.rows ++ e' ∷ [] }, e')

abbrev pub is_about : String → DomainEvent → Bool
is_about fire_id e = holds e.fire_id fire_id

-- the rows that pass, in their order
unfoldable pub where_rows : (DomainEvent → Bool) → List DomainEvent → List DomainEvent
where_rows p [] = []
where_rows p (e ∷ rows) = let rest = where_rows p rows in if p e then e ∷ rest else rest

unfoldable pub get_for_fire : String → EventLog → List DomainEvent
unfolding where_rows
get_for_fire fire_id log = where_rows (is_about fire_id) log.rows

unfoldable pub last_row : List DomainEvent → Option DomainEvent
last_row [] = none
last_row (e ∷ []) = some e
last_row (e ∷ d ∷ rows) = last_row (d ∷ rows)

-- `event_type` is None or empty: any type
abbrev of_type : Option String → DomainEvent → Bool
of_type none e = true
of_type (some t) e = if t == "" then true else e.event_type == t

-- get_last_for_fire
unfoldable pub get_last_for_fire : String → Option String → EventLog → Option DomainEvent
unfolding where_rows last_row
get_last_for_fire fire_id event_type log =
    last_row (where_rows (λ e. is_about fire_id e && of_type event_type e) log.rows)

-- the rows of `exists`
unfoldable pub exists_row : String → String → List DomainEvent → Bool
exists_row fire_id event_type [] = false
exists_row fire_id event_type (e ∷ rows) =
    let rest = exists_row fire_id event_type rows in
    if is_about fire_id e && e.event_type == event_type then true else rest

unfoldable pub has_event : String → String → EventLog → Bool
unfolding exists_row
has_event fire_id event_type log = exists_row fire_id event_type log.rows

unfoldable pub has_event_id : String → EventLog → Bool
has_event_id event_id log = exists_by_id log.rows event_id

-- the rows after the first `n`
abbrev drop_rows : ℕ → List DomainEvent → List DomainEvent
drop_rows zero rows = rows
drop_rows (suc n) [] = []
drop_rows (suc n) (e ∷ rows) = drop_rows n rows

unfoldable pub get_recent : ℕ → EventLog → List DomainEvent
get_recent limit log = drop_rows (length log.rows - limit) log.rows

unfoldable pub get_since : ℕ → EventLog → List DomainEvent
unfolding where_rows
get_since since log = where_rows (λ e. ltb since e.timestamp) log.rows
