-- ===== src/Approval.antt =====
-- Commander_Repo/core/approval/{approval_gate,approval_handler,pending_store}.py with the table of
-- core/persistence/repositories/pending_repo.py, whose rows are the records.
pub mod Decisions
pub mod Reach
pub mod Restart
pub mod Fresh
use Prim.Native.String.{◌++◌ as join}
use wfc.Prelude.{
  ℕ, suc, ◌+◌, Bool, true, false, ◌&&◌, not, String, Option, none, some, List, [], ◌∷◌, ◌++◌, ◌==◌,
  leb, or_else, if◌then◌else◌,
}
use wfc.Dict
use wfc.Dict.{Dict}
use wfc.Dict.Select.{select_keys, select_values}
use wfc.Shared.Status.{ApprovalStatus, pending, approved, rejected, expired, is_pending}
use wfc.Shared.Commands.{Command, Payload, text, payload_text}
use wfc.Events.{DomainEvent, EventLog, append}
use wfc.Dispatch.{
  Ids, Message, pending_message, approved_message, rejected_message, expired_message, Desk, send,
}

pub record PendingCommand : Type 0 where
  pub pending_id : String
  pub command : Command
  pub status : ApprovalStatus
  pub created_at : ℕ
  pub expires_at : Option ℕ
  pub decided_at : Option ℕ
  pub operator_id : Option String
  pub reason : Option String

-- PendingCommandStore, with the desk of its dispatcher and the event log that it writes
pub record Gate : Type 0 where
  pub desk : Desk
  pub ttl : Option ℕ
  pub store : Dict PendingCommand
  pub repo : Option (Dict PendingCommand)
  pub event_log : Option EventLog

-- `ON CONFLICT(pending_id) DO UPDATE` leaves `created_at` as it is
abbrev on_conflict : Option PendingCommand → PendingCommand → PendingCommand
on_conflict none row = row
on_conflict (some old) row = record row { created_at = old.created_at }

-- PendingRepository.upsert
abbrev persist : Option (Dict PendingCommand) → PendingCommand → Option (Dict PendingCommand)
persist none p = none
persist (some rows) p =
    some (Dict.put rows p.pending_id (on_conflict (Dict.get rows p.pending_id) p))

-- `self._store[id] = p`, the upsert, and the message about it
abbrev pub record_pending : String → PendingCommand → Message → Gate → Gate
record_pending id p message g = record g {
  store = Dict.put g.store id p;
  repo = persist g.repo p;
  desk = record g.desk { outbox = g.desk.outbox ++ message ∷ [] };
}

abbrev deadline : Option ℕ → ℕ → Option ℕ → Option ℕ
deadline (some ttl) created_at none = some (created_at + ttl)
deadline _ created_at expires_at = expires_at

-- PendingCommandStore.add
unfoldable pub add : PendingCommand → Gate → Gate
add p g =
    let p' = record p { expires_at = deadline g.ttl p.created_at p.expires_at } in
    record_pending p'.pending_id p'
      (pending_message p'.pending_id p'.command p'.created_at p'.expires_at) g

-- the reason of ESCALATION_APPROVED
abbrev approved_by : Option String → String
approved_by none = "approved_by_operator"
approved_by (some o) = if o == "" then "approved_by_operator" else join "approved_by_" o

abbrev domain_event : String → String → Command → String → Payload → ℕ → DomainEvent
domain_event event_id event_type command reason payload now = record {
  event_id = event_id;
  event_type = event_type;
  fire_id = payload_text command.payload "fire_id";
  node_id = none;
  reason = some reason;
  payload = payload;
  sequence = none;
  timestamp = now;
  source = "commander";
}

abbrev log_with : Option EventLog → DomainEvent → Option EventLog
log_with none e = none
log_with (some log) e = some (append e log).0

-- an event with a new id is written if there is a log
abbrev write_event : Ids → String → Command → String → Payload → ℕ → Gate → Gate
write_event ids event_type command reason payload now g = elim g.event_log [
  | none ↦ g
  | some log ↦ record g {
    event_log =
        some
          (append (domain_event (ids.uuid4 g.desk.drawn) event_type command reason payload now)
            log).0;
    desk = record g.desk { drawn = suc g.desk.drawn };
  }
]

abbrev operator_value : Option String → Payload
operator_value none = []
operator_value (some o) = ("operator_id", text o) ∷ []

-- The command is sent before the decision is saved.
abbrev do_approve : Ids → String → Option String → ℕ → PendingCommand → Gate → Gate
do_approve ids id operator_id now p g =
    let p' = record p { status = approved; decided_at = some now; operator_id = operator_id } in
    let (desk, trace_id) = send ids p.command now g.desk in
    let g₁ = record g { desk = desk; store = Dict.put g.store id p'; repo = persist g.repo p' } in
    let g₂ =
      write_event ids "ESCALATION_APPROVED" p.command (approved_by operator_id)
        (("pending_id", text id) ∷ ("trace_id", text trace_id) ∷ []) now g₁ in
    record g₂ {
      desk = record g₂.desk {
        outbox = g₂.desk.outbox ++ approved_message id trace_id operator_id now ∷ [];
      };
    }

unfoldable pub approve : Ids → String → Option String → ℕ → Gate → Gate
approve ids id operator_id now g = elim (Dict.get g.store id) [
  | none ↦ g
  | some p ↦ if is_pending p.status then do_approve ids id operator_id now p g else g
]

abbrev do_reject : Ids → String → String → Option String → ℕ → PendingCommand → Gate → Gate
do_reject ids id reason operator_id now p g =
    let p' = record p {
      status = rejected;
      decided_at = some now;
      operator_id = operator_id;
      reason = some reason;
    } in
    let g₁ = record g { store = Dict.put g.store id p'; repo = persist g.repo p' } in
    let g₂ =
      write_event ids "ESCALATION_REJECTED" p.command reason
        (("pending_id", text id) ∷ operator_value operator_id) now g₁ in
    record g₂ {
      desk = record g₂.desk {
        outbox = g₂.desk.outbox ++ rejected_message id reason operator_id now ∷ [];
      };
    }

unfoldable pub reject : Ids → String → String → Option String → ℕ → Gate → Gate
reject ids id reason operator_id now g = elim (Dict.get g.store id) [
  | none ↦ g
  | some p ↦ if is_pending p.status then do_reject ids id reason operator_id now p g else g
]

abbrev is_due : ℕ → Option ℕ → Bool
is_due now none = false
is_due now (some t) = leb t now

-- `p.status == PENDING and p.expires_at is not None and now >= p.expires_at`
abbrev pub is_stale : ℕ → PendingCommand → Bool
is_stale now p = is_pending p.status && is_due now p.expires_at

abbrev lapsed : PendingCommand → ℕ → PendingCommand
lapsed p now = record p { status = expired; decided_at = some now; reason = some "ttl_expired" }

abbrev expire_found : String → ℕ → Option PendingCommand → Gate → Gate
expire_found id now none g = g
expire_found id now (some p) g = record_pending id (lapsed p now) (expired_message id now) g

-- the loop of expire_stale
unfoldable pub expire_all : List String → ℕ → Gate → Gate
expire_all [] now g = g
expire_all (id ∷ ids) now g = expire_all ids now (expire_found id now (Dict.get g.store id) g)

unfoldable pub expire_stale : ℕ → Gate → Gate × List String
unfolding expire_all
expire_stale now g =
    let stale = select_keys (is_stale now) g.store in (expire_all stale now g, stale)

unfoldable pub get_all_pending : Gate → List PendingCommand
get_all_pending g = select_values (λ p. is_pending p.status) g.store

abbrev held : String → Command → ℕ → PendingCommand
held id command now = record {
  pending_id = id;
  command = command;
  status = pending;
  created_at = now;
  expires_at = none;
  decided_at = none;
  operator_id = none;
  reason = none;
}

-- ApprovalGate.submit
unfoldable pub submit : Ids → Command → Bool → ℕ → Gate → Gate × String
unfolding add
submit ids command requires_approval now g =
    if requires_approval
    then (let id = ids.uuid4 g.desk.drawn in
        (
          add (held id command now)
              (record g { desk = record g.desk { drawn = suc g.desk.drawn } }),
          id,
        ))
    else let (desk, trace_id) = send ids command now g.desk in (record g { desk = desk }, trace_id)

-- ApprovalHandler.handle: a response, of which each key may be missing
pub record Response : Type 0 where
  pub pending_id : Option String
  pub decision : Option String
  pub operator_id : Option String
  pub reason : Option String

abbrev decide : Ids → String → Option String → Response → ℕ → Gate → Gate
decide ids id none r now g = g
decide ids id (some decision) r now g =
    if decision == "APPROVED"
    then approve ids id r.operator_id now g
    else if decision == "REJECTED"
    then reject ids id (or_else r.reason "operator_rejected") r.operator_id now g
    else g

abbrev answer : Ids → Option String → Response → ℕ → Gate → Gate
answer ids none r now g = g
answer ids (some id) r now g = if id == "" then g else decide ids id r.decision r now g

unfoldable pub handle : Ids → Response → ℕ → Gate → Gate
unfolding approve reject
handle ids r now g = answer ids r.pending_id r now g
