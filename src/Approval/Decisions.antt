-- ===== src/Approval/Decisions.antt =====
-- What each operation of the approval gate does to decided commands and to what is published.
use mathlib.Core.List.Memᴰ
use wfc.Prelude.{
  ℕ, ◌≡◌, ◌≢◌, refl, sym, true, false, String, Option, some, List, [], ◌∷◌, ◌++◌, arith, ◌==◌,
  eq_iff, inl, inr, Bool-cases, Option-cases, Memᴰ,
}
use wfc.Dict
use wfc.Dict.{Dict, get-put, get-put_self, IsUnique, put-IsUnique}
use wfc.Shared.Status.{approved, is_pending}
use wfc.Shared.Commands.{Command, Payload, command_risk, needs_approval}
use wfc.Tracker.{Envelope}
use wfc.Dispatch.{Ids, Message, command_message, Desk, send}
use wfc.Approval.{
  PendingCommand, Gate, record_pending, write_event, do_approve, approve, do_reject, reject,
}

-- `COMMAND_RISK` says that the command must be approved
abbrev pub IsRisky : Command → Type 0
IsRisky c = needs_approval (command_risk c.command_type) ≡ true

-- the store holds the command, approved
pub record IsApproved (store : Dict PendingCommand) (c : Command) : Type 0 where
  pub id : String
  pub entry : PendingCommand
  pub found : Dict.get store id ≡ some entry
  pub same : entry.command ≡ c
  pub decided : entry.status ≡ approved

-- a command was published before, or may be sent at once, or is approved
pub data Cleared (store : Dict PendingCommand) (before : List Message) (target : String)
    (e : Envelope) : Type 0 where
  earlier : Memᴰ (command_message target e) before → Cleared store before target e
  harmless : ¬ IsRisky e.command → Cleared store before target e
  with_approval : IsApproved store e.command → Cleared store before target e

-- decided entries stay as they are, and what is published anew is cleared
pub record IsOrderly (g g' : Gate) : Type 0 where
  pub final :
      (k : String) (p : PendingCommand)
      → Dict.get g.store k ≡ some p
      → is_pending p.status ≡ false
      → Dict.get g'.store k ≡ some p
  pub cleared :
      (target : String) (e : Envelope)
      → Memᴰ (command_message target e) g'.desk.outbox
      → Cleared g'.store g.desk.outbox target e
  pub unique : IsUnique g.store → IsUnique g'.store

pub IsOrderly-refl : (g : Gate) → IsOrderly g g
IsOrderly-refl g = record { final = λ k p h d. h; cleared = λ t e m. earlier m; unique = λ u. u }

-- one more message that is no command
not_command :
    {store : Dict PendingCommand} {before : List Message} {target : String} {e : Envelope}
    {m : Message}
    → (m ≢ command_message target e)
    → Memᴰ (command_message target e) (before ++ m ∷ [])
    → Cleared store before target e
not_command {before} ne h = elim (Memᴰ.append_cases before h) [
  | inl old ↦ earlier old
  | inr new ↦ absurd (ne (sym (Memᴰ.eq_of_singleton new)))
]

put_final :
    (store : Dict PendingCommand) (id : String) (q : PendingCommand)
    → ((p : PendingCommand) → Dict.get store id ≡ some p → is_pending p.status ≡ true)
    → (k : String) (p : PendingCommand) → Dict.get store k ≡ some p
    → is_pending p.status ≡ false
    → Dict.get (Dict.put store id q) k ≡ some p
put_final store id q open_at k p g d = elim (Bool-cases (id == k)) [
  | inl e ↦
      let at_id : Dict.get store id ≡ some p = rw ((eq_iff id k).0 e) g in
      ground (arith, open_at p at_id)
  | inr e ↦ ground (arith, get-put store id k q)
]

pub record_pending-IsOrderly :
    (id : String) (q : PendingCommand) (m : Message) (g : Gate)
    → ((p : PendingCommand) → Dict.get g.store id ≡ some p → is_pending p.status ≡ true)
    → ((target : String) (e : Envelope) → m ≢ command_message target e)
    → IsOrderly g (record_pending id q m g)
record_pending-IsOrderly id q m g open_at ne = record {
  final = put_final g.store id q open_at;
  cleared = λ t e h. not_command (ne t e) h;
  unique = put-IsUnique g.store id q;
}

-- a sent command, the last that is published
sent-Cleared :
    {store : Dict PendingCommand} (ids : Ids) (c : Command) (now : ℕ) (d : Desk) (target : String)
    (e : Envelope)
    → ((c ≡ e.command) → Cleared store d.outbox target e)
    → Memᴰ (command_message target e) (send ids c now d).0.outbox
    → Cleared store d.outbox target e
unfolding send
sent-Cleared ids c now d target e ok h = elim (Memᴰ.append_cases d.outbox h) [
  | inl old ↦ earlier old
  | inr new ↦ ok (sent_command (Memᴰ.eq_of_singleton new))
]
  where
    sent_command :
        {a b : String} {x y : Envelope}
        → command_message a x ≡ command_message b y
        → y.command ≡ x.command
    sent_command q = ground arith

-- the event log is not the queue, and no message is published for it
pub write_event_keeps :
    (ids : Ids) (t : String) (c : Command) (reason : String) (payload : Payload) (now : ℕ)
    (g : Gate)
    → ((write_event ids t c reason payload now g).store ≡ g.store)
      × ((write_event ids t c reason payload now g).desk.outbox ≡ g.desk.outbox)
write_event_keeps ids t c reason payload now g = elim (Option-cases g.event_log) [
  | inl e ↦ rw e (refl, refl)
  | inr (log, e) ↦ rw e (refl, refl)
]

-- a gate that took a decision on an open entry, wrote the event and published `m`
decided-IsOrderly :
    (ids : Ids) (t : String) (c : Command) (reason : String) (payload : Payload) (now : ℕ)
    (id : String) (q : PendingCommand) (m : Message) (g g₁ : Gate)
    → ((p : PendingCommand) → Dict.get g.store id ≡ some p → is_pending p.status ≡ true)
    → ((target : String) (e : Envelope) → m ≢ command_message target e)
    → g₁.store ≡ Dict.put g.store id q
    → ((target : String) (e : Envelope)
        → Memᴰ (command_message target e) g₁.desk.outbox
        → Cleared (Dict.put g.store id q) g.desk.outbox target e)
    → let g₂ = write_event ids t c reason payload now g₁ in
      IsOrderly g (record g₂ { desk = record g₂.desk { outbox = g₂.desk.outbox ++ m ∷ [] } })
decided-IsOrderly ids t c reason payload now id q m g g₁ open_at ne at_store ok = record {
  final = λ k p h d. rw (keeps.0, at_store) (put_final g.store id q open_at k p h d);
  cleared = λ target e h. rw (keeps.0, at_store) (published target e (rw keeps.1 at h));
  unique = λ u. rw (keeps.0, at_store) (put-IsUnique g.store id q u);
}
  where
    keeps :
        ((write_event ids t c reason payload now g₁).store ≡ g₁.store)
        × ((write_event ids t c reason payload now g₁).desk.outbox ≡ g₁.desk.outbox)
    keeps = write_event_keeps ids t c reason payload now g₁

    published :
        (target : String) (e : Envelope)
        → Memᴰ (command_message target e) (g₁.desk.outbox ++ m ∷ [])
        → Cleared (Dict.put g.store id q) g.desk.outbox target e
    published target e h = elim (Memᴰ.append_cases g₁.desk.outbox h) [
      | inl old ↦ ok target e old
      | inr new ↦ absurd (ne target e (sym (Memᴰ.eq_of_singleton new)))
    ]

-- what `send` publishes is the command, once, and it is cleared if the command is
pub sent :
    {store : Dict PendingCommand} (ids : Ids) (c : Command) (now : ℕ) (d : Desk)
    → ((e : Envelope) → (c ≡ e.command) → (target : String) → Cleared store d.outbox target e)
    → (target : String) (e : Envelope) → Memᴰ (command_message target e) (send ids c now d).0.outbox
    → Cleared store d.outbox target e
sent ids c now d ok target e h = sent-Cleared ids c now d target e (λ q. ok e q target) h

-- the entry found is open
found_open :
    (store : Dict PendingCommand) (id : String) {p : PendingCommand}
    → Dict.get store id ≡ some p
    → is_pending p.status ≡ true
    → (q : PendingCommand) → Dict.get store id ≡ some q
    → is_pending q.status ≡ true
found_open store id e y q f = ground arith

do_approve-IsOrderly :
    (ids : Ids) (id : String) (operator_id : Option String) (now : ℕ) (p : PendingCommand)
    (g : Gate)
    → Dict.get g.store id ≡ some p
    → is_pending p.status ≡ true
    → IsOrderly g (do_approve ids id operator_id now p g)
do_approve-IsOrderly ids id operator_id now p g e y =
    decided-IsOrderly ids _ p.command _ _ now id _ _ g _ (found_open g.store id e y) (λ t x q. cc)
      refl
      (sent ids p.command now g.desk (λ x q t. with_approval (record {
        id = id;
        entry = record p { status = approved; decided_at = some now; operator_id = operator_id };
        found = get-put_self g.store id _;
        same = q;
        decided = refl;
      })))

do_reject-IsOrderly :
    (ids : Ids) (id reason : String) (operator_id : Option String) (now : ℕ) (p : PendingCommand)
    (g : Gate)
    → Dict.get g.store id ≡ some p
    → is_pending p.status ≡ true
    → IsOrderly g (do_reject ids id reason operator_id now p g)
do_reject-IsOrderly ids id reason operator_id now p g e y =
    decided-IsOrderly ids _ p.command _ _ now id _ _ g _ (found_open g.store id e y) (λ t x q. cc)
      refl (λ t x h. earlier h)

pub approve-IsOrderly :
    (ids : Ids) (id : String) (operator_id : Option String) (now : ℕ) (g : Gate)
    → IsOrderly g (approve ids id operator_id now g)
unfolding approve
approve-IsOrderly ids id operator_id now g = elim (Option-cases (Dict.get g.store id)) [
  | inl e ↦ rw (e, approve) (IsOrderly-refl g)
  | inr (p, e) ↦ elim (Bool-cases (is_pending p.status)) [
    | inl y ↦ rw (e, approve, y) (do_approve-IsOrderly ids id operator_id now p g e y)
    | inr n ↦ rw (e, approve, n) (IsOrderly-refl g)
  ]
]

pub reject-IsOrderly :
    (ids : Ids) (id reason : String) (operator_id : Option String) (now : ℕ) (g : Gate)
    → IsOrderly g (reject ids id reason operator_id now g)
unfolding reject
reject-IsOrderly ids id reason operator_id now g = elim (Option-cases (Dict.get g.store id)) [
  | inl e ↦ rw (e, reject) (IsOrderly-refl g)
  | inr (p, e) ↦ elim (Bool-cases (is_pending p.status)) [
    | inl y ↦ rw (e, reject, y) (do_reject-IsOrderly ids id reason operator_id now p g e y)
    | inr n ↦ rw (e, reject, n) (IsOrderly-refl g)
  ]
]
