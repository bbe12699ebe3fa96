-- ===== src/Commander/Safety.antt =====
-- The approval gate inside CommanderCore, under any calls of the commander.
use wfc.Prelude.{
  ℕ, ap, ◌∙◌, ◌≤◌, ◌≡◌, refl, Bool, true, false, String, Option, none, some, List, [], ◌∷◌, arith,
  inl, inr, Option-cases, is_none, if◌then◌else◌,
}
use wfc.Shared.Commands.{Payload}
use wfc.Dict
use wfc.Fires.{FireRecord}
use wfc.Rules.{RuleContext}
use wfc.Events.{DomainEvent, EventLog, append}
use wfc.Projector.{apply}
use wfc.Dispatch.{Ids}
use wfc.Approval.{Gate}
use wfc.Approval.Fresh.{Safe, Safe-trans, same-Safe, handle-Safe, expire_stale-Safe}
use wfc.Engine.Approved.{evaluate-Safe}
use wfc.Commander.{Commander, log_domain, engine, evaluate}
use wfc.Commander.Sync.{
  SnapshotMessage, absorb_into, absorb_event, with_log, projected, absorb_events, merge_fires,
  merge_missions, apply_snapshot,
}
use wfc.Commander.Law.{StepLaw}
use wfc.Commander.Law.Messages.{CallLaw}

-- the log of a gate changes, and how many ids were drawn
abbrev IsLogged : Gate → Gate → Type 0
IsLogged g g' =
    (g'.store ≡ g.store) × (g'.desk.outbox ≡ g.desk.outbox) × (g.desk.drawn ≤ g'.desk.drawn)

log_domain-IsLogged :
    (ids : Ids) (t : String) (f n r : Option String) (payload : Payload) (now : ℕ) (g : Gate)
    → IsLogged g (log_domain ids t f n r payload now g)
log_domain-IsLogged ids t f n r payload now g = elim (Option-cases g.event_log) [
  | inl e ↦ rw e (refl, refl, omega arith)
  | inr (log, e) ↦ rw e (refl, refl, omega arith)
]

-- the store of pending commands, the desk and the lease
abbrev pub SameDesk : Commander → Commander → Type 0
SameDesk c c' = (c'.gate.store ≡ c.gate.store) × (c'.gate.desk ≡ c.gate.desk) × (c'.lease ≡ c.lease)

absorb_into-SameDesk :
    (e : DomainEvent) (now : ℕ) (log : EventLog) (c : Commander)
    → SameDesk c (absorb_into e now log c)
unfolding append apply
absorb_into-SameDesk e now log c = go (is_none (append e log).1.sequence)
  where
    go :
        (b : Bool)
        → (let c' = with_log c (append e log).0 in
            SameDesk c (
              if b
              then c'
              else projected c'
                  (apply e now (record { fires = c'.fires; missions = c'.missions }))))
    go true = (refl, refl, refl)
    go false = (refl, refl, refl)

absorb_event-SameDesk :
    (e : DomainEvent) (now : ℕ) (o : Option EventLog) (c : Commander)
    → SameDesk c (absorb_event e now o c)
absorb_event-SameDesk e now none c = (refl, refl, refl)
absorb_event-SameDesk e now (some log) c = absorb_into-SameDesk e now log c

absorb_events-SameDesk :
    (es : List (Option DomainEvent)) (now : ℕ) (c : Commander) → SameDesk c (absorb_events es now c)
unfolding absorb_events
absorb_events-SameDesk [] now c = (refl, refl, refl)
absorb_events-SameDesk (none ∷ es) now c = absorb_events-SameDesk es now c
absorb_events-SameDesk (some e ∷ es) now c =
    let (p, q, l) = absorb_event-SameDesk e now c.gate.event_log c in
    let (p', q', l') = absorb_events-SameDesk es now (absorb_event e now c.gate.event_log c) in
    (p' ∙ p, q' ∙ q, l' ∙ l)

pub apply_snapshot-SameDesk :
    (m : SnapshotMessage) (now : ℕ) (c : Commander) → SameDesk c (apply_snapshot m now c)
unfolding apply_snapshot
apply_snapshot-SameDesk m now c = fires_first (merge_fires m.fires now c.fires)
  where
    then_missions :
        (c₁ : Commander) (r : wfc.Missions.MissionStore × Bool)
        → SameDesk c c₁
        → SameDesk c (
            let c₂ : Commander = record c₁ { missions = r.0 } in
            if r.1 then absorb_events m.events_delta now c₂ else c₂)
    then_missions c₁ (missions, false) same = same
    then_missions c₁ (missions, true) same =
        let c₂ : Commander = record c₁ { missions = missions } in
        let (p, q, l) = absorb_events-SameDesk m.events_delta now c₂ in
        let (p', q', l') = same in (p ∙ p', q ∙ q', l ∙ l')

    fires_first :
        (r : wfc.Fires.FireStateStore × Bool)
        → SameDesk c (
            let c₁ : Commander = record c { fires = r.0 } in
            if r.1
            then (let (missions, missions_ok) = merge_missions m.missions now c₁.missions in
                let c₂ : Commander = record c₁ { missions = missions } in
                if missions_ok then absorb_events m.events_delta now c₂ else c₂)
            else c₁)
    fires_first (fires, false) = (refl, refl, refl)
    fires_first (fires, true) =
        let c₁ : Commander = record c { fires = fires } in
        then_missions c₁ (merge_missions m.missions now c₁.missions) (refl, refl, refl)

module _ (ids : Ids) (different : (m n : ℕ) → ids.uuid4 m ≡ ids.uuid4 n → m ≡ n) where
  stays_Safe : (g g' : Gate) → g' ≡ g → Safe ids g g'
  stays_Safe g g' e =
      same-Safe ids g g' (ap (λ x. x.store) e) (ap (λ x. x.desk.outbox) e)
        (omega (arith, ap (λ x. x.desk.drawn) e))

  evaluated-Safe :
      (fire : FireRecord) (context : Option RuleContext) (now : ℕ) (c : Commander)
      → Safe ids c.gate (evaluate ids fire context now c).gate
  unfolding evaluate wfc.Engine.evaluate
  evaluated-Safe fire context now c = evaluate-Safe ids different fire context now (engine c)

  abbrev safe_step : StepLaw ids
  safe_step = record {
    R = λ c c'. Safe ids c.gate c'.gate;
    on_rest = λ c c' p q. stays_Safe c.gate c'.gate q;
    chain = λ a b c p q. Safe-trans ids a.gate b.gate c.gate p q;
    on_evaluate = evaluated-Safe;
    on_log = λ t f n r payload now c.
        let (p, q, le) = log_domain-IsLogged ids t f n r payload now c.gate in
        same-Safe ids c.gate _ p q le;
    on_fires = λ cs c. same-Safe ids c.gate c.gate refl refl (omega arith);
    on_upsert = λ f c. same-Safe ids c.gate c.gate refl refl (omega arith);
    on_draw = λ c. same-Safe ids c.gate _ refl refl (omega arith);
    on_track = λ trace_id t payload c. same-Safe ids c.gate _ refl refl (omega arith);
  }

  abbrev safe_call : CallLaw ids
  safe_call = record {
    steps = safe_step;
    on_answer = λ r now c. handle-Safe ids r now c.gate;
    on_expire = λ now c. expire_stale-Safe ids now c.gate;
  }
