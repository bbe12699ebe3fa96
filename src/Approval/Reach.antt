-- ===== src/Approval/Reach.antt =====
-- The approval gate over any history of submissions, operators' answers and expiries.
use mathlib.Core.List.Memᴰ
use wfc.Prelude.{
  ℕ, ◌≡◌, true, false, String, Option, none, some, List, [], ◌∷◌, arith, ◌==◌, eq_iff, eq_refl, inl,
  inr, Bool-cases, Option-cases, Memᴰ, contains, contains→mem, IsDistinct,
}
use wfc.Dict
use wfc.Dict.{Dict, get-put, get-put_self, IsUnique, put-IsUnique}
use wfc.Dict.Select.{select_keys, select_keys_sound, select_keys-IsDistinct}
use wfc.Shared.Status.{is_pending}
use wfc.Shared.Commands.{Command, command_risk, needs_approval}
use wfc.Tracker.{Envelope}
use wfc.Dispatch.{Ids, command_message}
use wfc.Approval.{
  PendingCommand, Gate, Response, is_stale, lapsed, expire_found, expire_all, expire_stale, submit,
  handle, answer, decide,
}
use wfc.Dispatch.{pending_message}
use wfc.Approval.Decisions.{
  IsRisky, IsApproved, Cleared, earlier, harmless, with_approval, IsOrderly, IsOrderly-refl,
  record_pending-IsOrderly, sent, approve-IsOrderly, reject-IsOrderly,
}

-- an approved entry stays approved
keep_approval :
    {g g' : Gate} {c : Command} → IsOrderly g g' → IsApproved g.store c → IsApproved g'.store c
keep_approval o a = record {
  id = a.id;
  entry = a.entry;
  found = o.final a.id a.entry a.found (ground (arith, a.decided));
  same = a.same;
  decided = a.decided;
}

keep-Cleared :
    {g g' g'' : Gate} {target : String} {e : Envelope}
    → IsOrderly g g'
    → IsOrderly g' g''
    → Cleared g'.store g.desk.outbox target e
    → Cleared g''.store g.desk.outbox target e
keep-Cleared o o' (earlier m) = earlier m
keep-Cleared o o' (harmless n) = harmless n
keep-Cleared o o' (with_approval a) = with_approval (keep_approval o' a)

pub IsOrderly-trans : {g g' g'' : Gate} → IsOrderly g g' → IsOrderly g' g'' → IsOrderly g g''
IsOrderly-trans {g} {g'} {g''} o o' = record {
  final = λ k p h d. o'.final k p (o.final k p h d) d;
  cleared = λ target e h. twice target e (o'.cleared target e h);
  unique = λ u. o'.unique (o.unique u);
}
  where
    twice :
        (target : String) (e : Envelope)
        → Cleared g''.store g'.desk.outbox target e
        → Cleared g''.store g.desk.outbox target e
    twice target e (earlier m) = keep-Cleared o o' (o.cleared target e m)
    twice target e (harmless n) = harmless n
    twice target e (with_approval a) = with_approval a

-- how many ids were drawn does not matter
drawn_too :
    {g g' : Gate} {n : ℕ}
    → IsOrderly g g'
    → IsOrderly g (record g' { desk = record g'.desk { drawn = n } })
drawn_too o = record { final = o.final; cleared = o.cleared; unique = o.unique }

pub submit-IsOrderly :
    (ids : Ids) (c : Command) (now : ℕ) (g : Gate)
    → Dict.get g.store (ids.uuid4 g.desk.drawn) ≡ none
    → IsOrderly g (submit ids c (needs_approval (command_risk c.command_type)) now g).0
unfolding submit
submit-IsOrderly ids c now g fresh =
    elim (Bool-cases (needs_approval (command_risk c.command_type))) [
      | inl y ↦ rw y (
          drawn_too (
            record_pending-IsOrderly (ids.uuid4 g.desk.drawn) _ (pending_message _ _ _ _) g
              (λ p f. ground arith) (λ t x q. cc)))
      | inr n ↦ rw n (record {
        final = λ k p h d. h;
        cleared = sent ids c now g.desk (λ e q t. harmless (λ r. ground arith));
        unique = λ u. u;
      })
    ]

decide-IsOrderly :
    (ids : Ids) (id : String) (d : Option String) (r : Response) (now : ℕ) (g : Gate)
    → IsOrderly g (decide ids id d r now g)
decide-IsOrderly ids id none r now g = IsOrderly-refl g
decide-IsOrderly ids id (some d) r now g = elim (Bool-cases (d == "APPROVED")) [
  | inl y ↦ rw y (approve-IsOrderly ids id r.operator_id now g)
  | inr n ↦ elim (Bool-cases (d == "REJECTED")) [
    | inl y ↦ rw (n, y) (reject-IsOrderly ids id _ r.operator_id now g)
    | inr n' ↦ rw (n, n') (IsOrderly-refl g)
  ]
]

pub handle-IsOrderly :
    (ids : Ids) (r : Response) (now : ℕ) (g : Gate) → IsOrderly g (handle ids r now g)
unfolding handle
handle-IsOrderly ids r now g = go r.pending_id
  where
    go : (id : Option String) → IsOrderly g (answer ids id r now g)
    go none = IsOrderly-refl g
    go (some id) = elim (Bool-cases (id == "")) [
      | inl y ↦ rw y (IsOrderly-refl g)
      | inr n ↦ rw n (decide-IsOrderly ids id r.decision r now g)
    ]

-- of the listed entries, those that are there are open
abbrev AllOpen : List String → Gate → Type 0
AllOpen ids g =
    (n : String) (p : PendingCommand)
    → contains ids n ≡ true
    → Dict.get g.store n ≡ some p
    → is_pending p.status ≡ true

expire_found-IsOrderly :
    (id : String) (now : ℕ) (g : Gate)
    → ((p : PendingCommand) → Dict.get g.store id ≡ some p → is_pending p.status ≡ true)
    → IsOrderly g (expire_found id now (Dict.get g.store id) g)
expire_found-IsOrderly id now g open_at = elim (Option-cases (Dict.get g.store id)) [
  | inl e ↦ rw e (IsOrderly-refl g)
  | inr (p, e) ↦ rw e (record_pending-IsOrderly id _ _ g open_at (λ t x q. cc))
]

expire_found-AllOpen :
    (id : String) (ids : List String) (now : ℕ) (g : Gate)
    → contains ids id ≡ false
    → AllOpen ids g
    → AllOpen ids (expire_found id now (Dict.get g.store id) g)
expire_found-AllOpen id ids now g apart all_open = elim (Option-cases (Dict.get g.store id)) [
  | inl e ↦ rw e all_open
  | inr (p, e) ↦
      rw e (λ n q m f.
        ground (arith, all_open n q m, get-put g.store id n (lapsed p now), eq_iff id n))
]

expire_all-IsOrderly :
    (ids : List String) (now : ℕ) (g : Gate)
    → IsDistinct ids
    → AllOpen ids g
    → IsOrderly g (expire_all ids now g)
unfolding expire_all contains
expire_all-IsOrderly [] now g u all_open = IsOrderly-refl g
expire_all-IsOrderly (id ∷ ids) now g u all_open =
    IsOrderly-trans
      (expire_found-IsOrderly id now g (λ p f. all_open id p (ground (arith, eq_refl id)) f))
      (expire_all-IsOrderly ids now _ u.1
        (expire_found-AllOpen id ids now g u.0 (λ n p m f. all_open n p (ground arith) f)))

pub expire_stale-IsOrderly :
    (now : ℕ) (g : Gate) → IsUnique g.store → IsOrderly g (expire_stale now g).0
unfolding expire_stale
expire_stale-IsOrderly now g u =
    expire_all-IsOrderly (select_keys (is_stale now) g.store) now g
      (select_keys-IsDistinct _ g.store u)
      (λ n p m f.
        let (w, e, h) = select_keys_sound (is_stale now) g.store n u (contains→mem _ n m) in
        ground arith)

-- One step of the gate: a command submitted as the rule engine does it, with a pending id that is not
-- in use, an answer of the operator, or the periodic expiry.
pub data GateStep (ids : Ids) : Gate → Gate → Type 0 where
  submitted :
      (c : Command) (now : ℕ) (g : Gate)
      → Dict.get g.store (ids.uuid4 g.desk.drawn) ≡ none
      → GateStep ids g (submit ids c (needs_approval (command_risk c.command_type)) now g).0
  answered : (r : Response) (now : ℕ) (g : Gate) → GateStep ids g (handle ids r now g)
  expired_at : (now : ℕ) (g : Gate) → GateStep ids g (expire_stale now g).0

pub data GateSteps (ids : Ids) : Gate → Gate → Type 0 where
  done : (g : Gate) → GateSteps ids g g
  then_step : {g g' g'' : Gate} → GateSteps ids g g' → GateStep ids g' g'' → GateSteps ids g g''

step-IsOrderly : {ids : Ids} {g g' : Gate} → IsUnique g.store → GateStep ids g g' → IsOrderly g g'
step-IsOrderly {ids} u (submitted c now g fresh) = submit-IsOrderly ids c now g fresh
step-IsOrderly {ids} u (answered r now g) = handle-IsOrderly ids r now g
step-IsOrderly {ids} u (expired_at now g) = expire_stale-IsOrderly now g u

steps-IsOrderly : {ids : Ids} {g g' : Gate} → IsUnique g.store → GateSteps ids g g' → IsOrderly g g'
steps-IsOrderly u (done g) = IsOrderly-refl g
steps-IsOrderly u (then_step ss s) =
    let o = steps-IsOrderly u ss in IsOrderly-trans o (step-IsOrderly (o.unique u) s)

-- Over any sequence of submissions, answers and expiries from a gate whose store has each pending id
-- once: an entry that is approved, rejected or expired is never changed or removed.
pub decided_stays :
    {ids : Ids} {g g' : Gate} (id : String) (p : PendingCommand)
    → IsUnique g.store
    → GateSteps ids g g'
    → Dict.get g.store id ≡ some p
    → is_pending p.status ≡ false
    → Dict.get g'.store id ≡ some p
decided_stays id p u ss f d = (steps-IsOrderly u ss).final id p f d

-- with nothing published at first, a risky command is that of an approved entry
pub cleared_risk :
    {g g' : Gate} (target : String) (e : Envelope)
    → IsOrderly g g'
    → g.desk.outbox ≡ []
    → Memᴰ (command_message target e) g'.desk.outbox
    → IsRisky e.command
    → IsApproved g'.store e.command
cleared_risk {g} {g'} target e o empty m risky = judge (o.cleared target e m)
  where
    judge : Cleared g'.store g.desk.outbox target e → IsApproved g'.store e.command
    judge (earlier old) = absurd (Memᴰ.not-nil (rw empty at old))
    judge (harmless n) = absurd (n risky)
    judge (with_approval a) = a

-- Over any sequence of submissions, answers and expiries from a gate with an empty outbox, whose
-- store has each pending id once: a published command that COMMAND_RISK does not call safe is the
-- command of an entry of the store that is approved.
pub risky_needs_approval :
    {ids : Ids} {g g' : Gate} (target : String) (e : Envelope)
    → IsUnique g.store
    → GateSteps ids g g'
    → g.desk.outbox ≡ []
    → Memᴰ (command_message target e) g'.desk.outbox
    → IsRisky e.command
    → IsApproved g'.store e.command
risky_needs_approval target e u ss empty m risky =
    cleared_risk target e (steps-IsOrderly u ss) empty m risky
