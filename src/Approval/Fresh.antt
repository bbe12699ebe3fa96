-- ===== src/Approval/Fresh.antt =====
-- The pending ids that the gate has not drawn yet are not in use.
use wfc.Prelude.{
  ℕ, ◌≤◌, ◌≡◌, ◌∙◌, refl, true, false, Bool, String, Option, none, some, List, [], ◌∷◌, ◌++◌, arith,
  ◌==◌, eq_iff, inl, inr, Bool-cases, Option-cases,
}
use wfc.Dict
use wfc.Dict.{Dict, get-put, IsUnique}
use wfc.Dict.Select.{select_keys}
use wfc.Shared.Status.{is_pending}
use wfc.Shared.Commands.{Command, Payload, payload_text, command_risk, needs_approval}
use wfc.Dispatch.{Ids, Message, Desk, send, named_fire, trace_of}
use wfc.Approval.{
  PendingCommand, Gate, Response, is_stale, write_event, approve, reject, expire_found, expire_all,
  expire_stale, add, submit, handle, answer, decide,
}
use wfc.Approval.Decisions.{IsOrderly, earlier, write_event_keeps}
use wfc.Approval.Reach.{submit-IsOrderly, handle-IsOrderly, expire_stale-IsOrderly, IsOrderly-trans}

-- no id is new in the store, and no uuid is undrawn
pub record IsStill (g g' : Gate) : Type 0 where
  pub drawn_le : g.desk.drawn ≤ g'.desk.drawn
  pub absent : (k : String) → Dict.get g.store k ≡ none → Dict.get g'.store k ≡ none

pub IsStill-same : (g g' : Gate) → g.desk.drawn ≤ g'.desk.drawn → g'.store ≡ g.store → IsStill g g'
IsStill-same g g' le e = record { drawn_le = le; absent = λ k h. rw e h }

write_event-drawn :
    (ids : Ids) (t : String) (c : Command) (reason : String) (payload : Payload) (now : ℕ)
    (g : Gate)
    → g.desk.drawn ≤ (write_event ids t c reason payload now g).desk.drawn
write_event-drawn ids t c reason payload now g = elim (Option-cases g.event_log) [
  | inl e ↦ rw e (omega arith)
  | inr (log, e) ↦ rw e (omega arith)
]

trace_of-drawn : (ids : Ids) (c : Command) (n : ℕ) (o : Option String) → n ≤ (trace_of ids c n o).1
trace_of-drawn ids c n none = omega arith
trace_of-drawn ids c n (some f) = omega arith

pub send-drawn :
    (ids : Ids) (c : Command) (now : ℕ) (d : Desk) → d.drawn ≤ (send ids c now d).0.drawn
unfolding send
send-drawn ids c now d =
    trace_of-drawn ids c d.drawn (named_fire c.command_type (payload_text c.payload "fire_id"))

-- an entry that is there takes another's place
put_absent :
    (store : Dict PendingCommand) (id : String) (p q : PendingCommand)
    → Dict.get store id ≡ some p
    → (k : String) → Dict.get store k ≡ none
    → Dict.get (Dict.put store id q) k ≡ none
put_absent store id p q e k h = ground (arith, get-put store id k q, eq_iff id k)

decided-IsStill :
    (ids : Ids) (t : String) (c : Command) (reason : String) (payload : Payload) (now : ℕ)
    (id : String) (p q : PendingCommand) (m : Message) (g g₁ : Gate)
    → Dict.get g.store id ≡ some p
    → g.desk.drawn ≤ g₁.desk.drawn
    → g₁.store ≡ Dict.put g.store id q
    → let g₂ = write_event ids t c reason payload now g₁ in
      IsStill g (record g₂ { desk = record g₂.desk { outbox = g₂.desk.outbox ++ m ∷ [] } })
decided-IsStill ids t c reason payload now id p q m g g₁ e le at_store = record {
  drawn_le = omega (arith, le, write_event-drawn ids t c reason payload now g₁);
  absent = λ k h.
      rw ((write_event_keeps ids t c reason payload now g₁).0, at_store)
        (put_absent g.store id p q e k h);
}

IsStill-refl : (g : Gate) → IsStill g g
IsStill-refl g = IsStill-same g g (omega arith) refl

approve-IsStill :
    (ids : Ids) (id : String) (o : Option String) (now : ℕ) (g : Gate)
    → IsStill g (approve ids id o now g)
unfolding approve
approve-IsStill ids id o now g = elim (Option-cases (Dict.get g.store id)) [
  | inl e ↦ rw (e, approve) (IsStill-refl g)
  | inr (p, e) ↦ elim (Bool-cases (is_pending p.status)) [
    | inl y ↦
        rw (e, approve, y)
          (decided-IsStill ids _ p.command _ _ now id p _ _ g _ e
            (send-drawn ids p.command now g.desk) refl)
    | inr n ↦ rw (e, approve, n) (IsStill-refl g)
  ]
]

reject-IsStill :
    (ids : Ids) (id reason : String) (o : Option String) (now : ℕ) (g : Gate)
    → IsStill g (reject ids id reason o now g)
unfolding reject
reject-IsStill ids id reason o now g = elim (Option-cases (Dict.get g.store id)) [
  | inl e ↦ rw (e, reject) (IsStill-refl g)
  | inr (p, e) ↦ elim (Bool-cases (is_pending p.status)) [
    | inl y ↦
        rw (e, reject, y)
          (decided-IsStill ids _ p.command _ _ now id p _ _ g _ e (omega arith) refl)
    | inr n ↦ rw (e, reject, n) (IsStill-refl g)
  ]
]

decide-IsStill :
    (ids : Ids) (id : String) (d : Option String) (r : Response) (now : ℕ) (g : Gate)
    → IsStill g (decide ids id d r now g)
decide-IsStill ids id none r now g = IsStill-refl g
decide-IsStill ids id (some d) r now g = elim (Bool-cases (d == "APPROVED")) [
  | inl y ↦ rw y (approve-IsStill ids id r.operator_id now g)
  | inr n ↦ elim (Bool-cases (d == "REJECTED")) [
    | inl y ↦ rw (n, y) (reject-IsStill ids id _ r.operator_id now g)
    | inr n' ↦ rw (n, n') (IsStill-refl g)
  ]
]

handle-IsStill : (ids : Ids) (r : Response) (now : ℕ) (g : Gate) → IsStill g (handle ids r now g)
unfolding handle
handle-IsStill ids r now g = go r.pending_id
  where
    go : (id : Option String) → IsStill g (answer ids id r now g)
    go none = IsStill-refl g
    go (some id) = elim (Bool-cases (id == "")) [
      | inl y ↦ rw y (IsStill-refl g)
      | inr n ↦ rw n (decide-IsStill ids id r.decision r now g)
    ]

expire_found-IsStill :
    (id : String) (now : ℕ) (g : Gate) → IsStill g (expire_found id now (Dict.get g.store id) g)
expire_found-IsStill id now g = elim (Option-cases (Dict.get g.store id)) [
  | inl e ↦ rw e (IsStill-refl g)
  | inr (p, e) ↦ rw e (record { drawn_le = omega arith; absent = put_absent g.store id p _ e })
]

expire_all-IsStill : (ids : List String) (now : ℕ) (g : Gate) → IsStill g (expire_all ids now g)
unfolding expire_all
expire_all-IsStill [] now g = IsStill-refl g
expire_all-IsStill (id ∷ ids) now g =
    let one = expire_found-IsStill id now g in
    let rest = expire_all-IsStill ids now (expire_found id now (Dict.get g.store id) g) in
    record {
      drawn_le = omega (arith, one.drawn_le, rest.drawn_le);
      absent = λ k h. rest.absent k (one.absent k h);
    }

-- each pending id stands once, and none of those to come is in use
pub record IsGood (ids : Ids) (g : Gate) : Type 0 where
  pub unique : IsUnique g.store
  pub fresh : (n : ℕ) → g.desk.drawn ≤ n → Dict.get g.store (ids.uuid4 n) ≡ none

-- from a good gate, an orderly step to a good one
abbrev pub Safe : Ids → Gate → Gate → Type 0
Safe ids g g' = IsGood ids g → IsOrderly g g' × IsGood ids g'

module _ (ids : Ids) where
  pub Safe-trans : (g g' g'' : Gate) → Safe ids g g' → Safe ids g' g'' → Safe ids g g''
  Safe-trans g g' g'' s s' good =
      let (o, good') = s good in let (o', good'') = s' good' in (IsOrderly-trans o o', good'')

  both_ways :
      (g g' : Gate) → IsOrderly g g' → IsStill g g' → IsGood ids g → IsOrderly g g' × IsGood ids g'
  both_ways g g' o still good = (
    o,
    record {
      unique = o.unique good.unique;
      fresh = λ n le. still.absent (ids.uuid4 n) (good.fresh n (omega (arith, still.drawn_le, le)));
    },
  )

  -- nothing is published, and the store stays
  pub same-Safe :
      (g g' : Gate)
      → g'.store ≡ g.store
      → g'.desk.outbox ≡ g.desk.outbox
      → g.desk.drawn ≤ g'.desk.drawn
      → Safe ids g g'
  same-Safe g g' e f le =
      both_ways g g'
        (record {
          final = λ k p h d. rw e h;
          cleared = λ t x m. earlier (rw f at m);
          unique = λ u. rw e u;
        })
        (IsStill-same g g' le e)

  pub handle-Safe : (r : Response) (now : ℕ) (g : Gate) → Safe ids g (handle ids r now g)
  handle-Safe r now g = both_ways g _ (handle-IsOrderly ids r now g) (handle-IsStill ids r now g)

  pub expire_stale-Safe : (now : ℕ) (g : Gate) → Safe ids g (expire_stale now g).0
  unfolding expire_stale
  expire_stale-Safe now g good =
      both_ways g _ (expire_stale-IsOrderly now g good.unique)
        (expire_all-IsStill (select_keys (is_stale now) g.store) now g) good

  -- with uuids that differ, a submission is safe
  module _ (different : (m n : ℕ) → ids.uuid4 m ≡ ids.uuid4 n → m ≡ n) where
    submit_fresh :
        (c : Command) (b : Bool) (now : ℕ) (g : Gate)
        → IsGood ids g
        → (n : ℕ) → (submit ids c b now g).0.desk.drawn ≤ n
        → Dict.get (submit ids c b now g).0.store (ids.uuid4 n) ≡ none
    unfolding submit add
    submit_fresh c false now g good n le =
        good.fresh n (omega (arith, send-drawn ids c now g.desk, le))
    submit_fresh c true now g good n le =
        elim (Bool-cases (ids.uuid4 g.desk.drawn == ids.uuid4 n)) [
          | inl y ↦
              let same =
                different g.desk.drawn n ((eq_iff (ids.uuid4 g.desk.drawn) (ids.uuid4 n)).0 y) in
              absurd (omega (arith, same, le))
          | inr other ↦
              let old = good.fresh n (omega (arith, le)) in
              get-put g.store (ids.uuid4 g.desk.drawn) (ids.uuid4 n) _ ∙ rw other old
        ]

    pub submit-Safe :
        (c : Command) (now : ℕ) (g : Gate)
        → Safe ids g (submit ids c (needs_approval (command_risk c.command_type)) now g).0
    submit-Safe c now g good =
        let o = submit-IsOrderly ids c now g (good.fresh g.desk.drawn (omega arith)) in
        (
          o,
          record {
            unique = o.unique good.unique;
            fresh = submit_fresh c (needs_approval (command_risk c.command_type)) now g good;
          },
        )
