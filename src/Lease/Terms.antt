-- ===== src/Lease/Terms.antt =====
-- The terms of one commander's lease, over any calls.
use wfc.Prelude.{
  ℕ, suc, max, ◌≤◌, ◌<◌, ◌≡◌, refl, true, false, String, Option, none, some, List, [], ◌∷◌, head?,
  arith, inl, inr, Bool-cases, ◌==◌, leb,
}
use wfc.Lease.{
  LeaseMessage, Lease, own, publish_lease, observe, on_lease_message, claim_from,
  claim_or_reclaim_lease, activate, stand_by, renew,
}

pub data LeaseCall : Type 0 where
  message_call : LeaseMessage → ℕ → LeaseCall
  claim_call : ℕ → LeaseCall
  activate_call : ℕ → LeaseCall
  stand_by_call : LeaseCall
  renew_call : ℕ → LeaseCall

unfoldable pub call : LeaseCall → Lease → Lease
call (message_call m now) l = on_lease_message m now l
call (claim_call now) l = claim_or_reclaim_lease now l
call (activate_call now) l = activate now l
call stand_by_call l = stand_by l
call (renew_call now) l = renew now l

unfoldable pub run : List LeaseCall → Lease → Lease
unfolding call
run [] l = l
run (c ∷ cs) l = run cs (call c l)

-- without an owner on record there is no term on record
abbrev pub IsStarted : Lease → Type 0
IsStarted l = l.lease_owner ≡ none → l.lease_term ≡ 0

-- each message on the way names an owner
unfoldable pub AllNamed : List LeaseCall → Type 0
AllNamed [] = Unit {0}
AllNamed (message_call m now ∷ cs) = ((owner : String) × (m.owner ≡ some owner)) × AllNamed cs
AllNamed (_ ∷ cs) = AllNamed cs

-- what a call may do to the term
pub record IsLater (l l' : Lease) : Type 0 where
  pub term_le : l.lease_term ≤ l'.lease_term
  pub started : IsStarted l'

observe-IsLater :
    (o : Option ℕ) (m : LeaseMessage) (owner : String) (now : ℕ) (l : Lease)
    → m.owner ≡ some owner
    → IsStarted l
    → IsLater l (observe o m now l)
observe-IsLater none m owner now l n s = record { term_le = omega arith; started = s }
observe-IsLater (some term) m owner now l n s = elim (Bool-cases (leb l.lease_term term)) [
  | inl y ↦ rw y (record { term_le = ground arith; started = λ h. ground arith })
  | inr no_news ↦ rw no_news (record { term_le = omega arith; started = s })
]

claim_from-IsLater :
    (o : Option String) (now : ℕ) (l : Lease)
    → l.lease_owner ≡ o
    → IsStarted l
    → IsLater l (claim_from o now l)
claim_from-IsLater none now l e s = record {
  term_le = ground (arith, s e);
  started = λ h. ground arith;
}
claim_from-IsLater (some owner) now l e s = elim (Bool-cases (owner == l.node_id)) [
  | inl y ↦ rw y (record { term_le = omega arith; started = s })
  | inr other ↦ rw other (record { term_le = omega arith; started = λ h. ground arith })
]

pub claim-IsLater : (now : ℕ) (l : Lease) → IsStarted l → IsLater l (claim_or_reclaim_lease now l)
unfolding claim_or_reclaim_lease
claim-IsLater now l s = claim_from-IsLater l.lease_owner now l refl s

activate-IsLater : (now : ℕ) (l : Lease) → IsStarted l → IsLater l (activate now l)
unfolding activate
activate-IsLater now l s = elim (Bool-cases l.is_active) [
  | inl y ↦ rw y (record { term_le = omega arith; started = s })
  | inr idle ↦ rw idle (record { term_le = ground arith; started = λ h. ground arith })
]

renew-IsLater : (now : ℕ) (l : Lease) → IsStarted l → IsLater l (renew now l)
unfolding renew
renew-IsLater now l s = elim (Bool-cases l.is_active) [
  | inl y ↦ rw y (record { term_le = omega arith; started = s })
  | inr idle ↦ rw idle (record { term_le = omega arith; started = s })
]

call-IsLater : (c : LeaseCall) (l : Lease) → AllNamed (c ∷ []) → IsStarted l → IsLater l (call c l)
unfolding call AllNamed on_lease_message claim_or_reclaim_lease
call-IsLater (message_call m now) l ((owner, n), a) s = observe-IsLater m.term m owner now l n s
call-IsLater (claim_call now) l a s = claim_from-IsLater l.lease_owner now l refl s
call-IsLater (activate_call now) l a s = activate-IsLater now l s
call-IsLater stand_by_call l a s = record { term_le = omega arith; started = s }
call-IsLater (renew_call now) l a s = renew-IsLater now l s

split_named :
    (c : LeaseCall) (cs : List LeaseCall) → AllNamed (c ∷ cs) → AllNamed (c ∷ []) × AllNamed cs
unfolding AllNamed
split_named (message_call m now) cs (n, a) = ((n, tt), a)
split_named (claim_call now) cs a = (tt, a)
split_named (activate_call now) cs a = (tt, a)
split_named stand_by_call cs a = (tt, a)
split_named (renew_call now) cs a = (tt, a)

run-IsLater : (cs : List LeaseCall) (l : Lease) → AllNamed cs → IsStarted l → IsLater l (run cs l)
unfolding run
run-IsLater [] l a s = record { term_le = omega arith; started = s }
run-IsLater (c ∷ cs) l a s =
    let (n, rest) = split_named c cs a in
    let first = call-IsLater c l n s in
    let later = run-IsLater cs (call c l) rest first.started in
    record { term_le = omega (arith, first.term_le, later.term_le); started = later.started }

-- No call lowers the term of a commander that has no term without an owner, if every message that it
-- hears names an owner.
pub lease_term_grows :
    (cs : List LeaseCall) (l : Lease)
    → AllNamed cs
    → IsStarted l
    → l.lease_term ≤ (run cs l).lease_term
lease_term_grows cs l a s = (run-IsLater cs l a s).term_le

heard_term :
    (m : LeaseMessage) (t now : ℕ) (l : Lease)
    → m.term ≡ some t
    → t ≤ (on_lease_message m now l).lease_term
unfolding on_lease_message
heard_term m t now l e = elim (Bool-cases (leb l.lease_term t)) [
  | inl y ↦ rw (e, y) (omega arith)
  | inr n ↦ rw (e, n) (ground arith)
]

pub activated :
    (now : ℕ) (l : Lease)
    → l.is_active ≡ false
    → activate now l
      ≡ publish_lease (own (suc (max l.lease_term 1)) now (record l { is_active = true }))
unfolding activate
activated now l idle = rw (activate, idle) refl

-- A backup that takes over publishes, as its own, a term above every term that it has heard of, in
-- whatever order it heard them and whatever it did since, if the messages name owners.
pub takeover_outranks :
    (m : LeaseMessage) (t at now : ℕ) (cs : List LeaseCall) (l : Lease) (owner : String)
    → m.term ≡ some t
    → m.owner ≡ some owner
    → IsStarted l
    → AllNamed cs
    → (run cs (on_lease_message m at l)).is_active ≡ false
    → (term : ℕ) × (t < term)
      × ((activate now (run cs (on_lease_message m at l))).lease_term ≡ term)
      × (head? (activate now (run cs (on_lease_message m at l))).published
          ≡ some (record {
            owner = some (run cs (on_lease_message m at l)).node_id;
            term = some term;
            since = some now;
          }))
takeover_outranks m t at now cs l owner e n s a idle =
    let l' = on_lease_message m at l in
    let heard : IsLater l (on_lease_message m at l) =
      unfold on_lease_message in observe-IsLater m.term m owner at l n s in
    let grown = lease_term_grows cs l' a heard.started in
    let q = run cs l' in
    (
      suc (max q.lease_term 1),
      ground (arith, grown, heard_term m t at l e),
      rw (activated now q idle) refl,
      rw (activated now q idle) refl,
    )
