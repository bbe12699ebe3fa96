-- ===== src/Lease/Failover/Belief.antt =====
-- A commander that has heard what the broker retains.
use wfc.Prelude.{
  ℕ, ◌≤◌, ◌≡◌, refl, sym, ◌∙◌, Bool, true, false, String, Option, none, some, arith, leb,
  if◌then◌else◌, or_else,
}
use wfc.Lease.Terms.{IsStarted}
use wfc.Lease.{LeaseMessage, observe, since_or, Lease, fresh_lease, on_lease_message}
use wfc.Lease.Failover.{Pair, broadcast, hear_retained}

-- a commander believes what the broker retains
abbrev pub Believes : Option LeaseMessage → Lease → Type 0
Believes none l = (l.lease_owner ≡ none) × (l.lease_term ≡ 0)
Believes (some m) l =
    (owner : String) × (m.owner ≡ some owner)
    × (l.lease_owner ≡ some owner)
    × (m.term ≡ some l.lease_term)

pub record IsAgreed (s : Pair) : Type 0 where
  pub central_believes : Believes s.retained s.central
  pub backup_believes : Believes s.retained s.backup
  pub idle : s.retained ≡ none → (s.central.is_active ≡ false) × (s.backup.is_active ≡ false)

-- the term that a retained message gives
abbrev term_of : Option LeaseMessage → ℕ
term_of none = 0
term_of (some m) = or_else m.term 0

pub believed_term : (o : Option LeaseMessage) (l : Lease) → Believes o l → l.lease_term ≡ term_of o
believed_term none l (_, z) = z
believed_term (some m) l (_, _, _, t) = rw t refl

pub same_terms : (s : Pair) → IsAgreed s → s.central.lease_term ≡ s.backup.lease_term
same_terms s a =
    believed_term s.retained s.central a.central_believes
    ∙ sym (believed_term s.retained s.backup a.backup_believes)

pub Believes-IsStarted : (o : Option LeaseMessage) (l : Lease) → Believes o l → IsStarted l
Believes-IsStarted none l (_, z) h = z
Believes-IsStarted (some m) l (owner, _, e, _) h = ground arith

-- hearing a message of a term that is not older
pub heard-Believes :
    (m : LeaseMessage) (t now : ℕ) (owner : String) (l : Lease)
    → m.owner ≡ some owner
    → m.term ≡ some t
    → l.lease_term ≤ t
    → Believes (some m) (on_lease_message m now l)
unfolding on_lease_message
heard-Believes m t now owner l o e le =
    let newer : leb l.lease_term t ≡ true = ground arith in
    (owner, o, rw (on_lease_message, e, newer) o, rw (on_lease_message, e, newer) refl)

-- a message that names an owner and is not older than what both have heard brings both to believe it
pub broadcast-IsAgreed :
    (m : LeaseMessage) (t now : ℕ) (owner : String) (s : Pair)
    → m.owner ≡ some owner
    → m.term ≡ some t
    → s.central.lease_term ≤ t
    → s.backup.lease_term ≤ t
    → IsAgreed (broadcast (some m) now s)
broadcast-IsAgreed m t now owner s o e c b = record {
  central_believes = heard-Believes m t now owner s.central o e c;
  backup_believes = heard-Believes m t now owner s.backup o e b;
  idle = λ h. cc;
}

pub hear_retained-Believes :
    (o : Option LeaseMessage) (now : ℕ) (node_id : String) (is_active : Bool) (l : Lease)
    → Believes o l
    → Believes o (hear_retained o now (fresh_lease node_id is_active))
hear_retained-Believes none now node_id is_active l b = (refl, refl)
hear_retained-Believes (some m) now node_id is_active l (owner, n, _, t) =
    heard-Believes m l.lease_term now owner (fresh_lease node_id is_active) n t (omega arith)

pub believed_owner :
    (o : Option LeaseMessage) (l l' : Lease)
    → Believes o l
    → Believes o l'
    → l.lease_owner ≡ l'.lease_owner
believed_owner none l l' (p, _) (q, _) = p ∙ sym q
believed_owner (some m) l l' (owner, n, p, _) (owner', n', q, _) = ground arith

pub observed :
    (o : Option ℕ) (m : LeaseMessage) (now : ℕ) (l : Lease)
    → ((observe o m now l).is_active ≡ l.is_active) × ((observe o m now l).node_id ≡ l.node_id)
observed none m now l = (refl, refl)
observed (some t) m now l = go (leb l.lease_term t)
  where
    heard : Lease
    heard = record l { last_lease_seen_at = now }

    go :
        (b : Bool)
        → (let r =
              if b
              then record heard {
                lease_term = t;
                lease_owner = m.owner;
                lease_since = since_or m.since now;
              }
              else heard in
            (r.is_active ≡ l.is_active) × (r.node_id ≡ l.node_id))
    go true = (refl, refl)
    go false = (refl, refl)
