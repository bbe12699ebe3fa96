-- ===== src/Lease/Failover/Deposed.antt =====
-- A central commander that was only slow, after its backup took over.
use mathlib.Core.Path.{subst}
use wfc.Prelude.{
  ℕ, suc, max, ◌≡◌, refl, sym, ◌∙◌, ap, Bool, true, false, String, Option, some, arith, head?,
  if◌then◌else◌,
}
use wfc.Lease.Terms.{activated}
use wfc.Lease.{Lease, lease_message, own, publish_lease, on_lease_message, activate, renew}
use wfc.Lease.Failover.{Pair, broadcast, promote_backup}
use wfc.Lease.Failover.Agreement.{renewed}
use wfc.Lease.Failover.Belief.{IsAgreed, heard-Believes, same_terms, observed}

-- the backup's own lease after it took over
abbrev taken : ℕ → Lease → Lease
taken now l = publish_lease (own (suc (max l.lease_term 1)) now (record l { is_active = true }))

abbrev after_takeover : ℕ → Pair → Pair
after_takeover now s =
    let l = taken now s.backup in broadcast (some (lease_message l)) now (record s { backup = l })

unless_active : (b : Bool) (x y : Pair) → b ≡ false → (if b then x else y) ≡ y
unless_active true x y e = cc
unless_active false x y e = refl

promoted :
    (now : ℕ) (s : Pair) → s.backup.is_active ≡ false → promote_backup now s ≡ after_takeover now s
promoted now s idle =
    unless_active s.backup.is_active s
      (broadcast (head? (activate now s.backup).published) now
        (record s { backup = activate now s.backup }))
      idle
    ∙ ap (λ l. broadcast (head? l.published) now (record s { backup = l }))
        (activated now s.backup idle)

-- what the active commanders of a pair say and do
abbrev pub BothCommand : ℕ → String → Pair → Type 0
BothCommand later backup s =
    (s.central.is_active ≡ true)
    × (s.backup.is_active ≡ true)
    × ((t : ℕ) × (head? (renew later s.central).published
          ≡ some (record { owner = some backup; term = some t; since = some later })))

taken_over :
    (now later : ℕ) (s : Pair)
    → IsAgreed s
    → s.central.is_active ≡ true
    → BothCommand later s.backup.node_id (after_takeover now s)
unfolding on_lease_message
taken_over now later s a act =
    let l = taken now s.backup in
    let m = lease_message l in
    let c = on_lease_message m now s.central in
    let on : c.is_active ≡ true = (observed m.term m now s.central).0 ∙ act in
    let (owner, o, e, t) =
      heard-Believes m l.lease_term now s.backup.node_id s.central refl refl
        (ground (arith, same_terms s a)) in
    (
      on,
      (observed m.term m now l).0,
      (
        c.lease_term,
        ap (λ q. head? q.published) (renewed later c on)
            ∙ ap
                (λ (w : Option String).
                  some (record { owner = w; term = some c.lease_term; since = some later }))
                (e ∙ sym o),
      ),
    )

-- A takeover, by an idle backup, from a central that is active and agreed: the central goes on being
-- active beside the backup, and renews the lease with the backup as its owner.
pub deposed_stays_active :
    (now later : ℕ) (s : Pair)
    → IsAgreed s
    → s.central.is_active ≡ true
    → s.backup.is_active ≡ false
    → BothCommand later s.backup.node_id (promote_backup now s)
deposed_stays_active now later s a act idle =
    subst (BothCommand later s.backup.node_id) (sym (promoted now s idle))
      (taken_over now later s a act)
