-- ===== src/Lease/Failover/Agreement.antt =====
-- What the two commanders believe of the lease.
use mathlib.Core.Path.{subst}
use wfc.Prelude.{
  ℕ, suc, max, ◌≤◌, ◌≡◌, refl, sym, ◌∙◌, ap, Bool, true, false, String, Option, none, some, arith,
  inl, inr, Bool-cases, ◌==◌, eq_iff, head?, if◌then◌else◌,
}
use wfc.Lease.Terms.{IsStarted, claim-IsLater, activated}
use wfc.Lease.{
  LeaseMessage, Lease, fresh_lease, lease_message, own, publish_lease, claim_from,
  claim_or_reclaim_lease, activate, stand_by, renew,
}
use wfc.Lease.Failover.{
  Pair, broadcast, hear_retained, start_central, start_backup, promote_backup, demote_backup,
  renew_central, renew_backup, FailoverStep, central_starts, backup_starts, backup_promoted,
  backup_demoted, central_renews, backup_renews, FailoverSteps, done, then_step,
}
use wfc.Lease.Failover.Belief.{
  believed_term, Believes-IsStarted, broadcast-IsAgreed, hear_retained-Believes, believed_owner,
  Believes, same_terms, IsAgreed,
}

-- what a claim publishes, and that it names an owner
claimed :
    (now : ℕ) (l : Lease)
    → (head? (claim_or_reclaim_lease now l).published
        ≡ some (lease_message (claim_or_reclaim_lease now l)))
      × ((claim_or_reclaim_lease now l).lease_owner ≡ some l.node_id)
unfolding claim_or_reclaim_lease
claimed now l = go l.lease_owner refl
  where
    go :
        (o : Option String)
        → l.lease_owner ≡ o
        → (head? (claim_from o now l).published ≡ some (lease_message (claim_from o now l)))
          × ((claim_from o now l).lease_owner ≡ some l.node_id)
    go none e = (refl, refl)
    go (some owner) e = elim (Bool-cases (owner == l.node_id)) [
      | inl y ↦ rw y (refl, e ∙ ap some ((eq_iff owner l.node_id).0 y))
      | inr n ↦ rw n (refl, refl)
    ]

claim-IsAgreed :
    (now : ℕ) (l : Lease) (s : Pair)
    → IsStarted l
    → s.backup.lease_term ≤ l.lease_term
    → (let l' = claim_or_reclaim_lease now l in
        IsAgreed (broadcast (head? l'.published) now (record s { central = l' })))
claim-IsAgreed now l s st le =
    let l' = claim_or_reclaim_lease now l in
    let (p, o) = claimed now l in
    let later = claim-IsLater now l st in
    rw p (
      broadcast-IsAgreed (lease_message l') l'.lease_term now l.node_id (record s { central = l' })
        o refl (omega arith) (omega (arith, later.term_le, le)))

start_central-IsAgreed : (now : ℕ) (s : Pair) → IsAgreed s → IsAgreed (start_central now s)
start_central-IsAgreed now s a =
    let l = hear_retained s.retained now (fresh_lease s.central.node_id true) in
    let b =
      hear_retained-Believes s.retained now s.central.node_id true s.central a.central_believes in
    claim-IsAgreed now l s (Believes-IsStarted s.retained l b) (
      omega
        (arith, believed_term s.retained l b, believed_term s.retained s.backup a.backup_believes))

start_backup-IsAgreed : (now : ℕ) (s : Pair) → IsAgreed s → IsAgreed (start_backup now s)
start_backup-IsAgreed now s a = record {
  central_believes = a.central_believes;
  backup_believes =
      hear_retained-Believes s.retained now s.backup.node_id false s.backup a.backup_believes;
  idle = λ h. ((a.idle h).0, go s.retained h);
}
  where
    go :
        (o : Option LeaseMessage)
        → o ≡ none
        → (hear_retained o now (fresh_lease s.backup.node_id false)).is_active ≡ false
    go none h = refl
    go (some m) h = cc

-- both branches of a test
either-IsAgreed :
    (b : Bool) (x y : Pair)
    → (b ≡ true → IsAgreed x)
    → (b ≡ false → IsAgreed y)
    → IsAgreed (if b then x else y)
either-IsAgreed true x y one other = one refl
either-IsAgreed false x y one other = other refl

abbrev with_backup : ℕ → Pair → Lease → Pair
with_backup now s l = broadcast (head? l.published) now (record s { backup = l })

abbrev with_central : ℕ → Pair → Lease → Pair
with_central now s l = broadcast (head? l.published) now (record s { central = l })

promote_backup-IsAgreed : (now : ℕ) (s : Pair) → IsAgreed s → IsAgreed (promote_backup now s)
promote_backup-IsAgreed now s a =
    either-IsAgreed s.backup.is_active s (with_backup now s (activate now s.backup)) (λ h. a)
      (λ idle.
        let t = suc (max s.backup.lease_term 1) in
        let l = publish_lease (own t now (record s.backup { is_active = true })) in
        subst (λ q. IsAgreed (with_backup now s q)) (sym (activated now s.backup idle))
          (broadcast-IsAgreed (lease_message l) t now s.backup.node_id (record s { backup = l })
            refl refl (ground (arith, same_terms s a)) (omega arith)))

demote_backup-IsAgreed : (s : Pair) → IsAgreed s → IsAgreed (demote_backup s)
demote_backup-IsAgreed s a = record {
  central_believes = a.central_believes;
  backup_believes = kept s.retained a.backup_believes;
  idle = λ h. ((a.idle h).0, refl);
}
  where
    kept : (o : Option LeaseMessage) → Believes o s.backup → Believes o (stand_by s.backup)
    kept none b = b
    kept (some m) b = b

-- a commander that is active believes in an owner
owner_known :
    (s : Pair) (l : Lease)
    → (s.retained ≡ none → l.is_active ≡ false)
    → Believes s.retained l
    → l.is_active ≡ true
    → (owner : String) × (l.lease_owner ≡ some owner)
owner_known s l idle b act = go s.retained idle b
  where
    go :
        (o : Option LeaseMessage)
        → (o ≡ none → l.is_active ≡ false)
        → Believes o l
        → (owner : String) × (l.lease_owner ≡ some owner)
    go none i b = let no_one = i refl in cc
    go (some m) i (owner, _, e, _) = (owner, e)

pub renewed :
    (now : ℕ) (l : Lease)
    → l.is_active ≡ true
    → renew now l ≡ publish_lease (record l { lease_since = now })
unfolding renew
renewed now l act = go l.is_active act
  where
    go :
        (b : Bool)
        → b ≡ true
        → (if b then publish_lease (record l { lease_since = now }) else l)
          ≡ publish_lease (record l { lease_since = now })
    go true e = refl
    go false e = cc

renew_central-IsAgreed : (now : ℕ) (s : Pair) → IsAgreed s → IsAgreed (renew_central now s)
renew_central-IsAgreed now s a =
    either-IsAgreed s.central.is_active (with_central now s (renew now s.central)) s
      (λ act.
        let (owner, e) = owner_known s s.central (λ h. (a.idle h).0) a.central_believes act in
        let l = publish_lease (record s.central { lease_since = now }) in
        subst (λ q. IsAgreed (with_central now s q)) (sym (renewed now s.central act))
          (broadcast-IsAgreed (lease_message l) s.central.lease_term now owner
            (record s { central = l }) e refl (omega arith) (omega (arith, same_terms s a))))
      (λ h. a)

renew_backup-IsAgreed : (now : ℕ) (s : Pair) → IsAgreed s → IsAgreed (renew_backup now s)
renew_backup-IsAgreed now s a =
    either-IsAgreed s.backup.is_active (with_backup now s (renew now s.backup)) s
      (λ act.
        let (owner, e) = owner_known s s.backup (λ h. (a.idle h).1) a.backup_believes act in
        let l = publish_lease (record s.backup { lease_since = now }) in
        subst (λ q. IsAgreed (with_backup now s q)) (sym (renewed now s.backup act))
          (broadcast-IsAgreed (lease_message l) s.backup.lease_term now owner
            (record s { backup = l }) e refl (omega (arith, same_terms s a)) (omega arith)))
      (λ h. a)

step-IsAgreed : {s s' : Pair} → FailoverStep s s' → IsAgreed s → IsAgreed s'
step-IsAgreed (central_starts now s) a = start_central-IsAgreed now s a
step-IsAgreed (backup_starts now s) a = start_backup-IsAgreed now s a
step-IsAgreed (backup_promoted now s) a = promote_backup-IsAgreed now s a
step-IsAgreed (backup_demoted s) a = demote_backup-IsAgreed s a
step-IsAgreed (central_renews now s) a = renew_central-IsAgreed now s a
step-IsAgreed (backup_renews now s) a = renew_backup-IsAgreed now s a

steps-IsAgreed : {s s' : Pair} → FailoverSteps s s' → IsAgreed s → IsAgreed s'
steps-IsAgreed (done s) a = a
steps-IsAgreed (then_step ss t) a = step-IsAgreed t (steps-IsAgreed ss a)

-- If a published lease reaches both commanders at once, then over any starts, takeovers, demotions
-- and renewals, from two commanders that agree, the central and the backup have the same owner and the
-- same term on record.
pub commanders_agree :
    {s s' : Pair}
    → IsAgreed s
    → FailoverSteps s s'
    → (s'.central.lease_owner ≡ s'.backup.lease_owner)
      × (s'.central.lease_term ≡ s'.backup.lease_term)
commanders_agree {s} {s'} a ss =
    let a' = steps-IsAgreed ss a in
    (
      believed_owner s'.retained s'.central s'.backup a'.central_believes a'.backup_believes,
      same_terms s' a',
    )
