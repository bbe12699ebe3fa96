-- ===== src/Lease/Standing.antt =====
-- Who is active changes only by `activate` and `deactivate`.
use wfc.Prelude.{
  ℕ, suc, ◌≡◌, refl, Bool, true, false, String, Option, none, some, ◌==◌, leb, if◌then◌else◌,
}
use wfc.Lease.{
  LeaseMessage, Lease, publish_lease, since_or, observe, on_lease_message, own, claim_from,
  claim_or_reclaim_lease, renew,
}

pub on_lease_message-is_active :
    (m : LeaseMessage) (now : ℕ) (l : Lease) → (on_lease_message m now l).is_active ≡ l.is_active
unfolding on_lease_message
on_lease_message-is_active m now l = go m.term
  where
    go : (o : Option ℕ) → (observe o m now l).is_active ≡ l.is_active
    go none = refl
    go (some term) = pick (leb l.lease_term term)
      where
        pick :
            (b : Bool)
            → (let l' : Lease = record l { last_lease_seen_at = now } in
                (if b
                  then record l' {
                    lease_term = term;
                    lease_owner = m.owner;
                    lease_since = since_or m.since now;
                  }
                  else l').is_active
                ≡ l.is_active)
        pick true = refl
        pick false = refl

pub claim-is_active : (now : ℕ) (l : Lease) → (claim_or_reclaim_lease now l).is_active ≡ l.is_active
unfolding claim_or_reclaim_lease
claim-is_active now l = go l.lease_owner
  where
    go : (o : Option String) → (claim_from o now l).is_active ≡ l.is_active
    go none = refl
    go (some owner) = pick (owner == l.node_id)
      where
        pick :
            (b : Bool)
            → (if b
                then publish_lease l
                else publish_lease (own (suc l.lease_term) now l)).is_active
              ≡ l.is_active
        pick true = refl
        pick false = refl

pub renew-is_active : (now : ℕ) (l : Lease) → (renew now l).is_active ≡ l.is_active
unfolding renew
renew-is_active now l = go l.is_active
  where
    go :
        (b : Bool)
        → (if b then publish_lease (record l { lease_since = now }) else l).is_active ≡ l.is_active
    go true = refl
    go false = refl
