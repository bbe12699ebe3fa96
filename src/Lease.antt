-- ===== src/Lease.antt =====
-- Commander_Repo/command_nodes/core_commander/commander_core.py: the leadership lease of CommanderCore.
-- The clock counts seconds. What is published, retained on the broker, stands in `published`, the
-- newest first. An iteration of _lease_renew_loop is a call of `renew`.
pub mod Standing
pub mod Terms
pub mod Failover
use wfc.Prelude.{
  ℕ, suc, ◌+◌, ◌-◌, max, Bool, true, false, String, Option, none, some, List, [], ◌∷◌, ◌==◌, leb,
  eqb, if◌then◌else◌,
}

-- a message on SYSTEM_LEASE, as JSON brings it: each key may be missing, and a term need not be an int
pub record LeaseMessage : Type 0 where
  pub owner : Option String
  pub term : Option ℕ
  pub since : Option ℕ

pub record Lease : Type 0 where
  pub node_id : String
  pub is_active : Bool
  pub lease_term : ℕ
  pub lease_owner : Option String
  pub lease_since : ℕ
  pub last_lease_seen_at : ℕ
  pub published : List LeaseMessage

-- the lease of CommanderCore.__init__
abbrev pub fresh_lease : String → Bool → Lease
fresh_lease node_id is_active = record {
  node_id = node_id;
  is_active = is_active;
  lease_term = 0;
  lease_owner = none;
  lease_since = 0;
  last_lease_seen_at = 0;
  published = [];
}

abbrev pub lease_ttl_seconds : ℕ
lease_ttl_seconds = 15

-- what _publish_lease sends
abbrev pub lease_message : Lease → LeaseMessage
lease_message l = record {
  owner = l.lease_owner;
  term = some l.lease_term;
  since = some l.lease_since;
}

abbrev pub publish_lease : Lease → Lease
publish_lease l = record l { published = lease_message l ∷ l.published }

-- `since or time.time()`
abbrev since_or : Option ℕ → ℕ → ℕ
since_or none now = now
since_or (some t) now = if eqb t 0 then now else t

abbrev pub observe : Option ℕ → LeaseMessage → ℕ → Lease → Lease
observe none m now l = l
observe (some term) m now l =
    let l' = record l { last_lease_seen_at = now } in
    if leb l.lease_term term
    then record l' { lease_term = term; lease_owner = m.owner; lease_since = since_or m.since now }
    else l'

-- _on_lease_message
unfoldable pub on_lease_message : LeaseMessage → ℕ → Lease → Lease
on_lease_message m now l = observe m.term m now l

-- the lease as its own node's, in a new term
abbrev pub own : ℕ → ℕ → Lease → Lease
own term now l = record l { lease_term = term; lease_owner = some l.node_id; lease_since = now }

abbrev claim_from : Option String → ℕ → Lease → Lease
claim_from none now l = publish_lease (own 1 now l)
claim_from (some owner) now l =
    if owner == l.node_id then publish_lease l else publish_lease (own (suc l.lease_term) now l)

-- _claim_or_reclaim_lease
unfoldable pub claim_or_reclaim_lease : ℕ → Lease → Lease
claim_or_reclaim_lease now l = claim_from l.lease_owner now l

-- _check_lease_and_maybe_promote
unfoldable pub check_lease_and_maybe_promote : ℕ → Lease → Bool
check_lease_and_maybe_promote now l =
    if eqb l.last_lease_seen_at 0 then true else leb lease_ttl_seconds (now - l.last_lease_seen_at)

unfoldable pub activate : ℕ → Lease → Lease
activate now l =
    if l.is_active
    then l
    else publish_lease (own (suc (max l.lease_term 1)) now (record l { is_active = true }))

-- the lease's part of `deactivate`
abbrev pub stand_by : Lease → Lease
stand_by l = record l { is_active = false }

-- one round of _lease_renew_loop, after its sleep
unfoldable pub renew : ℕ → Lease → Lease
renew now l = if l.is_active then publish_lease (record l { lease_since = now }) else l
