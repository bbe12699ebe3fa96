-- ===== src/CommandNodes.antt =====
-- Commander_Repo/command_nodes/central/services/node_runtime.py and
-- command_nodes/backup/services/backup_commander.py, with _announce_node_status of core/node/base_node.py:
-- the two nodes that own a CommanderCore. A node's registry is its core's, and its alerts are rows of the
-- table that the core's alerts are kept in.
pub mod Takeover
use Prim.Native.String.{◌++◌ as join}
use wfc.Prelude.{
  ℕ, suc, zero, ◌+◌, Bool, true, false, ◌&&◌, not, String, Option, none, some, List, [], ◌∷◌, ◌==◌,
  leb, contains, or_else, if◌then◌else◌,
}
use wfc.Nodes
use wfc.Nodes.{NodeRecord}
use wfc.Dispatch.{Ids}
use wfc.Engine.{Alert, add_alert}
use wfc.Lease.{Lease, check_lease_and_maybe_promote}
use wfc.Bridge.{NodeAnnouncement}
use wfc.Commander.{Commander}
use wfc.Commander.Acks.{job_of}
use wfc.Commander.Redispatch.{lose_leader}
use wfc.Commander.Sync.{activate, deactivate}

-- CentralNode or BackupCommander; what it announced and which failovers it published, the newest first;
-- `has_alerts` is whether `_node_alerts` is set
pub record CommandNode : Type 0 where
  pub core : Commander
  pub announced : List NodeAnnouncement
  pub failovers : List (String × ℕ)
  pub primary_alive : Bool
  pub has_alerts : Bool

abbrev announcement : NodeRecord → String → NodeAnnouncement
announcement rec status = record {
  node_id = rec.node_id;
  node_type = rec.node_type;
  capabilities = rec.capabilities;
  status = status;
  zone = rec.zone;
  location = rec.location;
}

abbrev announce_found : Option NodeRecord → String → CommandNode → CommandNode
announce_found none status n = n
announce_found (some rec) status n = record n { announced = announcement rec status ∷ n.announced }

-- _announce_node_status
unfoldable pub announce_node_status : String → String → CommandNode → CommandNode
announce_node_status node_id status n = announce_found (Nodes.get n.core.registry node_id) status n

abbrev alert_down : String → String → ℕ → CommandNode → CommandNode
alert_down node_id severity now n =
    if n.has_alerts
    then record n {
      core = record n.core {
        alerts =
            add_alert (join "node_down:" node_id)
              (record {
                kind = "NODE_DOWN";
                severity = severity;
                source_ref = some node_id;
                created_at = now;
              })
              n.core.alerts;
      };
    }
    else n

-- the fire that a node leads, if it is a swarm leader with a job
abbrev led_fire : Option NodeRecord → Option String
led_fire none = none
led_fire (some rec) = if contains rec.capabilities "SWARM_LEAD" then job_of (some rec) else none

abbrev lose : Ids → String → Option String → ℕ → CommandNode → CommandNode
lose ids node_id none now n = n
lose ids node_id (some fire_id) now n = record n {
  core = lose_leader ids node_id fire_id now n.core;
}

-- the record is read before the node is announced
abbrev central_lost : Ids → String → ℕ → CommandNode → CommandNode
central_lost ids node_id now n =
    lose ids node_id (led_fire (Nodes.get n.core.registry node_id)) now
      (alert_down node_id "WARNING" now (announce_node_status node_id "OFFLINE" n))

-- CentralNode._on_node_failed, with the payload's node_id
unfoldable pub central_node_failed : Ids → Option String → ℕ → CommandNode → CommandNode
unfolding lose_leader announce_node_status
central_node_failed ids none now n = n
central_node_failed ids (some node_id) now n =
    if node_id == "" then n else central_lost ids node_id now n

-- CentralNode._on_node_recovered
unfoldable pub central_node_recovered : Option String → CommandNode → CommandNode
unfolding announce_node_status
central_node_recovered none n = n
central_node_recovered (some node_id) n =
    if node_id == "" then n else announce_node_status node_id "ONLINE" n

-- `rec is not None and rec.node_type == PRIMARY_NODE_TYPE`
abbrev pub is_primary : Option NodeRecord → Bool
is_primary none = false
is_primary (some rec) = rec.node_type == "CENTRAL_COMMANDER"

abbrev primary_lost : String → ℕ → CommandNode → CommandNode
primary_lost node_id now n =
    alert_down node_id "CRITICAL" now
      (announce_node_status node_id "OFFLINE" (record n { primary_alive = false }))

-- BackupCommander._on_node_failed, up to the thread that it starts for the primary, which is `become_active`;
-- and whether it starts one
unfoldable pub backup_node_failed : Ids → Option String → ℕ → CommandNode → CommandNode × Bool
unfolding lose_leader announce_node_status
backup_node_failed ids payload now n =
    let node_id = or_else payload "" in
    let rec = Nodes.get n.core.registry node_id in
    if is_primary rec
    then (primary_lost node_id now n, true)
    else (if n.core.lease.is_active then lose ids node_id (led_fire rec) now n else n, false)

-- _stand_down
abbrev stand_down : ℕ → CommandNode → CommandNode
stand_down now n = record n { core = deactivate now n.core }

-- BackupCommander._on_node_recovered
unfoldable pub backup_node_recovered : Option String → ℕ → CommandNode → CommandNode
unfolding announce_node_status deactivate
backup_node_recovered payload now n =
    let node_id = or_else payload "" in
    if is_primary (Nodes.get n.core.registry node_id)
    then (let n' = announce_node_status node_id "ONLINE" (record n { primary_alive = true }) in
        if n'.core.lease.is_active then stand_down now n' else n')
    else n

abbrev pub lease_confirm_max_wait_seconds : ℕ
lease_confirm_max_wait_seconds = 10

-- how the loop of _become_active came out, `polling` if it is still to go on
pub data Promotion : Type 0 where
  promoted aborted polling : Promotion

-- what the loop sees after so many seconds: the lease, and whether the primary is alive
pub record Outlook : Type 0 where
  pub lease : ℕ → Lease
  pub alive : ℕ → Bool

-- the loop of _become_active, which began at `start` and has waited so many seconds
unfoldable pub confirm : ℕ → Outlook → ℕ → ℕ → Promotion
unfolding check_lease_and_maybe_promote
confirm zero o start waited = polling
confirm (suc fuel) o start waited =
    let rest = confirm fuel o start (suc waited) in
    if check_lease_and_maybe_promote (start + waited) (o.lease waited)
    then promoted
    else if leb lease_confirm_max_wait_seconds waited
    then promoted
    else if o.alive (suc waited)
    then aborted
    else rest

-- what _become_active does once its loop has come out
unfoldable pub become_active : Promotion → ℕ → CommandNode → CommandNode
unfolding activate
become_active promoted now n = record n {
  core = activate now n.core;
  failovers = (n.core.lease.node_id, now) ∷ n.failovers;
}
become_active _ now n = n
