-- ===== src/Heartbeat.antt =====
-- Commander_Repo/core/heartbeat/monitor.py: HeartbeatMonitor with its registry. The callbacks
-- on_node_failed and on_node_recovered are the events of `log`, the newest first; the thread of
-- `_loop` is a sequence of calls of `tick`.
pub mod Alternation
pub mod Ticks
use wfc.Prelude.{
  ℕ, ◌+◌, Bool, true, false, String, Option, none, some, List, [], ◌∷◌, ltb, contains, without,
  if◌then◌else◌,
}
use wfc.Dict
use wfc.Dict.{Dict}
use wfc.Nodes.{NodeRegistry, heartbeat, mark_dead}
use wfc.Nodes.Selection.{get_alive}

pub data MonitorEvent : Type 0 where
  node_failed : String → ℕ → MonitorEvent
  node_recovered : String → ℕ → MonitorEvent

pub record HeartbeatMonitor : Type 0 where
  pub timeout : ℕ
  pub registry : Option NodeRegistry
  pub last_seen : Dict ℕ
  pub dead_nodes : List String
  pub log : List MonitorEvent

abbrev beat : Option NodeRegistry → String → ℕ → Option NodeRegistry
beat none node_id now = none
beat (some r) node_id now = some (heartbeat node_id now r).0

abbrev bury : Option NodeRegistry → String → Option NodeRegistry
bury none node_id = none
bury (some r) node_id = some (mark_dead node_id r)

unfoldable pub update : String → ℕ → HeartbeatMonitor → HeartbeatMonitor
update node_id now m =
    let m' = record m {
      last_seen = Dict.put m.last_seen node_id now;
      registry = beat m.registry node_id now;
    } in
    if contains m.dead_nodes node_id
    then record m' {
      dead_nodes = without m.dead_nodes node_id;
      log = node_recovered node_id now ∷ m.log;
    }
    else m'

unfoldable pub declare_dead : String → ℕ → HeartbeatMonitor → HeartbeatMonitor
declare_dead node_id now m = if contains m.dead_nodes node_id then m else record m {
  dead_nodes = node_id ∷ m.dead_nodes;
  last_seen = Dict.pop m.last_seen node_id;
  registry = bury m.registry node_id;
  log = node_failed node_id now ∷ m.log;
}

-- the loop of `tick` over a copy of the items
unfoldable pub check_all : Dict ℕ → ℕ → HeartbeatMonitor → HeartbeatMonitor
unfolding declare_dead
check_all [] now m = m
check_all ((node_id, last) ∷ items) now m =
    check_all items now (if ltb (last + m.timeout) now then declare_dead node_id now m else m)

unfoldable pub tick : ℕ → HeartbeatMonitor → HeartbeatMonitor
unfolding check_all
tick now m = check_all m.last_seen now m

abbrev seeded : Dict ℕ → String → ℕ → Option ℕ → Dict ℕ
seeded last_seen node_id now none = Dict.put last_seen node_id now
seeded last_seen node_id now (some t) = last_seen

seed : List String → ℕ → Dict ℕ → Dict ℕ
seed [] now last_seen = last_seen
seed (node_id ∷ ids) now last_seen =
    seed ids now (seeded last_seen node_id now (Dict.get last_seen node_id))

abbrev alive_ids : Option NodeRegistry → List String
alive_ids none = []
alive_ids (some r) = get_alive r

-- `start`, without the thread
unfoldable pub start : ℕ → HeartbeatMonitor → HeartbeatMonitor
unfolding seed
start now m = record m { last_seen = seed (alive_ids m.registry) now m.last_seen }
