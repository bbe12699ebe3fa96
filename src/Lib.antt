-- ===== src/Lib.antt =====
-- The Wildfire Command System: the commander, its stores and the gate that its commands pass.
--
-- A commander keeps the state of every fire, mission and node in stores that are written through to
-- SQLite tables. Its rule engine turns the state of a fire into commands; a command that COMMAND_RISK
-- calls safe goes to the dispatcher at once, and any other is held until an operator decides. The
-- dispatcher registers a command with the tracker and publishes it; the tracker applies the events
-- that the nodes report. The heartbeat monitor tells the registry which nodes are alive, and the
-- event log records what happened, once per event, and the projector replays it into the stores. The
-- backup leaders of a swarm elect one of them by the bully algorithm. A node of the swarm takes a command
-- once and acknowledges it, and a leader turns it into commands to its drones.
--
-- Which file models which code (paths from the repository's root; a file's children hold its proofs):
--   Shared/Status, Shared/Commands   wfc_shared/wfc_shared/enums and schemas/commands.py: the states
--                                    with their transition tables, the commands and their risks
--   Fires, Fires/Sync                Commander_Repo/core/state/fire_state_store.py with
--                                    core/persistence/repositories/fire_state_repo.py
--   Missions, Missions/Sync          core/state/mission_store.py with repositories/mission_repo.py
--   Nodes, Nodes/Selection           core/node_registry/registry.py with repositories/node_repo.py
--   Heartbeat                        core/heartbeat/monitor.py
--   Tracker, Tracker/Restart         core/commands_monitor/command_tracker.py and lifecycle_rules.py
--                                    with repositories/command_repo.py
--   Events                           core/state/domain_event_log.py with repositories/domain_event_repo.py
--   Dispatch                         core/commands_monitor/command_dispatcher.py
--   Approval, Approval/Restart       core/approval/approval_gate.py, approval_handler.py and
--                                    pending_store.py with repositories/pending_repo.py
--   Rules                            core/rule_engine/rule.py, context.py and trigger.py
--   Rules/Staffing, Rules/Lifecycle, Rules/Telemetry, Rules/Preemption
--                                    core/rule_engine/rules: the fifteen rules
--   Engine                           core/rule_engine/engine.py with repositories/alert_repo.py
--   Projector                        core/state/projector.py
--   SwarmStatus, Bridge              core/state/swarm_status_store.py and
--                                    core/messaging/registry_bridge.py
--   Lease, Lease/Failover            the lease of command_nodes/core_commander/commander_core.py, and
--                                    two commanders with their broker
--   Commander                        the state of CommanderCore, of the same file
--   Commander/FireEvents, /Telemetry, /Acks, /Redispatch, /Sync, /Loops, /Routing
--                                    its handlers, the redispatch and the timeouts, the snapshots, the
--                                    snapshot loop, and handle_message
--   CommandNodes                     command_nodes/central/services/node_runtime.py and
--                                    command_nodes/backup/services/backup_commander.py
--   FieldNode                        Swarm_Repo/core/node/field_node.py
--   Drones                           Swarm_Repo/core/state/drone_registry.py
--   Tactics                          Swarm_Repo/core/tactics/fire_tactics.py, with the dispatch of
--                                    assignments of core/node/swarm_leader_node.py
--   SwarmLeader, SwarmLeader/Roll,   Swarm_Repo/core/node/swarm_leader_node.py; Monitor composes it
--   SwarmLeader/Monitor              with the Election, whose state the node shares
--   Election                         Swarm_Repo/core/election/election_state.py and
--                                    leader_election.py
--   Dict, Prelude                    Python's dict in order of insertion, lists, tests
--   Examples                         concrete runs, and each theorem at one
--
-- A store is a record, and a method is a function from the store to the new store and the result, with
-- the source's early returns as branches. A table is a dict of rows under the primary key, and a store
-- without a database has none. Calls in any order are a list of calls (Fires/Histories, Nodes/Calls,
-- Tracker/Runs, Heartbeat/Alternation, Election/Terms) or a step relation (Approval/Reach). A relation
-- that every step of RuleEngine.evaluate keeps is kept by all of it (Engine/Steps), and one that every
-- part of a commander's handlers keeps is kept by all of its calls (Commander/Law).
--
-- Conventions: a reading of the clock is a natural number and an argument; a call that reads the clock
-- more than once has one reading. Coordinates are pairs of natural numbers in a fixed unit, and
-- distances are compared by their squares. A random or name-based uuid is a value of the parameter
-- `Ids` (Dispatch). Log output is left out, and a rule that raises is one that does not trigger. A
-- payload is a dict of texts, numbers and coordinates. What is published is a list of messages. Loops
-- go over lists or dicts; the two that wait on the clock, the snapshot loop after `deactivate` and the
-- backup's decision on a takeover, run on fuel, of which 4 and 11 are proved to be enough. How a payload
-- is read, JSON and the validation by pydantic, is the parameter `Formats` (Commander/Routing); what a
-- subclass does with a command is the parameter `execute` (FieldNode); and the places of drones on a ring
-- around a fire, computed with angles in floating point, are the parameter `ring` (SwarmLeader).
--
-- Not modelled: MQTT, SQLite, threads and configuration, which are I/O; the simulation of the drones
-- in floating point; the message formats that pydantic validates; the summary of
-- telemetry and the rules of reassess, which compute means and angles in floating point; and, so far,
-- the loops of the swarm's leader that publish telemetry, the drones, and the dashboard.
pub mod Prelude
pub mod Dict
pub mod Shared
pub mod Tactics
pub mod Fires
pub mod Missions
pub mod Nodes
pub mod Heartbeat
pub mod Tracker
pub mod Events
pub mod Dispatch
pub mod Approval
pub mod Rules
pub mod Engine
pub mod Drones
pub mod Election
pub mod FieldNode
pub mod SwarmLeader
pub mod Lease
pub mod SwarmStatus
pub mod Bridge
pub mod Commander
pub mod CommandNodes
pub mod Projector
pub mod Examples
