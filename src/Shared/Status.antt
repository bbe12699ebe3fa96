-- ===== src/Shared/Status.antt =====
-- wfc_shared/wfc_shared/enums/{fire_status,mission_status,node_status,approval,command_risk}.py:
-- the life-cycle states with their transition tables. A state is a text in the source; a text that
-- no table names is `unknown`.
use wfc.Prelude.{Bool, true, false, String}

pub data FireStatus : Type 0 where
  ignited active spreading contained suppressed extinguished : FireStatus
  unknown : String → FireStatus

-- `new in FIRE_TRANSITIONS.get(old, set())`
abbrev pub fire_allowed : FireStatus → FireStatus → Bool
fire_allowed ignited active = true
fire_allowed ignited suppressed = true
fire_allowed active spreading = true
fire_allowed active contained = true
fire_allowed active suppressed = true
fire_allowed spreading active = true
fire_allowed spreading contained = true
fire_allowed spreading suppressed = true
fire_allowed contained suppressed = true
fire_allowed contained active = true
fire_allowed contained spreading = true
fire_allowed suppressed extinguished = true
fire_allowed suppressed active = true
fire_allowed _ _ = false

-- `state in TERMINAL_FIRE_STATES`
abbrev pub is_terminal_fire : FireStatus → Bool
is_terminal_fire extinguished = true
is_terminal_fire _ = false

pub data MissionStatus : Type 0 where
  created assigned running reinforcing paused completed failed : MissionStatus
  unknown : String → MissionStatus

-- `new in MISSION_TRANSITIONS.get(old, set())`
abbrev pub mission_allowed : MissionStatus → MissionStatus → Bool
mission_allowed created assigned = true
mission_allowed created failed = true
mission_allowed assigned running = true
mission_allowed assigned paused = true
mission_allowed assigned failed = true
mission_allowed running paused = true
mission_allowed running reinforcing = true
mission_allowed running completed = true
mission_allowed running failed = true
mission_allowed reinforcing running = true
mission_allowed reinforcing paused = true
mission_allowed reinforcing completed = true
mission_allowed reinforcing failed = true
mission_allowed paused assigned = true
mission_allowed paused failed = true
mission_allowed _ _ = false

-- `state in TERMINAL_MISSION_STATES`
abbrev pub is_terminal_mission : MissionStatus → Bool
is_terminal_mission completed = true
is_terminal_mission failed = true
is_terminal_mission _ = false

pub data NodeStatus : Type 0 where
  unregistered registered active offline : NodeStatus

-- `status == ACTIVE`
abbrev pub is_active_node : NodeStatus → Bool
is_active_node active = true
is_active_node _ = false

pub data ApprovalStatus : Type 0 where
  pending approved rejected expired : ApprovalStatus

-- `status == PENDING`
abbrev pub is_pending : ApprovalStatus → Bool
is_pending pending = true
is_pending _ = false
