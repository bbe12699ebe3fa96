-- ===== src/Shared/Commands.antt =====
-- wfc_shared/wfc_shared/schemas/commands.py, enums/command_types.py and enums/command_risk.py. A
-- payload is a dict of the values that the code puts into one. Coordinates are pairs of floats in
-- the source, and here pairs of whole numbers in a fixed unit, counted from the south-west corner.
use wfc.Prelude.{ℕ, Bool, true, false, String, Option, none, some, List}
use wfc.Dict
use wfc.Dict.{Dict}

abbrev pub Coord : Type 0
Coord = ℕ × ℕ

pub data Value : Type 0 where
  text : String → Value
  number : ℕ → Value
  coords : Option Coord → Value
  texts : List String → Value

abbrev pub Payload : Type 0
Payload = Dict Value

pub data CommandType : Type 0 where
  respond_to_fire contain_fire stand_down reinforce_fire abort_mission reassign_leader : CommandType
  confirm_leadership dispatch_drone recall_drone update_task escalate_fire : CommandType

pub data CommandRisk : Type 0 where
  safe disruptive irreversible : CommandRisk

-- COMMAND_RISK.get(command_type, SAFE)
abbrev pub command_risk : CommandType → CommandRisk
command_risk escalate_fire = irreversible
command_risk abort_mission = irreversible
command_risk _ = safe

-- `risk != SAFE`
abbrev pub needs_approval : CommandRisk → Bool
needs_approval safe = false
needs_approval _ = true

pub record Command : Type 0 where
  pub command_id : String
  pub target_node : String
  pub command_type : CommandType
  pub payload : Payload
  pub timestamp : ℕ

abbrev as_text : Option Value → Option String
as_text (some (text s)) = some s
as_text _ = none

-- payload.get(key), where the value is a text
unfoldable pub payload_text : Payload → String → Option String
payload_text p key = as_text (Dict.get p key)

abbrev as_number : Option Value → Option ℕ
as_number (some (number n)) = some n
as_number _ = none

-- payload.get(key), where the value is a whole number
unfoldable pub payload_number : Payload → String → Option ℕ
payload_number p key = as_number (Dict.get p key)
