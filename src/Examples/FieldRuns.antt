-- ===== src/Examples/FieldRuns.antt =====
-- Runs of FieldNode.
use wfc.Prelude.{
  ℕ, zero, suc, refl, Bool, true, false, String, some, none, List, [], ◌∷◌, IsDistinct, contains,
}
use wfc.Dict
use wfc.Shared.Commands.{Payload, respond_to_fire}
use wfc.Tracker.{Envelope, CommandTracker, issued, issued_note, executed}
use wfc.FieldNode.{CommandMessage, FieldNode, handle_commands}
use wfc.FieldNode.Once.{recorded, executed_once}
use wfc.FieldNode.Delivery.{redeliver, acks_complete}
use wfc.FieldNode.Tracked.{IsIn, deliver}

-- a node that counts the commands it takes, and raises at every other one
abbrev count_up : String → Payload → String → ℕ → ℕ × Bool
count_up command_type payload trace_id zero = (1, true)
count_up command_type payload trace_id (suc n) = (0, false)

abbrev respond : CommandMessage
respond = record { trace_id = some "t1"; command_type = some "RESPOND_TO_FIRE"; payload = [] }

abbrev pub new_node : {S : Type 0} → S → FieldNode S
new_node s = record { node_id = "n1"; state = s; handled_trace_ids = []; acks = [] }

abbrev delivered : List (CommandMessage × ℕ)
delivered = (respond, 1) ∷ (record respond { trace_id = some "t2" }, 2) ∷ (respond, 3) ∷ []

executed_once_example :
    IsDistinct (handle_commands (recorded count_up) delivered (new_node (0, []))).state.1
executed_once_example = executed_once count_up delivered (new_node (0, [])) refl

abbrev sent : Envelope
sent = record {
  trace_id = "t1";
  command = record {
    command_id = "c1";
    target_node = "n1";
    command_type = respond_to_fire;
    payload = [];
    timestamp = 1;
  };
  timestamp = 1;
}

abbrev pub tracker : CommandTracker
tracker = record {
  commands =
      ("t1", record { command = sent; status = issued; history = issued_note sent ∷ [] }) ∷ [];
  seen_event_ids = [];
  repo = none;
}

pub is_issued : IsIn "t1" issued tracker
unfolding Dict.get
is_issued = (_, refl, refl)

acks_complete_example :
    IsIn "t1" executed
      (deliver (redeliver count_up respond (2 ∷ 3 ∷ 4 ∷ []) (new_node 0)).acks tracker)
unfolding contains
acks_complete_example =
    acks_complete count_up respond "t1" "RESPOND_TO_FIRE" 2 (3 ∷ 4 ∷ []) (new_node 0) tracker refl
      refl refl is_issued refl refl refl
