-- ===== src/Bridge.antt =====
-- Commander_Repo/core/messaging/registry_bridge.py: what an announcement does to the registry. The
-- topic is tested by the commander before, with the same prefix.
use wfc.Prelude.{ℕ, String, Option, none, some, List, ◌==◌, if◌then◌else◌}
use wfc.Shared.Commands.{Coord}
use wfc.Nodes.{NodeRegistry, register, mark_offline}

-- a NodeAnnouncement, as far as the bridge reads it
pub record NodeAnnouncement : Type 0 where
  pub node_id : String
  pub node_type : String
  pub capabilities : List String
  pub status : String
  pub zone : Option String
  pub location : Option Coord

-- RegistryBridge._on_message; `none` is a payload that does not validate
unfoldable pub on_message : Option NodeAnnouncement → ℕ → NodeRegistry → NodeRegistry
on_message none now s = s
on_message (some ann) now s =
    if ann.status == "OFFLINE"
    then mark_offline ann.node_id s
    else register ann.node_id
        (record {
          node_type = ann.node_type;
          capabilities = some ann.capabilities;
          zone = ann.zone;
          location = ann.location;
        })
        now s
