-- ===== src/Gossip.antt =====
-- src/gossip: what a node does with a message of another node or of an administrator, and with an
-- edited configuration file. What leaves the node is a list of effects; the time is an argument, and
-- so is the set of header names that the `http` crate accepts.
pub mod Addresses
pub mod Merge
pub mod Admin
pub mod Versions
pub mod Health
pub mod Discovery
pub mod Frames
pub mod Authority
pub mod Snapshot
use stouter.Prelude.{ℕ, String, Option, List, Map, Bool}
use stouter.Config.{Mode, Protocol, DynamicConfig, NodeInfo, Route, Service, MutateErr}

pub data AdminOp : Type 0 where
  service_add : String → Service → AdminOp
  routes_set : String → List Route → AdminOp
  service_rename : String → String → String → String → AdminOp
  service_remove : String → String → String → AdminOp

pub data AdminErrCode : Type 0 where
  unauthorized validation not_found internal : AdminErrCode

-- Why an admin request failed: the texts of the source, or the change's own error.
pub data Refusal : Type 0 where
  cn_not_allowed subscribe_only : Refusal
  mutate : MutateErr → Refusal

pub data AdminResult : Type 0 where
  admin_ok : ℕ → AdminResult
  admin_err : AdminErrCode → Refusal → AdminResult

pub data Message : Type 0 where
  sync : DynamicConfig → List NodeInfo → Message
  config_update : DynamicConfig → Message
  node_join : String → String → Message
  node_leave : String → Message
  tunnel_request : String → String → ℕ → Message
  reverse_registration : String → ℕ → Message
  status_request : Message
  status_response : Mode → String → String → DynamicConfig → List NodeInfo → Message
  mux_tunnel : Message
  admin_request : AdminOp → Message
  admin_response : AdminResult → Message

-- What leaves the node: a write of the configuration file, a broadcast, a reply to the peer.
pub data Effect : Type 0 where
  persist : DynamicConfig → Effect
  broadcast : Message → Effect
  reply : Message → Effect
