-- ===== src/Subscribe/Api.antt =====
-- src/subscribe/api.rs: the answers of the REST API, as values before they are rendered as JSON. A
-- map is listed in the order of its entries.
pub mod Shown
use stouter.Prelude.{
  ℕ, String, Bool, true, false, Option, none, some, List, [], ◌∷◌, Map, map, lookup, length,
  is_empty, ◌==◌, string_key, if◌then◌else◌,
}
use stouter.Config.{NodeInfo}
use stouter.State.{SharedState}
use stouter.State.Pool.{count}
use stouter.Subscribe.Manager.{ServiceInfo}
use stouter.Subscribe.Tunnels.{connect_addr, Pools}

-- A service as the API shows it; its address is 127.0.0.1 with the port.
pub record ServiceView : Type 0 where
  pub name : String
  pub port : ℕ
  pub domains : List String
  pub meta : Map String String

pub data ServiceReply : Type 0 where
  missing_name : ServiceReply
  found : ServiceView → ServiceReply
  not_found : String → ServiceReply

-- The status of an answer.
unfoldable pub status : ServiceReply → ℕ
status missing_name = 400
status (found v) = 200
status (not_found name) = 404

unfoldable pub view : String → ServiceInfo → ServiceView
view name info = record { name = name; port = info.port; domains = info.domains; meta = info.meta }

unfoldable pub get_service : String → Map String ServiceInfo → ServiceReply
unfolding view
get_service name ports =
    let answer : ServiceReply = elim (lookup name ports) [
      | none ↦ not_found name
      | some info ↦ found (view name info)
    ] in
    if name == "" then missing_name else answer

unfoldable pub list_services : Map String ServiceInfo → List ServiceView
unfolding view
list_services ports = map (λ e. view e.0 e.1) ports

-- A known node, with the idle connections to it.
pub record Peer : Type 0 where
  pub id : String
  pub addr : String
  pub relay : Option String
  pub tunnel_pool : ℕ
  pub reverse_pool : ℕ

pub record Health : Type 0 where
  pub code : ℕ
  pub node_id : String
  pub node_count : ℕ
  pub peers : List Peer
  pub proxy_count : ℕ
  pub services : List (String × ℕ)

module _ {S T : Type 0} where
  unfoldable pub peer : Pools S T → NodeInfo → Peer
  unfolding count
  peer pools n = record {
    id = n.id;
    addr = n.addr;
    relay = n.relay;
    tunnel_pool = count (connect_addr n) pools.tunnel_pool;
    reverse_pool = count n.id pools.reverse_pool;
  }

  unfoldable pub health_check : SharedState → Pools S T → Map String ServiceInfo → Health
  unfolding peer
  health_check state pools ports = record {
    code = if is_empty state.known_nodes then 503 else 200;
    node_id = state.config.node_id;
    node_count = length state.known_nodes;
    peers = map (λ e. peer pools e.1) state.known_nodes;
    proxy_count = length ports;
    services = map (λ e. (e.0, e.1.port)) ports;
  }
