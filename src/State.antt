-- ===== src/State.antt =====
-- src/state.rs: the state that the tasks of a node share, and the indexes built from its
-- configuration. A lock or an atomic swap is a step on the whole state.
pub mod Indexes
pub mod Pool
use stouter.Prelude.{
  ite, String, Bool, true, false, ◌&&◌, Option, none, some, get_or, List, [], ◌∷◌, ◌++◌, Map,
  lookup, insert, Key, text_dec, ◌==◌, string_key, if◌then◌else◌, ◌≡◌, refl, ap,
}
use stouter.Config.{
  Mode, Service, ServiceGroup, Route, DynamicConfig, ServiceHealth, NodeInfo, is_unhealthy,
  unset_health,
}

-- Keys of the service index: a node and a service name.
unfoldable pub both :
    {a c b d : String} → Dec (a ≡ c) → Dec (b ≡ d) → Dec (Path (String × String) (a, b) (c, d))
both (no n) e = no (λ p. n (ap (λ x. x.0) p))
both (yes p) (no n) = no (λ q. n (ap (λ x. x.1) q))
both (yes p) (yes q) = yes (λ i. (p i, q i))

unfoldable pub pair_dec : Discrete (String × String)
unfolding both
pair_dec a b = both (text_dec a.0 b.0) (text_dec a.1 b.1)

instance abbrev pub instance_key : Key (String × String)
instance_key = record { dec = pair_dec }

both-test :
    {a c b d : String} (e : Dec (a ≡ c)) (f : Dec (b ≡ d))
    → ite (both e f) true false ≡ (ite e true false && ite f true false)
unfolding both
both-test (no n) f = refl
both-test (yes p) (no n) = refl
both-test (yes p) (yes q) = refl

pub pair_eq : (a b c d : String) → ◌==◌ {K = String × String} (a, b) (c, d) ≡ (a == c && b == d)
unfolding pair_dec
pair_eq a b c d = both-test (text_dec a c) (text_dec b d)

-- What the operations of gossip read of `Config`, which does not change at run time.
pub record StaticConfig : Type 0 where
  pub mode : Mode
  pub node_id : String
  pub bind : String
  pub peer_addr : String
  pub outbound_only : Bool
  pub admin_cns : List String

pub record SharedState : Type 0 where
  pub config : StaticConfig
  pub dynamic_config : DynamicConfig
  pub known_nodes : Map String NodeInfo
  pub service_index : Map (String × String) Service
  pub routes : Map String (List Route)
  pub local_health : ServiceHealth
  pub bootstrap_peers : List String

unfoldable pub index_group :
    List Service → Map (String × String) Service → Map (String × String) Service
index_group [] idx = idx
index_group (svc ∷ services) idx = index_group services (insert (svc.node_id, svc.name) svc idx)

unfoldable pub index_groups :
    List ServiceGroup → Map (String × String) Service → Map (String × String) Service
unfolding index_group
index_groups [] idx = idx
index_groups (group ∷ groups) idx = index_groups groups (index_group group.services idx)

unfoldable pub build_service_index : DynamicConfig → Map (String × String) Service
unfolding index_groups
build_service_index dc = index_groups dc.service_groups []

-- `idx.entry(route.service.clone()).or_default().push(route.clone())`, in the order of the routes.
unfoldable pub index_routes : List Route → Map String (List Route) → Map String (List Route)
index_routes [] idx = idx
index_routes (route ∷ routes) idx =
    index_routes routes
      (insert route.service (get_or (lookup route.service idx) [] ++ route ∷ []) idx)

unfoldable pub build_route_index : DynamicConfig → Map String (List Route)
unfolding index_routes
build_route_index dc = index_routes dc.routes []

unfoldable pub rebuild_service_index : SharedState → SharedState
unfolding build_service_index build_route_index
rebuild_service_index state = record state {
  service_index = build_service_index state.dynamic_config;
  routes = build_route_index state.dynamic_config;
}

-- `SharedState::new`: nothing is known of other nodes or of the services' health yet.
unfoldable pub new_state : StaticConfig → DynamicConfig → List String → SharedState
unfolding build_service_index build_route_index
new_state config dc bootstrap_peers = record {
  config = config;
  dynamic_config = dc;
  known_nodes = [];
  service_index = build_service_index dc;
  routes = build_route_index dc;
  local_health = unset_health;
  bootstrap_peers = bootstrap_peers;
}

unfoldable pub service_unhealthy : SharedState → String → String → Bool
service_unhealthy state node_id service_name =
    if node_id == state.config.node_id
    then is_unhealthy state.local_health service_name
    else elim (lookup node_id state.known_nodes) [
      | none ↦ false
      | some n ↦ is_unhealthy n.health service_name
    ]
