-- ===== src/Subscribe/Manager.antt =====
-- `manage_proxies` of src/subscribe/mod.rs: one pass of the task that keeps a local proxy running for
-- each service. A map is iterated in the order of its entries, and whether a proxy starts is an
-- argument. Aborting a task is its removal from `proxies`.
pub mod Entries
pub mod Consistency
pub mod Starting
pub mod Passes
pub mod Settling
use stouter.Prelude.{
  ℕ, String, Bool, true, false, not, ◌&&◌, ◌||◌, Option, none, some, List, [], ◌∷◌, ◌++◌, Map, map,
  filter, contains, lookup, insert, remove, contains_key, keys, ◌==◌, string_key, nat_key,
  if◌then◌else◌, Result, ok, err, Key, ℕ_discrete, ◌≡◌,
}
use stouter.Config.{
  Mode, node, subscribe, node_subscribe, Service, ServiceGroup, DynamicConfig, Reason, NodeInfo,
}
use stouter.Config.Ports.{local_port_for}
use stouter.Config.Routes.{all_services}
use stouter.Config.Settings.{SubscribeFilter, filters_nothing, allows}
use stouter.State.{SharedState}

pub record ServiceInfo : Type 0 where
  pub port : ℕ
  pub domains : List String
  pub meta : Map String String

pub record DesiredService : Type 0 where
  pub name : String
  pub domains : List String
  pub meta : Map String String
  pub local_port : Option ℕ

pub record ProxyHandle : Type 0 where
  pub service_name : String
  pub requested_port : Option ℕ

-- The variables of the task, with the names that `http_proxies` has.
pub record Manager : Type 0 where
  pub proxies : Map String ProxyHandle
  pub service_ports : Map String ServiceInfo
  pub http_proxies : List String
  pub start_errors : Map String String
  pub port_conflicts : Map String Reason

abbrev pub append : String → String → String
append String.[] t = t
append (String.◌∷◌ c s) t = String.◌∷◌ c (append s t)

-- `format!("{}/{}", group.name, svc.name)`
abbrev pub key_of : String → Service → String
key_of group svc = append group (append "/" svc.name)

-- The two `continue`s at the start of the loop over the services.
unfoldable pub is_skipped : SharedState → Option SubscribeFilter → String → Service → Bool
unfolding filters_nothing allows
is_skipped state subscribe_filter group svc =
    let own : Bool = elim state.config.mode [ node_subscribe ↦ true | _ ↦ false ] in
    let filtered : Bool = elim subscribe_filter [
      | none ↦ false
      | some f ↦ not (filters_nothing f) && not (allows f group svc.name)
    ] in
    (own && svc.node_id == state.config.node_id) || filtered

abbrev pub Desired : Type 0
Desired = Map String DesiredService × Map String Reason

-- The entry of a service, by what `local_port_for` says of it.
unfoldable pub add_desired : String → Service → Result Reason (Option ℕ) → Desired → Desired
add_desired key svc (ok port) d = (
  insert key (record { name = svc.name; domains = svc.domains; meta = svc.meta; local_port = port })
      d.0,
  remove key d.1,
)
add_desired key svc (err e) d = (
  insert key (record { name = svc.name; domains = svc.domains; meta = svc.meta; local_port = none })
      d.0,
  insert key e d.1,
)

-- One service of the loop that builds `desired`, with `port_conflicts`. The keys of `desired` are
-- `seen_svc_keys`.
unfoldable pub desire : SharedState → Option SubscribeFilter → String → Service → Desired → Desired
unfolding is_skipped add_desired
desire state subscribe_filter group svc d =
    let key = key_of group svc in
    let added = add_desired key svc (local_port_for state.dynamic_config svc.name) d in
    if is_skipped state subscribe_filter group svc
    then d
    else if contains_key svc.node_id state.known_nodes && not (contains_key key d.0)
    then added
    else d

unfoldable pub desire_services :
    SharedState → Option SubscribeFilter → String → List Service → Desired → Desired
unfolding desire
desire_services state subscribe_filter group [] d = d
desire_services state subscribe_filter group (svc ∷ services) d =
    desire_services state subscribe_filter group services
      (desire state subscribe_filter group svc d)

unfoldable pub desire_groups :
    SharedState → Option SubscribeFilter → List ServiceGroup → Desired → Desired
unfolding desire_services
desire_groups state subscribe_filter [] d = d
desire_groups state subscribe_filter (g ∷ gs) d =
    desire_groups state subscribe_filter gs
      (desire_services state subscribe_filter g.name g.services d)

unfoldable pub same_port : Option ℕ → Option ℕ → Bool
same_port none none = true
same_port none (some q) = false
same_port (some p) none = false
same_port (some p) (some q) = p == q

-- `desired.get(*key).is_none_or(|d| d.local_port != handle.requested_port)`
unfoldable pub is_obsolete : Map String DesiredService → String × ProxyHandle → Bool
unfolding same_port
is_obsolete desired e = elim (lookup e.0 desired) [
  | none ↦ true
  | some d ↦ not (same_port d.local_port e.1.requested_port)
]

unfoldable pub stop_proxy : String → Manager → Manager
stop_proxy key m = elim (lookup key m.proxies) [
  | none ↦ m
  | some handle ↦ record m {
    proxies = remove key m.proxies;
    service_ports = remove handle.service_name m.service_ports;
  }
]

unfoldable pub stop_all : List String → Manager → Manager
unfolding stop_proxy
stop_all [] m = m
stop_all (key ∷ rest) m = stop_all rest (stop_proxy key m)

-- What comes of `run_proxy`: the port it listens on, an error, or an end without a word.
pub data Start : Type 0 where
  listening : ℕ → Start
  refused : String → Start
  died : Start

-- `service_ports.get_mut(..)` and the change of what the REST API shows.
unfoldable pub refresh : String → DesiredService → Map String ServiceInfo → Map String ServiceInfo
refresh name d ports = elim (lookup name ports) [
  | none ↦ ports
  | some info ↦ insert name (record info { domains = d.domains; meta = d.meta }) ports
]

-- `run_proxy` gets the HTTP proxy of its service, which makes one if there is none.
abbrev pub with_proxy : String → List String → List String
with_proxy name names = if contains name names then names else names ++ name ∷ []

unfoldable pub started : String → DesiredService → Start → Manager → Manager
started key d (listening port) m = record m {
  http_proxies = with_proxy d.name m.http_proxies;
  start_errors = remove key m.start_errors;
  service_ports =
      insert d.name (record { port = port; domains = d.domains; meta = d.meta }) m.service_ports;
  proxies = insert key (record { service_name = d.name; requested_port = d.local_port }) m.proxies;
}
started key d (refused e) m = record m { start_errors = insert key e m.start_errors }
started key d died m = m

-- One entry of `desired` in the loop that starts proxies.
unfoldable pub serve_one : (String → Option ℕ → Start) → String × DesiredService → Manager → Manager
unfolding refresh started
serve_one starts e m =
    let key = e.0 in
    let d = e.1 in
    elim (lookup key m.proxies) [
      | some handle ↦ record m { service_ports = refresh handle.service_name d m.service_ports }
      | none ↦
          if contains_key d.name m.service_ports
          then m
          else started key d (starts key d.local_port) m
    ]

unfoldable pub serve_all :
    (String → Option ℕ → Start) → Map String DesiredService → Manager → Manager
unfolding serve_one
serve_all starts [] m = m
serve_all starts (e ∷ desired) m = serve_all starts desired (serve_one starts e m)

unfoldable pub obsolete_keys : Map String DesiredService → Map String ProxyHandle → List String
unfolding is_obsolete
obsolete_keys desired proxies = map (λ e. e.0) (filter (is_obsolete desired) proxies)

-- One pass.
unfoldable pub pass :
    SharedState → Option SubscribeFilter → (String → Option ℕ → Start) → Manager → Manager
unfolding desire_groups obsolete_keys stop_all serve_all
pass state subscribe_filter starts m =
    let groups = state.dynamic_config.service_groups in
    let d = desire_groups state subscribe_filter groups ([], m.port_conflicts) in
    let configured = map (λ s. s.name) (all_services groups) in
    let kept = stop_all (obsolete_keys d.0 m.proxies) m in
    serve_all starts d.0 (record kept {
      port_conflicts = d.1;
      http_proxies = filter (λ name. contains name configured) kept.http_proxies;
    })
