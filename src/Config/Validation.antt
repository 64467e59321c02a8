-- ===== src/Config/Validation.antt =====
-- `Config::validate` of src/config.rs. Sets and maps of the loops are passed on from step to step.
use stouter.Prelude.{
  ℕ, String, Bool, not, Option, none, some, List, [], ◌∷◌, Map, map, filter, contains, lookup,
  insert, ◌==◌, string_key, nat_key, if◌then◌else◌, Result, ok, err, ◌>>=◌, ◌>>◌, fail_if,
}
use stouter.Config.{Service, ServiceGroup, DynamicConfig, Reason}
use stouter.Config.Names.{sort_names, dedup_names}
use stouter.Config.Ports.{local_port_for}
use stouter.Config.Routes.{
  all_services, of_service, validate_routes, validate_health_path, validate_route_target,
}
use stouter.Config.Settings.{Config, Parsers, BadTracing, subscribes, validate_tracing, api_port_of}
use stouter.State.{instance_key}

-- Who has a port, as an error message says it.
pub data Owner : Type 0 where
  rest_api http_listener : Owner
  service_named : String → Owner

pub data Invalid : Type 0 where
  duplicate_group : String → Invalid
  duplicate_instance : Service → String → Invalid
  bad_health_path : Service → String → Reason → Invalid
  domain_claimed : String → String → String → String → Invalid
  bad_routes bad_port : Reason → Invalid
  bad_listen : String → Invalid
  listen_mode filter_mode : Invalid
  zero_port : String → Invalid
  port_used : ℕ → String → Owner → Invalid
  bad_tracing : BadTracing → Invalid

abbrev pub map_err {ℓ κ μ} :
    {E : Type ℓ} {D : Type κ} {A : Type μ} → (E → D) → Result E A → Result D A
map_err f (ok a) = ok a
map_err f (err e) = err (f e)

unfoldable pub check_path : String → Service → Result Invalid (Unit {0})
check_path group svc = elim svc.health_path [
  | none ↦ ok tt
  | some path ↦ map_err (bad_health_path svc group) (validate_health_path path)
]

-- The domains of one service; `domain_owner` is the map of the loop.
unfoldable pub check_domains :
    String → String → List String → Map String String → Result Invalid (Map String String)
check_domains group name [] domain_owner = ok domain_owner
check_domains group name (d ∷ ds) domain_owner =
    let rest = check_domains group name ds (insert d name domain_owner) in
    elim (lookup d domain_owner) [
      | none ↦ rest
      | some owner ↦ if owner == name then rest else err (domain_claimed d owner group name)
    ]

unfoldable pub check_services :
    String
    → List (String × String)
    → List Service
    → Map String String
    → Result Invalid (Map String String)
unfolding check_path check_domains
check_services group instances [] domain_owner = ok domain_owner
check_services group instances (svc ∷ services) domain_owner =
    fail_if (contains (svc.node_id, svc.name) instances) (duplicate_instance svc group)
    >> (check_path group svc
        >> (check_domains group svc.name svc.domains domain_owner >>= λ owner.
            check_services group ((svc.node_id, svc.name) ∷ instances) services owner))

unfoldable pub check_groups :
    List String → List ServiceGroup → Map String String → Result Invalid (Map String String)
unfolding check_services
check_groups group_names [] domain_owner = ok domain_owner
check_groups group_names (g ∷ gs) domain_owner =
    fail_if (contains g.name group_names) (duplicate_group g.name)
    >> (check_services g.name [] g.services domain_owner >>= λ owner.
        check_groups (g.name ∷ group_names) gs owner)

unfoldable pub check_routed :
    (String → Bool) → DynamicConfig → List String → Result Invalid (Unit {0})
check_routed is_header_name c [] = ok tt
check_routed is_header_name c (service ∷ services) =
    map_err bad_routes (validate_route_target c service)
    >> (map_err bad_routes
          (validate_routes is_header_name service (filter (of_service service) c.routes))
        >> check_routed is_header_name c services)

-- The fixed port of one service, in the map of the ports that are taken.
unfoldable pub claim_port : String → Option ℕ → Map ℕ Owner → Result Invalid (Map ℕ Owner)
claim_port name none taken = ok taken
claim_port name (some port) taken =
    if port == 0 then err (zero_port name) else elim (lookup port taken) [
      | none ↦ ok (insert port (service_named name) taken)
      | some other ↦ err (port_used port name other)
    ]

unfoldable pub check_ports :
    DynamicConfig → List String → Map ℕ Owner → Result Invalid (Map ℕ Owner)
unfolding claim_port
check_ports c [] taken = ok taken
check_ports c (name ∷ names) taken = map_err bad_port (local_port_for c name) >>= λ port.
    (claim_port name port taken >>= λ owner. check_ports c names owner)

-- `names`, sorted and without repetitions
abbrev pub each : List String → List String
each names = dedup_names (sort_names names)

module _ {F : Type 0} (world : Parsers F) where
  -- The ports of the daemon's own listeners, by whether the mode subscribes.
  unfoldable pub listener_ports : Bool → ℕ → Option String → Result Invalid (Map ℕ Owner)
  listener_ports subscribing api none = ok (if subscribing then (api, rest_api) ∷ [] else [])
  listener_ports subscribing api (some listen) =
      let taken : Map ℕ Owner = if subscribing then (api, rest_api) ∷ [] else [] in
      elim (world.parse_addr listen) [
        | none ↦ err (bad_listen listen)
        | some addr ↦
            if subscribing
            then ok (if addr.is_local then insert addr.port http_listener taken else taken)
            else err listen_mode
      ]

  unfoldable pub own_ports : Config F → Result Invalid (Map ℕ Owner)
  unfolding subscribes listener_ports
  own_ports c = listener_ports (subscribes c.mode) (api_port_of c) c.http_listen

  unfoldable pub check_tracing : Config F → Result Invalid (Unit {0})
  unfolding validate_tracing
  check_tracing c = elim c.tracing [
    | none ↦ ok tt
    | some t ↦ map_err bad_tracing (validate_tracing world t)
  ]

  unfoldable pub check_filter : Config F → Result Invalid (Unit {0})
  unfolding subscribes
  check_filter c = elim c.subscribe_filter [
    | none ↦ ok tt
    | some f ↦ fail_if (not (subscribes c.mode)) filter_mode
  ]

  -- `Config::validate`
  unfoldable pub validate : Config F → Result Invalid (Unit {0})
  unfolding check_groups check_routed own_ports check_ports check_tracing check_filter
  validate c =
      let dc = c.dynamic_config in
      check_groups [] dc.service_groups [] >>= λ owner.
      (check_routed world.is_header_name dc (each (map (λ r. r.service) dc.routes))
        >> (own_ports c >>= λ taken.
            (check_ports dc (each (map (λ s. s.name) (all_services dc.service_groups))) taken
              >>= λ claimed. (check_tracing c >> check_filter c))))
