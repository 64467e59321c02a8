-- ===== src/Tests/Config.antt =====
-- The configuration of src/config.rs on small inputs.
use stouter.Prelude.{
  ℕ, String, true, false, ◌&&◌, none, some, List, [], ◌∷◌, ◌++◌, ok, err, ◌≡◌, refl, ◌↔◌, text_dec,
  ℕ_discrete, ◌==◌, string_key, nat_key, if◌then◌else◌, update_first,
}
use stouter.Config.{
  Service, ServiceGroup, DynamicConfig, Route, RouteMatch, RouteBackend, tcp, http, label, invalid,
  health_path_start, group_not_found, bad_prefix, position, is_tcp, named,
}
use stouter.Config.Mutate.{
  is_instance, bump_version, upsert_into, upsert_service, without_instance, remove_service, renamed,
  rename_in, rename_service,
}
use stouter.Config.Groups.{instance_of, instance_of-upsert_service}
use stouter.Config.Removal.{RemoveOutcome, remove_service-Outcome}
use stouter.Config.Renaming.{RenameOutcome, rename_service-Outcome}
use stouter.Config.Text.{codes, strip_prefix, starts_with, ends_with, is_ascii_uppercase, is_unsafe}
use stouter.Config.Routes.{
  path_has_prefix, check_prefix, check_method, check_headers, check_route, validate_routes_from,
  validate_routes, all_services, validate_route_target, splice, replace_routes, set_routes,
  validate_health_path,
}
use stouter.Config.Ports.{
  set_ports, ports_of, insert_port, sort_ports, dedup, port_of, local_port_for, PortOutcome,
  local_port_for-Outcome,
}
use stouter.Config.RouteOrder.{AtBorder, path_has_prefix_iff, Replaced, set_routes-Replaced}

program : Unit {0}
unfolding text_dec ℕ_discrete update_first is_tcp bump_version upsert_into upsert_service
    without_instance remove_service renamed rename_in rename_service strip_prefix starts_with
    ends_with is_ascii_uppercase is_unsafe path_has_prefix check_prefix check_method check_headers
    check_route validate_routes_from validate_routes all_services validate_route_target
    stouter.Config.Routes.position splice replace_routes set_routes validate_health_path label
    set_ports ports_of insert_port sort_ports dedup port_of local_port_for
program = tt

abbrev pub service : String → String → Service
service node name = record {
  name = name;
  node_id = node;
  node_port = 80;
  domains = [];
  weight = 1;
  max_connections = none;
  protocol = http;
  request_timeout_ms = none;
  health_path = none;
  labels = [];
  meta = [];
  local_port = none;
}

abbrev pub route : String → Route
route name = record {
  name = some "all";
  service = name;
  matches = record { path_prefix = some "/v1"; method = some "GET"; headers = [] };
  backends = record { labels = []; weight = 1 } ∷ [];
}

abbrev pub config : DynamicConfig
config = record {
  version = 4;
  service_groups =
      record {
        name = "web";
        services = service "n1" "a" ∷ service "n2" "a" ∷ service "n1" "b" ∷ [];
      }
      ∷ [];
  routes = route "b" ∷ route "a" ∷ [];
}

-- A replacement that puts a second route where the first one of the service stood.
abbrev routed : DynamicConfig
routed = record {
  version = 5;
  service_groups = config.service_groups;
  routes = route "b" ∷ route "a" ∷ route "a" ∷ [];
}

routes_of_a_are_replaced :
    set_routes (λ s. true) config "a" (route "a" ∷ route "a" ∷ []) ≡ ok routed
unfolding program
routes_of_a_are_replaced = refl

a_foreign_route_is_refused :
    set_routes (λ s. true) config "a" (route "b" ∷ [])
    ≡ err (invalid (stouter.Config.other_service (named "all") "a" "b"))
unfolding program
a_foreign_route_is_refused = refl

health_paths_start_with_a_slash : validate_health_path "health" ≡ err (health_path_start "health")
unfolding program
health_paths_start_with_a_slash = refl

prefixes_end_at_a_segment :
    (path_has_prefix (codes "/api/x") (codes "/api") ≡ true)
    × (path_has_prefix (codes "/apix") (codes "/api") ≡ false)
unfolding program
prefixes_end_at_a_segment = (refl, refl)

unknown_groups_are_refused : remove_service config "db" "n1" "a" ≡ err (group_not_found "db")
unfolding program
unknown_groups_are_refused = refl

set_routes-Replaced_example : Replaced (λ s. true) config "a" (route "a" ∷ route "a" ∷ []) routed
set_routes-Replaced_example =
    set_routes-Replaced (λ s. true) config routed "a" (route "a" ∷ route "a" ∷ [])
      routes_of_a_are_replaced

path_has_prefix_iff_example :
    (path_has_prefix (codes "/api/x") (codes "/api") ≡ true)
    ↔ ((rest : List ℕ) × (codes "/api/x" ≡ codes "/api" ++ rest) × AtBorder (codes "/api") rest)
path_has_prefix_iff_example = path_has_prefix_iff (codes "/api/x") (codes "/api")

instance_of-upsert_service_example :
    instance_of (upsert_service config "web" (service "n3" "a")) "web" "n3" "a" ≡ (
      if ◌==◌ {K = String} "web" "web" && is_instance "n3" "a" (service "n3" "a")
      then some (service "n3" "a")
      else instance_of config "web" "n3" "a")
instance_of-upsert_service_example =
    instance_of-upsert_service config "web" "web" "n3" "a" (service "n3" "a")

remove_service-Outcome_example : RemoveOutcome config "web" "n1" "a"
remove_service-Outcome_example = remove_service-Outcome config "web" "n1" "a"

rename_service-Outcome_example : RenameOutcome config "web" "n1" "a" "c"
rename_service-Outcome_example = rename_service-Outcome config "web" "n1" "a" "c"

-- Two instances of a service set one port.
abbrev ported : DynamicConfig
ported = record config {
  service_groups =
      record {
        name = "web";
        services =
            record (service "n1" "a") { local_port = some 90 }
            ∷ record (service "n2" "b") { local_port = some 70 }
            ∷ record (service "n2" "a") { local_port = some 90 }
            ∷ [];
      }
      ∷ [];
}

one_port_is_fixed : local_port_for ported "a" ≡ ok (some 90)
unfolding program
one_port_is_fixed = refl

local_port_for-Outcome_example : PortOutcome ported "a"
local_port_for-Outcome_example = local_port_for-Outcome ported "a"
