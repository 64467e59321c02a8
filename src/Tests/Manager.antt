-- ===== src/Tests/Manager.antt =====
-- The validation of src/config.rs, the spans of src/telemetry.rs, and the task, the listener and the
-- tunnels of src/subscribe/, on small inputs.
use stouter.Prelude.{
  List, if◌then◌else◌, remove, ◌==◌, ℕ, String, true, false, Option, none, some, [], ◌∷◌, ok, ◌≡◌,
  refl, text_dec, ℕ_discrete, lookup, insert, string_key, nat_key, ltb,
}
use stouter.Config.{subscribe, is_tcp, label}
use stouter.Config.Names.{sort_names, dedup_names, insert_name, before}
use stouter.Config.Ports.{
  local_port_for, ports_of, set_ports, sort_ports, insert_port, dedup, port_of,
}
use stouter.Config.Routes.{
  all_services, validate_routes, validate_route_target, validate_routes_from, check_route,
  check_prefix, check_method, check_headers,
}
use stouter.Config.Settings.{
  Config, Parsers, subscribes, validate_tracing, check_scheme, check_host,
}
use stouter.Config.Soundness.{WellFormed, validate-WellFormed}
use stouter.Config.Text.{starts_with, strip_prefix, ends_with, is_ascii_uppercase, is_unsafe}
use stouter.Config.Validation.{
  validate, check_groups, check_services, check_domains, check_path, check_routed, check_ports,
  claim_port, check_tracing, check_filter, own_ports, listener_ports,
}
use stouter.State.{pair_dec, both}
use stouter.Subscribe.Manager.{Manager, Start, listening, pass}
use stouter.Subscribe.Manager.Consistency.{Consistent}
use stouter.Subscribe.Manager.Settling.{Settled, pass-Settled}
use stouter.Tests.Config.{config}
use stouter.Tests.Mesh.{known, state}
use stouter.State.Pool.{try_take, pop}
use stouter.Subscribe.Api.{get_service, health_check}
use stouter.Subscribe.Api.Shown.{Round, Shown, run_passes, no_proxies, run_passes-Shown}
use stouter.Subscribe.Listener.{dispatch}
use stouter.Subscribe.Listener.Dispatching.{Dispatched, dispatch-Dispatched}
use stouter.Subscribe.Tunnels.{
  Network, Pools, establish_tunnel, single, checked, open_stream, via_pool,
}
use stouter.Subscribe.Tunnels.Sources.{Established, establish_tunnel-Established}
use stouter.Telemetry.{Collector, close, run, recorded, received, ticked}
use stouter.Telemetry.Delivery.{carried, concat, taken_in}
use stouter.Telemetry.Bounds.{Bounded, Within, run-delivers}

-- Ratios are numbers of thousandths.
abbrev parsers : Parsers ℕ
parsers = record {
  parse_addr = λ text. some (record { port = 15001; is_local = true });
  parse_uri = λ text. some (record { scheme = some "http"; host = some "collector" });
  in_unit = λ ratio. ltb ratio 1001;
  is_header_name = λ name. true;
}

abbrev daemon : Config ℕ
daemon = record {
  mode = subscribe;
  bind = "0.0.0.0:80";
  advertise_addr = none;
  node_id = "s";
  outbound_only = false;
  reverse_pool_size = none;
  known_nodes = [];
  dynamic_config = config;
  subscribe_filter = some (record { service_groups = []; services = "a" ∷ [] });
  tls_dir = none;
  admin_cns = [];
  api_port = none;
  tracing =
      some (record { otlp_endpoint = "http://collector"; sample_ratio = 500; service_name = "s" });
  http_listen = some "127.0.0.1:15001";
}

daemon_is_accepted : validate parsers daemon ≡ ok tt
unfolding validate check_groups check_services check_domains check_path check_routed check_ports
    claim_port check_tracing check_filter own_ports listener_ports text_dec ℕ_discrete pair_dec both
    lookup insert sort_names dedup_names insert_name before local_port_for ports_of set_ports
    sort_ports insert_port dedup port_of all_services validate_routes validate_route_target
    validate_routes_from check_route check_prefix check_method check_headers label is_tcp subscribes
    validate_tracing check_scheme check_host starts_with strip_prefix ends_with is_ascii_uppercase
    is_unsafe
daemon_is_accepted = refl

validate-WellFormed_example : WellFormed parsers daemon
validate-WellFormed_example = validate-WellFormed parsers daemon daemon_is_accepted

abbrev idle : Manager
idle = record {
  proxies = [];
  service_ports = [];
  http_proxies = "old" ∷ [];
  start_errors = [];
  port_conflicts = [];
}

abbrev starts : String → Option ℕ → Start
starts key port = listening 40000

idle-Consistent : Consistent idle
unfolding lookup
idle-Consistent = record { keys_distinct = tt; services_distinct = tt; shown = λ n. refl }

pass-Settled_example : Settled state none starts idle (pass state none starts idle)
pass-Settled_example = pass-Settled state none starts idle idle-Consistent

abbrev collector : Collector ℕ
collector post spans = if post == 0 then none else some 0

run-delivers_example :
    (carried
        (run collector (recorded 1 ∷ received ∷ ticked ∷ recorded 2 ∷ []) stouter.Telemetry.started)
      ≡ taken_in collector
          (recorded 1 ∷ received ∷ ticked ∷ recorded 2 ∷ [])
          stouter.Telemetry.started)
    × Bounded
        (run collector (recorded 1 ∷ received ∷ ticked ∷ recorded 2 ∷ []) stouter.Telemetry.started)
    × (concat
          (close collector (
            run collector
              (recorded 1 ∷ received ∷ ticked ∷ recorded 2 ∷ [])
              stouter.Telemetry.started)).exporter.posts
        ≡ taken_in collector
            (recorded 1 ∷ received ∷ ticked ∷ recorded 2 ∷ [])
            stouter.Telemetry.started)
    × Within 0
        (close collector (
          run collector
            (recorded 1 ∷ received ∷ ticked ∷ recorded 2 ∷ [])
            stouter.Telemetry.started)).exporter
run-delivers_example = run-delivers collector (recorded 1 ∷ received ∷ ticked ∷ recorded 2 ∷ [])

dispatch-Dispatched_example :
    Dispatched "GET"
      (some (b'A' ∷ b'.' ∷ []))
      none
      none
      state
      (dispatch "GET" (some (b'A' ∷ b'.' ∷ [])) none none state)
dispatch-Dispatched_example = dispatch-Dispatched "GET" (some (b'A' ∷ b'.' ∷ [])) none none state

abbrev network : Network ℕ ℕ
network = record {
  opens = λ session. none;
  waits = λ node. none;
  connects = λ addr. some 9;
  accepts = λ stream. true;
}

abbrev pools : Pools ℕ ℕ
pools = record {
  mux_pool = ("n2:80", 1) ∷ [];
  reverse_pool = ("n2", []) ∷ [];
  tunnel_pool = ("n2:80", 4 ∷ 5 ∷ []) ∷ [];
}

dead_sessions_are_passed_over : establish_tunnel network known pools ≡ (
  ok (via_pool 5),
  record { mux_pool = []; reverse_pool = ("n2", []) ∷ []; tunnel_pool = ("n2:80", 4 ∷ []) ∷ [] },
)
unfolding establish_tunnel single checked open_stream try_take pop lookup insert remove text_dec
dead_sessions_are_passed_over = refl

establish_tunnel-Established_example :
    Established network known pools (establish_tunnel network known pools)
establish_tunnel-Established_example = establish_tunnel-Established network known pools

abbrev rounds : List Round
rounds = record { state = state; starts = starts } ∷ record { state = state; starts = starts } ∷ []

run_passes-Shown_example :
    Shown "a"
      (run_passes none rounds (no_proxies []))
      (get_service "a" (run_passes none rounds (no_proxies [])).service_ports)
run_passes-Shown_example = run_passes-Shown none rounds [] "a"

degraded_without_nodes : (health_check (record state { known_nodes = [] }) pools []).code ≡ 503
unfolding health_check
degraded_without_nodes = refl
