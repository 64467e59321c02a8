-- ===== src/Tests/Mesh.antt =====
-- Health checks and gossip of src/health.rs and src/gossip/ on small inputs.
use stouter.Prelude.{
  ◌+◌, ◌^◌, ◌<◌, String, Bool, true, false, not, none, some, List, [], ◌∷◌, ◌≡◌, refl, arith, ◌⊎◌,
  any, contains, leb, lookup, insert, text_dec, ℕ_discrete, string_key, retain, update_first,
}
use stouter.Config.{NodeInfo, unset_health, empty_config, node_subscribe}
use stouter.Health.{
  HealthTracker, new_tracker, record_probe, unhealthy, retain_hosted, failing_names, Checks,
  check_round, saturating_succ, text_le, sort_insert, sort, same_names, next_version, record_all,
  parse_status_code, is_digit, parse_digits, parse_u16, probe,
}
use stouter.Health.Tracker.{run, streak, unhealthy-run}
use stouter.Health.Reports.{
  retain_hosted-flag, IsCurrent, check_round-IsCurrent, check_round-version,
}
use stouter.Config.Text.{codes, strip_prefix}
use stouter.State.{SharedState, new_state}
use stouter.Gossip.{config_update, service_remove}
use stouter.Gossip.Merge.{merge_nodes, snapshot_nodes, handle_gossip_message}
use stouter.Gossip.Addresses.{rsplit_host, strip_text, append_text, fix_addr}
use stouter.Gossip.Admin.{handle_admin_request}
use stouter.Gossip.Authority.{AdminOutcome, handle_admin_request-Outcome}
use stouter.Gossip.Versions.{Advance, Steps, start, next, received, administered, Steps-Advance}
use stouter.Gossip.Discovery.{Merged, merge_nodes-Merged}
use stouter.Gossip.Snapshot.{Told, snapshot_nodes-Told}
use stouter.Tests.Config.{config}

program : Unit {0}
unfolding text_dec ℕ_discrete lookup insert retain update_first record_probe unhealthy retain_hosted
    saturating_succ text_le sort_insert sort same_names next_version record_all check_round
    parse_status_code is_digit parse_digits parse_u16 probe strip_prefix rsplit_host strip_text
    append_text fix_addr new_state
program = tt

abbrev probes : List (String × Bool)
probes = ("a", false) ∷ ("b", true) ∷ ("a", false) ∷ ("a", true) ∷ []

abbrev failing : HealthTracker
failing = record { consecutive_failures = ("a", 2) ∷ ("b", 0) ∷ [] }

two_failures_in_a_row_are_reported :
    unhealthy (record_probe (record_probe new_tracker "a" false).0 "a" false).0 ≡ "a" ∷ []
unfolding program
two_failures_in_a_row_are_reported = refl

reports_are_sorted : sort ("b" ∷ "a" ∷ "ab" ∷ []) ≡ "a" ∷ "ab" ∷ "b" ∷ []
unfolding program
reports_are_sorted = refl

status_codes :
    (parse_status_code (codes "HTTP/1.1 204") ≡ some 204)
    × (parse_status_code (codes "HTTP/2 200 O") ≡ none)
unfolding program
status_codes = (refl, refl)

unroutable_addresses_are_replaced :
    (fix_addr "10.0.0.7:4411" (record {
      id = "n";
      addr = "0.0.0.0:80";
      relay = none;
      last_seen = none;
      health = unset_health;
    })).addr
    ≡ "10.0.0.7:80"
unfolding program
unroutable_addresses_are_replaced = refl

unhealthy-run_example : contains "a" (unhealthy (run probes)) ≡ leb 2 (streak "a" probes)
unhealthy-run_example = unhealthy-run "a" probes

retain_hosted-flag_example :
    (retain_hosted failing ("b" ∷ [])).1
    ≡ any (λ s. not (contains s ("b" ∷ []))) (failing_names failing.consecutive_failures)
retain_hosted-flag_example = retain_hosted-flag failing ("b" ∷ [])

abbrev checks : Checks
checks = record {
  tracker = failing;
  first_round = false;
  local_health = record { version = 7; unhealthy = "a" ∷ [] };
}

checks-IsCurrent : IsCurrent checks
unfolding program IsCurrent
checks-IsCurrent e = refl

check_round-IsCurrent_example :
    IsCurrent (check_round 100 ("a" ∷ "b" ∷ []) (("a", true) ∷ ("b", true) ∷ []) checks).0
check_round-IsCurrent_example =
    check_round-IsCurrent 100 ("a" ∷ "b" ∷ []) (("a", true) ∷ ("b", true) ∷ []) checks
      checks-IsCurrent

small_version : 7 + 1 < 2 ^ 64
small_version = omega arith

check_round-version_example :
    (((check_round 100 ("a" ∷ []) (("a", true) ∷ []) checks).1 ≡ true)
      × 7 < (check_round 100 ("a" ∷ []) (("a", true) ∷ []) checks).0.local_health.version)
    ⊎ (((check_round 100 ("a" ∷ []) (("a", true) ∷ []) checks).1 ≡ false)
        × ((check_round 100 ("a" ∷ []) (("a", true) ∷ []) checks).0.local_health
            ≡ checks.local_health))
check_round-version_example =
    check_round-version 100 ("a" ∷ []) (("a", true) ∷ []) checks small_version

abbrev pub known : NodeInfo
known = record {
  id = "n2";
  addr = "n2:80";
  relay = none;
  last_seen = some 5;
  health = record { version = 10; unhealthy = [] };
}

abbrev pub state : SharedState
state = record {
  config = record {
    mode = node_subscribe;
    node_id = "n1";
    bind = "0.0.0.0:80";
    peer_addr = "n1:80";
    outbound_only = false;
    admin_cns = "admin" ∷ [];
  };
  dynamic_config = config;
  known_nodes = ("n2", known) ∷ [];
  service_index = [];
  routes = [];
  local_health = record { version = 3; unhealthy = "a" ∷ [] };
  bootstrap_peers = [];
}

abbrev stale : NodeInfo
stale = record known { health = record { version = 9; unhealthy = "a" ∷ [] } }

handle_admin_request-Outcome_example :
    AdminOutcome
      (λ s. true)
      state
      (some "admin")
      (service_remove "web" "n1" "a")
      (handle_admin_request (λ s. true) state (some "admin") (service_remove "web" "n1" "a"))
handle_admin_request-Outcome_example =
    handle_admin_request-Outcome (λ s. true) state (some "admin") (service_remove "web" "n1" "a")

small_config : 4 + 1 < 2 ^ 64
small_config = omega arith

abbrev removed : SharedState
removed = (handle_admin_request (λ s. true) state (some "admin") (service_remove "web" "n1" "a")).0

-- A service is removed, and an older configuration arrives afterwards.
abbrev steps : Steps state (handle_gossip_message 9 removed "n2:80" (config_update empty_config)).0
steps =
    next
      (next start
        (administered (λ s. true) (some "admin") (service_remove "web" "n1" "a") small_config))
      (received 9 "n2:80" (config_update empty_config))

Steps-Advance_example :
    Advance state (handle_gossip_message 9 removed "n2:80" (config_update empty_config)).0
Steps-Advance_example = Steps-Advance steps

merge_nodes-Merged_example :
    Merged "n1" "n2"
      (stale ∷ [])
      (lookup "n2" state.known_nodes)
      (lookup "n2" (merge_nodes "n1" 8 state.known_nodes (stale ∷ [])).0)
merge_nodes-Merged_example = merge_nodes-Merged "n1" 8 (stale ∷ []) state.known_nodes "n2"

snapshot_nodes-Told_example : Told state (snapshot_nodes state)
snapshot_nodes-Told_example = snapshot_nodes-Told state refl
