-- ===== src/Tests/Node.antt =====
-- The shared state, the frames, the tunnels and the clients of src/ on small inputs.
use stouter.Prelude.{
  ℕ, ◌+◌, ◌^◌, ◌<◌, String, true, false, Option, none, some, List, [], ◌∷◌, ◌++◌, Map, ok, err, ◌≡◌,
  refl, arith, lookup, insert, text_dec, ℕ_discrete, string_key, if◌then◌else◌, length, filter, ltb,
}
use stouter.Config.Mutate.{is_instance}
use stouter.Config.Routes.{all_services, of_service}
use stouter.State.{
  SharedState, instance_key, both, pair_dec, index_group, index_groups, build_service_index,
  index_routes, build_route_index, rebuild_service_index,
}
use stouter.State.Indexes.{
  find_last_or, lookup-build_service_index, routes_at, routes_at-build_route_index,
}
use stouter.State.Pool.{push, try_take, pop, idle, try_take-push}
use stouter.Gossip.Frames.{
  to_be_bytes, from_be_bytes, read_exact, send_message, recv_message, recv_payload, too_large,
  max_msg_bytes, recv_message-send_message,
}
use stouter.Node.{
  tunnel_error, check_tunnel, read_error, rejected, relay_answer, handle_tunnel,
  connect_local_service, connected, relayed,
}
use stouter.Node.Answers.{check_tunnel-tunnel_error, check_tunnel-relay_answer}
use stouter.Subscribe.Balancer.{Inner, new}
use stouter.Subscribe.Proxy.{Served, World, serve_client, service_backends, forwarded}
use stouter.Subscribe.Proxy.Attempts.{serve_client-Serving}
use stouter.Tests.Config.{config}
use stouter.Tests.Mesh.{state}

program : Unit {0}
unfolding text_dec ℕ_discrete lookup insert both pair_dec index_group index_groups
    build_service_index index_routes build_route_index rebuild_service_index push try_take pop
    to_be_bytes from_be_bytes read_exact send_message recv_message recv_payload tunnel_error
    check_tunnel read_error relay_answer handle_tunnel connect_local_service
program = tt

abbrev indexed : SharedState
indexed = rebuild_service_index state

lookup-build_service_index_example :
    lookup ("n2", "a") (build_service_index config)
    ≡ find_last_or none (is_instance "n2" "a") (all_services config.service_groups)
lookup-build_service_index_example = lookup-build_service_index config "n2" "a"

routes_at-build_route_index_example :
    routes_at (build_route_index config) "a" ≡ filter (of_service "a") config.routes
routes_at-build_route_index_example = routes_at-build_route_index config "a"

abbrev pool : Map String (List ℕ)
pool = ("k", 1 ∷ 2 ∷ []) ∷ ("j", 3 ∷ []) ∷ []

try_take-push_example :
    ((try_take "k" (push "k" 7 pool)).1 ≡ some 7)
    × ((other : String) → idle other (try_take "k" (push "k" 7 pool)).0 ≡ idle other pool)
try_take-push_example = try_take-push "k" 7 pool

-- A codec of one byte.
abbrev encode : ℕ → Option (List ℕ)
encode n = some (n ∷ [])

abbrev decode : List ℕ → Option ℕ
decode (n ∷ []) = some n
decode _ = none

sent_frame : send_message encode 9 ≡ ok (0 ∷ 0 ∷ 0 ∷ 1 ∷ 9 ∷ [])
unfolding program
sent_frame = refl

oversized_frames_are_refused :
    recv_message decode (0 ∷ 16 ∷ 0 ∷ 1 ∷ []) ≡ err (too_large (max_msg_bytes + 1))
unfolding program
oversized_frames_are_refused = refl

recv_message-send_message_example : recv_message decode ((0 ∷ 0 ∷ 0 ∷ 1 ∷ 9 ∷ []) ++ 5 ∷ []) ≡ (
    if ltb max_msg_bytes (length {A = ℕ} (9 ∷ []))
    then err (too_large (length {A = ℕ} (9 ∷ [])))
    else ok (9, 5 ∷ []))
recv_message-send_message_example =
    recv_message-send_message encode decode 9 (9 ∷ []) (0 ∷ 0 ∷ 0 ∷ 1 ∷ 9 ∷ []) (5 ∷ []) refl refl
      sent_frame

short_message : length {A = ℕ} (104 ∷ 105 ∷ []) < 2 ^ 32
short_message = omega arith

check_tunnel-tunnel_error_example :
    check_tunnel (tunnel_error (104 ∷ 105 ∷ []) ++ 9 ∷ []) ≡ rejected (104 ∷ 105 ∷ [])
check_tunnel-tunnel_error_example =
    check_tunnel-tunnel_error (104 ∷ 105 ∷ []) (9 ∷ []) short_message

check_tunnel-relay_answer_example :
    check_tunnel (relay_answer (1 ∷ 0 ∷ 0 ∷ 0 ∷ 1 ∷ 104 ∷ 9 ∷ []))
    ≡ check_tunnel (1 ∷ 0 ∷ 0 ∷ 0 ∷ 1 ∷ 104 ∷ 9 ∷ [])
check_tunnel-relay_answer_example = check_tunnel-relay_answer (1 ∷ 0 ∷ 0 ∷ 0 ∷ 1 ∷ 104 ∷ 9 ∷ [])

local_tunnels_reach_the_port :
    handle_tunnel false 1000 (λ p. true) indexed "n1" "b" 999 ≡ connected 80
unfolding program
local_tunnels_reach_the_port = refl

foreign_tunnels_are_relayed :
    handle_tunnel false 1000 (λ p. true) indexed "n9" "b" 999 ≡ relayed "n9" "b" 999
unfolding program
foreign_tunnels_are_relayed = refl

-- The first attempt fails.
abbrev world : World
world = record {
  picked_at = λ i. i;
  failed_at = λ i. i;
  connects = λ i id. ltb 0 i;
  meanwhile = λ i s. s;
}

serve_client-Serving_example :
    (r : Served × List String × Inner) × (serve_client world 6 new "a" indexed ≡ some r)
    × stouter.Subscribe.Proxy.Attempts.Serving world 6 "a" indexed r
serve_client-Serving_example = serve_client-Serving world 6 new "a" indexed
