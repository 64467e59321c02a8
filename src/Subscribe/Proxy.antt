-- ===== src/Subscribe/Proxy.antt =====
-- src/subscribe/proxy.rs: from a client's connection to a tunnel. The clock, the outcome of each
-- tunnel and what other connections do to the balancer between two attempts are arguments.
pub mod Attempts
use mathlib.Core.Option
use stouter.Prelude.{
  ℕ, zero, suc, ◌+◌, ◌-◌, ◌*◌, min, String, Bool, true, false, not, ◌&&◌, ◌||◌, Option, none, some,
  get_or, List, [], ◌∷◌, ◌++◌, Map, lookup, filter, any, all, is_empty, length, leb, ltb, ◌==◌,
  string_key, if◌then◌else◌,
}
use stouter.Config.{Service, NodeInfo, Protocol, is_tcp}
use stouter.Config.Text.{codes}
use stouter.Health.{text_le}
use stouter.State.{SharedState, service_unhealthy}
use stouter.Subscribe.Balancer.{
  from_secs, Backend, Inner, Pick, chosen, all_tried, at_capacity, pick, retain_nodes, drop_slot,
  record_success, record_failure, fail_open,
}

abbrev pub max_tunnel_attempts : ℕ
max_tunnel_attempts = 3

abbrev pub node_stale_after : ℕ
node_stale_after = from_secs 30

-- `service_is_http`: there are instances, and all of them say so.
unfoldable pub service_is_http : String → SharedState → Bool
service_is_http service_name state =
    let instances = filter (λ e. e.0.1 == service_name) state.service_index in
    not (is_empty instances) && all (λ e. not (is_tcp e.1.protocol)) instances

-- `sort_by` on the ids, as text.
unfoldable pub insert_backend : Backend → List Backend → List Backend
insert_backend b [] = b ∷ []
insert_backend b (c ∷ cs) =
    let rest = insert_backend b cs in
    if text_le (codes b.node.id) (codes c.node.id) then b ∷ c ∷ cs else c ∷ rest

unfoldable pub sort_backends : List Backend → List Backend
unfolding insert_backend
sort_backends [] = []
sort_backends (b ∷ bs) = insert_backend b (sort_backends bs)

unfoldable pub backend_of : NodeInfo → Service → Backend
backend_of node svc = record {
  node = node;
  weight = svc.weight;
  max_connections = svc.max_connections;
  request_timeout = Option.map (λ ms. ms * 1_000_000) svc.request_timeout_ms;
  labels = svc.labels;
}

-- The instances of the service on nodes that are known.
unfoldable pub known_backends :
    String → Map String NodeInfo → Map (String × String) Service → List Backend
unfolding backend_of
known_backends service_name kn [] = []
known_backends service_name kn (((node_id, svc_name), svc) ∷ idx) =
    let rest = known_backends service_name kn idx in
    let hosted : List Backend = elim (lookup node_id kn) [
      | none ↦ rest
      | some node ↦ backend_of node svc ∷ rest
    ] in
    if svc_name == service_name then hosted else rest

unfoldable pub service_backends : String → SharedState → List Backend
unfolding known_backends sort_backends
service_backends service_name state =
    sort_backends (known_backends service_name state.known_nodes state.service_index)

-- `prefer`: those that pass, or all if none do.
unfoldable pub prefer {ℓ} : {A : Type ℓ} → List A → (A → Bool) → List A
prefer items keep = if any keep items then filter keep items else items

-- `duration_since` saturates at zero, as the subtraction does.
unfoldable pub is_live : ℕ → Backend → Bool
is_live now b = elim b.node.last_seen [
  | none ↦ false
  | some seen ↦ leb (now - seen) node_stale_after
]

unfoldable pub prefer_healthy : ℕ → List Backend → String → SharedState → List Backend
unfolding prefer is_live
prefer_healthy now backends service_name state =
    prefer (prefer backends (is_live now))
      (λ b. not (service_unhealthy state b.node.id service_name))

-- What becomes of a client: no node, every node at its limit, a tunnel on the backend at an index,
-- or a failure after all attempts.
pub data Served : Type 0 where
  no_nodes circuit_open unreachable : Served
  forwarded : ℕ → Served

-- The world around one client, by the number of attempts made before.
pub record World : Type 0 where
  pub picked_at : ℕ → ℕ
  pub failed_at : ℕ → ℕ
  pub connects : ℕ → String → Bool
  pub meanwhile : ℕ → Inner → Inner

-- The `while` loop, with the attempts that are left, the nodes tried and whether one failed before.
-- `none` is a panic of `pick`. A slot is dropped where its iteration ends.
unfoldable pub attempt :
    World → ℕ → Inner → List Backend → List String → Bool → Option (Served × List String × Inner)
attempt w zero s backends tried failed = some (unreachable, tried, s)
attempt w (suc n) s backends tried failed =
    let i = length tried in
    elim (pick (w.meanwhile i s) backends tried (w.picked_at i)) [
      | none ↦ none
      | some (all_tried, s') ↦ some (unreachable, tried, s')
      | some (at_capacity, s') ↦ some (if failed then unreachable else circuit_open, tried, s')
      | some (chosen index id, s') ↦
          if w.connects i id
          then some (forwarded index, tried ++ id ∷ [], drop_slot (record_success s' id) id)
          else attempt w n (drop_slot (record_failure s' id (w.failed_at i)).0 id) backends
              (tried ++ id ∷ []) true
    ]

unfoldable pub serve_client :
    World → ℕ → Inner → String → SharedState → Option (Served × List String × Inner)
unfolding service_backends prefer_healthy attempt
serve_client w now s service_name state =
    let every = service_backends service_name state in
    let backends = prefer_healthy now every service_name state in
    let kept = retain_nodes s every in
    if is_empty backends
    then some (no_nodes, [], kept)
    else attempt w (min (length backends) max_tunnel_attempts) kept backends [] false
