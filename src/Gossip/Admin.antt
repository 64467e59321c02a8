-- ===== src/Gossip/Admin.antt =====
-- src/gossip/mod.rs: the requests of administrators, and the adoption of an edited configuration
-- file.
use stouter.Prelude.{
  ℕ, ◌+◌, ◌%◌, ◌^◌, String, Bool, true, false, not, ◌&&◌, Option, none, some, List, [], ◌∷◌, any,
  ltb, ◌==◌, string_key, nat_key, if◌then◌else◌, Result, ok, err,
}
use stouter.Config.{
  Mode, Service, ServiceGroup, DynamicConfig, MutateErr, invalid, is_tcp, group_not_found,
  service_not_found, duplicate_service, subscribe,
}
use stouter.Config.Mutate.{upsert_service, remove_service, rename_service}
use stouter.Config.Routes.{validate_health_path, set_routes}
use stouter.State.{SharedState, rebuild_service_index}
use stouter.Gossip.{
  AdminOp, service_add, routes_set, service_rename, service_remove, AdminErrCode, unauthorized,
  validation, not_found, cn_not_allowed, subscribe_only, mutate, AdminResult, admin_ok, admin_err,
  config_update, admin_response, Effect, persist, broadcast, reply,
}

-- The match on the operation.
unfoldable pub apply_op : (String → Bool) → DynamicConfig → AdminOp → Result MutateErr DynamicConfig
unfolding upsert_service remove_service rename_service validate_health_path set_routes
apply_op is_header_name dc (service_add group svc) = elim svc.health_path [
  | none ↦ ok (upsert_service dc group svc)
  | some path ↦ elim (validate_health_path path) [
    | err msg ↦ err (invalid msg)
    | ok u ↦ ok (upsert_service dc group svc)
  ]
]
apply_op is_header_name dc (routes_set service routes) = set_routes is_header_name dc service routes
apply_op is_header_name dc (service_rename group node from to) =
    rename_service dc group node from to
apply_op is_header_name dc (service_remove group node name) = remove_service dc group node name

unfoldable pub code_of : MutateErr → AdminErrCode
code_of (group_not_found group) = not_found
code_of (service_not_found group node name) = not_found
code_of (duplicate_service group node name) = validation
code_of (invalid msg) = validation

unfoldable pub is_allowed : SharedState → Option String → Bool
is_allowed state none = false
is_allowed state (some cn) = any (λ a. a == cn) state.config.admin_cns

unfoldable pub is_subscribe_only : Mode → Bool
is_subscribe_only subscribe = true
is_subscribe_only _ = false

abbrev pub answer : AdminResult → Effect
answer result = reply (admin_response result)

-- The reply to the outcome, and what is done before it.
unfoldable pub respond : SharedState → Result MutateErr DynamicConfig → SharedState × List Effect
unfolding code_of rebuild_service_index
respond state (ok dc) = (
  rebuild_service_index (record state { dynamic_config = dc }),
  persist dc ∷ broadcast (config_update dc) ∷ answer (admin_ok dc.version) ∷ [],
)
respond state (err e) = (state, answer (admin_err (code_of e) (mutate e)) ∷ [])

unfoldable pub handle_admin_request :
    (String → Bool) → SharedState → Option String → AdminOp → SharedState × List Effect
unfolding is_allowed is_subscribe_only apply_op respond
handle_admin_request is_header_name state peer_cn op =
    if not (is_allowed state peer_cn)
    then (state, answer (admin_err unauthorized cn_not_allowed) ∷ [])
    else if is_subscribe_only state.config.mode
    then (state, answer (admin_err validation subscribe_only) ∷ [])
    else respond state (apply_op is_header_name state.dynamic_config op)

-- The derived `==` of services and groups, field by field.
unfoldable pub same_list {ℓ} : {A : Type ℓ} → (A → A → Bool) → List A → List A → Bool
same_list eq [] [] = true
same_list eq [] (y ∷ ys) = false
same_list eq (x ∷ xs) [] = false
same_list eq (x ∷ xs) (y ∷ ys) = eq x y && same_list eq xs ys

unfoldable pub same_option {ℓ} : {A : Type ℓ} → (A → A → Bool) → Option A → Option A → Bool
same_option eq none none = true
same_option eq none (some y) = false
same_option eq (some x) none = false
same_option eq (some x) (some y) = eq x y

abbrev pub same_text : String → String → Bool
same_text a b = a == b

abbrev pub same_number : ℕ → ℕ → Bool
same_number a b = a == b

abbrev pub same_entry : String × String → String × String → Bool
same_entry a b = a.0 == b.0 && a.1 == b.1

unfoldable pub same_service : Service → Service → Bool
unfolding same_list same_option
same_service a b =
    a.name == b.name
    && a.node_id == b.node_id
    && a.node_port == b.node_port
    && same_list same_text a.domains b.domains
    && a.weight == b.weight
    && same_option same_number a.max_connections b.max_connections
    && (if is_tcp a.protocol then is_tcp b.protocol else not (is_tcp b.protocol))
    && same_option same_number a.request_timeout_ms b.request_timeout_ms
    && same_option same_text a.health_path b.health_path
    && same_list same_entry a.labels b.labels
    && same_list same_entry a.meta b.meta
    && same_option same_number a.local_port b.local_port

unfoldable pub same_group : ServiceGroup → ServiceGroup → Bool
unfolding same_service
same_group a b = a.name == b.name && same_list same_service a.services b.services

-- The loop's state is the versions last warned about.
abbrev Warned : Type 0
Warned = Option (ℕ × ℕ)

abbrev same_versions : ℕ × ℕ → ℕ × ℕ → Bool
same_versions a b = a.0 == b.0 && a.1 == b.1

abbrev pub adopt_file : SharedState → DynamicConfig → SharedState × List Effect
adopt_file state dc = (
  rebuild_service_index (record state { dynamic_config = dc }),
  persist dc ∷ broadcast (config_update dc) ∷ [],
)

-- One poll of the file, which is `none` where it cannot be read.
unfoldable pub poll_config :
    SharedState → Warned → Option DynamicConfig → (SharedState × List Effect) × Warned
unfolding same_group rebuild_service_index
poll_config state warned none = ((state, []), warned)
poll_config state warned (some file) =
    let current = state.dynamic_config.version in
    let behind = ltb file.version current in
    let news = not (same_option same_versions warned (some (file.version, current))) in
    let edited =
      file.version == current
      && not (same_list same_group file.service_groups state.dynamic_config.service_groups) in
    if ltb current file.version
    then (adopt_file state file, warned)
    else if edited
    then (adopt_file state (record file { version = (current + 1) % 2 ^ 64 }), warned)
    else ((state, []), if behind && news then some (file.version, current) else warned)
