-- ===== src/Gossip/Merge.antt =====
-- src/gossip/mod.rs: merging what other nodes say into the shared state, and the node's own report.
use stouter.Prelude.{
  ℕ, String, Bool, true, false, not, ◌&&◌, ◌||◌, Option, none, some, List, [], ◌∷◌, ◌++◌, Map,
  values, lookup, insert, remove, find, contains, update_first, map, ltb, leb, ◌==◌, string_key,
  nat_key, if◌then◌else◌, is_empty,
}
use stouter.Config.{DynamicConfig, NodeInfo, unset_health}
use stouter.Config.Text.{codes}
use stouter.Gossip.Addresses.{fix_unroutable_addrs}
use stouter.State.{SharedState, rebuild_service_index}
use stouter.Gossip.{
  Message, sync, config_update, node_join, node_leave, status_response, Effect, persist, reply,
}

-- `!s.is_empty()`
abbrev pub is_set : String → Bool
is_set s = not (is_empty (codes s))

unfoldable pub is_valid_node_id : String → Bool
is_valid_node_id id = is_set id && not (contains b':' (codes id))

-- `merge_health`, on an entry that is there.
unfoldable pub merge_health : NodeInfo → NodeInfo → NodeInfo
merge_health existing incoming =
    if leb incoming.health.version existing.health.version
    then existing
    else record existing { health = incoming.health }

-- `==` on `Option<String>`
unfoldable pub same_relay : Option String → Option String → Bool
same_relay none none = true
same_relay none (some b) = false
same_relay (some a) none = false
same_relay (some a) (some b) = a == b

abbrev pub is_some : Option String → Bool
is_some none = false
is_some (some a) = true

-- The new address and relay of an entry that is there, and whether one of them is new.
unfoldable pub update_entry : NodeInfo → NodeInfo → NodeInfo × Bool
unfolding same_relay
update_entry existing node =
    let moved = not (existing.addr == node.addr) in
    let relayed =
      not (same_relay existing.relay node.relay) && (is_some node.relay || is_set node.addr) in
    (
      record existing {
        addr = if moved then node.addr else existing.addr;
        relay = if relayed then node.relay else existing.relay;
      },
      moved || relayed,
    )

-- A node's report about itself counts only where it comes from the node's own checks.
unfoldable pub own_health_removed : String → NodeInfo → NodeInfo
own_health_removed own_id node =
    if node.id == own_id then record node { health = unset_health } else node

-- One turn of the loop of `merge_sync` over the received nodes.
unfoldable pub merge_node : String → ℕ → Map String NodeInfo → NodeInfo → Map String NodeInfo × Bool
unfolding is_valid_node_id merge_health update_entry own_health_removed
merge_node own_id now kn received =
    let node = own_health_removed own_id received in
    let merged : Map String NodeInfo × Bool = elim (lookup node.id kn) [
      | some existing ↦
          let entry = update_entry (merge_health existing node) node in
          (insert node.id entry.0 kn, entry.1)
      | none ↦ (insert node.id (record node { last_seen = some now }) kn, true)
    ] in
    if is_valid_node_id received.id then merged else (kn, false)

unfoldable pub merge_nodes :
    String → ℕ → Map String NodeInfo → List NodeInfo → Map String NodeInfo × Bool
unfolding merge_node
merge_nodes own_id now kn [] = (kn, false)
merge_nodes own_id now kn (node ∷ nodes) =
    let first = merge_node own_id now kn node in
    let rest = merge_nodes own_id now first.0 nodes in (rest.0, first.1 || rest.1)

abbrev pub seen_at : ℕ → String → NodeInfo → NodeInfo
seen_at now addr node =
    if is_set node.addr && node.addr == addr then record node { last_seen = some now } else node

-- The entries at the address of a direct contact are alive now.
unfoldable pub refresh : ℕ → Option String → Map String NodeInfo → Map String NodeInfo
refresh now none kn = kn
refresh now (some addr) kn = map (λ e. (e.0, seen_at now addr e.1)) kn

-- A received configuration is adopted if it is newer, and then written and indexed.
unfoldable pub adopt_config : SharedState → DynamicConfig → SharedState × List Effect
unfolding rebuild_service_index
adopt_config state config =
    if ltb state.dynamic_config.version config.version
    then (rebuild_service_index (record state { dynamic_config = config }), persist config ∷ [])
    else (state, [])

abbrev pub persist_if : Bool → SharedState → List Effect
persist_if true state = persist state.dynamic_config ∷ []
persist_if false state = []

unfoldable pub merge_sync :
    ℕ → SharedState → DynamicConfig → List NodeInfo → Option String → SharedState × List Effect
unfolding adopt_config merge_nodes refresh
merge_sync now state config nodes contact_addr =
    let adopted = adopt_config state config in
    let merged = merge_nodes state.config.node_id now adopted.0.known_nodes nodes in
    let state' : SharedState = record adopted.0 {
      known_nodes = refresh now contact_addr merged.0;
    } in
    (state', adopted.1 ++ persist_if merged.1 state')

-- `NodeJoin`: a new address of a known node, or a new node.
unfoldable pub join_node : ℕ → Map String NodeInfo → String → String → Map String NodeInfo × Bool
join_node now kn id addr = elim (lookup id kn) [
  | some existing ↦
      if existing.addr == addr
      then (kn, false)
      else (insert id (record existing { addr = addr }) kn, true)
  | none ↦ (
    insert id
        (record { id = id; addr = addr; relay = none; last_seen = some now; health = unset_health })
        kn,
    true,
  )
]

unfoldable pub apply_message : ℕ → SharedState → Message → SharedState × List Effect
unfolding adopt_config join_node merge_sync is_valid_node_id
apply_message now state (config_update config) = adopt_config state config
apply_message now state (node_join id addr) =
    let joined = join_node now state.known_nodes id addr in
    let state' : SharedState = record state { known_nodes = joined.0 } in
    if is_valid_node_id id then (state', persist_if joined.1 state') else (state, [])
apply_message now state (node_leave id) =
    (record state { known_nodes = remove id state.known_nodes }, [])
apply_message now state (sync config nodes) = merge_sync now state config nodes none
apply_message now state _ = (state, [])

-- `snapshot_nodes`: the known nodes, with the node's own address and health.
unfoldable pub snapshot_nodes : SharedState → List NodeInfo
snapshot_nodes state =
    let nodes = values state.known_nodes in
    let self_addr = if state.config.outbound_only then "" else state.config.peer_addr in
    let is_self : NodeInfo → Bool = λ n. n.id == state.config.node_id in
    let listed : List NodeInfo = elim (find is_self nodes) [
      | some existing ↦
          update_first is_self (λ n. record n { addr = self_addr; health = state.local_health })
            nodes
      | none ↦
          nodes
          ++ record {
            id = state.config.node_id;
            addr = self_addr;
            relay = none;
            last_seen = none;
            health = state.local_health;
          }
            ∷ []
    ] in
    if is_set state.config.node_id then listed else nodes

unfoldable pub build_sync_msg : SharedState → Message
unfolding snapshot_nodes
build_sync_msg state = sync state.dynamic_config (snapshot_nodes state)

unfoldable pub peer_addrs_from : List String → List NodeInfo → List String
peer_addrs_from addrs [] = addrs
peer_addrs_from addrs (node ∷ nodes) =
    peer_addrs_from
      (if is_set node.addr && not (contains node.addr addrs)
        then addrs ++ node.addr ∷ []
        else addrs)
      nodes

unfoldable pub peer_addrs : SharedState → List String
unfolding peer_addrs_from
peer_addrs state = peer_addrs_from state.bootstrap_peers (values state.known_nodes)

unfoldable pub handle_status_request : SharedState → List Effect
unfolding snapshot_nodes
handle_status_request state =
    reply (
      status_response state.config.mode state.config.node_id state.config.bind state.dynamic_config
        (snapshot_nodes state))
    ∷ []

-- `handle_gossip_message`: a `Sync` is answered with the state after the merge.
unfoldable pub handle_gossip_message :
    ℕ → SharedState → String → Message → SharedState × List Effect
unfolding merge_sync apply_message build_sync_msg fix_unroutable_addrs
handle_gossip_message now state peer_addr (sync config nodes) =
    let fixed = if is_set peer_addr then fix_unroutable_addrs peer_addr nodes else nodes in
    let merged = merge_sync now state config fixed none in
    (merged.0, merged.1 ++ reply (build_sync_msg merged.0) ∷ [])
handle_gossip_message now state peer_addr other = apply_message now state other

-- `sync_with_peer`, from the reply on.
unfoldable pub sync_with_peer : ℕ → SharedState → String → Message → SharedState × List Effect
unfolding merge_sync fix_unroutable_addrs
sync_with_peer now state addr (sync config nodes) =
    merge_sync now state config (fix_unroutable_addrs addr nodes) (some addr)
sync_with_peer now state addr _ = (state, [])
