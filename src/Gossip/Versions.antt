-- ===== src/Gossip/Versions.antt =====
-- How the configuration of a node of src/gossip/mod.rs moves on over all that can happen to it.
use stouter.Prelude.{
  Map, ℕ, ◌+◌, ◌^◌, ◌<◌, String, Bool, Option, none, some, List, ltb, string_key, nat_key,
  if◌then◌else◌, ◌≡◌, refl, ◌⊎◌, inl, inr, arith, Bool-cases, if_all, ltb→lt, ◌∙◌, ap,
}
use stouter.Config.{DynamicConfig, NodeInfo}
use stouter.Config.Mutate.{bump_version}
use stouter.State.{SharedState, rebuild_service_index, build_service_index, build_route_index}
use stouter.Gossip.{
  AdminOp, Message, sync, config_update, node_join, node_leave, tunnel_request,
  reverse_registration, status_request, status_response, mux_tunnel, admin_request, admin_response,
  Effect,
}
use stouter.Gossip.Merge.{
  is_set, adopt_config, merge_sync, apply_message, handle_gossip_message, sync_with_peer,
  is_valid_node_id,
}
use stouter.Gossip.Addresses.{fix_unroutable_addrs}
use stouter.Gossip.Authority.{
  AdminOutcome, denied, unsupported, refused, applied, handle_admin_request-Outcome,
}
use stouter.Gossip.Admin.{handle_admin_request, poll_config}

-- The indexes are those of the configuration in force.
pub record IsIndexed (s : SharedState) : Type 0 where
  pub services : s.service_index ≡ build_service_index s.dynamic_config
  pub by_service : s.routes ≡ build_route_index s.dynamic_config

-- The configuration is kept, or replaced by one of a higher version.
abbrev pub Advanced : DynamicConfig → DynamicConfig → Type 0
Advanced c d = (d ≡ c) ⊎ (c.version < d.version)

-- Such a change, after which the indexes are right if they were.
pub record Advance (s t : SharedState) : Type 0 where
  pub config : Advanced s.dynamic_config t.dynamic_config
  pub indexed : IsIndexed s → IsIndexed t

Advance-refl : (s : SharedState) → Advance s s
Advance-refl s = record { config = inl refl; indexed = λ i. i }

rebuilt :
    (s : SharedState) (c : DynamicConfig)
    → s.dynamic_config.version < c.version
    → Advance s (rebuild_service_index (record s { dynamic_config = c }))
unfolding rebuild_service_index
rebuilt s c h = record {
  config = inr h;
  indexed = λ i. record { services = refl; by_service = refl };
}

adopt_config-Advance : (s : SharedState) (c : DynamicConfig) → Advance s (adopt_config s c).0
unfolding adopt_config
adopt_config-Advance s c = elim (Bool-cases (ltb s.dynamic_config.version c.version)) [
  | inl e ↦ rw e (rebuilt s c (ltb→lt s.dynamic_config.version c.version e))
  | inr e ↦ rw e (Advance-refl s)
]

merge_sync-Advance :
    (now : ℕ) (s : SharedState) (c : DynamicConfig) (nodes : List NodeInfo)
    (contact : Option String)
    → Advance s (merge_sync now s c nodes contact).0
unfolding merge_sync
merge_sync-Advance now s c nodes contact =
    let a = adopt_config-Advance s c in
    record {
      config = a.config;
      indexed =
          λ i. record { services = (a.indexed i).services; by_service = (a.indexed i).by_service };
    }

-- Other nodes' entries do not matter here.
with_nodes :
    (s : SharedState) (kn : Map String NodeInfo) → Advance s (record s { known_nodes = kn })
with_nodes s kn = record {
  config = inl refl;
  indexed = λ i. record { services = i.services; by_service = i.by_service };
}

apply_message-Advance :
    (now : ℕ) (s : SharedState) (m : Message) → Advance s (apply_message now s m).0
unfolding apply_message
apply_message-Advance now s (config_update c) = adopt_config-Advance s c
apply_message-Advance now s (node_join id addr) =
    if_all (λ (r : SharedState × List Effect). Advance s r.0) (is_valid_node_id id) (with_nodes s _)
      (Advance-refl s)
apply_message-Advance now s (node_leave id) = with_nodes s _
apply_message-Advance now s (sync c nodes) = merge_sync-Advance now s c nodes none
apply_message-Advance now s (tunnel_request a b n) = Advance-refl s
apply_message-Advance now s (reverse_registration a n) = Advance-refl s
apply_message-Advance now s status_request = Advance-refl s
apply_message-Advance now s (status_response a b d e f) = Advance-refl s
apply_message-Advance now s mux_tunnel = Advance-refl s
apply_message-Advance now s (admin_request op) = Advance-refl s
apply_message-Advance now s (admin_response r) = Advance-refl s

handle_gossip_message-Advance :
    (now : ℕ) (s : SharedState) (peer : String) (m : Message)
    → Advance s (handle_gossip_message now s peer m).0
unfolding handle_gossip_message
handle_gossip_message-Advance now s peer (sync c nodes) =
    merge_sync-Advance now s c (if is_set peer then fix_unroutable_addrs peer nodes else nodes) none
handle_gossip_message-Advance now s peer (config_update c) = adopt_config-Advance s c
handle_gossip_message-Advance now s peer (node_join id addr) =
    apply_message-Advance now s (node_join id addr)
handle_gossip_message-Advance now s peer (node_leave id) =
    apply_message-Advance now s (node_leave id)
handle_gossip_message-Advance now s peer (tunnel_request a b n) = Advance-refl s
handle_gossip_message-Advance now s peer (reverse_registration a n) = Advance-refl s
handle_gossip_message-Advance now s peer status_request = Advance-refl s
handle_gossip_message-Advance now s peer (status_response a b d e f) = Advance-refl s
handle_gossip_message-Advance now s peer mux_tunnel = Advance-refl s
handle_gossip_message-Advance now s peer (admin_request op) = Advance-refl s
handle_gossip_message-Advance now s peer (admin_response r) = Advance-refl s

sync_with_peer-Advance :
    (now : ℕ) (s : SharedState) (addr : String) (m : Message)
    → Advance s (sync_with_peer now s addr m).0
unfolding sync_with_peer
sync_with_peer-Advance now s addr (sync c nodes) =
    merge_sync-Advance now s c (fix_unroutable_addrs addr nodes) (some addr)
sync_with_peer-Advance now s addr (config_update c) = Advance-refl s
sync_with_peer-Advance now s addr (node_join id a) = Advance-refl s
sync_with_peer-Advance now s addr (node_leave id) = Advance-refl s
sync_with_peer-Advance now s addr (tunnel_request a b n) = Advance-refl s
sync_with_peer-Advance now s addr (reverse_registration a n) = Advance-refl s
sync_with_peer-Advance now s addr status_request = Advance-refl s
sync_with_peer-Advance now s addr (status_response a b d e f) = Advance-refl s
sync_with_peer-Advance now s addr mux_tunnel = Advance-refl s
sync_with_peer-Advance now s addr (admin_request op) = Advance-refl s
sync_with_peer-Advance now s addr (admin_response r) = Advance-refl s

bump-lt : (c : DynamicConfig) → c.version + 1 < 2 ^ 64 → c.version < bump_version c
unfolding bump_version
bump-lt c h = omega arith

handle_admin_request-Advance :
    (is_header_name : String → Bool) (s : SharedState) (cn : Option String) (op : AdminOp)
    → s.dynamic_config.version + 1 < 2 ^ 64
    → Advance s (handle_admin_request is_header_name s cn op).0
handle_admin_request-Advance is_header_name s cn op bound =
    by_outcome (handle_admin_request-Outcome is_header_name s cn op)
  where
    by_outcome :
        {r : SharedState × List Effect} → AdminOutcome is_header_name s cn op r → Advance s r.0
    by_outcome (denied outside) = Advance-refl s
    by_outcome (unsupported member mode) = Advance-refl s
    by_outcome (refused member mode e failed) = Advance-refl s
    by_outcome (applied member mode d done version) =
        rebuilt s d (omega (arith, version, bump-lt s.dynamic_config bound))

poll_config-Advance :
    (s : SharedState) (warned : Option (ℕ × ℕ)) (file : Option DynamicConfig)
    → s.dynamic_config.version + 1 < 2 ^ 64
    → Advance s (poll_config s warned file).0.0
unfolding poll_config
poll_config-Advance s warned none bound = Advance-refl s
poll_config-Advance s warned (some file) bound =
    elim (Bool-cases (ltb s.dynamic_config.version file.version)) [
      | inl e ↦ rw e (rebuilt s file (ltb→lt s.dynamic_config.version file.version e))
      | inr e ↦ rw e (
          if_all (λ (r : (SharedState × List Effect) × Option (ℕ × ℕ)). Advance s r.0.0) _
            (rebuilt s _ (omega arith)) (Advance-refl s))
    ]

-- What can change the configuration of a running node, each below the last version of a `u64`.
pub data Step : SharedState → SharedState → Type 0 where
  received :
      {s : SharedState} (now : ℕ) (peer : String) (m : Message)
      → Step s (handle_gossip_message now s peer m).0
  synced :
      {s : SharedState} (now : ℕ) (addr : String) (m : Message)
      → Step s (sync_with_peer now s addr m).0
  administered :
      {s : SharedState} (is_header_name : String → Bool) (cn : Option String) (op : AdminOp)
      → s.dynamic_config.version + 1 < 2 ^ 64
      → Step s (handle_admin_request is_header_name s cn op).0
  polled :
      {s : SharedState} (warned : Option (ℕ × ℕ)) (file : Option DynamicConfig)
      → s.dynamic_config.version + 1 < 2 ^ 64
      → Step s (poll_config s warned file).0.0

Step-Advance : {s t : SharedState} → Step s t → Advance s t
Step-Advance (received {s} now peer m) = handle_gossip_message-Advance now s peer m
Step-Advance (synced {s} now addr m) = sync_with_peer-Advance now s addr m
Step-Advance (administered {s} is_header_name cn op bound) =
    handle_admin_request-Advance is_header_name s cn op bound
Step-Advance (polled {s} warned file bound) = poll_config-Advance s warned file bound

pub data Steps (s : SharedState) : SharedState → Type 0 where
  start : Steps s s
  next : {t u : SharedState} → Steps s t → Step t u → Steps s u

Advanced-trans : (a b c : DynamicConfig) → Advanced a b → Advanced b c → Advanced a c
Advanced-trans a b c (inl p) (inl q) = inl (q ∙ p)
Advanced-trans a b c (inl p) (inr k) = inr (omega (arith, ap (λ (x : DynamicConfig). x.version) p))
Advanced-trans a b c (inr h) (inl q) = inr (omega (arith, ap (λ (x : DynamicConfig). x.version) q))
Advanced-trans a b c (inr h) (inr k) = inr (omega arith)

-- Over any sequence of messages, syncs, admin requests and polls of the file, the last two below the
-- last version of a `u64`, the configuration is the same as before or has a higher version: none is
-- rolled back, and none changes under its version. The indexes are those of the configuration in
-- force if they were at the start.
pub Steps-Advance : {s t : SharedState} → Steps s t → Advance s t
Steps-Advance start = Advance-refl _
Steps-Advance (next {t} {u} r step) =
    let a = Steps-Advance r in
    let b = Step-Advance step in
    record {
      config = Advanced-trans _ _ _ a.config b.config;
      indexed = λ i. b.indexed (a.indexed i);
    }
