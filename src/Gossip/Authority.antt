-- ===== src/Gossip/Authority.antt =====
-- Who can change a node's configuration with an admin request of src/gossip/mod.rs, and what then
-- happens.
use stouter.Prelude.{
  String, Bool, true, false, Option, none, some, List, [], ◌∷◌, ◌==◌, string_key, nat_key, ok, err,
  Result-cases, ◌≡◌, refl, arith, Bool-cases, inl, inr, Option-cases, find, In, any-some, any-at,
}
use stouter.Config.{Service, DynamicConfig, MutateErr}
use stouter.Config.Mutate.{bump_version, upsert_service, remove_service, rename_service, is_group}
use stouter.Config.RouteOrder.{set_routes-Replaced}
use stouter.State.{SharedState, rebuild_service_index}
use stouter.Gossip.{
  AdminOp, service_add, routes_set, service_rename, service_remove, unauthorized, validation,
  cn_not_allowed, subscribe_only, mutate, admin_ok, admin_err, config_update, Effect, persist,
  broadcast,
}
use stouter.Gossip.Admin.{
  apply_op, code_of, is_allowed, is_subscribe_only, answer, handle_admin_request,
}

upsert-version :
    (c : DynamicConfig) (group : String) (svc : Service)
    → (upsert_service c group svc).version ≡ bump_version c
unfolding upsert_service
upsert-version c group svc = elim (Option-cases (find (is_group group) c.service_groups)) [
  | inl e ↦ rw (e, upsert_service)
  | inr (g, e) ↦ rw (e, upsert_service)
]

remove-version :
    (c d : DynamicConfig) (group node name : String)
    → remove_service c group node name ≡ ok d
    → d.version ≡ bump_version c
unfolding remove_service
remove-version c d group node name h = ground arith

rename-version :
    (c d : DynamicConfig) (group node from to : String)
    → rename_service c group node from to ≡ ok d
    → d.version ≡ bump_version c
unfolding rename_service
rename-version c d group node from to h = ground arith

-- Every change that succeeds takes the next version.
apply_op-version :
    (is_header_name : String → Bool) (c d : DynamicConfig) (op : AdminOp)
    → apply_op is_header_name c op ≡ ok d
    → d.version ≡ bump_version c
unfolding apply_op
apply_op-version is_header_name c d (service_add group svc) h =
    ground (arith, upsert-version c group svc)
apply_op-version is_header_name c d (routes_set service routes) h =
    let r = set_routes-Replaced is_header_name c d service routes h in r.version
apply_op-version is_header_name c d (service_rename group node from to) h =
    rename-version c d group node from to h
apply_op-version is_header_name c d (service_remove group node name) h =
    remove-version c d group node name h

-- The peer's certificate names a member of the allowlist.
abbrev pub IsMember : SharedState → Option String → Type 0
IsMember s cn = (name : String) × (cn ≡ some name) × In name s.config.admin_cns

-- Every outcome of an admin request, with the state and the effects after it.
pub data AdminOutcome (is_header_name : String → Bool) (s : SharedState) (cn : Option String)
    (op : AdminOp) : SharedState × List Effect → Type 0 where
  denied :
      ¬ IsMember s cn
      → AdminOutcome is_header_name s cn op (s, answer (admin_err unauthorized cn_not_allowed) ∷ [])
  unsupported :
      IsMember s cn
      → is_subscribe_only s.config.mode ≡ true
      → AdminOutcome is_header_name s cn op (s, answer (admin_err validation subscribe_only) ∷ [])
  refused :
      IsMember s cn
      → is_subscribe_only s.config.mode ≡ false
      → (e : MutateErr) → apply_op is_header_name s.dynamic_config op ≡ err e
      → AdminOutcome is_header_name s cn op (s, answer (admin_err (code_of e) (mutate e)) ∷ [])
  applied :
      IsMember s cn
      → is_subscribe_only s.config.mode ≡ false
      → (d : DynamicConfig) → apply_op is_header_name s.dynamic_config op ≡ ok d
      → d.version ≡ bump_version s.dynamic_config
      → AdminOutcome is_header_name s cn op (
        rebuild_service_index (record s { dynamic_config = d }),
        persist d ∷ broadcast (config_update d) ∷ answer (admin_ok d.version) ∷ [],
      )

member : (s : SharedState) (cn : Option String) → is_allowed s cn ≡ true → IsMember s cn
unfolding is_allowed
member s none h = absurd (cc)
member s (some name) h =
    let (a, i, e) = any-some (λ a. a == name) s.config.admin_cns h in
    let p : a ≡ name = ground arith in (name, refl, rw (← p) i)

allowed : (s : SharedState) (cn : Option String) → IsMember s cn → is_allowed s cn ≡ true
unfolding is_allowed
allowed s cn (name, e, i) = rw (is_allowed, e) (any-at (λ a. a == name) i (ground arith))

-- An admin request changes the configuration, writes it to the file and broadcasts it exactly where
-- the peer's certificate names a member of the allowlist, the node is not subscribe-only and the
-- change succeeds; the new version is then the next one, and the reply says it. In every other case
-- the state is as it was and the only effect is a reply with the reason.
pub handle_admin_request-Outcome :
    (is_header_name : String → Bool) (s : SharedState) (cn : Option String) (op : AdminOp)
    → AdminOutcome is_header_name s cn op (handle_admin_request is_header_name s cn op)
unfolding handle_admin_request
handle_admin_request-Outcome is_header_name s cn op = elim (Bool-cases (is_allowed s cn)) [
  | inr e ↦ rw e (denied (λ m. absurd (ground (arith, allowed s cn m))))
  | inl e ↦ elim (Bool-cases (is_subscribe_only s.config.mode)) [
    | inl f ↦ rw (e, f) (unsupported (member s cn e) f)
    | inr f ↦ elim (Result-cases (apply_op is_header_name s.dynamic_config op)) [
      | inl (d, g) ↦
          rw (e, f, g)
            (applied (member s cn e) f d g
              (apply_op-version is_header_name s.dynamic_config d op g))
      | inr (r, g) ↦ rw (e, f, g) (refused (member s cn e) f r g)
    ]
  ]
]
