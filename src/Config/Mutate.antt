-- ===== src/Config/Mutate.antt =====
-- `impl DynamicConfig` of src/config.rs: changes of the service groups. A version is a `u64`.
use stouter.Prelude.{
  ℕ, ◌+◌, ◌%◌, ◌^◌, String, Bool, not, ◌&&◌, none, some, List, [], ◌∷◌, ◌++◌, filter, any, find,
  length, update_first, ◌==◌, string_key, nat_key, if◌then◌else◌, Result, ok, err,
}
use stouter.Config.{
  Service, ServiceGroup, DynamicConfig, MutateErr, group_not_found, service_not_found,
  duplicate_service,
}

abbrev pub is_group : String → ServiceGroup → Bool
is_group group g = g.name == group

-- `s.name == name && s.node_id == node`
abbrev pub is_instance : String → String → Service → Bool
is_instance node name s = s.name == name && s.node_id == node

unfoldable pub bump_version : DynamicConfig → ℕ
bump_version c = (c.version + 1) % 2 ^ 64

-- The new groups with the version raised.
abbrev pub with_groups : DynamicConfig → List ServiceGroup → DynamicConfig
with_groups c groups = record c { version = bump_version c; service_groups = groups }

unfoldable pub upsert_into : Service → ServiceGroup → ServiceGroup
upsert_into service g =
    let same = is_instance service.node_id service.name in
    elim (find same g.services) [
      | some existing ↦ record g { services = update_first same (λ s. service) g.services }
      | none ↦ record g { services = g.services ++ service ∷ [] }
    ]

-- `upsert_service`; the returned version is the new configuration's.
unfoldable pub upsert_service : DynamicConfig → String → Service → DynamicConfig
unfolding upsert_into
upsert_service c group service = elim (find (is_group group) c.service_groups) [
  | some g ↦ with_groups c (update_first (is_group group) (upsert_into service) c.service_groups)
  | none ↦ with_groups c (c.service_groups ++ record { name = group; services = service ∷ [] } ∷ [])
]

-- `g.services.retain(|s| !(s.name == name && s.node_id == owner_node_id))`
unfoldable pub without_instance : String → String → ServiceGroup → ServiceGroup
without_instance node name g = record g {
  services = filter (λ s. not (is_instance node name s)) g.services;
}

unfoldable pub remove_service :
    DynamicConfig → String → String → String → Result MutateErr DynamicConfig
unfolding without_instance
remove_service c group node name = elim (find (is_group group) c.service_groups) [
  | none ↦ err (group_not_found group)
  | some g ↦
      if length (without_instance node name g).services == length g.services
      then err (service_not_found group node name)
      else ok (
          with_groups c
            (update_first (is_group group) (without_instance node name) c.service_groups))
]

unfoldable pub renamed : String → Service → Service
renamed to s = record s { name = to }

unfoldable pub rename_in : String → String → String → ServiceGroup → ServiceGroup
rename_in node from to g = record g {
  services = update_first (is_instance node from) (renamed to) g.services;
}

unfoldable pub rename_service :
    DynamicConfig → String → String → String → String → Result MutateErr DynamicConfig
unfolding rename_in
rename_service c group node from to = elim (find (is_group group) c.service_groups) [
  | none ↦ err (group_not_found group)
  | some g ↦
      if any (is_instance node to) g.services
      then err (duplicate_service group node to)
      else elim (find (is_instance node from) g.services) [
        | none ↦ err (service_not_found group node from)
        | some s ↦ ok (
            with_groups c (update_first (is_group group) (rename_in node from to) c.service_groups))
      ]
]
