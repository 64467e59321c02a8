-- ===== src/Config/Removal.antt =====
-- `remove_service` of src/config.rs: its errors and its effect.
use stouter.Prelude.{
  ◌+◌, ◌%◌, ◌^◌, String, true, false, not, ◌&&◌, none, some, List, [], ◌∷◌, filter, find, length,
  update_first, ◌==◌, string_key, nat_key, if◌then◌else◌, ok, err, length-filter-le, ◌≡◌, refl,
  arith, inl, inr, Option-cases,
}
use stouter.Config.{Service, ServiceGroup, DynamicConfig, group_not_found, service_not_found}
use stouter.Config.Mutate.{
  is_group, is_instance, without_instance, remove_service, with_groups, bump_version,
}
use stouter.Config.Groups.{instance_of, services_of-update, services_of-found}

find-without :
    (node node' name name' : String) (ss : List Service)
    → find (is_instance node' name') (filter (λ s. not (is_instance node name s)) ss)
      ≡ (if name == name' && node == node' then none else find (is_instance node' name') ss)
find-without node node' name name' [] = ground arith
find-without node node' name name' (s ∷ ss) = ground (arith, find-without node node' name name' ss)

-- Nothing is removed exactly where there is no such instance.
length-without :
    (node name : String) (ss : List Service)
    → length (filter (λ s. not (is_instance node name s)) ss) == length ss
      ≡ elim (find (is_instance node name) ss) [ none ↦ true | some s ↦ false ]
length-without node name [] = ground arith
length-without node name (s ∷ ss) =
    ground
      (arith, length-without node name ss, length-filter-le (λ s. not (is_instance node name s)) ss)

-- `d` is `c` one version on and without the instance; every other instance and all routes are kept.
pub record Removed (c d : DynamicConfig) (group node name : String) : Type 0 where
  pub version : d.version ≡ (c.version + 1) % 2 ^ 64
  pub routes : d.routes ≡ c.routes
  pub instances :
      (other node' name' : String)
      → instance_of d other node' name' ≡ (
          if group == other && (name == name' && node == node')
          then none
          else instance_of c other node' name')

pub data RemoveOutcome (c : DynamicConfig) (group node name : String) : Type 0 where
  no_group :
      find (is_group group) c.service_groups ≡ none
      → remove_service c group node name ≡ err (group_not_found group)
      → RemoveOutcome c group node name
  no_instance :
      (g : ServiceGroup)
      → find (is_group group) c.service_groups ≡ some g
      → instance_of c group node name ≡ none
      → remove_service c group node name ≡ err (service_not_found group node name)
      → RemoveOutcome c group node name
  done :
      (s : Service) (d : DynamicConfig)
      → instance_of c group node name ≡ some s
      → remove_service c group node name ≡ ok d
      → Removed c d group node name
      → RemoveOutcome c group node name

remove_service-Removed :
    (c : DynamicConfig) (group node name : String) (g : ServiceGroup)
    → find (is_group group) c.service_groups ≡ some g
    → Removed c
        (with_groups c
          (update_first (is_group group) (without_instance node name) c.service_groups))
        group
        node
        name
unfolding without_instance bump_version
remove_service-Removed c group node name g e = record {
  version = refl;
  routes = refl;
  instances = λ other node' name'.
      rw (services_of-update c group other (without_instance node name) g (λ x. refl) e) (
        ground
          (arith, services_of-found c group g e, find-without node node' name name' g.services));
}

-- A removal reports a missing group, reports a missing instance, or takes the instance out.
pub remove_service-Outcome :
    (c : DynamicConfig) (group node name : String) → RemoveOutcome c group node name
unfolding remove_service
remove_service-Outcome c group node name =
    elim (Option-cases (find (is_group group) c.service_groups)) [
      | inl e ↦ no_group e (rw (e, remove_service))
      | inr (g, e) ↦
          let at = services_of-found c group g e in
          let same = length-without node name g.services in
          elim (Option-cases (find (is_instance node name) g.services)) [
            | inl f ↦ no_instance g e (rw at f) (rw (e, remove_service) (ground (arith, same)))
            | inr (s, f) ↦
                done s _ (rw at f) (rw (e, remove_service) (ground (arith, same)))
                  (remove_service-Removed c group node name g e)
          ]
    ]
