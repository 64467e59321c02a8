-- ===== src/Config/Groups.antt =====
-- What the changes of the service groups do to every instance.
use mathlib.Core.Option
use stouter.Prelude.{
  String, true, ◌&&◌, Option, none, some, List, [], ◌∷◌, ◌++◌, find, update_first, ◌==◌, string_key,
  nat_key, if◌then◌else◌, find-append, ◌≡◌, arith, inl, inr, Option-cases,
}
use stouter.Config.{Service, ServiceGroup, DynamicConfig}
use stouter.Config.Mutate.{is_group, is_instance, upsert_into, upsert_service, with_groups}

-- The services of a group: of the first one with its name.
unfoldable pub services_of : DynamicConfig → String → List Service
services_of c group = elim (find (is_group group) c.service_groups) [
  | none ↦ []
  | some g ↦ g.services
]

-- The instance of a service on a node, in a group.
abbrev pub instance_of : DynamicConfig → String → String → String → Option Service
instance_of c group node name = find (is_instance node name) (services_of c group)

find-update_group :
    (group other : String) (f : ServiceGroup → ServiceGroup) (gs : List ServiceGroup)
    → ((x : ServiceGroup) → (f x).name ≡ x.name)
    → find (is_group other) (update_first (is_group group) f gs) ≡ (
        if group == other
        then Option.map f (find (is_group group) gs)
        else find (is_group other) gs)
unfolding update_first
find-update_group group other f [] keeps = ground arith
find-update_group group other f (g ∷ gs) keeps =
    ground (arith, find-update_group group other f gs keeps, keeps g)

-- A change of one group, by what it does to that group's services.
pub services_of-update :
    (c : DynamicConfig) (group other : String) (f : ServiceGroup → ServiceGroup) (g : ServiceGroup)
    → ((x : ServiceGroup) → (f x).name ≡ x.name)
    → find (is_group group) c.service_groups ≡ some g
    → services_of (with_groups c (update_first (is_group group) f c.service_groups)) other
      ≡ (if group == other then (f g).services else services_of c other)
unfolding services_of
services_of-update c group other f g keeps found =
    ground (arith, find-update_group group other f c.service_groups keeps)

services_of-push :
    (c : DynamicConfig) (group other : String) (services : List Service)
    → find (is_group group) c.service_groups ≡ none
    → services_of
        (with_groups c (c.service_groups ++ record { name = group; services = services } ∷ []))
        other
      ≡ (if group == other then services else services_of c other)
unfolding services_of
services_of-push c group other services absent = ground (
  arith,
  find-append (is_group other) c.service_groups (record { name = group; services = services } ∷ []),
)

pub services_of-found :
    (c : DynamicConfig) (group : String) (g : ServiceGroup)
    → find (is_group group) c.service_groups ≡ some g
    → services_of c group ≡ g.services
unfolding services_of
services_of-found c group g e = rw (e, services_of)

services_of-absent :
    (c : DynamicConfig) (group : String)
    → find (is_group group) c.service_groups ≡ none
    → services_of c group ≡ []
unfolding services_of
services_of-absent c group e = rw (e, services_of)

find-update_instance :
    (node node' name name' : String) (s : Service) (ss : List Service)
    → is_instance node name s ≡ true
    → find (is_instance node' name') (update_first (is_instance node name) (λ x. s) ss) ≡ (
        if name == name' && node == node'
        then Option.map (λ x. s) (find (is_instance node name) ss)
        else find (is_instance node' name') ss)
unfolding update_first
find-update_instance node node' name name' s [] h = ground arith
find-update_instance node node' name name' s (x ∷ ss) h =
    ground (arith, find-update_instance node node' name name' s ss h)

find-upsert_into :
    (service : Service) (g : ServiceGroup) (node name : String)
    → find (is_instance node name) (upsert_into service g).services ≡ (
        if is_instance node name service
        then some service
        else find (is_instance node name) g.services)
unfolding upsert_into
find-upsert_into service g node name = ground (
  arith,
  find-update_instance service.node_id node service.name name service g.services,
  find-append (is_instance node name) g.services (service ∷ []),
)

upsert_into-name : (service : Service) (g : ServiceGroup) → (upsert_into service g).name ≡ g.name
unfolding upsert_into
upsert_into-name service g = ground arith

-- After an upsert the instance is there as given, and every other instance is as it was.
pub instance_of-upsert_service :
    (c : DynamicConfig) (group other node name : String) (service : Service)
    → instance_of (upsert_service c group service) other node name ≡ (
        if group == other && is_instance node name service
        then some service
        else instance_of c other node name)
unfolding upsert_service
instance_of-upsert_service c group other node name service =
    elim (Option-cases (find (is_group group) c.service_groups)) [
      | inl e ↦
          rw (e, upsert_service, services_of-push c group other (service ∷ []) e)
            (ground (arith, services_of-absent c group e))
      | inr (g, e) ↦
          rw
            (
              e,
              upsert_service,
              services_of-update c group other (upsert_into service) g (upsert_into-name service) e,
            )
            (ground (arith, services_of-found c group g e, find-upsert_into service g node name))
    ]
