-- ===== src/State/Indexes.antt =====
-- What the indexes of src/state.rs find, by the configuration they were built from.
use stouter.Prelude.{
  String, Bool, Option, none, some, get_or, List, [], ◌∷◌, ◌++◌, Map, lookup, filter, filter-append,
  insert, string_key, text_dec, if◌then◌else◌, ◌≡◌, refl, ap, arith, lookup-insert, sym, ◌∙◌,
}
use stouter.Config.{Service, ServiceGroup, Route, DynamicConfig}
use stouter.Config.Mutate.{is_instance}
use stouter.Config.Routes.{all_services, of_service}
use stouter.State.{
  instance_key, pair_eq, index_group, index_groups, build_service_index, index_routes,
  build_route_index,
}

-- The last service of a list that passes a test, or what was there before.
unfoldable pub find_last_or : Option Service → (Service → Bool) → List Service → Option Service
find_last_or before p [] = before
find_last_or before p (s ∷ ss) = find_last_or (if p s then some s else before) p ss

find_last_or-append :
    (before : Option Service) (p : Service → Bool) (ss ts : List Service)
    → find_last_or before p (ss ++ ts) ≡ find_last_or (find_last_or before p ss) p ts
unfolding find_last_or
find_last_or-append before p [] ts = refl
find_last_or-append before p (s ∷ ss) ts =
    find_last_or-append (if p s then some s else before) p ss ts

lookup-insert_service :
    (node name : String) (s : Service) (idx : Map (String × String) Service)
    → lookup (node, name) (insert (s.node_id, s.name) s idx)
      ≡ (if is_instance node name s then some s else lookup (node, name) idx)
lookup-insert_service node name s idx =
    lookup-insert (s.node_id, s.name) (node, name) s idx
    ∙ ground (arith, pair_eq s.node_id s.name node name)

lookup-index_group :
    (node name : String) (ss : List Service) (idx : Map (String × String) Service)
    → lookup (node, name) (index_group ss idx)
      ≡ find_last_or (lookup (node, name) idx) (is_instance node name) ss
unfolding index_group find_last_or
lookup-index_group node name [] idx = refl
lookup-index_group node name (s ∷ ss) idx =
    lookup-index_group node name ss (insert (s.node_id, s.name) s idx)
    ∙ ap (λ o. find_last_or o (is_instance node name) ss) (lookup-insert_service node name s idx)

lookup-index_groups :
    (node name : String) (gs : List ServiceGroup) (idx : Map (String × String) Service)
    → lookup (node, name) (index_groups gs idx)
      ≡ find_last_or (lookup (node, name) idx) (is_instance node name) (all_services gs)
unfolding index_groups all_services find_last_or
lookup-index_groups node name [] idx = refl
lookup-index_groups node name (g ∷ gs) idx =
    lookup-index_groups node name gs (index_group g.services idx)
    ∙ ap (λ o. find_last_or o (is_instance node name) (all_services gs))
        (lookup-index_group node name g.services idx)
    ∙ sym (
        find_last_or-append (lookup (node, name) idx) (is_instance node name) g.services
          (all_services gs))

-- The index finds for a node and a name the last such service of the configuration, over all
-- groups in their order, and nothing else.
pub lookup-build_service_index :
    (dc : DynamicConfig) (node name : String)
    → lookup (node, name) (build_service_index dc)
      ≡ find_last_or none (is_instance node name) (all_services dc.service_groups)
unfolding build_service_index lookup
lookup-build_service_index dc node name = lookup-index_groups node name dc.service_groups []

append_assoc : (a b c : List Route) → (a ++ b) ++ c ≡ a ++ (b ++ c)
append_assoc [] b c = refl
append_assoc (x ∷ a) b c = ap (◌∷◌ x) (append_assoc a b c)

append-[] : (rs : List Route) → rs ++ [] ≡ rs
append-[] [] = refl
append-[] (r ∷ rs) = ap (◌∷◌ r) (append-[] rs)

-- The routes that the index holds for a service.
abbrev pub routes_at : Map String (List Route) → String → List Route
routes_at idx service = get_or (lookup service idx) []

routes_at-insert :
    (service : String) (r : Route) (idx : Map String (List Route))
    → routes_at (insert r.service (routes_at idx r.service ++ r ∷ []) idx) service
      ≡ routes_at idx service ++ filter (of_service service) (r ∷ [])
routes_at-insert service r idx =
    let e = lookup-insert r.service service (routes_at idx r.service ++ r ∷ []) idx in
    elim (text_dec r.service service) [
      | yes p ↦ ground (arith, e, p, ap (routes_at idx) p)
      | no n ↦ ground (arith, e, append-[] (routes_at idx service))
    ]

routes_at-index :
    (service : String) (rs : List Route) (idx : Map String (List Route))
    → routes_at (index_routes rs idx) service
      ≡ routes_at idx service ++ filter (of_service service) rs
unfolding index_routes
routes_at-index service [] idx = sym (append-[] _)
routes_at-index service (r ∷ rs) idx =
    routes_at-index service rs (insert r.service (routes_at idx r.service ++ r ∷ []) idx)
    ∙ ap (λ x. x ++ filter (of_service service) rs) (routes_at-insert service r idx)
    ∙ append_assoc (routes_at idx service) (filter (of_service service) (r ∷ []))
        (filter (of_service service) rs)
    ∙ ap (λ x. routes_at idx service ++ x) (sym (filter-append (of_service service) (r ∷ []) rs))

-- The index holds for a service its routes, in the order in which they are tried.
pub routes_at-build_route_index :
    (dc : DynamicConfig) (service : String)
    → routes_at (build_route_index dc) service ≡ filter (of_service service) dc.routes
unfolding build_route_index lookup
routes_at-build_route_index dc service = routes_at-index service dc.routes []
