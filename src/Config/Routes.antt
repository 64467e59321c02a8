-- ===== src/Config/Routes.antt =====
-- Routes of src/config.rs: which requests they match, when a list of them is valid, and how a
-- service's routes are replaced. Which texts are header names is decided by the `http` crate, a
-- parameter here.
use stouter.Prelude.{
  ℕ, String, Bool, false, not, ◌||◌, Option, none, some, get_or, List, [], ◌∷◌, ◌++◌, Map, filter,
  any, all, is_empty, length, keys, lookup, min, suc, zero, ◌==◌, string_key, nat_key,
  if◌then◌else◌, Result, ok, err, ◌>>◌, fail_if,
}
use stouter.Config.{
  Service, ServiceGroup, DynamicConfig, Route, RouteMatch, RouteBackend, Label, label, Reason,
  other_service, no_backends, no_weight, bad_prefix, bad_method, bad_header, unknown_service,
  not_http, health_path_start, health_path_characters, MutateErr, invalid, is_tcp,
}
use stouter.Config.Mutate.{bump_version}
use stouter.Config.Text.{
  codes, slash, strip_prefix, starts_with, ends_with, is_ascii_uppercase, to_ascii_lowercase,
  is_unsafe,
}

abbrev has_value : Option String → String → Bool
has_value none v = false
has_value (some w) v = w == v

unfoldable pub labels_match : Map String String → Map String String → Bool
labels_match labels selector = all (λ e. has_value (lookup e.0 labels) e.1) selector

unfoldable pub path_has_prefix : List ℕ → List ℕ → Bool
path_has_prefix path prefix = elim (strip_prefix path prefix) [
  | some rest ↦ is_empty rest || ends_with slash prefix || starts_with slash rest
  | none ↦ false
]

-- `RouteMatch::matches`: `header` finds a value by a lowercase name.
unfoldable pub matches : RouteMatch → String → List ℕ → (List ℕ → Option String) → Bool
matches m method path header =
    let headers = all (λ e. has_value (header (to_ascii_lowercase (codes e.0))) e.1) m.headers in
    let methods : Bool = elim m.method [
      | none ↦ headers
      | some wanted ↦ if wanted == method then headers else false
    ] in
    elim m.path_prefix [
      | none ↦ methods
      | some prefix ↦ if path_has_prefix path (codes prefix) then methods else false
    ]

-- The parts of `validate_routes`, for the route at an index.
unfoldable pub check_prefix : Label → String → Option String → Result Reason (Unit {0})
check_prefix at service none = ok tt
check_prefix at service (some prefix) =
    fail_if (not (starts_with slash (codes prefix))) (bad_prefix at service prefix)

unfoldable pub check_method : Label → String → Option String → Result Reason (Unit {0})
check_method at service none = ok tt
check_method at service (some method) =
    fail_if (is_empty (codes method) || not (all is_ascii_uppercase (codes method)))
      (bad_method at service method)

unfoldable pub check_headers :
    (String → Bool) → Label → String → List String → Result Reason (Unit {0})
check_headers is_header_name at service [] = ok tt
check_headers is_header_name at service (name ∷ names) =
    fail_if (not (is_header_name name)) (bad_header at service name)
    >> check_headers is_header_name at service names

unfoldable pub check_route : (String → Bool) → String → ℕ → Route → Result Reason (Unit {0})
unfolding check_prefix check_method check_headers
check_route is_header_name service i r = do
  let at = label r i
  fail_if (not (r.service == service)) (other_service at service r.service)
  fail_if (is_empty r.backends) (no_backends at service)
  fail_if (all (λ (b : RouteBackend). b.weight == 0) r.backends) (no_weight at service)
  check_prefix at service r.matches.path_prefix
  check_method at service r.matches.method
  check_headers is_header_name at service (keys r.matches.headers)

unfoldable pub validate_routes_from :
    (String → Bool) → String → ℕ → List Route → Result Reason (Unit {0})
validate_routes_from is_header_name service i [] = ok tt
validate_routes_from is_header_name service i (r ∷ rs) =
    check_route is_header_name service i r >> validate_routes_from is_header_name service (suc i) rs

unfoldable pub validate_routes : (String → Bool) → String → List Route → Result Reason (Unit {0})
unfolding validate_routes_from
validate_routes is_header_name service = validate_routes_from is_header_name service 0

unfoldable pub validate_health_path : String → Result Reason (Unit {0})
validate_health_path path = do
  fail_if (not (starts_with slash (codes path))) (health_path_start path)
  fail_if (any is_unsafe (codes path)) (health_path_characters path)

-- `self.service_groups.iter().flat_map(|g| &g.services)`
unfoldable pub all_services : List ServiceGroup → List Service
all_services [] = []
all_services (g ∷ gs) = g.services ++ all_services gs

unfoldable pub validate_route_target : DynamicConfig → String → Result Reason (Unit {0})
unfolding all_services
validate_route_target c service = do
  let instances = filter (λ s. s.name == service) (all_services c.service_groups)
  fail_if (is_empty instances) (unknown_service service)
  fail_if (any (λ s. is_tcp s.protocol) instances) (not_http service)

-- `iter().position(|r| r.service == service)`
unfoldable pub position : String → List Route → Option ℕ
position service [] = none
position service (r ∷ rs) =
    let rest : Option ℕ = elim (position service rs) [ none ↦ none | some i ↦ some (suc i) ] in
    if r.service == service then some 0 else rest

-- `splice(at..at, new)`
unfoldable pub splice : ℕ → List Route → List Route → List Route
splice zero new rs = new ++ rs
splice (suc n) new [] = new
splice (suc n) new (r ∷ rs) = r ∷ splice n new rs

abbrev pub map_err : Result Reason (Unit {0}) → Result MutateErr (Unit {0})
map_err (ok u) = ok u
map_err (err e) = err (invalid e)

abbrev pub of_service : String → Route → Bool
of_service service r = r.service == service

unfoldable pub replace_routes : String → List Route → List Route → List Route
unfolding position splice
replace_routes service new rs =
    let others = filter (λ r. not (of_service service r)) rs in
    splice (min (get_or (position service rs) (length others)) (length others)) new others

unfoldable pub set_routes :
    (String → Bool) → DynamicConfig → String → List Route → Result MutateErr DynamicConfig
unfolding replace_routes
set_routes is_header_name c service routes = do
  if is_empty routes then ok tt else map_err (validate_route_target c service)
  map_err (validate_routes is_header_name service routes)
  ok (record c { version = bump_version c; routes = replace_routes service routes c.routes })
