-- ===== src/Config/RouteOrder.antt =====
-- What a replacement of a service's routes does to the list of routes, and which paths a prefix
-- matches, for `set_routes` and `path_has_prefix` of src/config.rs.
use stouter.Prelude.{
  ℕ, String, Bool, true, false, not, ◌||◌, get_or, List, [], ◌∷◌, ◌++◌, filter, is_empty, length,
  min, suc, zero, string_key, nat_key, if◌then◌else◌, Result, ok, err, ◌>>◌, >>-ok, ◌≡◌, refl,
  arith, ◌↔◌, All, All-of, All-map, In-filter, filter-All, filter-append, Option-cases, inl, inr,
  ap, ◌∙◌,
}
use stouter.Config.{DynamicConfig, Route, Reason}
use stouter.Config.Mutate.{bump_version}
use stouter.Config.Text.{
  slash, strip_prefix, starts_with, ends_with, strip_prefix-append, strip_prefix-of,
}
use stouter.Config.Routes.{
  path_has_prefix, validate_routes, position, splice, of_service, replace_routes, set_routes,
  validate_route_target, map_err,
}
use stouter.Config.RouteValidity.{IsValid, validate_from-ok}

-- The rest of a path after a prefix starts at a segment's border.
abbrev pub AtBorder : List ℕ → List ℕ → Type 0
AtBorder prefix rest = (is_empty rest || ends_with slash prefix || starts_with slash rest) ≡ true

-- A prefix matches exactly the paths that continue it from the border of a segment.
pub path_has_prefix_iff :
    (path prefix : List ℕ)
    → (path_has_prefix path prefix ≡ true)
      ↔ ((rest : List ℕ) × (path ≡ prefix ++ rest) × AtBorder prefix rest)
unfolding path_has_prefix
path_has_prefix_iff path prefix = (
  (λ h. elim (Option-cases (strip_prefix path prefix)) [
    | inl e ↦ absurd (ground arith)
    | inr (rest, e) ↦ (rest, strip_prefix-append path prefix e, ground arith)
  ]),
  (λ c. let (rest, e, b) = c in rw (e, path_has_prefix, strip_prefix-of prefix rest) b),
)

append-[] : (rs : List Route) → rs ++ [] ≡ rs
append-[] [] = refl
append-[] (r ∷ rs) = ap (◌∷◌ r) (append-[] rs)

filter-false : (p : Route → Bool) (rs : List Route) → All (λ r. p r ≡ false) rs → filter p rs ≡ []
filter-false p [] h = refl
filter-false p (r ∷ rs) h = rw (h.0) (filter-false p rs h.1)

-- Placed routes are found by a test that they pass and the others fail, and the other way round.
filter-splice_new :
    (p : Route → Bool) (n : ℕ) (new rs : List Route)
    → All (λ r. p r ≡ true) new
    → All (λ r. p r ≡ false) rs
    → filter p (splice n new rs) ≡ new
unfolding splice
filter-splice_new p zero new rs all_new none_old =
    rw (filter-append p new rs, filter-All p new all_new, filter-false p rs none_old)
      (append-[] new)
filter-splice_new p (suc n) new [] all_new none_old = filter-All p new all_new
filter-splice_new p (suc n) new (r ∷ rs) all_new none_old =
    rw (none_old.0) (filter-splice_new p n new rs all_new none_old.1)

filter-splice_old :
    (p : Route → Bool) (n : ℕ) (new rs : List Route)
    → All (λ r. p r ≡ false) new
    → filter p (splice n new rs) ≡ filter p rs
unfolding splice
filter-splice_old p zero new rs none_new = rw (filter-append p new rs, filter-false p new none_new)
filter-splice_old p (suc n) new [] none_new = filter-false p new none_new
filter-splice_old p (suc n) new (r ∷ rs) none_new =
    ground (arith, filter-splice_old p n new rs none_new)

-- What the configuration is after a successful `set_routes`.
pub record Replaced (is_header_name : String → Bool) (c : DynamicConfig) (service : String)
    (routes : List Route) (c' : DynamicConfig) : Type 0 where
  pub own : filter (of_service service) c'.routes ≡ routes
  pub others :
      filter (λ r. not (of_service service r)) c'.routes
      ≡ filter (λ r. not (of_service service r)) c.routes
  pub valid : All (IsValid is_header_name service) routes
  pub version : c'.version ≡ bump_version c
  pub service_groups : c'.service_groups ≡ c.service_groups

not-true : {b : Bool} → not b ≡ true → b ≡ false
not-true {b = true} e = absurd (cc)
not-true {b = false} e = refl

replaced :
    (is_header_name : String → Bool) (c : DynamicConfig) (service : String) (routes : List Route)
    → validate_routes is_header_name service routes ≡ ok tt
    → Replaced is_header_name c service routes
        (record c { version = bump_version c; routes = replace_routes service routes c.routes })
unfolding validate_routes replace_routes
replaced is_header_name c service routes v =
    let valid = validate_from-ok is_header_name service 0 routes v in
    let mine = of_service service in
    let other : Route → Bool = λ r. not (mine r) in
    let at =
      min (get_or (position service c.routes) (length (filter other c.routes)))
        (length (filter other c.routes)) in
    record {
      own =
          filter-splice_new mine at routes (filter other c.routes)
            (All-map _ _ routes (λ r w. w.own) valid)
            (All-of _ (filter other c.routes) (λ r i. not-true (In-filter other c.routes i).1));
      others =
          filter-splice_old other at routes (filter other c.routes)
            (All-map _ _ routes (λ r w. ap not w.own) valid)
          ∙ filter-All other (filter other c.routes)
              (All-of _ (filter other c.routes) (λ r i. (In-filter other c.routes i).1));
      valid = valid;
      version = refl;
      service_groups = refl;
    }

map_err-ok : (m : Result Reason (Unit {0})) → map_err m ≡ ok tt → m ≡ ok tt
map_err-ok (ok u) h = refl
map_err-ok (err e) h = absurd (cc)

-- A successful `set_routes` was given valid routes; they are then the service's routes, in their
-- order, the routes of the other services are as they were, in their order, and the version is the
-- next one.
pub set_routes-Replaced :
    (is_header_name : String → Bool) (c c' : DynamicConfig) (service : String) (routes : List Route)
    → set_routes is_header_name c service routes ≡ ok c'
    → Replaced is_header_name c service routes c'
unfolding set_routes
set_routes-Replaced is_header_name c c' service routes h =
    let target = if is_empty routes then ok tt else map_err (validate_route_target c service) in
    let checked = map_err (validate_routes is_header_name service routes) in
    let done : DynamicConfig = record c {
      version = bump_version c;
      routes = replace_routes service routes c.routes;
    } in
    let (t1, h1) = >>-ok target {k = checked >> ok done} h in
    let (t2, h2) = >>-ok checked {k = ok done} h1 in
    let same : done ≡ c' = cc in
    rw (← same) (replaced is_header_name c service routes (map_err-ok _ t2))
