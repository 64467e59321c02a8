-- ===== src/Config/RouteValidity.antt =====
-- What `validate_routes` of src/config.rs makes sure of.
use stouter.Prelude.{
  ℕ, String, Bool, true, false, not, Option, none, some, get_or, List, [], ◌∷◌, all, is_empty, keys,
  suc, ◌==◌, string_key, nat_key, ok, ◌>>◌, fail_if, >>-ok, fail_if-ok, fail_if_then-ok, ◌≡◌, refl,
  arith, All, ap,
}
use stouter.Config.{
  Route, RouteBackend, Label, label, bad_header, other_service, no_backends, no_weight,
}
use stouter.Config.Text.{codes, slash, starts_with, is_ascii_uppercase}
use stouter.Config.Routes.{
  check_prefix, check_method, check_headers, check_route, validate_routes_from, of_service,
}

-- What a valid route of a service is.
pub record IsValid (is_header_name : String → Bool) (service : String) (r : Route) : Type 0 where
  pub own : of_service service r ≡ true
  pub backed : is_empty r.backends ≡ false
  pub weighted : all (λ (b : RouteBackend). b.weight == 0) r.backends ≡ false
  pub rooted : (p : String) → r.matches.path_prefix ≡ some p → starts_with slash (codes p) ≡ true
  pub spelled :
      (m : String)
      → r.matches.method ≡ some m
      → (is_empty (codes m) ≡ false) × (all is_ascii_uppercase (codes m) ≡ true)
  pub named : all is_header_name (keys r.matches.headers) ≡ true

check_prefix-ok :
    (at : Label) (service : String) (o : Option String)
    → check_prefix at service o ≡ ok tt
    → (p : String) → o ≡ some p
    → starts_with slash (codes p) ≡ true
unfolding check_prefix
check_prefix-ok at service none h p e = absurd (cc)
check_prefix-ok at service (some q) h p e =
    let t = fail_if-ok _ _ h in ground (arith, ap (λ o. starts_with slash (codes (get_or o ""))) e)

check_method-ok :
    (at : Label) (service : String) (o : Option String)
    → check_method at service o ≡ ok tt
    → (m : String) → o ≡ some m
    → (is_empty (codes m) ≡ false) × (all is_ascii_uppercase (codes m) ≡ true)
unfolding check_method
check_method-ok at service none h m e = absurd (cc)
check_method-ok at service (some q) h m e =
    let t = fail_if-ok _ _ h in let same : q ≡ m = cc in rw (← same) (ground arith)

check_headers-ok :
    (is_header_name : String → Bool) (at : Label) (service : String) (names : List String)
    → check_headers is_header_name at service names ≡ ok tt
    → all is_header_name names ≡ true
unfolding check_headers
check_headers-ok is_header_name at service [] h = refl
check_headers-ok is_header_name at service (n ∷ names) h =
    let (good, rest) =
      fail_if_then-ok (not (is_header_name n)) (bad_header at service n)
        (check_headers is_header_name at service names) h in
    ground (arith, check_headers-ok is_header_name at service names)

not-false : {b : Bool} → not b ≡ false → b ≡ true
not-false {b = true} e = refl
not-false {b = false} e = absurd (cc)

check_route-ok :
    (is_header_name : String → Bool) (service : String) (i : ℕ) (r : Route)
    → check_route is_header_name service i r ≡ ok tt
    → IsValid is_header_name service r
unfolding check_route
check_route-ok is_header_name service i r h =
    let at = label r i in
    let headers = check_headers is_header_name at service (keys r.matches.headers) in
    let methods = check_method at service r.matches.method >> headers in
    let prefixes = check_prefix at service r.matches.path_prefix >> methods in
    let no_weight_left = all (λ (b : RouteBackend). b.weight == 0) r.backends in
    let weights = fail_if no_weight_left (no_weight at service) >> prefixes in
    let backends = fail_if (is_empty r.backends) (no_backends at service) >> weights in
    let foreign = not (of_service service r) in
    let (t1, h1) = fail_if_then-ok foreign (other_service at service r.service) backends h in
    let (t2, h2) = fail_if_then-ok (is_empty r.backends) (no_backends at service) weights h1 in
    let (t3, h3) = fail_if_then-ok no_weight_left (no_weight at service) prefixes h2 in
    let (t4, h4) = >>-ok (check_prefix at service r.matches.path_prefix) {k = methods} h3 in
    let (t5, h5) = >>-ok (check_method at service r.matches.method) {k = headers} h4 in
    record {
      own = not-false t1;
      backed = t2;
      weighted = t3;
      rooted = check_prefix-ok at service r.matches.path_prefix t4;
      spelled = check_method-ok at service r.matches.method t5;
      named = check_headers-ok is_header_name at service (keys r.matches.headers) h5;
    }

pub validate_from-ok :
    (is_header_name : String → Bool) (service : String) (i : ℕ) (rs : List Route)
    → validate_routes_from is_header_name service i rs ≡ ok tt
    → All (IsValid is_header_name service) rs
unfolding validate_routes_from
validate_from-ok is_header_name service i [] h = tt
validate_from-ok is_header_name service i (r ∷ rs) h =
    let (t, rest) = >>-ok _ h in
    (
      check_route-ok is_header_name service i r t,
      validate_from-ok is_header_name service (suc i) rs rest,
    )
