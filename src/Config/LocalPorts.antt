-- ===== src/Config/LocalPorts.antt =====
-- What the checks of routes and ports in `Config::validate` of src/config.rs establish.
use stouter.Prelude.{
  ℕ, String, Bool, false, ◌&&◌, ◌||◌, Option, none, some, List, [], ◌∷◌, Map, lookup, insert,
  lookup-insert, ◌==◌, string_key, nat_key, ok, ◌≡◌, arith, All, All-map, Bool-cases, Option-cases,
  inl, inr, >>-ok, >>=-ok, filter,
}
use stouter.Config.{DynamicConfig}
use stouter.Config.Domains.{map_err-ok}
use stouter.Config.Ports.{local_port_for}
use stouter.Config.Routes.{of_service, validate_routes, validate_route_target}
use stouter.Config.Settings.{Config, Parsers, subscribes, api_port_of}
use stouter.Config.Validation.{
  Owner, rest_api, http_listener, service_named, bad_port, bad_routes, map_err, check_routed,
  claim_port, check_ports, own_ports, listener_ports,
}

abbrev pub Routed : (String → Bool) → DynamicConfig → String → Type 0
Routed is_header_name c service =
    (validate_route_target c service ≡ ok tt)
    × (validate_routes is_header_name service (filter (of_service service) c.routes) ≡ ok tt)

pub check_routed-ok :
    (is_header_name : String → Bool) (c : DynamicConfig) (services : List String)
    → check_routed is_header_name c services ≡ ok tt
    → All (Routed is_header_name c) services
unfolding check_routed
check_routed-ok is_header_name c [] h = tt
check_routed-ok is_header_name c (s ∷ ss) h =
    let routes = filter (of_service s) c.routes in
    let (target, h1) = >>-ok (map_err bad_routes (validate_route_target c s)) h in
    let (valid, h2) = >>-ok (map_err bad_routes (validate_routes is_header_name s routes)) h1 in
    (
      (
        map_err-ok bad_routes (validate_route_target c s) target,
        map_err-ok bad_routes (validate_routes is_header_name s routes) valid,
      ),
      check_routed-ok is_header_name c ss h2,
    )

-- The port of a service: none, or one that was free at the start and is the service's at the end.
pub data PortFits (c : DynamicConfig) (start taken : Map ℕ Owner) (name : String) : Type 0 where
  unset : local_port_for c name ≡ ok none → PortFits c start taken name
  fixed :
      (p : ℕ)
      → local_port_for c name ≡ ok (some p)
      → (p == 0) ≡ false
      → lookup p start ≡ none
      → lookup p taken ≡ some (service_named name)
      → PortFits c start taken name

abbrev pub Keep : Map ℕ Owner → Map ℕ Owner → Type 0
Keep m m' = (p : ℕ) (o : Owner) → lookup p m ≡ some o → lookup p m' ≡ some o

-- The map after the claim of a port.
data Claimed (name : String) (m : Map ℕ Owner) : Option ℕ → Map ℕ Owner → Type 0 where
  nothing : Claimed name m none m
  port :
      {p : ℕ}
      → (p == 0) ≡ false
      → lookup p m ≡ none
      → Claimed name m (some p) (insert p (service_named name) m)

claim_port-ok :
    (name : String) (o : Option ℕ) (m : Map ℕ Owner) {m' : Map ℕ Owner}
    → claim_port name o m ≡ ok m'
    → Claimed name m o m'
unfolding claim_port
claim_port-ok name none m {m'} h = let e : m ≡ m' = cc in rw (← e) nothing
claim_port-ok name (some p) m {m'} h = elim (Bool-cases (p == 0)) [
  | inl z ↦ absurd (ground arith)
  | inr z ↦ elim (Option-cases (lookup p m)) [
    | inl e ↦ let q : insert p (service_named name) m ≡ m' = ground arith in rw (← q) (port z e)
    | inr (other, e) ↦ absurd (ground arith)
  ]
]

pub record PortsOk (c : DynamicConfig) (m m' : Map ℕ Owner) (names : List String) : Type 0 where
  pub keep : Keep m m'
  pub fits : All (PortFits c m m') names

later-fits :
    (c : DynamicConfig) (name x : String) (p : ℕ) (m m' : Map ℕ Owner)
    → PortFits c (insert p (service_named name) m) m' x
    → PortFits c m m' x
later-fits c name x p m m' (unset e) = unset e
later-fits c name x p m m' (fixed q e z free own) =
    fixed q e z (ground (arith, lookup-insert p q (service_named name) m)) own

ports-step :
    (c : DynamicConfig) (name : String) (names : List String) (m : Map ℕ Owner) {o : Option ℕ}
    {m1 m' : Map ℕ Owner}
    → local_port_for c name ≡ ok o
    → Claimed name m o m1
    → PortsOk c m1 m' names
    → PortsOk c m m' (name ∷ names)
ports-step c name names m e nothing rest = record { keep = rest.keep; fits = (unset e, rest.fits) }
ports-step c name names m {m' = m'} e (port {p = p} z free) rest = record {
  keep = λ q o h. rest.keep q o (ground (arith, lookup-insert p q (service_named name) m));
  fits = (
    fixed p e z free (
        rest.keep p (service_named name)
          (ground (arith, lookup-insert p p (service_named name) m))),
    All-map (PortFits c (insert p (service_named name) m) m') (PortFits c m m') names
        (λ x f. later-fits c name x p m m' f) rest.fits,
  );
}

pub check_ports-ok :
    (c : DynamicConfig) (names : List String) (m : Map ℕ Owner) {m' : Map ℕ Owner}
    → check_ports c names m ≡ ok m'
    → PortsOk c m m' names
unfolding check_ports
check_ports-ok c [] m {m'} h = let e : m ≡ m' = cc in record { keep = rw e (λ p o q. q); fits = tt }
check_ports-ok c (name ∷ names) m h =
    let (o, h1, h2) = >>=-ok (map_err bad_port (local_port_for c name)) h in
    let (m1, h3, h4) = >>=-ok (claim_port name o m) h2 in
    ports-step c name names m (map_err-ok bad_port (local_port_for c name) h1)
      (claim_port-ok name o m h3) (check_ports-ok c names m1 h4)

module _ {F : Type 0} (world : Parsers F) where
  -- The port of the HTTP listener, if it is on a loopback or unspecified address.
  abbrev pub listens_at : Option String → ℕ → Bool
  listens_at none p = false
  listens_at (some listen) p = elim (world.parse_addr listen) [
    | none ↦ false
    | some addr ↦ addr.is_local && addr.port == p
  ]

  -- A port of the daemon's own listeners.
  abbrev pub is_reserved : Config F → ℕ → Bool
  is_reserved c p = (subscribes c.mode && api_port_of c == p) || listens_at c.http_listen p

  listener-reserved :
      (subscribing : Bool) (api : ℕ) (http_listen : Option String) {m : Map ℕ Owner} (p : ℕ)
      → listener_ports world subscribing api http_listen ≡ ok m
      → lookup p m ≡ none
      → ((subscribing && api == p) || listens_at http_listen p) ≡ false
  unfolding listener_ports lookup
  listener-reserved subscribing api none p h e = ground arith
  listener-reserved subscribing api (some listen) p h e =
      elim (Option-cases (world.parse_addr listen)) [
        | inl q ↦ absurd (ground arith)
        | inr (addr, q) ↦
            ground (arith, lookup-insert addr.port p http_listener ((api, rest_api) ∷ []))
      ]

  -- The ports that are taken from the start include the reserved ones.
  pub own_ports-reserved :
      (c : Config F) {m : Map ℕ Owner} (p : ℕ)
      → own_ports world c ≡ ok m
      → lookup p m ≡ none
      → is_reserved c p ≡ false
  unfolding own_ports
  own_ports-reserved c p h e =
      listener-reserved (subscribes c.mode) (api_port_of c) c.http_listen p h e
