-- ===== src/Config/Soundness.antt =====
-- What holds of a configuration that `Config::validate` of src/config.rs accepts.
use stouter.Prelude.{
  ℕ, String, Bool, true, false, not, Option, none, some, List, [], Map, map, lookup, In, ◌==◌,
  string_key, nat_key, Result, ok, ◌>>◌, fail_if, ◌≡◌, refl, sym, arith, All, All-at, All-of,
  filter, filter-In, Distinct, Bool-cases, Option-cases, inl, inr, >>-ok, >>=-ok, fail_if-ok,
  contains-In, In-contains, In-map, ◌∙◌,
}
use stouter.Config.{DynamicConfig, Service, ServiceGroup, Route}
use stouter.Config.Domains.{map_err-ok, Owned, HasPath, instances, check_groups-ok}
use stouter.Config.LocalPorts.{
  Routed, check_routed-ok, PortFits, unset, fixed, check_ports-ok, is_reserved, own_ports-reserved,
}
use stouter.Config.Names.{contains-names}
use stouter.Config.Ports.{local_port_for}
use stouter.Config.Routes.{all_services, of_service, validate_routes, validate_route_target}
use stouter.Config.RouteValidity.{IsValid, validate_from-ok}
use stouter.Config.Settings.{
  Config, Parsers, TracingConfig, SubscribeFilter, Uri, BadTracing, subscribes, check_scheme,
  check_host, validate_tracing,
}
use stouter.Config.Validation.{
  check_groups, Owner, service_named, Invalid, bad_tracing, map_err, validate, check_tracing,
  check_filter, check_routed, check_ports, own_ports, each,
}
use stouter.State.{instance_key}

-- Every element of the list is among the names that are looked at.
each-In : (x : String) (names : List String) → In x names → In x (each names)
each-In x names i = In-contains x (each names) (contains-names x names ∙ contains-In x i)

module _ {F : Type 0} (world : Parsers F) where
  abbrev pub RouteFits : DynamicConfig → Route → Type 0
  RouteFits c r =
      (validate_route_target c r.service ≡ ok tt) × IsValid world.is_header_name r.service r

  pub data ServicePort (c : Config F) (port_owner : Map ℕ Owner) (s : Service) : Type 0 where
    random : local_port_for c.dynamic_config s.name ≡ ok none → ServicePort c port_owner s
    own :
        (p : ℕ)
        → local_port_for c.dynamic_config s.name ≡ ok (some p)
        → (p == 0) ≡ false
        → is_reserved world c p ≡ false
        → lookup p port_owner ≡ some (service_named s.name)
        → ServicePort c port_owner s

  pub data TracingFits : Option (TracingConfig F) → Type 0 where
    untraced : TracingFits none
    traced :
        {t : TracingConfig F} {host : String} (uri : Uri)
        → world.parse_uri t.otlp_endpoint ≡ some uri
        → uri.scheme ≡ some "http"
        → uri.host ≡ some host
        → world.in_unit t.sample_ratio ≡ true
        → TracingFits (some t)

  pub data FilterFits (mode : Bool) : Option SubscribeFilter → Type 0 where
    unfiltered : FilterFits mode none
    filtered : {f : SubscribeFilter} → mode ≡ true → FilterFits mode (some f)

  -- The invariants of a node's configuration.
  pub record WellFormed (c : Config F) : Type 0 where
    pub domain_owner : Map String String
    pub port_owner : Map ℕ Owner
    pub groups_distinct :
        Distinct (map (λ (g : ServiceGroup). g.name) c.dynamic_config.service_groups)
    pub instances_distinct :
        All (λ (g : ServiceGroup). Distinct (instances g.services)) c.dynamic_config.service_groups
    pub paths : All HasPath (all_services c.dynamic_config.service_groups)
    pub domains : All (Owned domain_owner) (all_services c.dynamic_config.service_groups)
    pub routes : All (RouteFits c.dynamic_config) c.dynamic_config.routes
    pub ports : All (ServicePort c port_owner) (all_services c.dynamic_config.service_groups)
    pub tracing : TracingFits c.tracing
    pub filter : FilterFits (subscribes c.mode) c.subscribe_filter

  routes-fit :
      (c : DynamicConfig)
      → All (Routed world.is_header_name c) (each (map (λ r. r.service) c.routes))
      → All (RouteFits c) c.routes
  unfolding validate_routes
  routes-fit c h = All-of (RouteFits c) c.routes (λ r i.
      let service = r.service in
      let (target, valid) =
        All-at (Routed world.is_header_name c)
          (each-In service (map (λ r. r.service) c.routes) (In-map (λ r. r.service) i)) h in
      let kept = filter-In (of_service service) i (ground arith) in
      (
        target,
        All-at (IsValid world.is_header_name service) kept (
            validate_from-ok world.is_header_name service 0 (filter (of_service service) c.routes)
              valid),
      ))

  service-port :
      (c : Config F) {start taken : Map ℕ Owner} (s : Service)
      → own_ports world c ≡ ok start
      → PortFits c.dynamic_config start taken s.name
      → ServicePort c taken s
  service-port c s h (unset e) = random e
  service-port c s h (fixed p e z free own_p) =
      own p e z (own_ports-reserved world c p h free) own_p

  filter-fits :
      (mode : Bool) (f : Option SubscribeFilter)
      → (elim f as (λ x. Result Invalid (Unit {0})) [
        | none ↦ ok tt
        | some g ↦ fail_if (not mode) Invalid.filter_mode
      ])
        ≡ ok tt
      → FilterFits mode f
  filter-fits mode none h = unfiltered
  filter-fits true (some f) h = filtered refl
  filter-fits false (some f) h = absurd (cc)

  scheme-http :
      (url : String) (scheme : Option String)
      → check_scheme url scheme ≡ ok tt
      → scheme ≡ some "http"
  unfolding check_scheme
  scheme-http url none h = absurd (cc)
  scheme-http url (some s) h = elim (Bool-cases (s == "http")) [
    | inl e ↦ let p : s ≡ "http" = ground arith in rw p refl
    | inr e ↦ elim (Bool-cases (s == "https")) [
      | inl q ↦ absurd (ground arith)
      | inr q ↦ absurd (ground arith)
    ]
  ]

  host-some :
      (url : String) (host : Option String)
      → check_host url host ≡ ok tt
      → (name : String) × (host ≡ some name)
  unfolding check_host
  host-some url none h = absurd (cc)
  host-some url (some name) h = (name, refl)

  not-true : (b : Bool) → not b ≡ false → b ≡ true
  not-true true e = refl
  not-true false e = absurd (cc)

  uri-fits :
      (t : TracingConfig F) (uri : Uri)
      → world.parse_uri t.otlp_endpoint ≡ some uri
      → (check_scheme t.otlp_endpoint uri.scheme
          >> check_host t.otlp_endpoint uri.host
          >> fail_if (not (world.in_unit t.sample_ratio)) BadTracing.bad_ratio)
        ≡ ok tt
      → TracingFits (some t)
  uri-fits t uri e h =
      let scheme = check_scheme t.otlp_endpoint uri.scheme in
      let (first, ratio) = >>-ok (scheme >> check_host t.otlp_endpoint uri.host) h in
      let (http_ok, host_ok) = >>-ok scheme first in
      let (name, host) = host-some t.otlp_endpoint uri.host host_ok in
      traced uri e (scheme-http t.otlp_endpoint uri.scheme http_ok) host
        (not-true (world.in_unit t.sample_ratio) (fail_if-ok _ _ ratio))

  validate_tracing-fits :
      (t : TracingConfig F) → validate_tracing world t ≡ ok tt → TracingFits (some t)
  unfolding validate_tracing
  validate_tracing-fits t h = elim (Option-cases (world.parse_uri t.otlp_endpoint)) [
    | inl e ↦ absurd (ground arith)
    | inr (uri, e) ↦
        let ratio = fail_if (not (world.in_unit t.sample_ratio)) BadTracing.bad_ratio in
        let checks =
          check_scheme t.otlp_endpoint uri.scheme >> check_host t.otlp_endpoint uri.host >> ratio in
        let q : validate_tracing world t ≡ checks = rw (validate_tracing, e) refl in
        uri-fits t uri e (sym q ∙ h)
  ]

  tracing-fits :
      (t : Option (TracingConfig F))
      → (elim t as (λ x. Result Invalid (Unit {0})) [
        | none ↦ ok tt
        | some u ↦ map_err bad_tracing (validate_tracing world u)
      ])
        ≡ ok tt
      → TracingFits t
  tracing-fits none h = untraced
  tracing-fits (some t) h =
      validate_tracing-fits t (map_err-ok bad_tracing (validate_tracing world t) h)

  -- Where `validate` accepts a configuration: group names differ, and so do the instances of each
  -- group; health paths are well formed; every domain has one service that owns it; every route is of
  -- a known HTTP service and valid for it; a fixed local port is not 0, not that of one of the
  -- daemon's own listeners, and has one service that owns it; the tracing endpoint is an http URL with
  -- a host and the ratio is in range; and only a subscribing node has a filter.
  pub validate-WellFormed : (c : Config F) → validate world c ≡ ok tt → WellFormed c
  unfolding validate check_tracing check_filter
  validate-WellFormed c h =
      let dc = c.dynamic_config in
      let (owner, groups, h1) = >>=-ok (check_groups [] dc.service_groups []) h in
      let (routed, h2) =
        >>-ok (check_routed world.is_header_name dc (each (map (λ r. r.service) dc.routes))) h1 in
      let (start, own_ok, h3) = >>=-ok (own_ports world c) h2 in
      let names = map (λ s. s.name) (all_services dc.service_groups) in
      let (taken, ports_ok, h4) = >>=-ok (check_ports dc (each names) start) h3 in
      let (tracing_ok, filter_ok) = >>-ok (check_tracing world c) h4 in
      let g = check_groups-ok [] dc.service_groups [] groups in
      let fits = (check_ports-ok dc (each names) start ports_ok).fits in
      record {
        domain_owner = owner;
        port_owner = taken;
        groups_distinct = g.names_distinct;
        instances_distinct = g.instances_distinct;
        paths = g.paths;
        domains = g.owned;
        routes = routes-fit dc (
            check_routed-ok world.is_header_name dc (each (map (λ r. r.service) dc.routes)) routed);
        ports = All-of (ServicePort c taken) (all_services dc.service_groups) (λ s i.
            service-port c s own_ok (
              All-at (PortFits dc start taken) (each-In s.name names (In-map (λ s. s.name) i))
                fits));
        tracing = tracing-fits c.tracing tracing_ok;
        filter = filter-fits (subscribes c.mode) c.subscribe_filter filter_ok;
      }
