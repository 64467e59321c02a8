-- ===== src/Subscribe/Listener/Dispatching.antt =====
-- The answers of the HTTP listener of src/subscribe/listener.rs, on every branch.
use stouter.Prelude.{
  String, true, false, Option, none, some, List, [], ◌∷◌, ◌++◌, any, find, find-In, find-none,
  filter, ◌==◌, nat_key, string_key, ◌≡◌, arith, Bool-cases, Option-cases, inl, inr, In, here,
  there, In-filter, ◌⊎◌,
}
use stouter.Config.{Service, ServiceGroup, DynamicConfig}
use stouter.Config.Settings.{SubscribeFilter}
use stouter.State.{SharedState}
use stouter.Subscribe.Http.Bytes.{Text}
use stouter.Subscribe.Listener.{
  request_host, is_visible, visible, is_named, has_domain, resolve_service, connect_not_supported,
  missing_host, unknown_service, service_not_http, Dispatch, rejected, proxied, dispatch,
}
use stouter.Subscribe.Proxy.{service_is_http}

-- A service of the configuration that the filter lets through.
pub record Visible (dc : DynamicConfig) (subscribe_filter : Option SubscribeFilter) (s : Service)
    : Type 0 where
  pub group : ServiceGroup
  pub in_config : In group dc.service_groups
  pub in_group : In s group.services
  pub passes : is_visible subscribe_filter group.name s ≡ true

In-append {ℓ} : {A : Type ℓ} (xs ys : List A) {x : A} → In x (xs ++ ys) → In x xs ⊎ In x ys
In-append [] ys i = inr i
In-append (y ∷ xs) ys here = inl here
In-append (y ∷ xs) ys (there i) = elim (In-append xs ys i) [ inl j ↦ inl (there j) | inr j ↦ inr j ]

visible-In :
    (subscribe_filter : Option SubscribeFilter) (gs : List ServiceGroup) {s : Service}
    → In s (visible subscribe_filter gs)
    → (g : ServiceGroup) × In g gs × In s g.services × (is_visible subscribe_filter g.name s ≡ true)
unfolding visible
visible-In subscribe_filter [] i = elim i [ ]
visible-In subscribe_filter (g ∷ gs) i =
    elim (In-append (filter (is_visible subscribe_filter g.name) g.services)
      (visible subscribe_filter gs) i) [
        | inl j ↦
            let (k, e) = In-filter (is_visible subscribe_filter g.name) g.services j in
            (g, here, k, e)
        | inr j ↦ let (h, in_gs, k, e) = visible-In subscribe_filter gs j in (h, there in_gs, k, e)
      ]

in-Visible :
    (dc : DynamicConfig) (subscribe_filter : Option SubscribeFilter) {s : Service}
    → In s (visible subscribe_filter dc.service_groups)
    → Visible dc subscribe_filter s
in-Visible dc subscribe_filter i =
    let (g, in_gs, k, e) = visible-In subscribe_filter dc.service_groups i in
    record { group = g; in_config = in_gs; in_group = k; passes = e }

-- What a host resolves to: a service of that name before one that has it among its domains.
pub data Resolved (host : Text) (dc : DynamicConfig) (subscribe_filter : Option SubscribeFilter)
    : Option String → Type 0 where
  by_name :
      (s : Service)
      → Visible dc subscribe_filter s
      → is_named host s ≡ true
      → Resolved host dc subscribe_filter (some s.name)
  by_domain :
      (s : Service)
      → Visible dc subscribe_filter s
      → has_domain host s ≡ true
      → any (is_named host) (visible subscribe_filter dc.service_groups) ≡ false
      → Resolved host dc subscribe_filter (some s.name)
  unresolved :
      any (is_named host) (visible subscribe_filter dc.service_groups) ≡ false
      → any (has_domain host) (visible subscribe_filter dc.service_groups) ≡ false
      → Resolved host dc subscribe_filter none

resolve_service-Resolved :
    (host : Text) (dc : DynamicConfig) (subscribe_filter : Option SubscribeFilter)
    → Resolved host dc subscribe_filter (resolve_service host dc subscribe_filter)
unfolding resolve_service
resolve_service-Resolved host dc subscribe_filter =
    let services = visible subscribe_filter dc.service_groups in
    elim (Option-cases (find (is_named host) services)) [
      | inr (s, e) ↦
          let (i, t) = find-In (is_named host) services e in
          rw (resolve_service, e) (by_name s (in-Visible dc subscribe_filter i) t)
      | inl e ↦
          let unnamed = find-none (is_named host) services e in
          elim (Option-cases (find (has_domain host) services)) [
            | inr (s, f) ↦
                let (i, t) = find-In (has_domain host) services f in
                rw (resolve_service, e, f)
                  (by_domain s (in-Visible dc subscribe_filter i) t unnamed)
            | inl f ↦
                rw (resolve_service, e, f)
                  (unresolved unnamed (find-none (has_domain host) services f))
          ]
    ]

-- The outcomes of a request to the listener.
pub data Dispatched (method : String) (uri_host header : Option Text)
    (subscribe_filter : Option SubscribeFilter) (state : SharedState) : Dispatch → Type 0 where
  tunnel_asked :
      method ≡ "CONNECT"
      → Dispatched method uri_host header subscribe_filter state
          (rejected 501 connect_not_supported)
  no_host :
      (method == "CONNECT") ≡ false
      → request_host uri_host header ≡ none
      → Dispatched method uri_host header subscribe_filter state (rejected 400 missing_host)
  no_service :
      (host : Text)
      → (method == "CONNECT") ≡ false
      → request_host uri_host header ≡ some host
      → Resolved host state.dynamic_config subscribe_filter none
      → Dispatched method uri_host header subscribe_filter state (rejected 404 unknown_service)
  not_http :
      (host : Text) (service : String)
      → (method == "CONNECT") ≡ false
      → request_host uri_host header ≡ some host
      → Resolved host state.dynamic_config subscribe_filter (some service)
      → service_is_http service state ≡ false
      → Dispatched method uri_host header subscribe_filter state (rejected 501 service_not_http)
  sent_on :
      (host : Text) (service : String)
      → (method == "CONNECT") ≡ false
      → request_host uri_host header ≡ some host
      → Resolved host state.dynamic_config subscribe_filter (some service)
      → service_is_http service state ≡ true
      → Dispatched method uri_host header subscribe_filter state (proxied service)

-- Every request to the listener is answered in one of five ways: 501 for CONNECT, 400 without a
-- host, 404 where no visible service has the host as its name or among its domains, 501 where the
-- service that has it is not HTTP, and else by that service, one of the name before one of the
-- domain.
pub dispatch-Dispatched :
    (method : String) (uri_host header : Option Text) (subscribe_filter : Option SubscribeFilter)
    (state : SharedState)
    → Dispatched method uri_host header subscribe_filter state
        (dispatch method uri_host header subscribe_filter state)
unfolding dispatch
dispatch-Dispatched method uri_host header subscribe_filter state =
    elim (Bool-cases (method == "CONNECT")) [
      | inl t ↦ let p : method ≡ "CONNECT" = ground arith in rw (dispatch, t) (tunnel_asked p)
      | inr t ↦ elim (Option-cases (request_host uri_host header)) [
        | inl e ↦ rw (dispatch, t, e) (no_host t e)
        | inr (host, e) ↦
            let r = resolve_service-Resolved host state.dynamic_config subscribe_filter in
            elim (Option-cases (resolve_service host state.dynamic_config subscribe_filter)) [
              | inl f ↦ rw (dispatch, t, e, f) (no_service host t e (rw f at r))
              | inr (service, f) ↦ elim (Bool-cases (service_is_http service state)) [
                | inl h ↦ rw (dispatch, t, e, f, h) (sent_on host service t e (rw f at r) h)
                | inr h ↦ rw (dispatch, t, e, f, h) (not_http host service t e (rw f at r) h)
              ]
            ]
      ]
    ]
