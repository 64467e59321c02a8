-- ===== src/Subscribe/Api/Shown.antt =====
-- What the REST API of src/subscribe/api.rs shows of the proxies of src/subscribe/mod.rs.
use stouter.Prelude.{
  ℕ, String, true, false, Option, some, List, [], ◌∷◌, lookup, contains, ◌==◌, string_key, ◌≡◌,
  refl, arith, Bool-cases, Option-cases, inl, inr,
}
use stouter.Config.Settings.{SubscribeFilter}
use stouter.State.{SharedState}
use stouter.Subscribe.Api.{ServiceReply, missing_name, found, not_found, view, get_service}
use stouter.Subscribe.Manager.{Manager, ServiceInfo, Start, pass}
use stouter.Subscribe.Manager.Consistency.{Consistent, service_names}
use stouter.Subscribe.Manager.Settling.{pass-Settled}

-- What one pass finds: the state of the node and which proxies start.
pub record Round : Type 0 where
  pub state : SharedState
  pub starts : String → Option ℕ → Start

unfoldable pub run_passes : Option SubscribeFilter → List Round → Manager → Manager
unfolding pass
run_passes subscribe_filter [] m = m
run_passes subscribe_filter (r ∷ rounds) m =
    run_passes subscribe_filter rounds (pass r.state subscribe_filter r.starts m)

-- The variables of `manage_proxies` before the first pass.
abbrev pub no_proxies : List String → Manager
no_proxies names = record {
  proxies = [];
  service_ports = [];
  http_proxies = names;
  start_errors = [];
  port_conflicts = [];
}

run_passes-Consistent :
    (subscribe_filter : Option SubscribeFilter) (rounds : List Round) (m : Manager)
    → Consistent m
    → Consistent (run_passes subscribe_filter rounds m)
unfolding run_passes
run_passes-Consistent subscribe_filter [] m c = c
run_passes-Consistent subscribe_filter (r ∷ rounds) m c =
    run_passes-Consistent subscribe_filter rounds (pass r.state subscribe_filter r.starts m)
      (pass-Settled r.state subscribe_filter r.starts m c).consistent

-- The answer for a name: a running proxy's service, or none.
pub data Shown (name : String) (m : Manager) : ServiceReply → Type 0 where
  unnamed : name ≡ "" → Shown name m missing_name
  running :
      (info : ServiceInfo)
      → lookup name m.service_ports ≡ some info
      → contains name (service_names m.proxies) ≡ true
      → Shown name m (found (view name info))
  absent : contains name (service_names m.proxies) ≡ false → Shown name m (not_found name)

get_service-Shown :
    (name : String) (m : Manager) → Consistent m → Shown name m (get_service name m.service_ports)
unfolding get_service
get_service-Shown name m c = elim (Bool-cases (name == "")) [
  | inl t ↦ let p : name ≡ "" = ground arith in rw (get_service, t) (unnamed p)
  | inr t ↦
      let s = c.shown name in
      elim (Option-cases (lookup name m.service_ports)) [
        | inl e ↦ rw (get_service, t, e) (absent (ground arith))
        | inr (info, e) ↦ rw (get_service, t, e) (running info e (ground arith))
      ]
]

no_proxies-Consistent : (names : List String) → Consistent (no_proxies names)
unfolding lookup
no_proxies-Consistent names = record {
  keys_distinct = tt;
  services_distinct = tt;
  shown = λ n. refl;
}

-- After any number of passes, whatever the configurations, the known nodes and the proxies that
-- start: the REST API finds a service by its name exactly if a proxy of that service is running.
pub run_passes-Shown :
    (subscribe_filter : Option SubscribeFilter) (rounds : List Round) (names : List String)
    (name : String)
    → Shown name
        (run_passes subscribe_filter rounds (no_proxies names))
        (get_service name (run_passes subscribe_filter rounds (no_proxies names)).service_ports)
run_passes-Shown subscribe_filter rounds names name =
    get_service-Shown name (run_passes subscribe_filter rounds (no_proxies names)) (
      run_passes-Consistent subscribe_filter rounds (no_proxies names)
        (no_proxies-Consistent names))
