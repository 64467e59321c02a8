-- ===== src/Subscribe/Http/Serving.antt =====
-- `HttpProxy::attempt` of src/subscribe/http.rs, from a request to its answer.
use stouter.Prelude.{
  ℕ, min, String, true, false, Option, List, Map, is_empty, length, string_key, nat_key, ◌≡◌, ◌&&◌,
}
use stouter.State.{SharedState}
use stouter.Subscribe.Balancer.{Backend, Inner}
use stouter.Subscribe.Proxy.{service_backends, prefer_healthy}
use stouter.Subscribe.Http.{
  RequestBody, error, no_route_backend, HttpWorld, no_attempts, Result, candidates_of, is_routed,
}
use stouter.Subscribe.Http.Endings.{IsServed}

-- The backends that a request can go to.
abbrev pub preferred : ℕ → String → SharedState → Option (Map String String) → List Backend
preferred now name state subset =
    prefer_healthy now (candidates_of (service_backends name state) subset) name state

-- How a request is handled: no instance has the route's labels, or it is served by the attempts.
pub data Handled (w : HttpWorld) (method : String) (now : ℕ) (name : String) (state : SharedState)
    (subset : Option (Map String String)) (body : RequestBody) : Result → Type 0 where
  no_subset :
      (s : Inner)
      → is_routed subset ≡ true
      → is_empty (candidates_of (service_backends name state) subset) ≡ true
      → Handled w method now name state subset body ((error 503 no_route_backend, s), no_attempts)
  served :
      {r : Result}
      → (is_empty (candidates_of (service_backends name state) subset) && is_routed subset) ≡ false
      → IsServed w method body
          (preferred now name state subset)
          (min (length (preferred now name state subset)) 3)
          r.0.0
          r.0.1
          r.1
      → Handled w method now name state subset body r
