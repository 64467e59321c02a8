-- ===== src/Subscribe/Manager/Starting.antt =====
-- The loop of src/subscribe/mod.rs that starts proxies.
use stouter.Prelude.{
  ℕ, String, true, false, Option, none, some, List, [], ◌∷◌, ◌++◌, Map, map, contains, lookup,
  insert, contains_key, keys, text_dec, nat_key, string_key, ◌≡◌, ◌≢◌, refl, sym, ap, ◌∙◌, arith,
  Bool-cases, Option-cases, inl, inr, ◌⊎◌, lookup-insert,
}
use stouter.Subscribe.Manager.{
  Manager, ProxyHandle, ServiceInfo, DesiredService, Start, listening, refused, died, refresh,
  started, serve_one, same_port,
}
use stouter.Subscribe.Manager.Consistency.{Consistent, service_names}
use stouter.Subscribe.Manager.Entries.{insert-new, lookup-contains, names-append}
use stouter.Subscribe.Proxy.Attempts.{Distinct-snoc}

pub refresh-keys :
    (name : String) (d : DesiredService) (ports : Map String ServiceInfo) (n : String)
    → contains_key n (refresh name d ports) ≡ contains_key n ports
unfolding refresh
refresh-keys name d ports n = elim (Option-cases (lookup name ports)) [
  | inl e ↦ rw (refresh, e) refl
  | inr (info, e) ↦
      rw (refresh, e)
        (elim (text_dec name n) [
          | yes p ↦
              let q : lookup n ports ≡ some info = rw (← p) e in
              ground (
                arith,
                lookup-insert name n (record info { domains = d.domains; meta = d.meta }) ports,
              )
          | no ne ↦ ground (
            arith,
            lookup-insert name n (record info { domains = d.domains; meta = d.meta }) ports,
          )
        ])
]

pub map-snoc {ℓ κ} :
    {A : Type ℓ} {B : Type κ} (f : A → B) (xs : List A) (x : A)
    → map f (xs ++ x ∷ []) ≡ map f xs ++ f x ∷ []
map-snoc f [] x = refl
map-snoc f (y ∷ ys) x = ap (λ r. f y ∷ r) (map-snoc f ys x)

-- A proxy for a new key and a new service.
pub added-Consistent :
    (m m' : Manager) (key : String) (h : ProxyHandle) (info : ServiceInfo)
    → Consistent m
    → lookup key m.proxies ≡ none
    → contains_key h.service_name m.service_ports ≡ false
    → m'.proxies ≡ insert key h m.proxies
    → m'.service_ports ≡ insert h.service_name info m.service_ports
    → Consistent m'
added-Consistent m m' key h info c absent fresh p s =
    let q : m'.proxies ≡ m.proxies ++ (key, h) ∷ [] = p ∙ insert-new key h m.proxies absent in
    let ks : keys m'.proxies ≡ keys m.proxies ++ key ∷ [] =
      ap keys q ∙ map-snoc (λ e. e.0) m.proxies (key, h) in
    let ns : service_names m'.proxies ≡ service_names m.proxies ++ h.service_name ∷ [] =
      ap service_names q ∙ map-snoc (λ e. e.1.service_name) m.proxies (key, h) in
    let new_key : contains key (keys m.proxies) ≡ false =
      ground (arith, lookup-contains key m.proxies) in
    record {
      keys_distinct = rw ks (Distinct-snoc (keys m.proxies) key c.keys_distinct new_key);
      services_distinct = rw ns (
          Distinct-snoc (service_names m.proxies) h.service_name c.services_distinct
            (sym (c.shown h.service_name) ∙ fresh));
      shown = λ n.
          rw (s, q)
            (ground (
              arith,
              c.shown n,
              lookup-insert h.service_name n info m.service_ports,
              names-append (λ h. h.service_name) n m.proxies key h,
            ));
    }

pub same_port_refl : (p : Option ℕ) → same_port p p ≡ true
unfolding same_port
same_port_refl none = refl
same_port_refl (some p) = ground arith

-- What one entry of `desired` does to the manager.
pub data Served (starts : String → Option ℕ → Start) (key : String) (d : DesiredService)
    (m : Manager) : Manager → Type 0 where
  runs :
      {m' : Manager} {h : ProxyHandle}
      → lookup key m.proxies ≡ some h
      → m'.proxies ≡ m.proxies
      → m'.service_ports ≡ refresh h.service_name d m.service_ports
      → Served starts key d m m'
  idle :
      {m' : Manager}
      → m'.proxies ≡ m.proxies
      → m'.service_ports ≡ m.service_ports
      → (contains_key d.name m.service_ports ≡ true)
        ⊎ ((p : ℕ) → starts key d.local_port ≢ listening p)
      → Served starts key d m m'
  begun :
      {m' : Manager} (port : ℕ)
      → lookup key m.proxies ≡ none
      → contains_key d.name m.service_ports ≡ false
      → m'.proxies
        ≡ insert key (record { service_name = d.name; requested_port = d.local_port }) m.proxies
      → m'.service_ports
        ≡ insert d.name (record { port = port; domains = d.domains; meta = d.meta }) m.service_ports
      → Served starts key d m m'

started-Served :
    (starts : String → Option ℕ → Start) (key : String) (d : DesiredService) (m : Manager)
    (outcome : Start)
    → lookup key m.proxies ≡ none
    → contains_key d.name m.service_ports ≡ false
    → starts key d.local_port ≡ outcome
    → Served starts key d m (started key d outcome m)
unfolding started
started-Served starts key d m (listening port) absent fresh e = begun port absent fresh refl refl
started-Served starts key d m (refused error) absent fresh e =
    idle refl refl (inr (λ p q. absurd (cc)))
started-Served starts key d m died absent fresh e = idle refl refl (inr (λ p q. absurd (cc)))

pub serve_one-Served :
    (starts : String → Option ℕ → Start) (key : String) (d : DesiredService) (m : Manager)
    → Served starts key d m (serve_one starts (key, d) m)
unfolding serve_one
serve_one-Served starts key d m = elim (Option-cases (lookup key m.proxies)) [
  | inr (h, e) ↦ rw (serve_one, e) (runs e refl refl)
  | inl e ↦ elim (Bool-cases (contains_key d.name m.service_ports)) [
    | inl t ↦ rw (serve_one, e, t) (idle refl refl (inl t))
    | inr t ↦
        rw (serve_one, e, t) (started-Served starts key d m (starts key d.local_port) e t refl)
  ]
]
