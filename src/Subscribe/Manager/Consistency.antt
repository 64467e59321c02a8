-- ===== src/Subscribe/Manager/Consistency.antt =====
-- The invariant of the running proxies of src/subscribe/mod.rs, and the loop that stops proxies.
use stouter.Prelude.{
  String, true, false, not, none, some, List, [], ◌∷◌, Map, map, filter, contains, lookup, remove,
  contains_key, keys, text_dec, ◌==◌, string_key, ◌≡◌, refl, arith, Distinct, Distinct-map-filter,
  Bool-cases, Option-cases, inl, inr, In, lookup-remove, In-filter, filter-In, In-map, contains-In,
  All, All-of,
}
use stouter.Subscribe.Manager.{
  Manager, ProxyHandle, DesiredService, stop_proxy, stop_all, is_obsolete, obsolete_keys,
}
use stouter.Subscribe.Manager.Entries.{remove-filter, lookup-contains, names, names-remove}

abbrev pub service_names : Map String ProxyHandle → List String
service_names = names (λ h. h.service_name)

-- No two proxies have a key or a service in common, and the REST API shows a port for exactly the
-- services that have a proxy.
pub record Consistent (m : Manager) : Type 0 where
  pub keys_distinct : Distinct (keys m.proxies)
  pub services_distinct : Distinct (service_names m.proxies)
  pub shown : (n : String) → contains_key n m.service_ports ≡ contains n (service_names m.proxies)

remove-Distinct :
    (f : String × ProxyHandle → String) (k : String) (ps : Map String ProxyHandle)
    → Distinct (map f ps)
    → Distinct (map f (remove k ps))
remove-Distinct f k ps d =
    rw (remove-filter k ps) (Distinct-map-filter f (λ e. not (e.0 == k)) ps d)

stop-shown :
    (m : Manager) (key : String) {h : ProxyHandle}
    → Consistent m
    → lookup key m.proxies ≡ some h
    → (n : String)
    → contains_key n (remove h.service_name m.service_ports)
      ≡ contains n (service_names (remove key m.proxies))
stop-shown m key {h} c e n = ground (
  arith,
  lookup-remove h.service_name n m.service_ports,
  names-remove (λ h. h.service_name) key n m.proxies {v = h} c.keys_distinct c.services_distinct e,
  c.shown n,
)

stop_proxy-Consistent : (key : String) (m : Manager) → Consistent m → Consistent (stop_proxy key m)
unfolding stop_proxy
stop_proxy-Consistent key m c = elim (Option-cases (lookup key m.proxies)) [
  | inl e ↦ rw (stop_proxy, e) c
  | inr (h, e) ↦
      rw (stop_proxy, e)
        (record {
          keys_distinct = remove-Distinct (λ e. e.0) key m.proxies c.keys_distinct;
          services_distinct =
              remove-Distinct (λ e. e.1.service_name) key m.proxies c.services_distinct;
          shown = stop-shown m key c e;
        })
]

pub stop_all-Consistent :
    (removed : List String) (m : Manager) → Consistent m → Consistent (stop_all removed m)
unfolding stop_all
stop_all-Consistent [] m c = c
stop_all-Consistent (key ∷ rest) m c =
    stop_all-Consistent rest (stop_proxy key m) (stop_proxy-Consistent key m c)

-- A key of an entry is not missing.
In-key :
    (e : String × ProxyHandle) (m : Map String ProxyHandle) (key : String)
    → In e m
    → lookup key m ≡ none
    → (e.0 == key) ≡ false
In-key e m key i q = elim (text_dec e.0 key) [
  | yes p ↦
      let c : contains key (keys m) ≡ true = rw (← p) (contains-In e.0 (In-map (λ e. e.0) i)) in
      let l = lookup-contains key m in absurd (ground arith)
  | no n ↦ ground arith
]

stop_proxy-In :
    (key : String) (m : Manager) {e : String × ProxyHandle}
    → In e (stop_proxy key m).proxies
    → In e m.proxies × ((e.0 == key) ≡ false)
unfolding stop_proxy
stop_proxy-In key m {e} i = elim (Option-cases (lookup key m.proxies)) [
  | inl q ↦
      let same : (stop_proxy key m).proxies ≡ m.proxies = rw (stop_proxy, q) refl in
      let j : In e m.proxies = rw same at i in (j, In-key e m.proxies key j q)
  | inr (h, q) ↦
      let gone : (stop_proxy key m).proxies ≡ filter (λ e. not (e.0 == key)) m.proxies =
        rw (stop_proxy, q) (remove-filter key m.proxies) in
      let (j, t) = In-filter (λ e. not (e.0 == key)) m.proxies (rw gone at i) in (j, ground arith)
]

pub stop_all-In :
    (removed : List String) (m : Manager) {e : String × ProxyHandle}
    → In e (stop_all removed m).proxies
    → In e m.proxies × (contains e.0 removed ≡ false)
unfolding stop_all
stop_all-In [] m i = (i, refl)
stop_all-In (key ∷ rest) m i =
    let (j, t) = stop_all-In rest (stop_proxy key m) i in
    let (k, u) = stop_proxy-In key m j in (k, ground arith)

-- The proxies that are left are wanted.
pub obsolete-stopped :
    (desired : Map String DesiredService) (m : Manager)
    → All
        (λ e. is_obsolete desired e ≡ false)
        (stop_all (obsolete_keys desired m.proxies) m).proxies
unfolding obsolete_keys
obsolete-stopped desired m =
    All-of (λ e. is_obsolete desired e ≡ false)
      (stop_all (obsolete_keys desired m.proxies) m).proxies
      (λ e i.
        let (j, t) = stop_all-In (obsolete_keys desired m.proxies) m i in
        elim (Bool-cases (is_obsolete desired e)) [
          | inl o ↦
              let c = contains-In e.0 (In-map (λ e. e.0) (filter-In (is_obsolete desired) j o)) in
              absurd (ground arith)
          | inr o ↦ o
        ])
