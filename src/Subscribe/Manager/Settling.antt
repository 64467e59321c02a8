-- ===== src/Subscribe/Manager/Settling.antt =====
-- What a pass of `manage_proxies` of src/subscribe/mod.rs leaves behind.
use stouter.Prelude.{
  ℕ, String, Bool, true, false, not, ◌&&◌, Option, none, some, List, [], ◌∷◌, ◌++◌, Map, contains,
  lookup, insert, contains_key, keys, nat_key, string_key, if◌then◌else◌, ◌≡◌, refl, sym, ap, ◌∙◌,
  arith, Distinct, Option-cases, inl, inr, All, All-map, ok, err, Result,
}
use stouter.Config.{Service, ServiceGroup, Reason}
use stouter.Config.Ports.{local_port_for}
use stouter.Config.Settings.{SubscribeFilter}
use stouter.State.{SharedState}
use stouter.Subscribe.Manager.{
  Manager, ProxyHandle, DesiredService, Start, is_obsolete, same_port, desire, desire_services,
  desire_groups, obsolete_keys, pass, key_of, Desired, is_skipped, add_desired,
}
use stouter.Subscribe.Manager.Consistency.{Consistent, stop_all-Consistent, obsolete-stopped}
use stouter.Subscribe.Manager.Entries.{insert-new, lookup-contains}
use stouter.Subscribe.Manager.Passes.{Outcome, serve_all-Step}
use stouter.Subscribe.Manager.Starting.{map-snoc}
use stouter.Subscribe.Proxy.Attempts.{Distinct-snoc}

insert-Distinct :
    (k : String) (d : DesiredService) (m : Map String DesiredService)
    → Distinct (keys m)
    → contains_key k m ≡ false
    → Distinct (keys (insert k d m))
insert-Distinct k d m distinct new =
    let absent : lookup k m ≡ none = elim (Option-cases (lookup k m)) [
      | inl e ↦ e
      | inr (v, e) ↦ absurd (ground arith)
    ] in
    let ks : keys (insert k d m) ≡ keys m ++ k ∷ [] =
      ap keys (insert-new k d m absent) ∙ map-snoc (λ e. e.0) m (k, d) in
    rw ks (Distinct-snoc (keys m) k distinct (sym (lookup-contains k m) ∙ new))

add_desired-Distinct :
    (key : String) (svc : Service) (r : Result Reason (Option ℕ)) (d : Desired)
    → Distinct (keys d.0)
    → contains_key key d.0 ≡ false
    → Distinct (keys (add_desired key svc r d).0)
unfolding add_desired
add_desired-Distinct key svc (ok port) d distinct new = insert-Distinct key _ d.0 distinct new
add_desired-Distinct key svc (err e) d distinct new = insert-Distinct key _ d.0 distinct new

unskipped :
    (skip known seen : Bool) (added d : Desired)
    → Distinct (keys d.0)
    → (seen ≡ false → Distinct (keys added.0))
    → Distinct (keys (if skip then d else if known && not seen then added else d).0)
unskipped true known seen added d h f = h
unskipped false false seen added d h f = h
unskipped false true true added d h f = h
unskipped false true false added d h f = f refl

module _ (state : SharedState) (subscribe_filter : Option SubscribeFilter) where
  desire-Distinct :
      (group : String) (svc : Service) (d : Desired)
      → Distinct (keys d.0)
      → Distinct (keys (desire state subscribe_filter group svc d).0)
  unfolding desire
  desire-Distinct group svc d distinct =
      let key = key_of group svc in
      unskipped (is_skipped state subscribe_filter group svc)
        (contains_key svc.node_id state.known_nodes) (contains_key key d.0)
        (add_desired key svc (local_port_for state.dynamic_config svc.name) d) d distinct
        (add_desired-Distinct key svc (local_port_for state.dynamic_config svc.name) d distinct)

  services-Distinct :
      (group : String) (services : List Service) (d : Desired)
      → Distinct (keys d.0)
      → Distinct (keys (desire_services state subscribe_filter group services d).0)
  unfolding desire_services
  services-Distinct group [] d distinct = distinct
  services-Distinct group (svc ∷ services) d distinct =
      services-Distinct group services (desire state subscribe_filter group svc d)
        (desire-Distinct group svc d distinct)

  groups-Distinct :
      (gs : List ServiceGroup) (d : Desired)
      → Distinct (keys d.0)
      → Distinct (keys (desire_groups state subscribe_filter gs d).0)
  unfolding desire_groups
  groups-Distinct [] d distinct = distinct
  groups-Distinct (g ∷ gs) d distinct =
      groups-Distinct gs (desire_services state subscribe_filter g.name g.services d)
        (services-Distinct g.name g.services d distinct)

-- Entries with other keys are found behind a new one.
later-Found :
    (k : String) (v : DesiredService) (m es : Map String DesiredService)
    → contains k (keys es) ≡ false
    → All (λ e. lookup e.0 m ≡ some e.1) es
    → All (λ e. lookup e.0 ((k, v) ∷ m) ≡ some e.1) es
unfolding lookup
later-Found k v m [] new f = tt
later-Found k v m (e ∷ es) new f =
    let first = f.0 in (ground arith, later-Found k v m es (ground arith) f.1)

-- Entries with distinct keys are found.
entries-Found :
    (m : Map String DesiredService) → Distinct (keys m) → All (λ e. lookup e.0 m ≡ some e.1) m
unfolding lookup
entries-Found [] d = tt
entries-Found (e ∷ m) d = (ground arith, later-Found e.0 e.1 m m d.0 (entries-Found m d.1))

same_port-eq : (p q : Option ℕ) → same_port p q ≡ true → p ≡ q
unfolding same_port
same_port-eq none none h = refl
same_port-eq none (some q) h = absurd (cc)
same_port-eq (some p) none h = absurd (cc)
same_port-eq (some p) (some q) h = ground arith

-- A proxy that is wanted, on the port that is wanted.
abbrev pub Wanted : Map String DesiredService → String × ProxyHandle → Type 0
Wanted desired e =
    (d : DesiredService) × (lookup e.0 desired ≡ some d) × (d.local_port ≡ e.1.requested_port)

fitting-Wanted :
    (desired : Map String DesiredService) (e : String × ProxyHandle)
    → is_obsolete desired e ≡ false
    → Wanted desired e
unfolding is_obsolete
fitting-Wanted desired e h = elim (Option-cases (lookup e.0 desired)) [
  | inl q ↦ absurd (ground arith)
  | inr (d, q) ↦ (d, q, same_port-eq d.local_port e.1.requested_port (ground arith))
]

pub record Settled (state : SharedState) (subscribe_filter : Option SubscribeFilter)
    (starts : String → Option ℕ → Start) (m m' : Manager) : Type 0 where
  pub consistent : Consistent m'
  pub wanted :
      All
        (Wanted
          (desire_groups state subscribe_filter state.dynamic_config.service_groups
            ([], m.port_conflicts)).0)
        m'.proxies
  pub outcomes :
      All
        (Outcome starts m')
        (desire_groups state subscribe_filter state.dynamic_config.service_groups
          ([], m.port_conflicts)).0

-- From any state in which keys and services of the proxies are distinct and the API shows exactly
-- their services, one pass leads to such a state again, in which every proxy is wanted with the port
-- it was started for, and every desired service has a proxy, or its name belongs to another one, or
-- its proxy does not start.
pub pass-Settled :
    (state : SharedState) (subscribe_filter : Option SubscribeFilter)
    (starts : String → Option ℕ → Start) (m : Manager)
    → Consistent m
    → Settled state subscribe_filter starts m (pass state subscribe_filter starts m)
unfolding pass
pass-Settled state subscribe_filter starts m c =
    let groups = state.dynamic_config.service_groups in
    let d = desire_groups state subscribe_filter groups ([], m.port_conflicts) in
    let s = stop_all-Consistent (obsolete_keys d.0 m.proxies) m c in
    let step =
      serve_all-Step starts d.0 d.0 _
        (entries-Found d.0
          (groups-Distinct state subscribe_filter groups ([], m.port_conflicts) tt))
        (record {
          keys_distinct = s.keys_distinct;
          services_distinct = s.services_distinct;
          shown = s.shown;
        })
        (obsolete-stopped d.0 m) in
    record {
      consistent = step.consistent;
      wanted =
          All-map (λ e. is_obsolete d.0 e ≡ false) (Wanted d.0)
            (pass state subscribe_filter starts m).proxies (fitting-Wanted d.0) step.fitting;
      outcomes = step.outcomes;
    }
