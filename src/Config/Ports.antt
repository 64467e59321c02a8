-- ===== src/Config/Ports.antt =====
-- `local_port_for` of src/config.rs: the fixed local port of a service, by its instances.
use stouter.Prelude.{
  ℕ, String, true, false, ◌||◌, Option, none, some, List, [], ◌∷◌, filter, leb, contains, ◌==◌,
  string_key, nat_key, if◌then◌else◌, Result, ok, err, ◌≡◌, refl, arith, ap, sym, ◌∙◌,
}
use stouter.Config.{Service, DynamicConfig, Reason, local_ports_differ}
use stouter.Config.Routes.{all_services}

-- `filter_map(|s| s.local_port)`
unfoldable pub set_ports : List Service → List ℕ
set_ports [] = []
set_ports (s ∷ ss) = elim s.local_port [ none ↦ set_ports ss | some p ↦ p ∷ set_ports ss ]

unfoldable pub ports_of : DynamicConfig → String → List ℕ
unfolding set_ports all_services
ports_of c service = set_ports (filter (λ s. s.name == service) (all_services c.service_groups))

-- `ports.sort_unstable()`
unfoldable pub insert_port : ℕ → List ℕ → List ℕ
insert_port p [] = p ∷ []
insert_port p (q ∷ qs) = let rest = insert_port p qs in if leb p q then p ∷ q ∷ qs else q ∷ rest

unfoldable pub sort_ports : List ℕ → List ℕ
unfolding insert_port
sort_ports [] = []
sort_ports (p ∷ ps) = insert_port p (sort_ports ps)

-- `ports.dedup()`: one of each run of equal elements.
unfoldable pub dedup : List ℕ → List ℕ
dedup [] = []
dedup (p ∷ []) = p ∷ []
dedup (p ∷ q ∷ qs) = let rest = dedup (q ∷ qs) in if p == q then rest else p ∷ rest

unfoldable pub port_of : String → List ℕ → Result Reason (Option ℕ)
port_of service [] = ok none
port_of service (p ∷ []) = ok (some p)
port_of service (p ∷ q ∷ more) = err (local_ports_differ service (p ∷ q ∷ more))

unfoldable pub local_port_for : DynamicConfig → String → Result Reason (Option ℕ)
unfolding ports_of sort_ports dedup port_of
local_port_for c service = port_of service (dedup (sort_ports (ports_of c service)))

contains-insert_port :
    (a p : ℕ) (ps : List ℕ) → contains a (insert_port p ps) ≡ ((a == p) || contains a ps)
unfolding insert_port
contains-insert_port a p [] = refl
contains-insert_port a p (q ∷ qs) = ground (arith, contains-insert_port a p qs)

contains-sort_ports : (a : ℕ) (ps : List ℕ) → contains a (sort_ports ps) ≡ contains a ps
unfolding sort_ports
contains-sort_ports a [] = refl
contains-sort_ports a (p ∷ ps) =
    ground (arith, contains-sort_ports a ps, contains-insert_port a p (sort_ports ps))

contains-dedup : (a : ℕ) (ps : List ℕ) → contains a (dedup ps) ≡ contains a ps
unfolding dedup
contains-dedup a [] = refl
contains-dedup a (p ∷ []) = refl
contains-dedup a (p ∷ q ∷ qs) = ground (arith, contains-dedup a (q ∷ qs))

dedup-head : (p : ℕ) (ps : List ℕ) {q : ℕ} {more : List ℕ} → dedup (p ∷ ps) ≡ q ∷ more → p ≡ q
unfolding dedup
dedup-head p [] h = ground arith
dedup-head p (q ∷ qs) {q = r} {more} h = ground (arith, dedup-head q qs {q = r} {more = more})

dedup-ne : (ps : List ℕ) {p q : ℕ} {more : List ℕ} → dedup ps ≡ p ∷ q ∷ more → (p == q) ≡ false
unfolding dedup
dedup-ne [] h = absurd (cc)
dedup-ne (p ∷ []) h = absurd (ground arith)
dedup-ne (a ∷ b ∷ qs) {p} {q} {more} h =
    ground (
      arith,
      dedup-ne (b ∷ qs) {p = p} {q = q} {more = more},
      dedup-head b qs {q = q} {more = more},
    )

-- The outcomes, by the ports that the instances set.
pub data PortOutcome (c : DynamicConfig) (service : String) : Type 0 where
  unset :
      local_port_for c service ≡ ok none
      → ((a : ℕ) → contains a (ports_of c service) ≡ false)
      → PortOutcome c service
  fixed :
      (p : ℕ)
      → local_port_for c service ≡ ok (some p)
      → ((a : ℕ) → contains a (ports_of c service) ≡ (a == p))
      → PortOutcome c service
  differing :
      (p q : ℕ) (more : List ℕ)
      → local_port_for c service ≡ err (local_ports_differ service (p ∷ q ∷ more))
      → (p == q) ≡ false
      → contains p (ports_of c service) ≡ true
      → contains q (ports_of c service) ≡ true
      → PortOutcome c service

contains-ports :
    (c : DynamicConfig) (service : String) (a : ℕ)
    → contains a (dedup (sort_ports (ports_of c service))) ≡ contains a (ports_of c service)
contains-ports c service a =
    contains-dedup a (sort_ports (ports_of c service)) ∙ contains-sort_ports a (ports_of c service)

-- A service has a fixed local port exactly where its instances set one port and no other, none
-- where none sets one, and an error where two that differ are set.
pub local_port_for-Outcome : (c : DynamicConfig) (service : String) → PortOutcome c service
unfolding local_port_for port_of
local_port_for-Outcome c service = by_ports (dedup (sort_ports (ports_of c service))) refl
  where
    by_ports : (ps : List ℕ) → dedup (sort_ports (ports_of c service)) ≡ ps → PortOutcome c service
    by_ports [] e =
        unset (ap (port_of service) e) (λ a. sym (contains-ports c service a) ∙ ap (contains a) e)
    by_ports (p ∷ []) e =
        fixed p (ap (port_of service) e)
          (λ a. ground (arith, contains-ports c service a, ap (contains a) e))
    by_ports (p ∷ q ∷ more) e =
        differing p q more (ap (port_of service) e) (dedup-ne (sort_ports (ports_of c service)) e)
          (ground (arith, contains-ports c service p, ap (contains p) e))
          (ground (arith, contains-ports c service q, ap (contains q) e))
