-- ===== src/Config/Domains.antt =====
-- What the checks of groups, services and domains in `Config::validate` of src/config.rs establish.
use stouter.Prelude.{
  String, false, Option, none, some, List, [], ◌∷◌, Map, map, contains, lookup, insert,
  lookup-insert, ◌==◌, string_key, if◌then◌else◌, Result, ok, err, ◌≡◌, refl, arith, All, All-map,
  All-append, Distinct, Bool-cases, inl, inr, ◌⊎◌, >>-ok, >>=-ok, fail_if_then-ok, fresh-cons,
}
use stouter.Config.{Service, ServiceGroup, Reason}
use stouter.Config.Routes.{all_services, validate_health_path}
use stouter.Config.Validation.{
  Invalid, bad_health_path, domain_claimed, map_err, check_path, check_domains, check_services,
  check_groups,
}
use stouter.State.{instance_key}

pub map_err-ok {ℓ κ μ} :
    {E : Type ℓ} {D : Type κ} {A : Type μ} (f : E → D) (m : Result E A) {a : A}
    → map_err f m ≡ ok a
    → m ≡ ok a
map_err-ok f (ok b) h = cc
map_err-ok f (err e) h = absurd (cc)

-- What one map holds, the other holds.
abbrev pub Persist : Map String String → Map String String → Type 0
Persist m m' = (d n : String) → lookup d m ≡ some n → lookup d m' ≡ some n

abbrev pub Owned : Map String String → Service → Type 0
Owned owner s = All (λ d. lookup d owner ≡ some s.name) s.domains

abbrev pub CleanPath : Option String → Type 0
CleanPath none = Unit
CleanPath (some path) = validate_health_path path ≡ ok tt

abbrev pub HasPath : Service → Type 0
HasPath s = CleanPath s.health_path

insert-Persist :
    (d name : String) (m : Map String String)
    → (lookup d m ≡ none) ⊎ (lookup d m ≡ some name)
    → Persist m (insert d name m)
insert-Persist d name m (inl e) x n h = ground (arith, lookup-insert d x name m)
insert-Persist d name m (inr e) x n h = ground (arith, lookup-insert d x name m)

-- A domain is free, or its owner's; else the loop ends.
unclaimed :
    (o : Option String) (name : String) (f : String → Invalid)
    {rest : Result Invalid (Map String String)} {m : Map String String}
    → (elim o [ none ↦ rest | some owner ↦ if owner == name then rest else err (f owner) ]) ≡ ok m
    → ((o ≡ none) ⊎ (o ≡ some name)) × (rest ≡ ok m)
unclaimed none name f h = (inl refl, h)
unclaimed (some owner) name f h = elim (Bool-cases (owner == name)) [
  | inl e ↦ let p : owner ≡ name = ground arith in (inr (rw p refl), ground arith)
  | inr e ↦ absurd (ground arith)
]

check_domains-ok :
    (group name : String) (ds : List String) (m : Map String String) {m' : Map String String}
    → check_domains group name ds m ≡ ok m'
    → Persist m m' × All (λ d. lookup d m' ≡ some name) ds
unfolding check_domains
check_domains-ok group name [] m {m'} h = let e : m ≡ m' = cc in rw e (λ d n p. p, tt)
check_domains-ok group name (d ∷ ds) m {m'} h =
    let (free, rest) = unclaimed (lookup d m) name (λ owner. domain_claimed d owner group name) h in
    let (keep, all_of) = check_domains-ok group name ds (insert d name m) rest in
    (
      λ x n e. keep x n (insert-Persist d name m free x n e),
      (keep d name (ground (arith, lookup-insert d d name m)), all_of),
    )

abbrev pub instances : List Service → List (String × String)
instances = map (λ s. (s.node_id, s.name))

Owned-Persist :
    (m m' : Map String String)
    → Persist m m'
    → (ss : List Service) → All (Owned m) ss
    → All (Owned m') ss
Owned-Persist m m' keep ss h =
    All-map (Owned m) (Owned m') ss
      (λ s o.
        All-map (λ d. lookup d m ≡ some s.name) (λ d. lookup d m' ≡ some s.name) s.domains
          (λ d e. keep d s.name e) o)
      h

path-ok :
    (o : Option String) (f : Reason → Invalid)
    → (elim o as (λ x. Result Invalid (Unit {0})) [
      | none ↦ ok tt
      | some path ↦ map_err f (validate_health_path path)
    ])
      ≡ ok tt
    → CleanPath o
path-ok none f h = tt
path-ok (some path) f h = map_err-ok f (validate_health_path path) h

check_path-ok : (group : String) (s : Service) → check_path group s ≡ ok tt → HasPath s
unfolding check_path
check_path-ok group s h = path-ok s.health_path (bad_health_path s group) h

record ServicesOk (m m' : Map String String) (seen : List (String × String)) (ss : List Service)
    : Type 0 where
  keep : Persist m m'
  owned : All (Owned m') ss
  paths : All HasPath ss
  distinct : Distinct (instances ss)
  fresh : All (λ k. contains k seen ≡ false) (instances ss)

check_services-ok :
    (group : String) (seen : List (String × String)) (ss : List Service) (m : Map String String)
    {m' : Map String String}
    → check_services group seen ss m ≡ ok m'
    → ServicesOk m m' seen ss
unfolding check_services
check_services-ok group seen [] m {m'} h =
    let e : m ≡ m' = cc in
    record { keep = rw e (λ d n p. p); owned = tt; paths = tt; distinct = tt; fresh = tt }
check_services-ok group seen (s ∷ ss) m {m'} h =
    let (new, h1) = fail_if_then-ok (contains (s.node_id, s.name) seen) _ _ h in
    let (path, h2) = >>-ok (check_path group s) h1 in
    let (owner, h3, h4) = >>=-ok (check_domains group s.name s.domains m) h2 in
    let (keep, own) = check_domains-ok group s.name s.domains m h3 in
    let rest = check_services-ok group ((s.node_id, s.name) ∷ seen) ss owner h4 in
    let (unlike, fresh) = fresh-cons (s.node_id, s.name) seen (instances ss) rest.fresh in
    record {
      keep = λ d n e. rest.keep d n (keep d n e);
      owned = (
        All-map (λ d. lookup d owner ≡ some s.name) (λ d. lookup d m' ≡ some s.name) s.domains
            (λ d e. rest.keep d s.name e) own,
        rest.owned,
      );
      paths = (check_path-ok group s path, rest.paths);
      distinct = (unlike, rest.distinct);
      fresh = (new, fresh);
    }

pub record GroupsOk (m m' : Map String String) (seen : List String) (gs : List ServiceGroup)
    : Type 0 where
  pub keep : Persist m m'
  pub owned : All (Owned m') (all_services gs)
  pub paths : All HasPath (all_services gs)
  pub instances_distinct : All (λ g. Distinct (instances g.services)) gs
  pub names_distinct : Distinct (map (λ g. g.name) gs)
  pub fresh : All (λ k. contains k seen ≡ false) (map (λ g. g.name) gs)

pub check_groups-ok :
    (seen : List String) (gs : List ServiceGroup) (m : Map String String) {m' : Map String String}
    → check_groups seen gs m ≡ ok m'
    → GroupsOk m m' seen gs
unfolding check_groups all_services
check_groups-ok seen [] m {m'} h =
    let e : m ≡ m' = cc in
    record {
      keep = rw e (λ d n p. p);
      owned = tt;
      paths = tt;
      instances_distinct = tt;
      names_distinct = tt;
      fresh = tt;
    }
check_groups-ok seen (g ∷ gs) m {m'} h =
    let (new, h1) = fail_if_then-ok (contains g.name seen) _ _ h in
    let (owner, h2, h3) = >>=-ok (check_services g.name [] g.services m) h1 in
    let here_ok = check_services-ok g.name [] g.services m h2 in
    let rest = check_groups-ok (g.name ∷ seen) gs owner h3 in
    let (unlike, fresh) = fresh-cons g.name seen (map (λ g. g.name) gs) rest.fresh in
    record {
      keep = λ d n e. rest.keep d n (here_ok.keep d n e);
      owned =
          All-append (Owned m') g.services (all_services gs)
            (Owned-Persist owner m' rest.keep g.services here_ok.owned) rest.owned;
      paths = All-append HasPath g.services (all_services gs) here_ok.paths rest.paths;
      instances_distinct = (here_ok.distinct, rest.instances_distinct);
      names_distinct = (unlike, rest.names_distinct);
      fresh = (new, fresh);
    }
